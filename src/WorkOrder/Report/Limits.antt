-- ===== src/WorkOrder/Report/Limits.antt =====
-- Plans are not exceeded by their operations; those of the orders may be
-- (mes-backend/src/services/WorkOrderService.cc, utils/ReportRules.hh).
use mes_cpp.Base.{ℕ, true, ◌≡◌, refl, ◌⊎◌, inl, inr, arith, ◌≤ℤ◌, All, All-update_rows}
use mes_cpp.WorkOrder.Store.{Operation, Db, Error, err, Env, end_txn, end_txn_keeps}
use mes_cpp.WorkOrder.Report.{
  ReportBody, Quantities, op_matches, report_operation, report_operations, report_hit, report,
}
use mes_cpp.WorkOrder.Report.Frame.{report_cases}

abbrev pub IsWithinPlan : Operation → Type 0
IsWithinPlan op = op.completed_qty ≤ℤ op.plan_qty

abbrev pub AllWithinPlan : Db → Type 0
AllWithinPlan db = All IsWithinPlan db.operations

reported-IsWithinPlan :
    (env : Env) (id : ℕ) (q : Quantities) (op : Operation)
    → op_matches id q op ≡ true
    → IsWithinPlan op
    → IsWithinPlan (report_operation env q op)
reported-IsWithinPlan env id q op m h = ground arith

module _ (env : Env) (id : ℕ) (body : ReportBody) (db : Db) where
  operations-AllWithinPlan :
      (q : Quantities) → AllWithinPlan db → AllWithinPlan (report_operations env id q db)
  operations-AllWithinPlan q v =
      All-update_rows (op_matches id q) (report_operation env q) db.operations
        (reported-IsWithinPlan env id q) v

  -- If no operation is beyond its plan, none is after a report, accepted or refused, where a dropped
  -- transaction is either rolled back or committed.
  pub report-AllWithinPlan :
      ((a b : Db) → (env.dropped a b ≡ a) ⊎ (env.dropped a b ≡ b))
      → AllWithinPlan db
      → AllWithinPlan (report env id body db).0
  unfolding report_hit
  report-AllWithinPlan dropped v =
      report_cases (λ r. AllWithinPlan r.0) env id db body (λ e. v) (λ e. either db v)
        (λ q e _ _ _ _. either _ (operations-AllWithinPlan q v))
        (λ q o _ _ _ _.
          end_txn_keeps AllWithinPlan env db _ v (either _ (operations-AllWithinPlan q v))
            (operations-AllWithinPlan q v))
    where
      either : (b : Db) → AllWithinPlan b → AllWithinPlan (env.dropped db b)
      either b w = elim (dropped db b) [ inl e ↦ rw e v | inr e ↦ rw e w ]

  -- An error leaves the tables as they were, if a dropped transaction is rolled back.
  pub report_error_unchanged :
      ((a b : Db) → env.dropped a b ≡ a)
      → (e : Error) → (report env id body db).1 ≡ err e
      → (report env id body db).0 ≡ db
  unfolding report_hit end_txn
  report_error_unchanged rollback e =
      report_cases (λ r. r.1 ≡ err e → r.0 ≡ db) env id db body (λ _ _. refl)
        (λ _ _. rollback db db) (λ q _ _ _ _ _ _. rollback db _) (λ q o _ _ _ _ h. ground arith)
