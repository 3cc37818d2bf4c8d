-- ===== src/WorkOrder/Report/Outcome.antt =====
-- What a report answers and sends, and where it departs from its comments
-- (mes-backend/src/services/WorkOrderService.cc, utils/ReportRules.hh, common/SqlParam.hh).
use mathlib.Core.Option.{get_or}
use mes_cpp.Base.{
  ◌≢◌, refl, ap, ◌⊎◌, inl, inr, Bool-cases, All, Distinct, leb_ℤ, ℕ, ◌+◌, ◌-◌, ◌<◌, ◌≤◌, true,
  false, ◌≡◌, some, none, List, [], ◌∷◌, ◌++◌, arith, if◌then◌else◌, pos, ◌+ℤ◌, ltb_ℤ, find_row,
  any_row, update_rows, int_half, int_modulus, add_int,
}
use mes_cpp.WorkOrder.StateMachine.{in_progress, completed}
use mes_cpp.WorkOrder.Rules.{total_delta}
use mes_cpp.WorkOrder.Store.{
  Order, Db, ok, err, order_not_found, not_in_progress, Env, end_txn, is_order,
}
use mes_cpp.WorkOrder.Report.{
  ReportBody, Quantities, Reported, check_report, op_matches, order_matches, report_order,
  report_operations, report, stop_row, gate_blocks, report_txn, diagnose,
}
use mes_cpp.WorkOrder.Report.Late.{matches_after, diagnose-Late}
use mes_cpp.WorkOrder.Report.Frame.{Outcome}
use mes_cpp.WorkOrder.Report.Totals.{same_step, sum_completed, sum-reported}
use mes_cpp.WorkOrder.Report.Gate.{PassesGate}

module _ (env : Env) (id : ℕ) (body : ReportBody) (db : Db) where
  -- What an accepted report says of the order that it found, and of the body's own step and quantities.
  pub record Accepted (out : Outcome) (r : Reported) : Type 0 where
    pub order : Order
    pub found : find_row (order_matches id) db.orders ≡ some order
    pub gate : PassesGate id (get_or body.step_seq (pos 0)) db
    pub reported :
        r.reported
        ≡ total_delta
            (get_or body.good_qty (pos 0))
            (get_or body.defect_qty (pos 0))
            (get_or body.scrap_qty (pos 0))
    pub finished : r.finished ≡ leb_ℤ order.plan_qty (order.completed_qty +ℤ r.reported)
    pub status : r.status ≡ (if r.finished then completed else in_progress)
    pub outbox :
        out.0.outbox ≡ (if r.finished then db.outbox ++ stop_row env order ∷ [] else db.outbox)

  not_found :
      (os : List Order)
      → All (λ o. o.id ≡ id → o.status ≢ in_progress) os
      → find_row (order_matches id) os ≡ none
  unfolding find_row
  not_found [] h = refl
  not_found (o ∷ os) h = elim (Bool-cases (order_matches id o)) [
    | inl e ↦ absurd (h.0 (ground arith) (ground arith))
    | inr e ↦ rw e (not_found os h.1)
  ]

  refused_lem :
      (q : Quantities)
      → ((a b : Db) → env.dropped a b ≡ b)
      → check_report body ≡ ok q
      → gate_blocks id q.step db ≡ false
      → any_row (op_matches id q) db.operations ≡ true
      → find_row (order_matches id) db.orders ≡ none
      → report env id body db
        ≡ (report_operations env id q db, err (diagnose id q (report_operations env id q db)))
  unfolding report report_txn end_txn
  refused_lem q commits checked unblocked found missing =
      ground (arith, commits db (report_operations env id q db))

  -- Where a dropped transaction is committed and a step of an order has one row, a report that passes
  -- the checks and the gate and finds a step with room, but no order of the number in progress, is
  -- refused, since the order is not found or not in progress; and yet, with the rows of the orders as
  -- they were, what the order's operations have completed together has grown by the refused quantity.
  pub report_refused_but_counted :
      (q : Quantities)
      → ((a b : Db) → env.dropped a b ≡ b)
      → Distinct same_step db.operations
      → check_report body ≡ ok q
      → gate_blocks id q.step db ≡ false
      → any_row (op_matches id q) db.operations ≡ true
      → All (λ o. o.id ≡ id → o.status ≢ in_progress) db.orders
      → (((report env id body db).1 ≡ err order_not_found)
          ⊎ ((report env id body db).1 ≡ err not_in_progress))
        × ((report env id body db).0.orders ≡ db.orders)
        × (sum_completed id (report env id body db).0.operations
            ≡ sum_completed id db.operations +ℤ q.delta)
  report_refused_but_counted q commits distinct checked unblocked found nowhere =
      let run = refused_lem q commits checked unblocked found (not_found db.orders nowhere) in
      rw run (
        elim (diagnose-Late env id q db (not_found db.orders nowhere)) [
          | inl e ↦ inl (ap (λ x. err x) e)
          | inr e ↦ inr (ap (λ x. err x) e)
        ],
        refl,
        sum-reported env id q db.operations distinct found,
      )

  found_after :
      (q : Quantities) (os : List Order) (o : Order)
      → find_row (is_order id) os ≡ some o
      → o.status ≡ in_progress
      → find_row (is_order id) (update_rows (order_matches id) (report_order env q) os)
        ≡ some (report_order env q o)
  unfolding find_row update_rows
  found_after q [] o e s = cc
  found_after q (x ∷ xs) o e s = ground (arith, found_after q xs o)

  -- The order's own plan is no limit: where the commit succeeds, a report that passes the checks and
  -- the gate on a step that has room, and that takes the total of an order in progress beyond the
  -- order's plan, leaves the order completed with that total.
  pub report_beyond_plan :
      (q : Quantities) (o : Order)
      → env.committed ≡ true
      → check_report body ≡ ok q
      → gate_blocks id q.step db ≡ false
      → any_row (op_matches id q) db.operations ≡ true
      → find_row (is_order id) db.orders ≡ some o
      → o.status ≡ in_progress
      → ltb_ℤ o.plan_qty (o.completed_qty +ℤ q.delta) ≡ true
      → (o' : Order) × (find_row (is_order id) (report env id body db).0.orders ≡ some o')
        × (o'.status ≡ completed)
        × (ltb_ℤ o'.plan_qty o'.completed_qty ≡ true)
  unfolding report report_txn end_txn
  report_beyond_plan q o committed checked unblocked found e s beyond = (
    report_order env q o,
    ground (arith, matches_after id db.orders o e s, found_after q db.orders o e s),
    ground arith,
    ground arith,
  )

-- Three quantities of `int` whose sum reaches 2^32 are taken for the sum less 2^32.
pub total_delta-wraps :
    (g d s : ℕ)
    → g < int_half
    → d < int_half
    → s < int_half
    → int_modulus ≤ g + d + s
    → total_delta (pos g) (pos d) (pos s) ≡ pos (g + d + s - int_modulus)
unfolding total_delta add_int
total_delta-wraps g d s hg hd hs h = ground arith
