-- ===== src/WorkOrder/Report/Frame.antt =====
-- The ways in which a report can end.
use mes_cpp.Base.{
  ℕ, true, false, ◌≡◌, refl, ◌⊎◌, inl, inr, none, some, Bool-cases, Option-cases, find_row, any_row,
}
use mes_cpp.WorkOrder.Store.{
  Order, Db, Error, inspection_required, Result, ok, err, Env, end_txn, end_txn-err,
}
use mes_cpp.WorkOrder.Report.{
  ReportBody, Quantities, Reported, check_report, op_matches, order_matches, report_operations,
  diagnose, gate_blocks, report_hit, report_order_row, report_statement, report_txn, report,
}

pub Result-cases {ℓ} :
    {A : Type ℓ} (r : Result A) → ((e : Error) × (r ≡ err e)) ⊎ ((a : A) × (r ≡ ok a))
Result-cases (ok a) = inr (a, refl)
Result-cases (err e) = inl (e, refl)

abbrev pub Outcome : Type 0
Outcome = Db × Result Reported

module _ (env : Env) (id : ℕ) (q : Quantities) (db : Db) where
  order_row-none :
      find_row (order_matches id) db.orders ≡ none
      → report_order_row env id q db ≡ (db, err (diagnose id q db))
  unfolding report_order_row
  order_row-none e = rw (e, report_order_row)

  order_row-some :
      (o : Order)
      → find_row (order_matches id) db.orders ≡ some o
      → report_order_row env id q db ≡ report_hit env id q o db
  unfolding report_order_row
  order_row-some o e = rw (e, report_order_row)

  statement-found :
      any_row (op_matches id q) db.operations ≡ true
      → report_statement env id q db ≡ report_order_row env id q (report_operations env id q db)
  unfolding report_statement
  statement-found e = rw e

  statement-none :
      any_row (op_matches id q) db.operations ≡ false
      → report_statement env id q db ≡ (db, err (diagnose id q db))
  unfolding report_statement
  statement-none e = rw e

  txn-shut :
      gate_blocks id q.step db ≡ true → report_txn env id q db ≡ (db, err inspection_required)
  unfolding report_txn
  txn-shut e = rw e

  txn-open :
      gate_blocks id q.step db ≡ false → report_txn env id q db ≡ report_statement env id q db
  unfolding report_txn
  txn-open e = rw e

module _ {ℓ} (P : Outcome → Type ℓ) (env : Env) (id : ℕ) (db : Db) where
  order_row_cases :
      (q : Quantities) (working : Db)
      → ((e : Error)
          → find_row (order_matches id) working.orders ≡ none
          → e ≡ diagnose id q working
          → P (env.dropped db working, err e))
      → ((o : Order)
          → find_row (order_matches id) working.orders ≡ some o
          → P (end_txn env db (report_hit env id q o working)))
      → P (end_txn env db (report_order_row env id q working))
  order_row_cases q working missed hit =
      elim (Option-cases (find_row (order_matches id) working.orders)) [
        | inl e ↦ rw (order_row-none env id q working e, end_txn-err) (missed _ e refl)
        | inr (o, e) ↦ rw (order_row-some env id q working o e) (hit o e)
      ]

  txn_cases :
      (q : Quantities)
      → ((e : Error) → P (env.dropped db db, err e))
      → ((e : Error)
          → any_row (op_matches id q) db.operations ≡ true
          → find_row (order_matches id) db.orders ≡ none
          → e ≡ diagnose id q (report_operations env id q db)
          → P (env.dropped db (report_operations env id q db), err e))
      → ((o : Order)
          → gate_blocks id q.step db ≡ false
          → any_row (op_matches id q) db.operations ≡ true
          → find_row (order_matches id) db.orders ≡ some o
          → P (end_txn env db (report_hit env id q o (report_operations env id q db))))
      → P (end_txn env db (report_txn env id q db))
  txn_cases q refused missed hit = elim (Bool-cases (gate_blocks id q.step db)) [
    | inl shut ↦ rw (txn-shut env id q db shut, end_txn-err) (refused _)
    | inr unblocked ↦ elim (Bool-cases (any_row (op_matches id q) db.operations)) [
      | inl found ↦
          rw (txn-open env id q db unblocked, statement-found env id q db found)
            (order_row_cases q (report_operations env id q db) (λ e. missed e found)
              (λ o. hit o unblocked found))
      | inr nothing ↦
          rw (txn-open env id q db unblocked, statement-none env id q db nothing, end_txn-err)
            (refused _)
    ]
  ]

  -- A report is refused with the tables untouched, or its inner UPDATE ran and its outer one
  -- found no order, or both ran and COMMIT decides.
  pub report_cases :
      (body : ReportBody)
      → ((e : Error) → P (db, err e))
      → ((e : Error) → P (env.dropped db db, err e))
      → ((q : Quantities) (e : Error)
          → check_report body ≡ ok q
          → any_row (op_matches id q) db.operations ≡ true
          → find_row (order_matches id) db.orders ≡ none
          → e ≡ diagnose id q (report_operations env id q db)
          → P (env.dropped db (report_operations env id q db), err e))
      → ((q : Quantities) (o : Order)
          → check_report body ≡ ok q
          → gate_blocks id q.step db ≡ false
          → any_row (op_matches id q) db.operations ≡ true
          → find_row (order_matches id) db.orders ≡ some o
          → P (end_txn env db (report_hit env id q o (report_operations env id q db))))
      → P (report env id body db)
  unfolding report
  report_cases body invalid refused missed hit = elim (Result-cases (check_report body)) [
    | inl (e, h) ↦ rw (h, report) (invalid e)
    | inr (q, h) ↦ rw (h, report) (txn_cases q refused (λ e. missed q e h) (λ o. hit q o h))
  ]
