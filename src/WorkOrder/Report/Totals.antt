-- ===== src/WorkOrder/Report/Totals.antt =====
-- The order's total against those of its operations (mes-backend/src/services/WorkOrderService.cc).
use mes_cpp.Base.{
  subst, sym, ℕ, Bool, true, false, ◌≡◌, refl, ◌≢◌, inl, inr, some, List, [], ◌∷◌, ◌==◌, ◌&&◌,
  if◌then◌else◌, arith, Bool-cases, ℤ, pos, ◌+ℤ◌, eqb_ℤ, +ℤ_assoc, +ℤ_right_comm, All, All-any_row,
  All-find_row, All-mono, Distinct, Distinct-update_rows, find_row, any_row, update_rows,
  update_rows-none,
}
use mes_cpp.WorkOrder.StateMachine.{in_progress}
use mes_cpp.WorkOrder.Store.{Order, Operation, Db, Env, end_txn_ok_keeps}
use mes_cpp.WorkOrder.Report.{
  ReportBody, Quantities, op_matches, report_operation, order_matches, report_order,
  report_operations, report_hit, report,
}
use mes_cpp.WorkOrder.Report.Late.{Rolled, diagnose-Late, refused-Late}
use mes_cpp.WorkOrder.Report.Frame.{report_cases}

-- What the operations of an order have completed together.
unfoldable pub sum_completed : ℕ → List Operation → ℤ
sum_completed id [] = pos 0
sum_completed id (op ∷ ops) =
    let rest = sum_completed id ops in
    if op.work_order_id == id then op.completed_qty +ℤ rest else rest

abbrev pub same_step : Operation → Operation → Bool
same_step a b = a.work_order_id == b.work_order_id && eqb_ℤ a.step_seq b.step_seq

abbrev pub same_order : Order → Order → Bool
same_order a b = a.id == b.id

-- An order has one row, a step of an order has one row, and each total is the sum of its parts.
pub record Inv (db : Db) : Type 0 where
  pub steps_distinct : Distinct same_step db.operations
  pub orders_distinct : Distinct same_order db.orders
  pub totals : All (λ o. o.completed_qty ≡ sum_completed o.id db.operations) db.orders

module _ (env : Env) (id : ℕ) (q : Quantities) where
  abbrev pub reported_ops : List Operation → List Operation
  reported_ops = update_rows (op_matches id q) (report_operation env q)

  sum-reported_other :
      (k : ℕ) (ops : List Operation)
      → k ≢ id
      → sum_completed k (reported_ops ops) ≡ sum_completed k ops
  unfolding sum_completed update_rows
  sum-reported_other k [] h = refl
  sum-reported_other k (op ∷ ops) h = ground (arith, sum-reported_other k ops h)

  no_second :
      (op : Operation) (ops : List Operation)
      → op_matches id q op ≡ true
      → All (λ y. same_step op y ≡ false) ops
      → any_row (op_matches id q) ops ≡ false
  no_second op ops h d = All-any_row (op_matches id q) ops (All-mono ops (λ y e. ground arith) d)

  pub sum-reported :
      (ops : List Operation)
      → Distinct same_step ops
      → any_row (op_matches id q) ops ≡ true
      → sum_completed id (reported_ops ops) ≡ sum_completed id ops +ℤ q.delta
  unfolding sum_completed update_rows any_row
  sum-reported [] d h = cc
  sum-reported (op ∷ ops) d h = elim (Bool-cases (op_matches id q op)) [
    | inl hit ↦
        rw
          (
            hit,
            update_rows-none (op_matches id q) (report_operation env q) ops
                (no_second op ops hit d.0),
          )
          (ground (arith, +ℤ_right_comm op.completed_qty q.delta (sum_completed id ops)))
    | inr miss ↦
        ground
          (arith, sum-reported ops d.1, +ℤ_assoc op.completed_qty (sum_completed id ops) q.delta)
  ]

  -- With one row for each order, the row that the outer UPDATE finds is the only one it could miss.
  others_in_progress :
      (os : List Order) (o : Order)
      → Distinct same_order os
      → find_row (order_matches id) os ≡ some o
      → All (λ x. x.id ≡ id → x.status ≡ in_progress) os
  unfolding find_row
  others_in_progress [] o d h = tt
  others_in_progress (x ∷ xs) o d h = elim (Bool-cases (x.id == id)) [
    | inl same ↦ (
      λ _.
          ground
            (arith, All-find_row (order_matches id) xs (All-mono xs (λ y e. ground arith) d.0)),
      All-mono xs (λ y e k. ground arith) d.0,
    )
    | inr other ↦ (λ e. ground arith, others_in_progress xs o d.1 (ground arith))
  ]

  totals-reported :
      (ops : List Operation) (os : List Order)
      → sum_completed id (reported_ops ops) ≡ sum_completed id ops +ℤ q.delta
      → All (λ x. x.id ≡ id → x.status ≡ in_progress) os
      → All (λ o. o.completed_qty ≡ sum_completed o.id ops) os
      → All
          (λ o. o.completed_qty ≡ sum_completed o.id (reported_ops ops))
          (update_rows (order_matches id) (report_order env q) os)
  unfolding update_rows
  totals-reported ops [] e p t = tt
  totals-reported ops (o ∷ os) e p t =
      (ground (arith, p.0, sum-reported_other o.id ops, e, t.0), totals-reported ops os e p.1 t.1)

module _ (env : Env) (id : ℕ) where
  report_operations-Distinct :
      (q : Quantities) (db : Db)
      → Distinct same_step db.operations
      → Distinct same_step (report_operations env id q db).operations
  report_operations-Distinct q db =
      Distinct-update_rows (op_matches id q) same_step (report_operation env q) (λ x y. refl)
        (λ x y. refl) db.operations

  hit-Inv :
      (q : Quantities) (o : Order) (db : Db)
      → Inv db
      → any_row (op_matches id q) db.operations ≡ true
      → find_row (order_matches id) db.orders ≡ some o
      → Inv (report_hit env id q o (report_operations env id q db)).0
  unfolding report_hit
  hit-Inv q o db v found e = record {
    steps_distinct = report_operations-Distinct q db v.steps_distinct;
    orders_distinct =
        Distinct-update_rows (order_matches id) same_order (report_order env q) (λ x y. refl)
          (λ x y. refl) db.orders v.orders_distinct;
    totals =
        totals-reported env id q db.operations db.orders
          (sum-reported env id q db.operations v.steps_distinct found)
          (others_in_progress env id q db.orders o v.orders_distinct e) v.totals;
  }

  -- Where a refusal after the inner UPDATE is rolled back, a report keeps each order's total the sum of
  -- what its operations have completed, whether it is accepted or refused and whether COMMIT succeeds.
  pub report-Inv :
      (body : ReportBody) (db : Db)
      → env.dropped db db ≡ db
      → Rolled env id db (report env id body db).1
      → Inv db
      → Inv (report env id body db).0
  unfolding report_hit
  report-Inv body db same rolled v =
      report_cases (λ r. Rolled env id db r.1 → Inv r.0) env id db body (λ e _. v)
        (λ e _. rw same v)
        (λ q e _ _ missed answer back.
          subst Inv (sym (back q (refused-Late e _ (diagnose-Late env id q db missed) answer))) v)
        (λ q o _ _ found e _. end_txn_ok_keeps Inv env db _ _ v (hit-Inv q o db v found e)) rolled
