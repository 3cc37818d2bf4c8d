-- ===== src/WorkOrder/Orders/Effects.antt =====
-- The ways in which `create` and `update` can end
-- (mes-backend/src/services/WorkOrderService.cc).
use mathlib.Core.Option.{get_or}
use mes_cpp.Base.{
  ℕ, suc, ◌≡◌, refl, ◌∙◌, inl, inr, true, false, some, List, [], ◌∷◌, ◌++◌, ◌||◌, Bool-cases,
  Option-cases, arith, ℤ, pos, ltb_ℤ, leb_ℤ, find_row, update_rows, ltb,
}
use mathlib.Core.List.{append_assoc, append-nil}
use mes_cpp.WorkOrder.StateMachine.{scheduled}
use mes_cpp.WorkOrder.Store.{
  Order, Operation, ProcessStep, Db, Error, Result, ok, err, Env, end_txn, end_txn-err, is_order,
}
use mes_cpp.WorkOrder.Orders.{
  CreateBody, UpdateBody, process_of, steps_of, new_operation, insert_operations, insert_order,
  create_rows, create_txn, create, is_empty, set_fields, sync_operations, update_row, update_txn,
  update,
}
use mes_cpp.WorkOrder.Report.Frame.{Result-cases}

-- The operations that the loop of `create` inserts.
unfoldable pub new_operations : ℕ → ℕ → ℤ → List ProcessStep → List Operation
new_operations id order plan [] = []
new_operations id order plan (s ∷ ss) =
    new_operation id order plan s ∷ new_operations (suc id) order plan ss

pub insert_operations_lem :
    (order : ℕ) (plan : ℤ) (ss : List ProcessStep) (db : Db)
    → (insert_operations order plan ss db).operations
      ≡ db.operations ++ new_operations db.next_operation_id order plan ss
unfolding insert_operations new_operations
insert_operations_lem order plan [] db = rw append-nil
insert_operations_lem order plan (s ∷ ss) db =
    insert_operations_lem order plan ss _ ∙ append_assoc db.operations _ _

-- The loop touches nothing else but the sequence of its keys.
pub insert_operations_rest :
    (order : ℕ) (plan : ℤ) (ss : List ProcessStep) (db : Db)
    → let db' = insert_operations order plan ss db in
      (db'.orders ≡ db.orders)
      × (db'.steps ≡ db.steps)
      × (db'.next_order_id ≡ db.next_order_id)
      × (db'.outbox ≡ db.outbox)
unfolding insert_operations
insert_operations_rest order plan [] db = (refl, refl, refl, refl)
insert_operations_rest order plan (s ∷ ss) db = insert_operations_rest order plan ss _

module _ {ℓ} (P : Db × Result ℕ → Type ℓ) (env : Env) (db : Db) where
  rows_cases :
      (body : CreateBody) (product process plan : ℤ) (ss : List ProcessStep)
      → ((e : Error) → P (env.dropped db db, err e))
      → P (
          end_txn env db (
            insert_operations db.next_order_id plan ss
                (insert_order env body product process plan db),
            ok db.next_order_id,
          ))
      → P (end_txn env db (create_rows env body product process plan ss db))
  unfolding create_rows
  rows_cases body product process plan [] refused done = rw end_txn-err (refused _)
  rows_cases body product process plan (s ∷ ss) refused done = done

  create_txn_cases :
      (body : CreateBody) (product plan : ℤ)
      → ((e : Error) → P (env.dropped db db, err e))
      → ((process : ℤ)
          → P (
              end_txn env db (
                insert_operations db.next_order_id plan
                    (steps_of process db)
                    (insert_order env body product process plan db),
                ok db.next_order_id,
              )))
      → P (end_txn env db (create_txn env body product plan db))
  unfolding create_txn
  create_txn_cases body product plan refused done =
      elim (Result-cases (process_of (get_or body.process_id (pos 0)) product db)) [
        | inl (e, h) ↦ rw (h, create_txn, end_txn-err) (refused _)
        | inr (process, h) ↦
            rw (h, create_txn)
              (rows_cases body product process plan (steps_of process db) refused (done process))
      ]

  -- A creation is refused, or adds an order with a positive plan and the operations of a process.
  pub create_cases :
      (body : CreateBody)
      → ((e : Error) → P (db, err e))
      → ((e : Error) → P (env.dropped db db, err e))
      → ((product process plan : ℤ)
          → ltb_ℤ (pos 0) plan ≡ true
          → P (
              end_txn env db (
                insert_operations db.next_order_id plan
                    (steps_of process db)
                    (insert_order env body product process plan db),
                ok db.next_order_id,
              )))
      → P (create env body db)
  unfolding create
  create_cases body invalid refused done =
      elim (Bool-cases (
        leb_ℤ (get_or body.product_id (pos 0)) (pos 0)
        || leb_ℤ (get_or body.plan_qty (pos 0)) (pos 0))) [
          | inl bad ↦ rw bad (invalid _)
          | inr good ↦ rw good (
              create_txn_cases body (get_or body.product_id (pos 0)) (get_or body.plan_qty (pos 0))
                refused (λ process. done _ process _ (ground arith)))
        ]

  abbrev pub updated : ℕ → UpdateBody → Db
  updated id b = record db {
    orders = update_rows (is_order id) (set_fields env b) db.orders;
    operations = sync_operations id b.plan_qty db.operations;
  }

  update_row_cases :
      (id : ℕ) (b : UpdateBody) (row : Order)
      → ((e : Error) → P (env.dropped db db, err e))
      → (ltb scheduled row.status ≡ false → P (end_txn env db (updated id b, ok id)))
      → P (end_txn env db (update_row env id b row db))
  unfolding update_row
  update_row_cases id b row refused done = elim (Bool-cases (ltb scheduled row.status)) [
    | inl late ↦ rw (late, end_txn-err) (refused _)
    | inr early ↦ elim (Bool-cases (is_empty b)) [
      | inl nothing ↦ rw (early, nothing, end_txn-err) (refused _)
      | inr some_ ↦ rw (early, some_) (done early)
    ]
  ]

  -- A change is refused, or sets the fields of an order that is not released yet.
  pub update_cases :
      (id : ℕ) (b : UpdateBody)
      → ((e : Error) → P (env.dropped db db, err e))
      → ((row : Order)
          → find_row (is_order id) db.orders ≡ some row
          → ltb scheduled row.status ≡ false
          → P (end_txn env db (updated id b, ok id)))
      → P (update env id b db)
  unfolding update update_txn
  update_cases id b refused done = elim (Option-cases (find_row (is_order id) db.orders)) [
    | inl e ↦ rw (e, update_txn, end_txn-err) (refused _)
    | inr (row, e) ↦ rw (e, update_txn) (update_row_cases id b row refused (done row e))
  ]
