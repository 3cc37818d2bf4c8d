-- ===== src/WorkOrder/Transit/Frame.antt =====
-- What a requested status change does (mes-backend/src/services/WorkOrderService.cc).
use mes_cpp.Base.{ℕ, ◌≡◌, inl, inr, some, String, Option-cases, find_row, update_rows}
use mes_cpp.WorkOrder.StateMachine.{Event}
use mes_cpp.WorkOrder.StateMachine.Spec.{Allowed, next-Allowed, next-total}
use mes_cpp.WorkOrder.Store.{Order, Db, Error, Result, ok, err, Env, end_txn, end_txn-err, is_order}
use mes_cpp.WorkOrder.Transit.{action_to_event, set_status, transit_row, transit_txn, transit}
use mes_cpp.WorkOrder.Report.Frame.{Result-cases}

module _ {ℓ} (P : Db × Result ℕ → Type ℓ) (env : Env) (id : ℕ) (db : Db) where
  abbrev moved : Event → ℕ → Order → Db
  moved event to row = record db {
    orders = update_rows (is_order id) (set_status env event to row.completed_qty) db.orders;
  }

  row_cases :
      (event : Event) (row : Order)
      → ((e : Error) → P (env.dropped db db, err e))
      → ((to : ℕ) → Allowed row.status event to → P (end_txn env db (moved event to row, ok to)))
      → P (end_txn env db (transit_row env id event row db))
  unfolding transit_row
  row_cases event row refused done = elim (next-total row.status event) [
    | inl e ↦ rw (e, transit_row, end_txn-err) (refused _)
    | inr (to, e) ↦ rw (e, transit_row) (done to (next-Allowed row.status event to e))
  ]

  txn_cases :
      (event : Event)
      → ((e : Error) → P (env.dropped db db, err e))
      → ((row : Order) (to : ℕ)
          → find_row (is_order id) db.orders ≡ some row
          → Allowed row.status event to
          → P (end_txn env db (moved event to row, ok to)))
      → P (end_txn env db (transit_txn env id event db))
  unfolding transit_txn
  txn_cases event refused done = elim (Option-cases (find_row (is_order id) db.orders)) [
    | inl e ↦ rw (e, transit_txn, end_txn-err) (refused _)
    | inr (row, e) ↦ rw (e, transit_txn) (row_cases event row refused (λ to. done row to e))
  ]

  -- A request is refused with the tables untouched, or moves the order along an allowed change,
  -- and COMMIT decides.
  pub transit_cases :
      (action : String)
      → ((e : Error) → P (db, err e))
      → ((e : Error) → P (env.dropped db db, err e))
      → ((event : Event) (row : Order) (to : ℕ)
          → action_to_event action ≡ ok event
          → find_row (is_order id) db.orders ≡ some row
          → Allowed row.status event to
          → P (end_txn env db (moved event to row, ok to)))
      → P (transit env id action db)
  unfolding transit
  transit_cases action invalid refused done = elim (Result-cases (action_to_event action)) [
    | inl (e, h) ↦ rw (h, transit) (invalid e)
    | inr (event, h) ↦ rw (h, transit) (txn_cases event refused (λ row to. done event row to h))
  ]
