-- ===== src/WorkOrder/Transit.antt =====
-- Status changes on request: `transit` of mes-backend/src/services/WorkOrderService.cc.
pub mod Frame
use text.Mathlib.Text.{◌==◌ as str_eq}
use mes_cpp.Base.{
  ℕ, Bool, true, false, ◌&&◌, Option, none, some, if◌then◌else◌, String, ℤ, pos, negsuc, eqb_ℤ,
  find_row, update_rows,
}
use mes_cpp.WorkOrder.StateMachine.{
  Event, schedule, release, start, pause, complete, close, cancel, next,
}
use mes_cpp.WorkOrder.Store.{
  Order, Db, unknown_action, order_not_found, illegal_transition, Result, ok, err, Env, end_txn,
  is_order, coalesce,
}

unfoldable pub action_to_event : String → Result Event
action_to_event action =
    if str_eq action "schedule"
    then ok schedule
    else if str_eq action "release"
    then ok release
    else if str_eq action "start"
    then ok start
    else if str_eq action "pause"
    then ok pause
    else if str_eq action "complete"
    then ok complete
    else if str_eq action "close"
    then ok close
    else if str_eq action "cancel"
    then ok cancel
    else err unknown_action

abbrev pub is_start : Event → Bool
is_start start = true
is_start _ = false

abbrev pub ends_work : Event → Bool
ends_work complete = true
ends_work close = true
ends_work _ = false

-- The UPDATE of `transit`, with the columns of `extra`.
abbrev pub set_status : Env → Event → ℕ → ℤ → Order → Order
set_status env event to completed_qty o = record o {
  status = to;
  actual_start_at =
      if is_start event && eqb_ℤ completed_qty (pos 0) then some env.now else o.actual_start_at;
  actual_end_at = if ends_work event then coalesce o.actual_end_at env.now else o.actual_end_at;
  updated_at = env.now;
}

unfoldable pub transit_row : Env → ℕ → Event → Order → Db → Db × Result ℕ
transit_row env id event row db = elim (next row.status event) [
  | negsuc n ↦ (db, err illegal_transition)
  | pos to ↦ (
    record db {
      orders = update_rows (is_order id) (set_status env event to row.completed_qty) db.orders;
    },
    ok to,
  )
]

unfoldable pub transit_txn : Env → ℕ → Event → Db → Db × Result ℕ
transit_txn env id event db = elim (find_row (is_order id) db.orders) [
  | none ↦ (db, err order_not_found)
  | some row ↦ transit_row env id event row db
]

unfoldable pub transit : Env → ℕ → String → Db → Db × Result ℕ
transit env id action db = elim (action_to_event action) [
  | err e ↦ (db, err e)
  | ok event ↦ end_txn env db (transit_txn env id event db)
]
