-- ===== src/Integration/Saga.antt =====
-- The report of a completed order to the ERP and the WMS: `reportCompletionSaga` of
-- mes-backend/src/services/IntegrationService.cc.
pub mod Messages
pub mod Steps
pub mod Outcome
pub mod Stuck
use Prim.Native.String.{◌++◌ as concat}
use mathlib.Core.Option.{get_or}
use mes_cpp.Base.{
  ℕ, suc, Bool, true, false, not, Option, none, some, List, [], ◌∷◌, ◌++◌, String, ◌==◌,
  if◌then◌else◌, ℤ, pos, find_row, any_row, update_rows, ◌&&◌, codes,
}
use mes_cpp.Breaker.{Limits, Breaker}
use mes_cpp.WorkOrder.StateMachine.{in_progress, completed}
use mes_cpp.WorkOrder.Store.{Order, OutboxRow, Db, is_order, coalesce}
use mes_cpp.Integration.Urls.{post_url}
use mes_cpp.Integration.Logs.{
  SyncLogs, order_not_found, not_in_progress, status_changed, not_configured, statement_failed,
  Result, ok, err, write_log, fail_external,
}
use mes_cpp.Integration.Call.{
  ApiConfig, Fault, no_fault, ExtResult, Attempt, Method, post, Called, call_external,
}

-- integ_wms_inventory
pub record Inventory : Type 0 where
  pub material_code : String
  pub quantity : ℤ
  pub status : String
  pub sync_type : ℕ
  pub work_order_id : ℕ

-- The tables and the two breakers.
pub record World : Type 0 where
  pub db : Db
  pub logs : SyncLogs
  pub inventory : List Inventory
  pub erp_breaker : Breaker
  pub wms_breaker : Breaker

-- What a saga takes from its surroundings: the time, whether COMMIT succeeds, what others do to the tables
-- between T1 and what follows, the configurations that `loadConfig` finds, what comes of the attempts of the
-- three calls, and whether the statements succeed.
pub record Env : Type 0 where
  pub now : ℕ
  -- the steady clock's times at the starts of the three calls
  pub report_at : ℕ
  pub stock_in_at : ℕ
  pub cancel_at : ℕ
  pub limits : Limits
  pub committed : Bool
  pub meanwhile : Db → Db
  pub erp_config : Option ApiConfig
  pub wms_config : Option ApiConfig
  pub erp_report : ℕ → Attempt
  pub wms_stock_in : ℕ → Attempt
  pub erp_cancel : ℕ → Attempt
  pub rollback_runs : Bool
  pub inventory_written : Bool
  pub erp_log_written : Bool
  pub wms_log_written : Bool
  pub product_code : Order → String
  -- the texts of the payloads to the ERP and the WMS
  pub erp_payload : Order → String
  pub wms_payload : Order → String

-- A message that a call sent, by how often.
pub record Told : Type 0 where
  pub system_type : String
  pub path : String
  pub times : ℕ
  pub accepted : Bool

-- T1
abbrev pub can_complete : ℕ → Order → Bool
can_complete id o = o.id == id && o.status == in_progress

abbrev pub complete_row : ℕ → Order → Order
complete_row now o = record o {
  status = completed;
  actual_end_at = coalesce o.actual_end_at now;
  updated_at = now;
}

abbrev pub stop_row : ℕ → ℕ → Order → OutboxRow
stop_row now id row = record {
  exchange = "iot.exchange";
  routing_key = "cmd.stop_collection";
  payload = record {
    version = "1.0";
    kind = "stop_collection";
    work_order_id = id;
    work_order_no = row.work_order_no;
    product_id = get_or row.product_id (pos 0);
    timestamp = now;
  };
}

-- The tables when the transaction of T1 has ended; the answer of `commitAwait` is not looked at.
unfoldable pub complete_order : Env → ℕ → Order → Db → Db
complete_order env id row db =
    if env.committed
    then record db {
      orders = update_rows (can_complete id) (complete_row env.now) db.orders;
      outbox = db.outbox ++ stop_row env.now id row ∷ [];
    }
    else db

-- `rollbackT1`; a failure is only logged.
abbrev pub reopen_row : ℕ → Order → Order
reopen_row now o = record o { status = in_progress; updated_at = now }

unfoldable pub rollback_t1 : Env → ℕ → World → World
rollback_t1 env id w =
    if env.rollback_runs
    then record w {
      db = record (w.db) { orders = update_rows (is_order id) (reopen_row env.now) w.db.orders };
    }
    else w

abbrev pub report_path : Order → String
report_path row = concat "/erp/work-orders/" (concat row.work_order_no "/completion-report")

abbrev pub cancel_path : Order → String
cancel_path row = concat "/erp/work-orders/" (concat row.work_order_no "/report-cancel")

abbrev pub told : String → String → Called → Told
told system path c = record {
  system_type = system;
  path = path;
  times = c.sent;
  accepted = c.result.ok;
}

-- T4
abbrev pub stocked : Env → ℕ → Order → World → World
stocked env id row w = record w {
  inventory =
      w.inventory
      ++ record {
        material_code = env.product_code row;
        quantity = row.completed_qty;
        status = "INBOUND";
        sync_type = 2;
        work_order_id = id;
      }
        ∷ [];
}

abbrev pub erp_logged : Env → ℕ → Order → ExtResult → SyncLogs → SyncLogs
erp_logged env id row t2 =
    write_log "ERP" 2 "completion_report" (pos id) (post_url (codes (report_path row)))
      (env.erp_payload row) t2 true no_fault

abbrev pub wms_logged : Env → ℕ → Order → ExtResult → SyncLogs → SyncLogs
wms_logged env id row t3 =
    write_log "WMS" 2 "stock_in" (pos id) (post_url (codes "/wms/stock-in")) (env.wms_payload row)
      t3 true no_fault

unfoldable pub settle : Env → ℕ → Order → ExtResult → ExtResult → World → World × Result ℕ
settle env id row t2 t3 w =
    let stock = stocked env id row w in
    let reported = record stock { logs = erp_logged env id row t2 stock.logs } in
    if not env.inventory_written
    then (w, err statement_failed)
    else if not env.erp_log_written
    then (stock, err statement_failed)
    else if not env.wms_log_written
    then (reported, err statement_failed)
    else (record reported { logs = wms_logged env id row t3 reported.logs }, ok w.logs.next_id)

-- The end of a saga: the world, the answer, and what the outer systems were told.
pub record Ended : Type 0 where
  pub world : World
  pub result : Result ℕ
  pub messages : List Told

abbrev pub ends : List Told → World × Result ℕ → Ended
ends told (w, r) = record { world = w; result = r; messages = told }

-- `failExternal` at the end of a saga.
abbrev pub ends_failed : List Told → World → SyncLogs × Result ℕ → Ended
ends_failed told w (logs, r) = record {
  world = record w { logs = logs };
  result = r;
  messages = told;
}

-- After T3.
unfoldable pub after_t3 :
    Env → ℕ → Order → ApiConfig → List Told → ExtResult → World → Called → Ended
after_t3 env id row erp before t2 w t3 =
    let after = record w { wms_breaker = t3.breaker } in
    let said = before ++ told "WMS" "/wms/stock-in" t3 ∷ [] in
    let cancel = call_external env.limits env.cancel_at env.erp_cancel erp after.erp_breaker in
    if t3.result.ok
    then ends said (settle env id row t2 t3.result after)
    else ends_failed (said ++ told "ERP" (cancel_path row) cancel ∷ [])
        (rollback_t1 env id (record after { erp_breaker = cancel.breaker }))
        (fail_external env.wms_log_written "WMS" 2 "stock_in" (pos id)
          (post_url (codes "/wms/stock-in")) (env.wms_payload row) t3.result w.logs)

-- T3
unfoldable pub stock_in :
    Env → ℕ → Order → ApiConfig → List Told → ExtResult → World → Option ApiConfig → Ended
stock_in env id row erp before t2 w none = ends before (w, err (not_configured "WMS"))
stock_in env id row erp before t2 w (some wms) =
    after_t3 env id row erp before t2 w
      (call_external env.limits env.stock_in_at env.wms_stock_in wms w.wms_breaker)

-- After T2.
unfoldable pub after_t2 : Env → ℕ → Order → ApiConfig → World → Called → Ended
after_t2 env id row erp w t2 =
    let after = record w { erp_breaker = t2.breaker } in
    let said = told "ERP" (report_path row) t2 ∷ [] in
    if t2.result.ok
    then stock_in env id row erp said t2.result after env.wms_config
    else ends_failed said (rollback_t1 env id after) (
        fail_external env.erp_log_written "ERP" 2 "completion_report" (pos id)
          (post_url (codes (report_path row))) (env.erp_payload row) t2.result w.logs)

-- T2
unfoldable pub report : Env → ℕ → Order → World → Option ApiConfig → Ended
report env id row w none = ends [] (w, err (not_configured "ERP"))
report env id row w (some erp) =
    after_t2 env id row erp w
      (call_external env.limits env.report_at env.erp_report erp w.erp_breaker)

-- From T1 on, with the row that was read before.
unfoldable pub saga_from : Env → ℕ → Order → World → Ended
saga_from env id row w =
    if any_row (can_complete id) w.db.orders
    then report env id row (record w { db = env.meanwhile (complete_order env id row w.db) })
        env.erp_config
    else ends [] (w, err status_changed)

-- With the row that the SELECT found.
unfoldable pub saga_of : Env → ℕ → World → Option Order → Ended
saga_of env id w none = ends [] (w, err order_not_found)
saga_of env id w (some row) =
    if not (row.status == in_progress)
    then ends [] (w, err not_in_progress)
    else saga_from env id row w

unfoldable pub report_completion_saga : Env → ℕ → World → Ended
report_completion_saga env id w = saga_of env id w (find_row (is_order id) w.db.orders)
