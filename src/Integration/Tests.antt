-- ===== src/Integration/Tests.antt =====
-- The theorems on the calls to outer systems at concrete answers, and runs of them.
use mes_cpp.Base.{
  ℕ, zero, suc, ◌≡◌, refl, ◌⊎◌, true, false, none, some, [], ◌∷◌, arith, codes, pos, find_row,
  any_row, map,
}
use mes_cpp.Breaker.{Limits, new_breaker, allow_request}
use mes_cpp.WorkOrder.Store as Store
use mes_cpp.Integration.Urls.{url_encode, post_url}
use mes_cpp.Integration.Urls.Decode.{plain, decode, decode-url_encode}
use mes_cpp.Integration.Call.{
  ApiConfig, Attempt, answered, threw, call_external, attempt_loop, call_allowed, http_fault,
  request, post,
}
use mes_cpp.Integration.Call.Attempts.{CallEnds, call_external_lem}
use mes_cpp.Integration.Logs.{SyncLog, retry_log, ok}
use mes_cpp.Integration.Logs.Retry.{Answers, retry_log-Answers}
use mes_cpp.Integration.Saga.{
  World, Env, report_completion_saga, saga_of, saga_from, report, after_t2, stock_in, after_t3,
  settle, complete_order,
}
use mes_cpp.Integration.Saga.Steps.{Atomic}
use mes_cpp.Integration.Saga.Outcome.{report_completion_saga-Atomic}
use mes_cpp.Integration.Saga.Stuck.{Stuck, Unreported, report_completion_saga-Stuck}

abbrev limits : Limits
limits = record { fail_threshold = 5; open_window = 30 }

abbrev config : ApiConfig
config = record {
  id = pos 1;
  base_url = "http://erp";
  token = "";
  timeout_ms = pos 10000;
  retry_count = pos 3;
}

-- The first attempt is answered with 500, the second with 200.
abbrev second_works : ℕ → Attempt
second_works zero = answered 500 none 7 1
second_works (suc n) = answered 200 (some "{}") 5 2

abbrev never_works : ℕ → Attempt
never_works n = threw "timeout" 10 n

call_external_lem_example :
    CallEnds limits 0 second_works config new_breaker
      (call_external limits 0 second_works config new_breaker)
call_external_lem_example = call_external_lem limits 0 second_works config new_breaker

-- A success after a failure keeps the text of the failure.
fault_stays : (call_external limits 0 second_works config new_breaker).result.err ≡ http_fault 500
unfolding call_external call_allowed attempt_loop allow_request
fault_stays = refl

decode-url_encode_example :
    decode plain (url_encode (codes "2026-08-17 a&b")) ≡ codes "2026-08-17 a&b"
unfolding codes
decode-url_encode_example = decode-url_encode (codes "2026-08-17 a&b") (
  omega arith,
  (
    omega arith,
    (
      omega arith,
      (
        omega arith,
        (
          omega arith,
          (
            omega arith,
            (
              omega arith,
              (
                omega arith,
                (
                  omega arith,
                  (omega arith, (omega arith, (omega arith, (omega arith, (omega arith, tt))))),
                ),
              ),
            ),
          ),
        ),
      ),
    ),
  ),
)

abbrev log : SyncLog
log = record {
  id = 4;
  system_type = "WMS";
  sync_direction = 2;
  sync_type = "stock_in";
  business_id = pos 1;
  request_url = post_url (codes "/wms/stock-in");
  request_body = "{}";
  response_body = none;
  http_status = 500;
  duration_ms = 7;
  status = 0;
  retry_count = 0;
  error_msg = http_fault 500;
}

retry_log-Answers_example :
    Answers 4 log
      (request config post (codes "/wms/stock-in") (some "{}"))
      (log ∷ [])
      (call_external limits 0 second_works config new_breaker)
      (retry_log limits 0 second_works (λ t. some t) (λ s. some config) new_breaker 4 (log ∷ []))
unfolding find_row
retry_log-Answers_example =
    retry_log-Answers limits 0 second_works (λ t. some t) (λ s. some config) new_breaker 4
      (log ∷ []) log config (codes "/wms/stock-in") refl (λ h. absurd (omega arith)) refl refl refl

abbrev order : Store.Order
order = record {
  id = 1;
  work_order_no = "WO1";
  product_id = some (pos 5);
  process_id = pos 9;
  line_id = none;
  plan_qty = pos 10;
  completed_qty = pos 8;
  good_qty = pos 8;
  defect_qty = pos 0;
  scrap_qty = pos 0;
  priority = pos 5;
  status = 3;
  source = 2;
  remark = "";
  actual_start_at = some 50;
  actual_end_at = none;
  created_by = 7;
  updated_at = 60;
}

abbrev world : World
world = record {
  db = record {
    orders = order ∷ [];
    operations = [];
    outbox = [];
    products = [];
    steps = [];
    inspections = [];
    quality_gate_enabled = none;
    next_order_id = 2;
    next_operation_id = 1;
    order_no_seq = 2;
  };
  logs = record { rows = []; next_id = 1 };
  inventory = [];
  erp_breaker = new_breaker;
  wms_breaker = new_breaker;
}

-- The WMS does not answer.
abbrev env : Env
env = record {
  now = 100;
  report_at = 100;
  stock_in_at = 101;
  cancel_at = 102;
  limits = limits;
  committed = true;
  meanwhile = λ d. d;
  erp_config = some config;
  wms_config = some config;
  erp_report = second_works;
  wms_stock_in = never_works;
  erp_cancel = second_works;
  rollback_runs = true;
  inventory_written = true;
  erp_log_written = true;
  wms_log_written = true;
  product_code = λ o. "P1";
  erp_payload = λ o. "{}";
  wms_payload = λ o. "{}";
}

report_completion_saga-Atomic_example : Atomic env 1 order (report_completion_saga env 1 world)
unfolding find_row
report_completion_saga-Atomic_example =
    report_completion_saga-Atomic env 1 order world
      (record {
        commits = refl;
        leaves = λ d h. h;
        erp = config;
        has_erp = refl;
        wms = config;
        has_wms = refl;
        rolls = refl;
        inventory = refl;
        erp_log = refl;
        wms_log = refl;
      })
      refl (λ k. refl, tt) refl

abbrev without_wms : Env
without_wms = record env { wms_config = none }

report_completion_saga-Stuck_example :
    Stuck 1 order (report_completion_saga without_wms 1 world)
    ⊎ Unreported 1 order (report_completion_saga without_wms 1 world)
unfolding find_row
report_completion_saga-Stuck_example =
    report_completion_saga-Stuck without_wms 1 order config world refl refl refl refl (λ d h. h)
      refl (λ k. refl, tt) refl

-- COMMIT fails and both systems accept: the answer is a success, and the order is still in progress.
abbrev uncommitted : Env
uncommitted = record env { committed = false; wms_stock_in = second_works }

success_without_commit :
    let e = report_completion_saga uncommitted 1 world in
    (e.result ≡ ok 1) × (map (λ (o : Store.Order). o.status) e.world.db.orders ≡ 3 ∷ [])
unfolding report_completion_saga saga_of saga_from report after_t2 stock_in after_t3 settle
    complete_order find_row any_row call_external call_allowed attempt_loop allow_request
success_without_commit = (refl, refl)
