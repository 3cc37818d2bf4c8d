-- ===== src/Integration/Logs.antt =====
-- The log of the calls to outer systems: `writeLog`, `failExternal`, `requireConfig` and `retryLog` of
-- mes-backend/src/services/IntegrationService.cc.
pub mod Retry
use mes_cpp.Base.{
  ℕ, zero, suc, ◌+◌, Bool, true, false, ◌&&◌, Option, none, some, List, [], ◌∷◌, ◌++◌, String, ℤ,
  ◌==◌, if◌then◌else◌, find_row, update_rows, codes,
}
use mes_cpp.Audit.{bytes_eq}
use mes_cpp.Breaker.{Limits, Breaker}
use mes_cpp.Integration.Urls.{parse_method_path}
use mes_cpp.Integration.Call.{
  ApiConfig, Fault, no_fault, ExtResult, Attempt, Method, get, post, Request, request, Called,
  call_external,
}

-- integ_sync_logs. Status 0 is failed, 1 successful, 2 to be tried again.
pub record SyncLog : Type 0 where
  pub id : ℕ
  pub system_type : String
  pub sync_direction : ℕ
  pub sync_type : String
  pub business_id : ℤ
  pub request_url : List ℕ
  pub request_body : String
  pub response_body : Option String
  pub http_status : ℕ
  pub duration_ms : ℕ
  pub status : ℕ
  pub retry_count : ℕ
  pub error_msg : Fault

-- The table, with the sequence behind its key.
pub record SyncLogs : Type 0 where
  pub rows : List SyncLog
  pub next_id : ℕ

pub data Error : Type 0 where
  order_not_found not_in_progress status_changed : Error
  log_not_found already_succeeded already_converted product_missing process_missing : Error
  dates_required material_required : Error
  not_configured : String → Error
  call_failed : String → Fault → Error
  retry_failed : String → Fault → Error
  create_failed : Error
  -- an exception of a statement
  statement_failed : Error

pub data Result (A : Type 0) : Type 0 where
  ok : A → Result A
  err : Error → Result A

unfoldable pub write_log :
    String → ℕ → String → ℤ → List ℕ → String → ExtResult → Bool → Fault → SyncLogs → SyncLogs
write_log system direction kind business url body r succeeded fault logs = record {
  rows =
      logs.rows
      ++ record {
        id = logs.next_id;
        system_type = system;
        sync_direction = direction;
        sync_type = kind;
        business_id = business;
        request_url = url;
        request_body = body;
        response_body = r.body;
        http_status = r.http_status;
        duration_ms = r.duration_ms;
        status = if succeeded then 1 else 0;
        retry_count = 0;
        error_msg = fault;
      }
        ∷ [];
  next_id = suc logs.next_id;
}

-- The failed row and the exception 502, or the exception of the INSERT.
unfoldable pub fail_external :
    {A : Type 0}
    → Bool
    → String
    → ℕ
    → String
    → ℤ
    → List ℕ
    → String
    → ExtResult
    → SyncLogs
    → SyncLogs × Result A
fail_external written system direction kind business url body r logs =
    if written
    then (
      write_log system direction kind business url body r false r.err logs,
      err (call_failed system r.err),
    )
    else (logs, err statement_failed)

abbrev pub is_log : ℕ → SyncLog → Bool
is_log id l = l.id == id

-- `method == "GET" ? drogon::Get : drogon::Post`
unfoldable pub method_of : List ℕ → Method
method_of method = if bytes_eq method (codes "GET") then get else post

-- UPDATE ... SET status = 2
abbrev pub set_pending : SyncLog → SyncLog
set_pending l = record l { status = 2 }

-- The UPDATE after the call.
abbrev pub set_retried : ExtResult → SyncLog → SyncLog
set_retried r l = record l {
  status = if r.ok then 1 else 0;
  http_status = r.http_status;
  duration_ms = r.duration_ms;
  response_body = r.body;
  error_msg = r.err;
  retry_count = l.retry_count + 1;
}

-- What is sent for a row; `parse` gives the text of its body as JSON, `none` where it is not JSON or null.
abbrev pub retry_request :
    (String → Option String) → ApiConfig → List ℕ × List ℕ → SyncLog → Request
retry_request parse c (method, path) l = request c (method_of method) path (parse l.request_body)

-- What a retry took: the table, the answer, and what was sent, with the breaker after it.
pub record Retried : Type 0 where
  pub rows : List SyncLog
  pub breaker : Breaker
  pub sent : List Request
  pub result : Result ℕ

unfoldable pub copies : ℕ → Request → List Request
copies zero q = []
copies (suc n) q = q ∷ copies n q

unfoldable pub retry_ended : ℕ → String → Request → List SyncLog → Called → Retried
retry_ended id system q rows c = record {
  rows = update_rows (is_log id) (set_retried c.result) rows;
  breaker = c.breaker;
  sent = copies c.sent q;
  result = if c.result.ok then ok id else err (retry_failed system c.result.err);
}

unfoldable pub retry_configured :
    Limits
    → ℕ
    → (ℕ → Attempt)
    → (String → Option String)
    → SyncLog
    → Breaker
    → List SyncLog
    → Option ApiConfig
    → Retried
retry_configured l now send parse row b rows none = record {
  rows = rows;
  breaker = b;
  sent = [];
  result = err (not_configured row.system_type);
}
retry_configured l now send parse row b rows (some c) =
    retry_ended row.id row.system_type
      (retry_request parse c (parse_method_path row.request_url) row)
      (update_rows (is_log row.id) set_pending rows) (call_external l now send c b)

unfoldable pub retry_row :
    Limits
    → ℕ
    → (ℕ → Attempt)
    → (String → Option String)
    → (String → Option ApiConfig)
    → Breaker
    → List SyncLog
    → Option SyncLog
    → Retried
retry_row l now send parse load b rows none = record {
  rows = rows;
  breaker = b;
  sent = [];
  result = err log_not_found;
}
retry_row l now send parse load b rows (some row) =
    if row.status == 1
    then record { rows = rows; breaker = b; sent = []; result = err already_succeeded }
    else retry_configured l now send parse row b rows (load row.system_type)

-- `b` is the breaker of the system that the row names, and `load` is `loadConfig`.
unfoldable pub retry_log :
    Limits
    → ℕ
    → (ℕ → Attempt)
    → (String → Option String)
    → (String → Option ApiConfig)
    → Breaker
    → ℕ
    → List SyncLog
    → Retried
retry_log l now send parse load b id rows =
    retry_row l now send parse load b rows (find_row (is_log id) rows)
