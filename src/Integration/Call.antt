-- ===== src/Integration/Call.antt =====
-- A call to an outer system: `callExternal` of mes-backend/src/services/IntegrationService.cc.
pub mod Attempts
use mes_cpp.Base.{
  ℕ, suc, zero, ◌&&◌, Bool, true, false, Option, none, some, List, [], ◌∷◌, String, ltb, leb,
  if◌then◌else◌, ℤ, pos, negsuc,
}
use mes_cpp.Breaker.{Limits, Breaker, allow_request, record_success, record_failure}

pub record ApiConfig : Type 0 where
  pub id : ℤ
  pub base_url : String
  pub token : String
  pub timeout_ms : ℤ
  pub retry_count : ℤ

-- What `err` says.
pub data Fault : Type 0 where
  no_fault : Fault
  circuit_is_open : Fault
  http_fault : ℕ → Fault
  thrown_fault : String → Fault

-- `body` is the text of the JSON value; `none` is null.
pub record ExtResult : Type 0 where
  pub ok : Bool
  pub circuit_open : Bool
  pub http_status : ℕ
  pub duration_ms : ℕ
  pub body : Option String
  pub err : Fault

abbrev pub new_result : ExtResult
new_result = record {
  ok = false;
  circuit_open = false;
  http_status = 0;
  duration_ms = 0;
  body = none;
  err = no_fault;
}

pub data Method : Type 0 where
  get post : Method

-- What is sent, its path as bytes, with the token for the header where it is not empty.
pub record Request : Type 0 where
  pub base_url : String
  pub method : Method
  pub path : List ℕ
  pub body : Option String
  pub token : String
  pub timeout_ms : ℤ

-- What comes of a request, with the time it took and the time when it ended: an answer with its status
-- and its body, `none` where the body is not JSON, or an exception.
pub data Attempt : Type 0 where
  answered : ℕ → Option String → ℕ → ℕ → Attempt
  threw : String → ℕ → ℕ → Attempt

abbrev pub ended : Attempt → ℕ
ended (answered status body duration at) = at
ended (threw what duration at) = at

-- `res.httpStatus >= 200 && res.httpStatus < 300`
abbrev pub is_success : Attempt → Bool
is_success (answered status body duration at) = leb 200 status && ltb status 300
is_success (threw what duration at) = false

-- What an attempt leaves in `res`, which keeps the rest from the attempts before.
abbrev pub noted : Attempt → ExtResult → ExtResult
noted (answered status body duration at) res = record res {
  duration_ms = duration;
  http_status = status;
  body = body;
  err = if leb 200 status && ltb status 300 then res.err else http_fault status;
}
noted (threw what duration at) res = record res { duration_ms = duration; err = thrown_fault what }

-- The breaker and the result after a call, and how often the request was sent.
pub record Called : Type 0 where
  pub breaker : Breaker
  pub result : ExtResult
  pub sent : ℕ

-- The loop: `i` is `attempt`, the number after it how many are left, and `send` what comes of each
-- attempt.
unfoldable pub attempt_loop : Limits → (ℕ → Attempt) → ℕ → ℕ → Breaker → ExtResult → Called
attempt_loop l send i zero b res = record { breaker = b; result = res; sent = i }
attempt_loop l send i (suc n) b res =
    let failed =
      attempt_loop l send (suc i) n (record_failure l (ended (send i)) b) (noted (send i) res) in
    if is_success (send i)
    then record {
      breaker = record_success b;
      result = record (noted (send i) res) { ok = true };
      sent = suc i;
    }
    else failed

-- `(std::max)(1, cfg.retryCount)`
abbrev pub attempts : ApiConfig → ℕ
attempts c = attempt_count c.retry_count
  where
    attempt_count : ℤ → ℕ
    attempt_count (pos n) = if leb 1 n then n else 1
    attempt_count (negsuc n) = 1

abbrev pub refused_result : ExtResult
refused_result = record new_result { circuit_open = true; err = circuit_is_open }

unfoldable pub call_allowed : Limits → (ℕ → Attempt) → ApiConfig → Breaker × Bool → Called
call_allowed l send c (b, true) = attempt_loop l send 0 (attempts c) b new_result
call_allowed l send c (b, false) = record { breaker = b; result = refused_result; sent = 0 }

-- `now` is the time at the start; what is sent is `request` below.
unfoldable pub call_external : Limits → ℕ → (ℕ → Attempt) → ApiConfig → Breaker → Called
call_external l now send c b = call_allowed l send c (allow_request l now b)

abbrev pub request : ApiConfig → Method → List ℕ → Option String → Request
request c method path payload = record {
  base_url = c.base_url;
  method = method;
  path = path;
  body = payload;
  token = c.token;
  timeout_ms = c.timeout_ms;
}
