-- ===== src/Breaker.antt =====
-- The circuit breaker of the calls to outer systems (mes-backend/src/utils/CircuitBreaker.hh). Times
-- are those of the steady clock.
pub mod History
mod Tests
use mes_cpp.Base.{ℕ, ◌+◌, Bool, true, false, leb, if◌then◌else◌, List, [], ◌∷◌}

pub data State : Type 0 where
  closed opened half_open : State

-- failThreshold_ and openWindow_
pub record Limits : Type 0 where
  pub fail_threshold : ℕ
  pub open_window : ℕ

pub record Breaker : Type 0 where
  pub state : State
  pub failure_count : ℕ
  pub opened_at : ℕ

abbrev pub new_breaker : Breaker
new_breaker = record { state = closed; failure_count = 0; opened_at = 0 }

-- `now - openedAt_ >= openWindow_`
abbrev pub is_cool : Limits → ℕ → Breaker → Bool
is_cool l now b = leb (b.opened_at + l.open_window) now

abbrev pub allow_in : Limits → ℕ → Breaker → State → Breaker × Bool
allow_in l now b closed = (b, true)
allow_in l now b opened =
    if is_cool l now b then (record b { state = half_open }, true) else (b, false)
allow_in l now b half_open = (b, true)

unfoldable pub allow_request : Limits → ℕ → Breaker → Breaker × Bool
allow_request l now b = allow_in l now b b.state

abbrev pub after_success : State → State
after_success closed = closed
after_success opened = opened
after_success half_open = closed

unfoldable pub record_success : Breaker → Breaker
record_success b = record b { failure_count = 0; state = after_success b.state }

abbrev pub trip : ℕ → Breaker → Breaker
trip now b = record b { state = opened; opened_at = now }

abbrev pub count_failure : Limits → ℕ → Breaker → Breaker
count_failure l now b =
    let counted = record b { failure_count = b.failure_count + 1 } in
    if leb l.fail_threshold counted.failure_count then trip now counted else counted

abbrev pub failure_in : Limits → ℕ → Breaker → State → Breaker
failure_in l now b closed = count_failure l now b
failure_in l now b opened = count_failure l now b
failure_in l now b half_open = trip now b

unfoldable pub record_failure : Limits → ℕ → Breaker → Breaker
record_failure l now b = failure_in l now b b.state

-- The calls, each under the lock, with their times.
pub data Call : Type 0 where
  allows : ℕ → Call
  succeeds : Call
  fails : ℕ → Call

unfoldable pub step : Limits → Breaker → Call → Breaker
step l b (allows now) = (allow_request l now b).0
step l b succeeds = record_success b
step l b (fails now) = record_failure l now b

unfoldable pub run : Limits → Breaker → List Call → Breaker
run l b [] = b
run l b (c ∷ cs) = run l (step l b c) cs
