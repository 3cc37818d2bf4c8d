-- ===== src/Breaker/Tests.antt =====
-- The theorems on the breaker at concrete histories, with the limits of the source's defaults.
use mes_cpp.Base.{◌≡◌, refl, List, [], ◌∷◌, arith}
use mes_cpp.Breaker.{
  closed, opened, Limits, Breaker, new_breaker, allow_request, record_success, record_failure, Call,
  allows, succeeds, fails, step, run,
}
use mes_cpp.Breaker.History.{streak, streak_after, run-Calm}

abbrev limits : Limits
limits = record { fail_threshold = 5; open_window = 30 }

abbrev calls : List Call
calls = fails 1 ∷ fails 2 ∷ succeeds ∷ fails 3 ∷ allows 4 ∷ fails 5 ∷ fails 6 ∷ fails 7 ∷ []

abbrev tripped : Breaker
tripped = record { state = opened; failure_count = 5; opened_at = 8 }

tripped_now : record_failure limits 8 (run limits new_breaker calls) ≡ tripped
unfolding run step record_failure allow_request record_success
tripped_now = refl

run-Calm_example :
    ((run limits new_breaker calls).state ≡ closed)
    × ((run limits new_breaker calls).failure_count ≡ streak 0 calls)
unfolding streak_after
run-Calm_example = run-Calm limits new_breaker calls refl (
  omega arith,
  (
    omega arith,
    (
      omega arith,
      (omega arith, (omega arith, (omega arith, (omega arith, (omega arith, omega arith))))),
    ),
  ),
)
