-- ===== src/Access/Tests.antt =====
-- The theorems on permissions, scopes and logins at concrete tables and requests.
mod Sessions
use text.Mathlib.Text.{◌==◌ as str_eq}
use mes_cpp.Base.{
  ◌+◌, ◌≡◌, refl, Bool, true, false, some, List, [], ◌∷◌, find_row, update_rows, ℤ, pos, arith, map,
  total, codes, length,
}
use mes_cpp.Access.Permissions.{Flights, members, unavailable, Event, asks, loads, runs, run}
use mes_cpp.Access.Permissions.SingleFlight.{SingleFlight, run-SingleFlight}
use mes_cpp.Access.Permissions.Answers.{run-accounts, run-unavailable_hangs, waiting, given, asking}
use mes_cpp.Access.Login.{CryptoLibrary, User, Server, Attempt, logs_in, finishes}
use mes_cpp.Access.Login as Login
use mes_cpp.Access.Login.Lockout.{record_all, tallied, record_all-tallied}
use mes_cpp.Access.Login.Earned.{Sound, run-Sound}
use mes_cpp.Access.Captcha
use mes_cpp.Access.Captcha.{upper, hex_digits, hash_code, verify_code}

abbrev user_row : User
user_row = record {
  id = pos 1;
  username = "a";
  password_hash = "h";
  status = 1;
  deleted = false;
  login_fail_count = 0;
}

abbrev outcomes : List (ℤ × Bool)
outcomes =
    (pos 1, false)
    ∷ (pos 1, false)
    ∷ (pos 2, true)
    ∷ (pos 1, false)
    ∷ (pos 1, false)
    ∷ (pos 1, false)
    ∷ []

-- Five failures of one user, with a success of another among them.
record_all-tallied_example :
    record_all outcomes (user_row ∷ []) ≡ map (tallied outcomes) (user_row ∷ [])
record_all-tallied_example = record_all-tallied outcomes (user_row ∷ [])

locked_row :
    map (tallied outcomes) (user_row ∷ [])
    ≡ record user_row { status = 2; login_fail_count = 5 } ∷ []
unfolding Login.Lockout.failures Login.Lockout.locks
locked_row = refl

abbrev no_flights : Flights
no_flights = record { inflight = []; loading = []; answers = [] }

abbrev two_ask : List Event
two_ask = asks 7 3 (members []) ∷ asks 8 3 (members []) ∷ loads 3 (some ("p" ∷ [])) ∷ []

no_flights-SingleFlight : SingleFlight no_flights 3
unfolding total
no_flights-SingleFlight = record {
  one_slot = omega arith;
  filled = λ h. absurd (omega arith);
  one_query = refl;
}

run-SingleFlight_example : SingleFlight (run no_flights two_ask) 3
run-SingleFlight_example = run-SingleFlight 3 no_flights two_ask no_flights-SingleFlight

run-accounts_example :
    waiting 7 (run no_flights two_ask).inflight + given 7 (run no_flights two_ask).answers
    ≡ asking 7 two_ask + waiting 7 [] + given 7 []
run-accounts_example = run-accounts 7 no_flights two_ask (tt, (tt, (tt, tt))) tt

run-unavailable_hangs_example :
    run no_flights (asks 7 3 unavailable ∷ loads 3 (some ("p" ∷ [])) ∷ []) ≡ no_flights
unfolding runs
run-unavailable_hangs_example = run-unavailable_hangs no_flights 7 3 ("p" ∷ []) refl refl

-- A library that accepts a password which is the hash itself.
abbrev crypto : CryptoLibrary
crypto = record { validate_password = λ p h. some (str_eq p h); sha256 = codes }

abbrev attempt : Attempt
attempt = record { request = 9; username = "a"; password = "h"; ip = "i" }

abbrev server : Server
server = record { users = user_row ∷ []; cache = []; jobs = []; replies = [] }

abbrev logs : List Login.Event
logs = logs_in 0 attempt ∷ finishes 1 0 ∷ logs_in 2 attempt ∷ []

run-Sound_example :
    Sound crypto (Login.Attempts.Began crypto server logs) (Login.run crypto server logs)
run-Sound_example = run-Sound crypto server logs refl refl tt

both_granted : length (Login.run crypto server logs).replies ≡ 2
unfolding Login.run Login.step Login.login Login.refusal Login.try_cache Login.verify_cache_get
    Login.find_key Login.cache_key Login.sha256_hex Login.hex codes Login.finish_job
    Login.handle_verified Login.verify_password Login.verify_cache_put Login.erase_key
    Login.drop_job find_row Login.record_verified update_rows Login.count_success
both_granted = refl

small_for_large : verify_code (codes "a7KQ") (hash_code (codes "A7kq")) ≡ true
unfolding verify_code hash_code hex_digits upper codes Captcha.fnv1a_from Captcha.const_time_eq
    Captcha.diff_of
small_for_large = refl
