-- ===== src/Access/Permissions.antt =====
-- The permissions of a user, with one query for all requests that wait for them
-- (`getUserPermissionsAsync`, `loadFromDb` and `forwardResult` of
-- mes-backend/src/services/RbacService.cc). What Redis and the database answer is an input.
pub mod SingleFlight
pub mod Answers
use text.Mathlib.Text.{◌==◌ as str_eq}
use mes_cpp.Base.{
  ℕ, ◌+◌, Bool, true, false, Option, none, some, List, [], ◌∷◌, ◌++◌, String, ◌==◌, if◌then◌else◌,
}

-- A request that waits, and whether its callback for a set of permissions answers it.
pub record Waiter : Type 0 where
  pub request : ℕ
  pub answers_ok : Bool

pub data Answer : Type 0 where
  permissions : List String → Answer
  failed : Answer

-- g_inflight, the queries that run, and the answers that were given.
pub record Flights : Type 0 where
  pub inflight : List (ℕ × List Waiter)
  pub loading : List ℕ
  pub answers : List (ℕ × Answer)

unfoldable pub slot_of : ℕ → List (ℕ × List Waiter) → List Waiter
slot_of user [] = []
slot_of user ((u, ws) ∷ fs) = let rest = slot_of user fs in if u == user then ws else rest

-- `slot.emplace_back`, which makes the slot where there is none
unfoldable pub add_waiter : ℕ → Waiter → List (ℕ × List Waiter) → List (ℕ × List Waiter)
add_waiter user w [] = (user, w ∷ []) ∷ []
add_waiter user w ((u, ws) ∷ fs) =
    let rest = add_waiter user w fs in if u == user then (u, ws ++ w ∷ []) ∷ fs else (u, ws) ∷ rest

-- `erase(it)`
unfoldable pub erase_slot : ℕ → List (ℕ × List Waiter) → List (ℕ × List Waiter)
erase_slot user [] = []
erase_slot user ((u, ws) ∷ fs) =
    let rest = erase_slot user fs in if u == user then fs else (u, ws) ∷ rest

unfoldable pub remove_one : ℕ → List ℕ → List ℕ
remove_one user [] = []
remove_one user (u ∷ us) = let rest = remove_one user us in if u == user then us else u ∷ rest

unfoldable pub runs : ℕ → List ℕ → Bool
runs user [] = false
runs user (u ∷ us) = let rest = runs user us in if u == user then true else rest

abbrev pub is_empty : List Waiter → Bool
is_empty [] = true
is_empty (w ∷ ws) = false

-- `loadFromDb`: the first one for a user starts the query.
unfoldable pub load_from_db : ℕ → Waiter → Flights → Flights
load_from_db user w s = record s {
  inflight = add_waiter user w s.inflight;
  loading = if is_empty (slot_of user s.inflight) then s.loading ++ user ∷ [] else s.loading;
}

-- `perms.erase(kEmptyPermSentinel)`
unfoldable pub without_sentinel : List String → List String
without_sentinel [] = []
without_sentinel (p ∷ ps) =
    let rest = without_sentinel ps in if str_eq p "__none__" then rest else p ∷ rest

-- What Redis answers to SMEMBERS.
pub data Reply : Type 0 where
  members : List String → Reply
  unavailable : Reply

unfoldable pub get_user_permissions : ℕ → ℕ → Reply → Flights → Flights
get_user_permissions request user (members []) s =
    load_from_db user (record { request = request; answers_ok = true }) s
get_user_permissions request user (members (p ∷ ps)) s = record s {
  answers = s.answers ++ (request, permissions (without_sentinel (p ∷ ps))) ∷ [];
}
get_user_permissions request user unavailable s =
    load_from_db user (record { request = request; answers_ok = false }) s

-- The callbacks of `forwardResult`, one after the other; `none` is an error of the database.
unfoldable pub answer_waiters : Option (List String) → List Waiter → List (ℕ × Answer)
answer_waiters r [] = []
answer_waiters none (w ∷ ws) = (w.request, failed) ∷ answer_waiters none ws
answer_waiters (some perms) (w ∷ ws) =
    let rest = answer_waiters (some perms) ws in
    if w.answers_ok then (w.request, permissions perms) ∷ rest else rest

unfoldable pub forward_result : ℕ → Option (List String) → Flights → Flights
forward_result user r s = record s {
  inflight = erase_slot user s.inflight;
  loading = remove_one user s.loading;
  answers = s.answers ++ answer_waiters r (slot_of user s.inflight);
}

-- A request asks for the permissions of a user, or the query for a user ends.
pub data Event : Type 0 where
  asks : ℕ → ℕ → Reply → Event
  loads : ℕ → Option (List String) → Event

unfoldable pub step : Flights → Event → Flights
step s (asks request user reply) = get_user_permissions request user reply s
step s (loads user r) = if runs user s.loading then forward_result user r s else s

unfoldable pub run : Flights → List Event → Flights
run s [] = s
run s (e ∷ es) = run (step s e) es
