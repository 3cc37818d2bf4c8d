-- ===== src/WorkOrder/StateMachine.antt =====
-- The table of status changes (mes-backend/src/models/WorkOrderStateMachine.hh).
pub mod Spec
use mes_cpp.Base.{
  ℕ, Bool, true, false, ◌&&◌, ◌||◌, List, [], ◌∷◌, ◌==◌, if◌then◌else◌, ℤ, pos, negsuc,
}

abbrev pub pending_schedule : ℕ
pending_schedule = 0

abbrev pub scheduled : ℕ
scheduled = 1

abbrev pub released : ℕ
released = 2

abbrev pub in_progress : ℕ
in_progress = 3

abbrev pub paused : ℕ
paused = 4

abbrev pub completed : ℕ
completed = 5

abbrev pub closed : ℕ
closed = 6

abbrev pub cancelled : ℕ
cancelled = 7

pub data Event : Type 0 where
  schedule release start pause complete close cancel : Event

-- The enumerators' values.
abbrev pub event_index : Event → ℕ
event_index schedule = 0
event_index release = 1
event_index start = 2
event_index pause = 3
event_index complete = 4
event_index close = 5
event_index cancel = 6

abbrev pub event_eq : Event → Event → Bool
event_eq a b = event_index a == event_index b

pub record Transition : Type 0 where
  pub from : ℕ
  pub event : Event
  pub to : ℕ

abbrev pub transition : ℕ → Event → ℕ → Transition
transition f e t = record { from = f; event = e; to = t }

abbrev pub table : List Transition
table =
    transition pending_schedule schedule scheduled
    ∷ transition scheduled release released
    ∷ transition released start in_progress
    ∷ transition in_progress pause paused
    ∷ transition paused start in_progress
    ∷ transition in_progress complete completed
    ∷ transition completed close closed
    ∷ transition pending_schedule cancel cancelled
    ∷ transition scheduled cancel cancelled
    ∷ transition released cancel cancelled
    ∷ []

-- The loop of `next`.
next_in : List Transition → ℕ → Event → ℤ
next_in [] f e = negsuc 0
next_in (t ∷ ts) f e =
    let rest = next_in ts f e in if t.from == f && event_eq t.event e then pos t.to else rest

unfoldable pub next : ℕ → Event → ℤ
unfolding next_in
next f e = next_in table f e

-- The loop of `canTransition`.
has_edge : List Transition → ℕ → ℕ → Bool
has_edge [] f t = false
has_edge (x ∷ xs) f t =
    let rest = has_edge xs f t in if x.from == f && x.to == t then true else rest

unfoldable pub can_transition : ℕ → ℕ → Bool
unfolding has_edge
can_transition f t = if f == t then true else has_edge table f t

unfoldable pub is_terminal : ℕ → Bool
is_terminal s = s == closed || s == cancelled
