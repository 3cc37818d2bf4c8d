-- ===== src/WorkOrder/StateMachine/Spec.antt =====
-- The status changes that the comments on the events allow, and what they imply for histories.
use mes_cpp.Base.{
  ℕ, ◌≤◌, ◌≡◌, refl, ◌↔◌, ◌⊎◌, inl, inr, true, ◌&&◌, ◌==◌, Bool-cases, if◌then◌else◌, subst, List,
  [], ◌∷◌, arith, ℤ, pos, negsuc, ap,
}
use mes_cpp.WorkOrder.StateMachine.{
  Transition, table, next_in, event_eq, Event, schedule, release, start, pause, complete, close,
  cancel, next, can_transition, is_terminal,
}

-- The comments beside the enumerators: schedule 0->1, release 1->2, start 2->3 and 4->3,
-- pause 3->4, complete 3->5, close 5->6, cancel from 0, 1 and 2 to 7.
abbrev pub Allowed : ℕ → Event → ℕ → Type 0
Allowed f schedule t = (f ≡ 0) × (t ≡ 1)
Allowed f release t = (f ≡ 1) × (t ≡ 2)
Allowed f start t = ((f ≡ 2) ⊎ (f ≡ 4)) × (t ≡ 3)
Allowed f pause t = (f ≡ 3) × (t ≡ 4)
Allowed f complete t = (f ≡ 3) × (t ≡ 5)
Allowed f close t = (f ≡ 5) × (t ≡ 6)
Allowed f cancel t = (f ≤ 2) × (t ≡ 7)

pub Allowed-next : (f : ℕ) (e : Event) (t : ℕ) → Allowed f e t → next f e ≡ pos t
unfolding next
Allowed-next f schedule t h = ground arith
Allowed-next f release t h = ground arith
Allowed-next f start t h = ground arith
Allowed-next f pause t h = ground arith
Allowed-next f complete t h = ground arith
Allowed-next f close t h = ground arith
Allowed-next f cancel t h = ground arith

pub next-Allowed : (f : ℕ) (e : Event) (t : ℕ) → next f e ≡ pos t → Allowed f e t
unfolding next
next-Allowed f schedule t h = ground arith
next-Allowed f release t h = ground arith
next-Allowed f start t h = ground arith
next-Allowed f pause t h = ground arith
next-Allowed f complete t h = ground arith
next-Allowed f close t h = ground arith
next-Allowed f cancel t h = ground arith

-- The table gives a target exactly for the status changes that the comments allow.
pub next_iff : (f : ℕ) (e : Event) (t : ℕ) → (next f e ≡ pos t) ↔ Allowed f e t
next_iff f e t = (next-Allowed f e t, Allowed-next f e t)

next_in-total :
    (ts : List Transition) (f : ℕ) (e : Event)
    → (next_in ts f e ≡ negsuc 0) ⊎ ((t : ℕ) × (next_in ts f e ≡ pos t))
unfolding next_in
next_in-total [] f e = inl refl
next_in-total (t ∷ ts) f e = elim (Bool-cases (t.from == f && event_eq t.event e)) [
  | inl hit ↦ inr (t.to, rw hit)
  | inr miss ↦ rw miss (next_in-total ts f e)
]

-- The answer is a status or -1.
pub next-total : (f : ℕ) (e : Event) → (next f e ≡ negsuc 0) ⊎ ((t : ℕ) × (next f e ≡ pos t))
unfolding next
next-total f e = next_in-total table f e

-- The only event that can lead to a status.
event_to : ℕ → Event
event_to t =
    if t == 7
    then cancel
    else if t == 6
    then close
    else if t == 5
    then complete
    else if t == 4
    then pause
    else if t == 3
    then start
    else if t == 2
    then release
    else schedule

edge_sound : (f t : ℕ) → can_transition f t ≡ true → (f ≡ t) ⊎ (next f (event_to t) ≡ pos t)
unfolding can_transition next event_to
edge_sound f t h = ground arith

edge_complete : (f t : ℕ) (e : Event) → Allowed f e t → can_transition f t ≡ true
unfolding can_transition
edge_complete f t schedule h = ground arith
edge_complete f t release h = ground arith
edge_complete f t start h = ground arith
edge_complete f t pause h = ground arith
edge_complete f t complete h = ground arith
edge_complete f t close h = ground arith
edge_complete f t cancel h = ground arith

can_transition_self : (f : ℕ) → can_transition f f ≡ true
unfolding can_transition
can_transition_self f = ground arith

-- `canTransition` holds from a status to itself and where some event leads, and nowhere else.
pub can_transition_iff :
    (f t : ℕ) → (can_transition f t ≡ true) ↔ ((f ≡ t) ⊎ ((e : Event) × (next f e ≡ pos t)))
can_transition_iff f t = (sound, complete_)
  where
    sound : can_transition f t ≡ true → (f ≡ t) ⊎ ((e : Event) × (next f e ≡ pos t))
    sound h = elim (edge_sound f t h) [ inl e ↦ inl e | inr e ↦ inr (event_to t, e) ]

    complete_ : (f ≡ t) ⊎ ((e : Event) × (next f e ≡ pos t)) → can_transition f t ≡ true
    complete_ (inl e) = subst (λ x. can_transition f x ≡ true) e (can_transition_self f)
    complete_ (inr (e, h)) = edge_complete f t e (next-Allowed f e t h)

is_terminal-stuck : (f : ℕ) (e : Event) → is_terminal f ≡ true → next f e ≡ negsuc 0
unfolding is_terminal next
is_terminal-stuck f e h = ground arith

stuck-is_terminal : (f : ℕ) → f ≤ 7 → ((e : Event) → next f e ≡ negsuc 0) → is_terminal f ≡ true
unfolding is_terminal next
stuck-is_terminal f h k =
    ground (arith, k schedule, k release, k start, k pause, k complete, k close, k cancel)

-- Of the eight statuses the terminal ones are exactly those that no event leaves.
pub is_terminal_iff : (f : ℕ) → f ≤ 7 → (is_terminal f ≡ true) ↔ ((e : Event) → next f e ≡ negsuc 0)
is_terminal_iff f h = (λ t e. is_terminal-stuck f e t, stuck-is_terminal f h)

-- The status after an event; one that the table refuses changes nothing.
abbrev pub after : ℕ → Event → ℕ
after f e = elim (next f e) [ pos t ↦ t | negsuc n ↦ f ]

pub after-Allowed : (f : ℕ) (e : Event) (t : ℕ) → Allowed f e t → after f e ≡ t
after-Allowed f e t h =
    ap {A = ℤ} {B = ℕ} (λ n. elim n [ pos t ↦ t | negsuc n ↦ f ]) (Allowed-next f e t h)

unfoldable pub after_all : ℕ → List Event → ℕ
after_all f [] = f
after_all f (e ∷ es) = after_all (after f e) es

abbrev pub IsStarted : ℕ → Type 0
IsStarted f = (3 ≤ f) × (f ≤ 6)

after-IsStarted : (f : ℕ) (e : Event) → IsStarted f → IsStarted (after f e)
unfolding next
after-IsStarted f schedule h = ground arith
after-IsStarted f release h = ground arith
after-IsStarted f start h = ground arith
after-IsStarted f pause h = ground arith
after-IsStarted f complete h = ground arith
after-IsStarted f close h = ground arith
after-IsStarted f cancel h = ground arith

-- An order whose work has started, from status 3 to 6, stays between 3 and 6 whatever events follow,
-- so it is never cancelled.
pub after_all-IsStarted : (f : ℕ) (es : List Event) → IsStarted f → IsStarted (after_all f es)
unfolding after_all
after_all-IsStarted f [] h = h
after_all-IsStarted f (e ∷ es) h = after_all-IsStarted (after f e) es (after-IsStarted f e h)
