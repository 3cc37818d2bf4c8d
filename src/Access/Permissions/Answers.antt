-- ===== src/Access/Permissions/Answers.antt =====
-- Which requests for permissions are answered (mes-backend/src/services/RbacService.cc).
use mes_cpp.Base.{
  ℕ, ◌+◌, ◌≡◌, refl, ap, inl, inr, Bool, true, false, Option, none, some, List, [], ◌∷◌, ◌++◌,
  String, ◌==◌, if◌then◌else◌, arith, total, total-append, Bool-cases, All,
}
use mes_cpp.Access.Permissions.{
  Waiter, Answer, Flights, slot_of, add_waiter, erase_slot, remove_one, runs, load_from_db, members,
  unavailable, get_user_permissions, answer_waiters, forward_result, Event, asks, loads, step, run,
}

-- How often a request stands in a slot, in all slots, among the answers, and asks.
abbrev pub held : ℕ → List Waiter → ℕ
held r ws = total (λ (w : Waiter). if w.request == r then 1 else 0) ws

abbrev pub waiting : ℕ → List (ℕ × List Waiter) → ℕ
waiting r fs = total (λ (f : ℕ × List Waiter). held r f.1) fs

abbrev pub given : ℕ → List (ℕ × Answer) → ℕ
given r bs = total (λ (a : ℕ × Answer). if a.0 == r then 1 else 0) bs

abbrev pub asking : ℕ → List Event → ℕ
asking r [] = 0
asking r (asks q user reply ∷ es) = (if q == r then 1 else 0) + asking r es
asking r (loads user result ∷ es) = asking r es

-- Redis answers each lookup.
abbrev pub RedisAnswers : Event → Type 0
RedisAnswers (asks q user (members ms)) = Unit
RedisAnswers (asks q user unavailable) = ⊥
RedisAnswers (loads user result) = Unit

-- Each callback that waits answers its request on success too.
abbrev pub AllAnswer : Flights → Type 0
AllAnswer s =
    All (λ (f : ℕ × List Waiter). All (λ (w : Waiter). w.answers_ok ≡ true) f.1) s.inflight

abbrev Answering : List Waiter → Type 0
Answering ws = All (λ (w : Waiter). w.answers_ok ≡ true) ws

abbrev AllAnswering : List (ℕ × List Waiter) → Type 0
AllAnswering fs = All (λ (f : ℕ × List Waiter). Answering f.1) fs

module _ (r : ℕ) where
  waiting-add :
      (k : ℕ) (w : Waiter) (fs : List (ℕ × List Waiter))
      → waiting r (add_waiter k w fs) ≡ waiting r fs + (if w.request == r then 1 else 0)
  unfolding add_waiter total
  waiting-add k w [] = ground arith
  waiting-add k w ((u, ws) ∷ fs) = ground (
    arith,
    waiting-add k w fs,
    total-append (λ (x : Waiter). if x.request == r then 1 else 0) ws (w ∷ []),
  )

  waiting-erase :
      (k : ℕ) (fs : List (ℕ × List Waiter))
      → waiting r (erase_slot k fs) + held r (slot_of k fs) ≡ waiting r fs
  unfolding erase_slot slot_of total
  waiting-erase k [] = omega arith
  waiting-erase k ((u, ws) ∷ fs) = ground (arith, waiting-erase k fs)

  given-answer :
      (result : Option (List String)) (ws : List Waiter)
      → Answering ws
      → given r (answer_waiters result ws) ≡ held r ws
  unfolding answer_waiters total
  given-answer none [] h = refl
  given-answer (some ps) [] h = refl
  given-answer none (w ∷ ws) h = omega (arith, given-answer none ws h.1)
  given-answer (some ps) (w ∷ ws) h = rw h.0 (omega (arith, given-answer (some ps) ws h.1))

Answering-append :
    (ws : List Waiter) (w : Waiter) → Answering ws → w.answers_ok ≡ true → Answering (ws ++ w ∷ [])
Answering-append [] w h e = (e, tt)
Answering-append (x ∷ ws) w h e = (h.0, Answering-append ws w h.1 e)

add_waiter-AllAnswering :
    (k : ℕ) (w : Waiter) (fs : List (ℕ × List Waiter))
    → AllAnswering fs
    → w.answers_ok ≡ true
    → AllAnswering (add_waiter k w fs)
unfolding add_waiter
add_waiter-AllAnswering k w [] h e = ((e, tt), tt)
add_waiter-AllAnswering k w ((u, ws) ∷ fs) h e = elim (Bool-cases (u == k)) [
  | inl own ↦ rw own (Answering-append ws w h.0 e, h.1)
  | inr other ↦ rw other (h.0, add_waiter-AllAnswering k w fs h.1 e)
]

erase_slot-AllAnswering :
    (k : ℕ) (fs : List (ℕ × List Waiter)) → AllAnswering fs → AllAnswering (erase_slot k fs)
unfolding erase_slot
erase_slot-AllAnswering k [] h = tt
erase_slot-AllAnswering k ((u, ws) ∷ fs) h = elim (Bool-cases (u == k)) [
  | inl own ↦ rw own h.1
  | inr other ↦ rw other (h.0, erase_slot-AllAnswering k fs h.1)
]

slot_of-Answering :
    (k : ℕ) (fs : List (ℕ × List Waiter)) → AllAnswering fs → Answering (slot_of k fs)
unfolding slot_of
slot_of-Answering k [] h = tt
slot_of-Answering k ((u, ws) ∷ fs) h = elim (Bool-cases (u == k)) [
  | inl own ↦ rw own h.0
  | inr other ↦ rw other (slot_of-Answering k fs h.1)
]

step-AllAnswer : (s : Flights) (e : Event) → RedisAnswers e → AllAnswer s → AllAnswer (step s e)
unfolding step get_user_permissions load_from_db forward_result
step-AllAnswer s (asks q k (members [])) u h = add_waiter-AllAnswering k _ s.inflight h refl
step-AllAnswer s (asks q k (members (p ∷ ps))) u h = h
step-AllAnswer s (asks q k unavailable) u h = absurd u
step-AllAnswer s (loads k result) u h = elim (Bool-cases (runs k s.loading)) [
  | inl e ↦ rw e (erase_slot-AllAnswering k s.inflight h)
  | inr e ↦ rw e h
]

step_account :
    (r : ℕ) (s : Flights) (e : Event)
    → RedisAnswers e
    → AllAnswer s
    → waiting r (step s e).inflight + given r (step s e).answers
      ≡ asking r (e ∷ []) + waiting r s.inflight + given r s.answers
unfolding step get_user_permissions load_from_db forward_result total
step_account r s (asks q k (members [])) u h = omega (arith, waiting-add r k _ s.inflight)
step_account r s (asks q k (members (p ∷ ps))) u h =
    omega (arith, total-append (λ (a : ℕ × Answer). if a.0 == r then 1 else 0) s.answers _)
step_account r s (asks q k unavailable) u h = absurd u
step_account r s (loads k result) u h = elim (Bool-cases (runs k s.loading)) [
  | inl e ↦ rw e (
      omega (
        arith,
        total-append (λ (a : ℕ × Answer). if a.0 == r then 1 else 0) s.answers
            (answer_waiters result (slot_of k s.inflight)),
        waiting-erase r k s.inflight,
        given-answer r result (slot_of k s.inflight) (slot_of-Answering k s.inflight h),
      ))
  | inr e ↦ rw e (omega arith)
]

-- While Redis answers the lookups and each request that waits has a callback that answers it, each
-- request waits and is answered as often in all as it did and was before, and once more for each time
-- that it asks: none is lost, and none is answered twice.
pub run-accounts :
    (r : ℕ) (s : Flights) (es : List Event)
    → All RedisAnswers es
    → AllAnswer s
    → waiting r (run s es).inflight + given r (run s es).answers
      ≡ asking r es + waiting r s.inflight + given r s.answers
unfolding run
run-accounts r s [] u h = omega arith
run-accounts r s (e ∷ es) u h = omega (
  arith,
  run-accounts r (step s e) es u.1 (step-AllAnswer s e u.0 h),
  step_account r s e u.0 h,
  asking-cons r e es,
)
  where
    asking-cons :
        (q : ℕ) (e : Event) (es : List Event) → asking q (e ∷ es) ≡ asking q (e ∷ []) + asking q es
    asking-cons q (asks p user reply) es = omega arith
    asking-cons q (loads user result) es = omega arith

runs-added : (k : ℕ) (us : List ℕ) → runs k (us ++ k ∷ []) ≡ true
unfolding runs
runs-added k [] = ground arith
runs-added k (u ∷ us) = ground (arith, runs-added k us)

remove_one-added : (k : ℕ) (us : List ℕ) → runs k us ≡ false → remove_one k (us ++ k ∷ []) ≡ us
unfolding runs remove_one
remove_one-added k [] h = ground arith
remove_one-added k (u ∷ us) h = ground (arith, remove_one-added k us)

abbrev pub no_slot : ℕ → List (ℕ × List Waiter) → Bool
no_slot k [] = true
no_slot k ((u, ws) ∷ fs) = if u == k then false else no_slot k fs

erase_slot-added :
    (k : ℕ) (w : Waiter) (fs : List (ℕ × List Waiter))
    → no_slot k fs ≡ true
    → erase_slot k (add_waiter k w fs) ≡ fs
unfolding erase_slot add_waiter
erase_slot-added k w [] h = ground arith
erase_slot-added k w ((u, ws) ∷ fs) h = ground (arith, erase_slot-added k w fs)

slot_of-added :
    (k : ℕ) (w : Waiter) (fs : List (ℕ × List Waiter))
    → no_slot k fs ≡ true
    → slot_of k (add_waiter k w fs) ≡ w ∷ []
unfolding slot_of add_waiter
slot_of-added k w [] h = ground arith
slot_of-added k w ((u, ws) ∷ fs) h = ground (arith, slot_of-added k w fs)

slot_of-none : (k : ℕ) (fs : List (ℕ × List Waiter)) → no_slot k fs ≡ true → slot_of k fs ≡ []
unfolding slot_of
slot_of-none k [] h = refl
slot_of-none k ((u, ws) ∷ fs) h = ground (arith, slot_of-none k fs)

-- A request whose lookup in Redis fails, for a user for whom none waits and no query runs, and whose
-- query then gives any permissions, is never answered: the state is what it was before the request.
pub run-unavailable_hangs :
    (s : Flights) (r k : ℕ) (ps : List String)
    → no_slot k s.inflight ≡ true
    → runs k s.loading ≡ false
    → run s (asks r k unavailable ∷ loads k (some ps) ∷ []) ≡ s
unfolding run step get_user_permissions load_from_db forward_result answer_waiters
run-unavailable_hangs s r k ps h q =
    rw (slot_of-none k s.inflight h, runs-added k s.loading, slot_of-added k _ s.inflight h)
      (ap
        (λ (p : List (ℕ × List Waiter) × List ℕ × List (ℕ × Answer)). record s {
          inflight = p.0;
          loading = p.1;
          answers = p.2;
        })
        (λ i. (
          erase_slot-added k (record { request = r; answers_ok = false }) s.inflight h i,
          remove_one-added k s.loading q i,
          append_nil s.answers i,
        )))
  where
    append_nil : (bs : List (ℕ × Answer)) → bs ++ [] ≡ bs
    append_nil [] = refl
    append_nil (a ∷ bs) = ap (λ cs. a ∷ cs) (append_nil bs)
