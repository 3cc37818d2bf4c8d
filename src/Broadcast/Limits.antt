-- ===== src/Broadcast/Limits.antt =====
-- The subscribers of a channel are few and apart (mes-backend/src/websocket/WsBroadcastManager.cc).
use text.Mathlib.Text.{◌==◌ as str_eq}
use mes_cpp.Base.{
  ℕ, suc, ◌≤◌, ◌≡◌, refl, inl, inr, Bool, false, not, List, [], ◌∷◌, ◌++◌, arith, String, ◌==◌,
  length, length-append, any_row, select, drop, All, Distinct, Distinct-append, Distinct-select,
  Bool-cases, leb,
}
use mes_cpp.Broadcast.{
  Server, max_subs_per_channel, add_sub, subscribe, unsubscribe_all, handle_message, standard,
  other, refused, swap_pending, drain_channel, Event, subscribes, leaves, message, swaps, drains,
  step, run,
}

-- No connection twice, and no more than the limit.
pub record Orderly (vec : List ℕ) : Type 0 where
  pub apart : Distinct (λ a b. a == b) vec
  pub bounded : length vec ≤ max_subs_per_channel

abbrev pub AllOrderly : Server → Type 0
AllOrderly s = (channel : String) → Orderly (s.subs channel)

All-missing :
    (conn : ℕ) (vec : List ℕ)
    → any_row (λ s. s == conn) vec ≡ false
    → All (λ x. All (λ y. (x == y) ≡ false) (conn ∷ [])) vec
unfolding any_row
All-missing conn [] h = tt
All-missing conn (x ∷ xs) h = ground (arith, All-missing conn xs)

add_end-Orderly :
    (conn : ℕ) (vec : List ℕ)
    → Distinct (λ a b. a == b) vec
    → any_row (λ s. s == conn) vec ≡ false
    → suc (length vec) ≤ max_subs_per_channel
    → Orderly (vec ++ conn ∷ [])
add_end-Orderly conn vec d a l = record {
  apart = Distinct-append (λ a b. a == b) vec (conn ∷ []) d (tt, tt) (All-missing conn vec a);
  bounded = omega (arith, length-append vec (conn ∷ []));
}

any_row-drop :
    (conn : ℕ) (vec : List ℕ)
    → any_row (λ s. s == conn) vec ≡ false
    → any_row (λ s. s == conn) (drop 1 vec) ≡ false
unfolding any_row
any_row-drop conn [] h = refl
any_row-drop conn (x ∷ xs) h = ground arith

Distinct-drop :
    (vec : List ℕ) → Distinct (λ a b. a == b) vec → Distinct (λ a b. a == b) (drop 1 vec)
Distinct-drop [] d = tt
Distinct-drop (x ∷ xs) d = d.1

-- A full vector has room when its oldest is gone.
drop_makes_room :
    (vec : List ℕ)
    → length vec ≤ max_subs_per_channel
    → suc (length (drop 1 vec)) ≤ max_subs_per_channel
drop_makes_room [] h = omega arith
drop_makes_room (x ∷ xs) h = omega (arith, h)

add_sub-Orderly : (conn : ℕ) (vec : List ℕ) → Orderly vec → Orderly (add_sub conn vec)
unfolding add_sub
add_sub-Orderly conn vec h = elim (Bool-cases (any_row (λ s. s == conn) vec)) [
  | inl e ↦ rw e h
  | inr e ↦ elim (Bool-cases (leb max_subs_per_channel (length vec))) [
    | inl full ↦
        rw (e, full)
          (add_end-Orderly conn (drop 1 vec) (Distinct-drop vec h.apart) (any_row-drop conn vec e)
            (drop_makes_room vec h.bounded))
    | inr room ↦ rw (e, room) (add_end-Orderly conn vec h.apart e (ground arith))
  ]
]

length-select : (p : ℕ → Bool) (vec : List ℕ) → length (select p vec) ≤ length vec
unfolding select
length-select p [] = omega arith
length-select p (x ∷ xs) = ground (arith, length-select p xs)

select-Orderly : (p : ℕ → Bool) (vec : List ℕ) → Orderly vec → Orderly (select p vec)
select-Orderly p vec h = record {
  apart = Distinct-select (λ a b. a == b) p vec h.apart;
  bounded = omega (arith, length-select p vec, h.bounded);
}

drain_channel-AllOrderly :
    (connected : ℕ → Bool) (batch : List (String × String)) (s : Server)
    → AllOrderly s
    → AllOrderly (drain_channel connected batch s)
unfolding drain_channel
drain_channel-AllOrderly connected [] s h = h
drain_channel-AllOrderly connected ((c, e) ∷ rest) s h = h

step-AllOrderly : (s : Server) (e : Event) → AllOrderly s → AllOrderly (step s e)
unfolding step subscribe unsubscribe_all handle_message swap_pending
step-AllOrderly s (subscribes channel conn) h c = elim (Bool-cases (str_eq c channel)) [
  | inl e ↦ rw e (add_sub-Orderly conn (s.subs c) (h c))
  | inr e ↦ rw e (h c)
]
step-AllOrderly s (leaves conn) h c = select-Orderly (λ x. not (x == conn)) (s.subs c) (h c)
step-AllOrderly s (message channel (standard body)) h c = h c
step-AllOrderly s (message channel (other env)) h c = h c
step-AllOrderly s (message channel refused) h c = h c
step-AllOrderly s swaps h c = h c
step-AllOrderly s (drains connected) h c = drain_channel-AllOrderly connected s.batch s h c

-- Whatever connections subscribe and leave and whatever messages come and go, in any order: if no channel
-- has a connection twice or more than 2000 of them, then none ever has.
pub run-AllOrderly : (s : Server) (es : List Event) → AllOrderly s → AllOrderly (run s es)
unfolding run
run-AllOrderly s [] h = h
run-AllOrderly s (e ∷ es) h = run-AllOrderly (step s e) es (step-AllOrderly s e h)
