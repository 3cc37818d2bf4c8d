-- ===== src/Access/Permissions/SingleFlight.antt =====
-- One query at a time for a user (mes-backend/src/services/RbacService.cc).
use mes_cpp.Base.{
  ℕ, ◌+◌, ◌≤◌, ◌<◌, ◌≡◌, refl, ap, sym, ◌∙◌, inl, inr, ◌⊎◌, Bool, true, false, Option, List, [],
  ◌∷◌, ◌-◌, ◌++◌, String, ◌==◌, if◌then◌else◌, arith, total, total-append, length, length-append,
  Bool-cases,
}
use mes_cpp.Access.Permissions.{
  Waiter, Flights, slot_of, add_waiter, erase_slot, remove_one, runs, is_empty, load_from_db,
  members, unavailable, get_user_permissions, forward_result, Event, asks, loads, step, run,
}

-- Slots with the key of a user.
abbrev pub keyed : ℕ → List (ℕ × List Waiter) → ℕ
keyed user fs = total (λ (f : ℕ × List Waiter). if f.0 == user then 1 else 0) fs

-- Queries that run for a user.
abbrev pub queries : ℕ → List ℕ → ℕ
queries user us = total (λ u. if u == user then 1 else 0) us

-- For each user there is at most one slot, which is not empty, and a query runs exactly while there is.
pub record SingleFlight (s : Flights) (user : ℕ) : Type 0 where
  pub one_slot : keyed user s.inflight ≤ 1
  pub filled : keyed user s.inflight ≡ 1 → 0 < length (slot_of user s.inflight)
  pub one_query : queries user s.loading ≡ keyed user s.inflight

module _ (user : ℕ) where
  slot_of-none : (fs : List (ℕ × List Waiter)) → keyed user fs ≡ 0 → slot_of user fs ≡ []
  unfolding slot_of total
  slot_of-none [] h = refl
  slot_of-none ((u, ws) ∷ fs) h = ground (arith, slot_of-none fs)

  keyed-add :
      (k : ℕ) (w : Waiter) (fs : List (ℕ × List Waiter))
      → keyed user (add_waiter k w fs)
        ≡ (if k == user then (if keyed user fs == 0 then 1 else keyed user fs) else keyed user fs)
  unfolding add_waiter total
  keyed-add k w [] = ground arith
  keyed-add k w ((u, ws) ∷ fs) = ground (arith, keyed-add k w fs)

  slot_of-add :
      (k : ℕ) (w : Waiter) (fs : List (ℕ × List Waiter))
      → slot_of user (add_waiter k w fs)
        ≡ (if k == user then slot_of user fs ++ w ∷ [] else slot_of user fs)
  unfolding add_waiter slot_of
  slot_of-add k w [] = ground arith
  slot_of-add k w ((u, ws) ∷ fs) = ground (arith, slot_of-add k w fs)

  keyed-erase :
      (k : ℕ) (fs : List (ℕ × List Waiter))
      → keyed user (erase_slot k fs) ≡ (if k == user then keyed user fs - 1 else keyed user fs)
  unfolding erase_slot total
  keyed-erase k [] = ground arith
  keyed-erase k ((u, ws) ∷ fs) = ground (arith, keyed-erase k fs)

  slot_of-erase_other :
      (k : ℕ) (fs : List (ℕ × List Waiter))
      → (k == user) ≡ false
      → slot_of user (erase_slot k fs) ≡ slot_of user fs
  unfolding erase_slot slot_of
  slot_of-erase_other k [] h = refl
  slot_of-erase_other k ((u, ws) ∷ fs) h = ground (arith, slot_of-erase_other k fs)

  queries-remove :
      (k : ℕ) (us : List ℕ)
      → queries user (remove_one k us)
        ≡ (if k == user then queries user us - 1 else queries user us)
  unfolding remove_one total
  queries-remove k [] = ground arith
  queries-remove k (u ∷ us) = ground (arith, queries-remove k us)

  is_empty-length : (ws : List Waiter) → is_empty ws ≡ (length ws == 0)
  is_empty-length [] = ground arith
  is_empty-length (w ∷ ws) = ground arith

  queries_started :
      (b : Bool) (k : ℕ) (us : List ℕ)
      → queries user (if b then us ++ k ∷ [] else us)
        ≡ queries user us + (if b then (if k == user then 1 else 0) else 0)
  unfolding total
  queries_started true k us =
      total-append (λ u. if u == user then 1 else 0) us (k ∷ []) ∙ omega arith
  queries_started false k us = omega arith

  load_from_db-SingleFlight :
      (k : ℕ) (w : Waiter) (s : Flights)
      → SingleFlight s user
      → SingleFlight (load_from_db k w s) user
  unfolding load_from_db
  load_from_db-SingleFlight k w s v = elim (Bool-cases (k == user)) [
    | inl own ↦
        let same : k ≡ user = ground arith in
        record {
          one_slot = ground (arith, keyed-add k w s.inflight, v.one_slot);
          filled =
              λ e. omega (arith, slot_length own, length-append (slot_of user s.inflight) (w ∷ []));
          one_query = own_query own same;
        }
    | inr other ↦
        let slots : keyed user (add_waiter k w s.inflight) ≡ keyed user s.inflight =
          ground (arith, keyed-add k w s.inflight) in
        record {
          one_slot = omega (arith, slots, v.one_slot);
          filled = λ e. other_filled other slots e;
          one_query = other_query other slots;
        }
  ]
    where
      slot_length :
          (k == user) ≡ true
          → length (slot_of user (add_waiter k w s.inflight))
            ≡ length (slot_of user s.inflight ++ w ∷ [])
      slot_length own = ap length (slot_of-add k w s.inflight ∙ (rw own refl))

      own_query :
          (k == user) ≡ true
          → k ≡ user
          → queries user (load_from_db k w s).loading ≡ keyed user (load_from_db k w s).inflight
      own_query own same = ground (
        arith,
        same,
        queries_started (is_empty (slot_of k s.inflight)) k s.loading,
        keyed-add k w s.inflight,
        slot_of-none s.inflight,
        is_empty-length (slot_of k s.inflight),
        ap (λ u. slot_of u s.inflight) same,
        v.filled,
        v.one_slot,
        v.one_query,
      )

      other_filled :
          (k == user) ≡ false
          → keyed user (add_waiter k w s.inflight) ≡ keyed user s.inflight
          → keyed user (add_waiter k w s.inflight) ≡ 1
          → 0 < length (slot_of user (add_waiter k w s.inflight))
      other_filled other slots e =
          let kept : slot_of user (add_waiter k w s.inflight) ≡ slot_of user s.inflight =
            slot_of-add k w s.inflight ∙ rw other refl in
          omega (arith, ap length kept, v.filled (sym slots ∙ e))

      other_query :
          (k == user) ≡ false
          → keyed user (add_waiter k w s.inflight) ≡ keyed user s.inflight
          → queries user (load_from_db k w s).loading ≡ keyed user (load_from_db k w s).inflight
      other_query other slots =
          ground (
            arith,
            queries_started (is_empty (slot_of k s.inflight)) k s.loading,
            v.one_query,
            slots,
          )

  forward_result-SingleFlight :
      (k : ℕ) (r : Option (List String)) (s : Flights)
      → SingleFlight s user
      → SingleFlight (forward_result k r s) user
  unfolding forward_result
  forward_result-SingleFlight k r s v = record {
    one_slot = ground (arith, keyed-erase k s.inflight, v.one_slot);
    filled = λ e. kept e (Bool-cases (k == user));
    one_query = ground (arith, keyed-erase k s.inflight, queries-remove k s.loading, v.one_query);
  }
    where
      kept :
          keyed user (erase_slot k s.inflight) ≡ 1
          → ((k == user) ≡ true) ⊎ ((k == user) ≡ false)
          → 0 < length (slot_of user (erase_slot k s.inflight))
      kept e (inl own) = ground (arith, keyed-erase k s.inflight, v.one_slot)
      kept e (inr other) =
          let same : keyed user s.inflight ≡ 1 = ground (arith, keyed-erase k s.inflight) in
          omega (arith, ap length (slot_of-erase_other k s.inflight other), v.filled same)

  step-SingleFlight : (s : Flights) (e : Event) → SingleFlight s user → SingleFlight (step s e) user
  unfolding step get_user_permissions
  step-SingleFlight s (asks r k (members [])) v = load_from_db-SingleFlight k _ s v
  step-SingleFlight s (asks r k (members (p ∷ ps))) v = record {
    one_slot = v.one_slot;
    filled = v.filled;
    one_query = v.one_query;
  }
  step-SingleFlight s (asks r k unavailable) v = load_from_db-SingleFlight k _ s v
  step-SingleFlight s (loads k r) v = elim (Bool-cases (runs k s.loading)) [
    | inl e ↦ rw e (forward_result-SingleFlight k r s v)
    | inr e ↦ rw e v
  ]

  -- Whatever requests ask, in any order with the ends of the queries, if a user has at most one slot
  -- of waiting requests, a slot that is not empty, and a query exactly while there is one, then so it
  -- stays: never do two queries run for one user.
  pub run-SingleFlight :
      (s : Flights) (es : List Event) → SingleFlight s user → SingleFlight (run s es) user
  unfolding run
  run-SingleFlight s [] v = v
  run-SingleFlight s (e ∷ es) v = run-SingleFlight (step s e) es (step-SingleFlight s e v)
