-- ===== src/Access/Login/Lockout.antt =====
-- When an account is locked (mes-backend/src/services/AuthService.cc).
use mes_cpp.Base.{
  ℕ, ◌+◌, ◌≡◌, refl, ap, sym, ◌∙◌, inl, inr, Bool, true, false, List, [], ◌∷◌, map, if◌then◌else◌,
  ◌||◌, ◌&&◌, leb, ℤ, eqb_ℤ, Bool-cases, update_rows,
}
use mes_cpp.Access.Login.{User, has_id, count_failure, count_success, record_verified}

-- Verified passwords, with their user: whether each was right.
unfoldable pub record_all : List (ℤ × Bool) → List User → List User
record_all [] users = users
record_all ((id, ok) ∷ rest) users = record_all rest (record_verified id ok users)

-- The failures of a user since the last success, from a count on.
unfoldable pub failures : ℤ → List (ℤ × Bool) → ℕ → ℕ
failures u [] n = n
failures u ((id, true) ∷ rest) n = failures u rest (if eqb_ℤ u id then 0 else n)
failures u ((id, false) ∷ rest) n = failures u rest (if eqb_ℤ u id then n + 1 else n)

-- Whether one of them was the fifth, or came after it.
unfoldable pub locks : ℤ → List (ℤ × Bool) → ℕ → Bool
locks u [] n = false
locks u ((id, true) ∷ rest) n = locks u rest (if eqb_ℤ u id then 0 else n)
locks u ((id, false) ∷ rest) n =
    (eqb_ℤ u id && leb 5 (n + 1)) || locks u rest (if eqb_ℤ u id then n + 1 else n)

abbrev pub tallied : List (ℤ × Bool) → User → User
tallied outs r = record r {
  login_fail_count = failures r.id outs r.login_fail_count;
  status = if locks r.id outs r.login_fail_count then 2 else r.status;
}

update_rows-map :
    {A : Type 0} (p : A → Bool) (f : A → A) (xs : List A)
    → update_rows p f xs ≡ map (λ x. if p x then f x else x) xs
unfolding update_rows
update_rows-map p f [] = refl
update_rows-map p f (x ∷ xs) = ap (λ ys. (if p x then f x else x) ∷ ys) (update_rows-map p f xs)

map_agrees :
    {A : Type 0} (f g h : A → A)
    → ((x : A) → f (g x) ≡ h x)
    → (xs : List A) → map f (map g xs) ≡ map h xs
map_agrees f g h e [] = refl
map_agrees f g h e (x ∷ xs) =
    ap (λ y. y ∷ map f (map g xs)) (e x) ∙ ap (λ ys. h x ∷ ys) (map_agrees f g h e xs)

tallied-none : (users : List User) → map (tallied []) users ≡ users
unfolding failures locks
tallied-none [] = refl
tallied-none (r ∷ users) = ap (λ rs. r ∷ rs) (tallied-none users)

counted : ℤ → Bool → User → User
counted id true r = if has_id id r then count_success r else r
counted id false r = if has_id id r then count_failure r else r

record_verified-counted :
    (id : ℤ) (ok : Bool) (users : List User)
    → record_verified id ok users ≡ map (counted id ok) users
unfolding record_verified counted
record_verified-counted id true users = update_rows-map (has_id id) count_success users
record_verified-counted id false users = update_rows-map (has_id id) count_failure users

tallied-counted :
    (id : ℤ) (ok : Bool) (rest : List (ℤ × Bool)) (r : User)
    → tallied rest (counted id ok r) ≡ tallied ((id, ok) ∷ rest) r
unfolding counted failures locks count_success count_failure
tallied-counted id true rest r = elim (Bool-cases (has_id id r)) [
  | inl own ↦ rw own refl
  | inr other ↦ rw other refl
]
tallied-counted id false rest r = elim (Bool-cases (has_id id r)) [
  | inl own ↦ rw own (
      ap
        (λ n. record r {
          login_fail_count = failures r.id rest (r.login_fail_count + 1);
          status = n;
        })
        (status_of (leb 5 (r.login_fail_count + 1)) (locks r.id rest (r.login_fail_count + 1))))
  | inr other ↦ rw other refl
]
  where
    status_of :
        (fifth later : Bool)
        → (if later then 2 else if fifth then 2 else r.status)
          ≡ (if fifth || later then 2 else r.status)
    status_of true true = refl
    status_of true false = refl
    status_of false later = refl

-- After any verified passwords of any users, in any order, each row of the table counts the failures of
-- its user since the last success, and is locked if one of these failures was the fifth or later, and
-- otherwise has the status that it had: nothing unlocks it.
pub record_all-tallied :
    (outs : List (ℤ × Bool)) (users : List User) → record_all outs users ≡ map (tallied outs) users
unfolding record_all
record_all-tallied [] users = sym (tallied-none users)
record_all-tallied ((id, ok) ∷ rest) users =
    record_all-tallied rest (record_verified id ok users)
    ∙ ap (map (tallied rest)) (record_verified-counted id ok users)
    ∙ map_agrees (tallied rest) (counted id ok) (tallied ((id, ok) ∷ rest))
        (tallied-counted id ok rest) users
