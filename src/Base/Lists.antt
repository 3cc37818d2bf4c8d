-- ===== src/Base/Lists.antt =====
-- Lists over the native numbers, and the table statements that the services' SQL is made of.
use Prim.Native.Nat.{ℕ, zero, suc, ◌+◌}
use mathlib.Core.Path.{◌≡◌, refl, ◌∙◌}
use mathlib.Core.Logic.{inl, inr}
use mathlib.Core.Bool.{Bool, true, false}
use mathlib.Core.Option.{Option, none, some}
use mathlib.Core.List.{List, [], ◌∷◌, ◌++◌}
use native.Mathlib.Omega.{arith}
use mes_cpp.Base.Tests.{if◌then◌else◌, Bool-cases}

-- A predicate on every entry; it computes to a tuple.
abbrev pub All {ℓ κ} : {A : Type ℓ} → (A → Type κ) → List A → Type κ
All P [] = Unit
All P (x ∷ xs) = P x × All P xs

module _ {ℓ} {A : Type ℓ} where
  abbrev pub length : List A → ℕ
  length [] = 0
  length (x ∷ xs) = suc (length xs)

  abbrev pub get_elem? : List A → ℕ → Option A
  get_elem? [] i = none
  get_elem? (x ∷ xs) zero = some x
  get_elem? (x ∷ xs) (suc i) = get_elem? xs i

  abbrev pub take : ℕ → List A → List A
  take zero xs = []
  take (suc n) [] = []
  take (suc n) (x ∷ xs) = x ∷ take n xs

  abbrev pub drop : ℕ → List A → List A
  drop zero xs = xs
  drop (suc n) [] = []
  drop (suc n) (x ∷ xs) = drop n xs

  -- SELECT ... WHERE
  unfoldable pub select : (A → Bool) → List A → List A
  select p [] = []
  select p (x ∷ xs) = let rest = select p xs in if p x then x ∷ rest else rest

  -- The first row of a SELECT ... WHERE.
  unfoldable pub find_row : (A → Bool) → List A → Option A
  find_row p [] = none
  find_row p (x ∷ xs) = let rest = find_row p xs in if p x then some x else rest

  -- EXISTS (SELECT 1 FROM ... WHERE ...)
  unfoldable pub any_row : (A → Bool) → List A → Bool
  any_row p [] = false
  any_row p (x ∷ xs) = let rest = any_row p xs in if p x then true else rest

  -- UPDATE ... SET ... WHERE
  unfoldable pub update_rows : (A → Bool) → (A → A) → List A → List A
  update_rows p f [] = []
  update_rows p f (x ∷ xs) = let rest = update_rows p f xs in (if p x then f x else x) ∷ rest

  pub length-append : (xs ys : List A) → length (xs ++ ys) ≡ length xs + length ys
  length-append [] ys = omega arith
  length-append (x ∷ xs) ys = omega (arith, length-append xs ys)

  pub length-update_rows :
      (p : A → Bool) (f : A → A) (xs : List A) → length (update_rows p f xs) ≡ length xs
  unfolding update_rows
  length-update_rows p f [] = refl
  length-update_rows p f (x ∷ xs) = omega (arith, length-update_rows p f xs)

  pub All-append {κ} : (P : A → Type κ) (xs ys : List A) → All P xs → All P ys → All P (xs ++ ys)
  All-append P [] ys h k = k
  All-append P (x ∷ xs) ys h k = (h.0, All-append P xs ys h.1 k)

  pub All-mono {κ μ} :
      {P : A → Type κ} {Q : A → Type μ} (xs : List A) → ((x : A) → P x → Q x) → All P xs → All Q xs
  All-mono [] f h = tt
  All-mono (x ∷ xs) f h = (f x h.0, All-mono xs f h.1)

  -- An UPDATE keeps what its SET keeps on the rows that it touches.
  pub All-update_rows {κ} :
      {P : A → Type κ} (p : A → Bool) (f : A → A) (xs : List A)
      → ((x : A) → p x ≡ true → P x → P (f x))
      → All P xs
      → All P (update_rows p f xs)
  unfolding update_rows
  All-update_rows p f [] k h = tt
  All-update_rows p f (x ∷ xs) k h = ground (arith, k x, All-update_rows p f xs k h.1)

-- No two entries are related: the keys of a table.
abbrev pub Distinct {ℓ} : {A : Type ℓ} → (A → A → Bool) → List A → Type 0
Distinct r [] = Unit
Distinct r (x ∷ xs) = All (λ y. r x y ≡ false) xs × Distinct r xs

module _ {ℓ} {A : Type ℓ} (p : A → Bool) where
  -- An UPDATE that finds no row changes nothing.
  pub update_rows-none : (f : A → A) (xs : List A) → any_row p xs ≡ false → update_rows p f xs ≡ xs
  unfolding update_rows any_row
  update_rows-none f [] h = refl
  update_rows-none f (x ∷ xs) h = ground (arith, update_rows-none f xs)

  pub find_row-holds : (xs : List A) (x : A) → find_row p xs ≡ some x → p x ≡ true
  unfolding find_row
  find_row-holds [] x h = cc
  find_row-holds (y ∷ ys) x h = ground (arith, find_row-holds ys x)

  pub find_row-any : (xs : List A) (x : A) → find_row p xs ≡ some x → any_row p xs ≡ true
  unfolding find_row any_row
  find_row-any [] x h = cc
  find_row-any (y ∷ ys) x h = ground (arith, find_row-any ys x)

  pub any_row-none : (xs : List A) → find_row p xs ≡ none → any_row p xs ≡ false
  unfolding find_row any_row
  any_row-none [] h = refl
  any_row-none (y ∷ ys) h = ground (arith, any_row-none ys)

  -- A SELECT by what an UPDATE keeps finds the changed row.
  pub find-update_rows :
      (f : A → A)
      → ((x : A) → p (f x) ≡ p x)
      → (xs : List A) (x : A) → find_row p xs ≡ some x
      → find_row p (update_rows p f xs) ≡ some (f x)
  unfolding find_row update_rows
  find-update_rows f keeps [] x h = cc h
  find-update_rows f keeps (y ∷ ys) x h = ground (arith, keeps y, find-update_rows f keeps ys x)

  pub All-any_row : (xs : List A) → All (λ x. p x ≡ false) xs → any_row p xs ≡ false
  unfolding any_row
  All-any_row [] h = refl
  All-any_row (x ∷ xs) h = rw h.0 (All-any_row xs h.1)

  -- No row is one that an EXISTS does not find.
  pub any_row-All : (xs : List A) → any_row p xs ≡ false → All (λ x. p x ≡ false) xs
  unfolding any_row
  any_row-All [] h = tt
  any_row-All (x ∷ xs) h = ground (arith, any_row-All xs)

  pub All-find_row : (xs : List A) → All (λ x. p x ≡ false) xs → find_row p xs ≡ none
  unfolding find_row
  All-find_row [] h = refl
  All-find_row (x ∷ xs) h = rw h.0 (All-find_row xs h.1)

  -- An UPDATE that keeps the keys keeps the rows apart.
  pub Distinct-update_rows :
      (r : A → A → Bool) (f : A → A)
      → ((x y : A) → r (f x) y ≡ r x y)
      → ((x y : A) → r x (f y) ≡ r x y)
      → (xs : List A) → Distinct r xs
      → Distinct r (update_rows p f xs)
  unfolding update_rows
  Distinct-update_rows r f left right [] d = tt
  Distinct-update_rows r f left right (x ∷ xs) d = (
    All-update_rows p f xs (λ y _ h. right (if p x then f x else x) y ∙ h) (head (p x)),
    Distinct-update_rows r f left right xs d.1,
  )
    where
      head : (b : Bool) → All (λ y. r (if b then f x else x) y ≡ false) xs
      head true = All-mono xs (λ y h. left x y ∙ h) d.0
      head false = d.0

module _ {ℓ} {A : Type ℓ} (r : A → A → Bool) where
  pub Distinct-append :
      (xs ys : List A)
      → Distinct r xs
      → Distinct r ys
      → All (λ x. All (λ y. r x y ≡ false) ys) xs
      → Distinct r (xs ++ ys)
  Distinct-append [] ys d e h = e
  Distinct-append (x ∷ xs) ys d e h =
      (All-append (λ y. r x y ≡ false) xs ys d.0 h.0, Distinct-append xs ys d.1 e h.1)

  -- The row that a SELECT by key finds is the only one.
  pub find_row_unique :
      (p : A → Bool)
      → ((x y : A) → p x ≡ true → p y ≡ true → r x y ≡ true)
      → (xs : List A) (x : A) → Distinct r xs
      → find_row p xs ≡ some x
      → All (λ y. p y ≡ true → y ≡ x) xs
  unfolding find_row
  find_row_unique p same [] x d h = tt
  find_row_unique p same (z ∷ zs) x d h = elim (Bool-cases (p z)) [
    | inl hit ↦ (λ _. ground (arith, hit), All-mono zs (λ y k e. absurd (clash y hit e k)) d.0)
    | inr miss ↦ (λ e. cc (miss, e), find_row_unique p same zs x d.1 (ground (arith, miss)))
  ]
    where
      clash : (y : A) → p z ≡ true → p y ≡ true → r z y ≡ false → ⊥
      clash y a b k = cc (same z y a b)

module _ {ℓ κ} {A : Type ℓ} (P : A → Type κ) where
  pub All-select : (p : A → Bool) (xs : List A) → All P xs → All P (select p xs)
  unfolding select
  All-select p [] h = tt
  All-select p (x ∷ xs) h = elim (Bool-cases (p x)) [
    | inl e ↦ rw e (h.0, All-select p xs h.1)
    | inr e ↦ rw e (All-select p xs h.1)
  ]

  pub All-take : (n : ℕ) (xs : List A) → All P xs → All P (take n xs)
  All-take zero xs h = tt
  All-take (suc n) [] h = tt
  All-take (suc n) (x ∷ xs) h = (h.0, All-take n xs h.1)

module _ {ℓ} {A : Type ℓ} where
  pub select-All : (p : A → Bool) (xs : List A) → All (λ x. p x ≡ true) (select p xs)
  unfolding select
  select-All p [] = tt
  select-All p (x ∷ xs) = elim (Bool-cases (p x)) [
    | inl e ↦ rw (e, e) (refl, select-All p xs)
    | inr e ↦ rw e (select-All p xs)
  ]

  pub Distinct-select :
      (r : A → A → Bool) (p : A → Bool) (xs : List A) → Distinct r xs → Distinct r (select p xs)
  unfolding select
  Distinct-select r p [] d = tt
  Distinct-select r p (x ∷ xs) d = elim (Bool-cases (p x)) [
    | inl e ↦ rw e (All-select (λ y. r x y ≡ false) p xs d.0, Distinct-select r p xs d.1)
    | inr e ↦ rw e (Distinct-select r p xs d.1)
  ]

  pub Distinct-take :
      (r : A → A → Bool) (n : ℕ) (xs : List A) → Distinct r xs → Distinct r (take n xs)
  Distinct-take r zero xs d = tt
  Distinct-take r (suc n) [] d = tt
  Distinct-take r (suc n) (x ∷ xs) d =
      (All-take (λ y. r x y ≡ false) n xs d.0, Distinct-take r n xs d.1)
