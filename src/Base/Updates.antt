-- ===== src/Base/Updates.antt =====
-- The rows of a table through its UPDATEs.
use mathlib.Core.Path.{◌≡◌}
use mathlib.Core.Logic.{inl, inr}
use mathlib.Core.Bool.{Bool, true}
use mathlib.Core.List.{List, [], ◌∷◌}
use mes_cpp.Base.Tests.{Bool-cases}
use mes_cpp.Base.Lists.{All, update_rows}

module _ {A : Type 0} (Good : A → Type 0) (Later : A → A → Type 0) where
  -- Row for row, a good one that comes from the one before.
  abbrev pub Rows : List A → List A → Type 0
  Rows [] [] = Unit
  Rows [] (b ∷ bs) = ⊥
  Rows (a ∷ rest) [] = ⊥
  Rows (a ∷ rest) (b ∷ bs) = (Good b × Later a b) × Rows rest bs

  pub Rows-All : (xs ys : List A) → Rows xs ys → All Good ys
  Rows-All [] [] h = tt
  Rows-All [] (y ∷ ys) h = absurd h
  Rows-All (x ∷ xs) [] h = absurd h
  Rows-All (x ∷ xs) (y ∷ ys) h = (h.0.0, Rows-All xs ys h.1)

  module _ (same : (a : A) → Later a a) where
    pub Rows-refl : (xs : List A) → All Good xs → Rows xs xs
    Rows-refl [] h = tt
    Rows-refl (x ∷ xs) h = ((h.0, same x), Rows-refl xs h.1)

    -- An UPDATE whose rows go on well.
    pub update-Rows :
        (p : A → Bool) (f : A → A)
        → ((x : A) → p x ≡ true → Good x → Good (f x) × Later x (f x))
        → (xs : List A) → All Good xs
        → Rows xs (update_rows p f xs)
    unfolding update_rows
    update-Rows p f on [] h = tt
    update-Rows p f on (x ∷ xs) h = elim (Bool-cases (p x)) [
      | inl hit ↦ rw hit (on x hit h.0, update-Rows p f on xs h.1)
      | inr miss ↦ rw miss ((h.0, same x), update-Rows p f on xs h.1)
    ]

  module _ (after : (a b c : A) → Later a b → Later b c → Later a c) where
    pub Rows-trans : (xs ys zs : List A) → Rows xs ys → Rows ys zs → Rows xs zs
    Rows-trans [] [] [] h k = tt
    Rows-trans [] [] (z ∷ zs) h k = absurd k
    Rows-trans [] (y ∷ ys) zs h k = absurd h
    Rows-trans (x ∷ xs) [] zs h k = absurd h
    Rows-trans (x ∷ xs) (y ∷ ys) [] h k = absurd k
    Rows-trans (x ∷ xs) (y ∷ ys) (z ∷ zs) h k =
        ((k.0.0, after x y z h.0.1 k.0.1), Rows-trans xs ys zs h.1 k.1)
