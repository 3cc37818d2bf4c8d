-- ===== src/Base/Split.antt =====
-- Splitting a text at the first byte of a kind.
use Prim.Native.Nat.{ℕ}
use mathlib.Core.Path.{◌≡◌, refl, ap}
use mathlib.Core.Bool.{false}
use mathlib.Core.Option.{Option, none, some}
use mathlib.Core.List.{List, [], ◌∷◌, ◌++◌}
use native.Mathlib.Omega.{arith}
use mes_cpp.Base.Tests.{◌==◌, if◌then◌else◌}
use mes_cpp.Base.Lists.{All}

abbrev pub with_byte : ℕ → Option (List ℕ × List ℕ) → Option (List ℕ × List ℕ)
with_byte c none = none
with_byte c (some (before, after)) = some (c ∷ before, after)

-- The parts before and from the first byte that is `sep`.
unfoldable pub split_at : ℕ → List ℕ → Option (List ℕ × List ℕ)
split_at sep [] = none
split_at sep (c ∷ s) =
    let rest = split_at sep s in if c == sep then some ([], c ∷ s) else with_byte c rest

-- No byte is `sep`.
abbrev pub Lacks : ℕ → List ℕ → Type 0
Lacks sep = All (λ c. (c == sep) ≡ false)

pub split_at_lem :
    (sep : ℕ) (m rest : List ℕ)
    → Lacks sep m
    → split_at sep (m ++ sep ∷ rest) ≡ some (m, sep ∷ rest)
unfolding split_at
split_at_lem sep [] rest h = ground arith
split_at_lem sep (c ∷ m) rest h = rw h.0 (ap (with_byte c) (split_at_lem sep m rest h.1))

pub split_at-Lacks : (sep : ℕ) (s : List ℕ) → Lacks sep s → split_at sep s ≡ none
unfolding split_at
split_at-Lacks sep [] h = refl
split_at-Lacks sep (c ∷ s) h = rw h.0 (ap (with_byte c) (split_at-Lacks sep s h.1))
