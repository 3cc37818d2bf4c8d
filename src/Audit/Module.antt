-- ===== src/Audit/Module.antt =====
-- Which part of a path the audit log takes for the module
-- (mes-backend/src/middlewares/CrossCutting.cc).
use mes_cpp.Base.{
  ℕ, suc, ◌+◌, ◌-◌, ◌≡◌, refl, ap, sym, ◌∙◌, false, Option, none, some, List, [], ◌∷◌, ◌++◌, ◌==◌,
  take, drop, length, length-append, arith, All,
}
use mes_cpp.Audit.{find_slash, find_next, module_of}

-- A segment has no '/'.
abbrev pub Segment : List ℕ → Type 0
Segment cs = All (λ c. (c == 47) ≡ false) cs

find_slash-Segment :
    (i : ℕ) (a rest : List ℕ) → Segment a → find_slash i (a ++ 47 ∷ rest) ≡ some (i + length a)
unfolding find_slash
find_slash-Segment i [] rest h = ap some (omega arith)
find_slash-Segment i (c ∷ a) rest h =
    rw h.0 (find_slash-Segment (suc i) a rest h.1 ∙ ap some (omega arith))

find_slash-last : (i : ℕ) (a : List ℕ) → Segment a → find_slash i a ≡ none
unfolding find_slash
find_slash-last i [] h = refl
find_slash-last i (c ∷ a) h = rw h.0 (find_slash-last (suc i) a h.1)

drop-append : (a b : List ℕ) → drop (length a) (a ++ b) ≡ b
drop-append [] b = refl
drop-append (x ∷ a) b = drop-append a b

take-append : (a b : List ℕ) → take (length a) (a ++ b) ≡ a
take-append [] b = refl
take-append (x ∷ a) b = ap (λ ys. x ∷ ys) (take-append a b)

append_assoc : (xs ys zs : List ℕ) → (xs ++ ys) ++ zs ≡ xs ++ (ys ++ zs)
append_assoc [] ys zs = refl
append_assoc (x ∷ xs) ys zs = ap (λ us. x ∷ us) (append_assoc xs ys zs)

-- The slash after a segment, where what stands before the segment ends in a slash.
find_next-Segment :
    (before a rest : List ℕ) (p : ℕ)
    → suc p ≡ length before
    → Segment a
    → find_next (some p) (before ++ (a ++ 47 ∷ rest)) ≡ some (length (before ++ a))
unfolding find_next
find_next-Segment before a rest p e h =
    ap (λ n. find_slash n (drop n (before ++ (a ++ 47 ∷ rest)))) e
    ∙ ap (find_slash (length before)) (drop-append before (a ++ 47 ∷ rest))
    ∙ find_slash-Segment (length before) a rest h
    ∙ ap some (sym (length-append before a))

-- The text up to the next slash, the slash included.
abbrev past : List ℕ → List ℕ → List ℕ
past before a = (before ++ a) ++ 47 ∷ []

past-whole : (before a rest : List ℕ) → before ++ (a ++ 47 ∷ rest) ≡ past before a ++ rest
past-whole before a rest =
    sym (append_assoc before a (47 ∷ rest)) ∙ sym (append_assoc (before ++ a) (47 ∷ []) rest)

past-length : (before a : List ℕ) → suc (length (before ++ a)) ≡ length (past before a)
past-length before a = omega (arith, length-append (before ++ a) (47 ∷ []))

-- A path by its first three segments and the rest.
abbrev pub in_segments : List ℕ → List ℕ → List ℕ → List ℕ → List ℕ
in_segments a b c rest = 47 ∷ (a ++ 47 ∷ (b ++ 47 ∷ (c ++ 47 ∷ rest)))

module _ (a b c : List ℕ) (ha : Segment a) (hb : Segment b) (hc : Segment c) (rest : List ℕ) where
  abbrev start : List ℕ
  start = past (past (past (47 ∷ []) a) b) c

  abbrev third : ℕ
  third = length (past (past (47 ∷ []) a) b ++ c)

  path-start : in_segments a b c rest ≡ start ++ rest
  path-start =
      past-whole (47 ∷ []) a (b ++ 47 ∷ (c ++ 47 ∷ rest))
      ∙ past-whole (past (47 ∷ []) a) b (c ++ 47 ∷ rest)
      ∙ past-whole (past (past (47 ∷ []) a) b) c rest

  third_slash :
      find_next
        (find_next (find_next (some 0) (in_segments a b c rest)) (in_segments a b c rest))
        (in_segments a b c rest)
      ≡ some third
  third_slash =
      ap (λ p. find_next (find_next p path) path)
        (find_next-Segment (47 ∷ []) a (b ++ 47 ∷ (c ++ 47 ∷ rest)) 0 refl ha)
      ∙ ap (λ p. find_next p path)
          (ap (find_next (some (length ((47 ∷ []) ++ a))))
              (past-whole (47 ∷ []) a (b ++ 47 ∷ (c ++ 47 ∷ rest)))
            ∙ find_next-Segment (past (47 ∷ []) a) b (c ++ 47 ∷ rest) _ (past-length (47 ∷ []) a)
                hb)
      ∙ ap (find_next (some (length (past (47 ∷ []) a ++ b)))) (
          past-whole (47 ∷ []) a (b ++ 47 ∷ (c ++ 47 ∷ rest))
          ∙ past-whole (past (47 ∷ []) a) b (c ++ 47 ∷ rest))
      ∙ find_next-Segment (past (past (47 ∷ []) a) b) c rest _ (past-length (past (47 ∷ []) a) b) hc
    where
      path : List ℕ
      path = in_segments a b c rest

  after_third : drop (suc third) (in_segments a b c rest) ≡ rest
  after_third =
      ap (λ n. drop n (in_segments a b c rest)) (past-length (past (past (47 ∷ []) a) b) c)
      ∙ ap (drop (length start)) path-start
      ∙ drop-append start rest

  find_next-third : find_next (some third) (in_segments a b c rest) ≡ find_slash (suc third) rest
  unfolding find_next
  find_next-third = ap (find_slash (suc third)) after_third

-- What `module_of` makes of the position of the third slash.
abbrev cut : List ℕ → ℕ → Option ℕ → List ℕ
cut path p3 none = drop (suc p3) path
cut path p3 (some end) = take (end - p3 - 1) (drop (suc p3) path)

module_of-third :
    (path : List ℕ) (p3 : ℕ)
    → find_next (find_next (find_next (some 0) path) path) path ≡ some p3
    → module_of path ≡ cut path p3 (find_next (some p3) path)
unfolding module_of find_next find_slash
module_of-third path p3 h = rw h (cut_same (find_next (some p3) path))
  where
    cut_same :
        (o : Option ℕ)
        → (elim o [
          | none ↦ drop (suc p3) path
          | some end ↦ take (end - p3 - 1) (drop (suc p3) path)
        ])
          ≡ cut path p3 o
    cut_same none = refl
    cut_same (some end) = refl

-- The module in the audit log is the fourth segment of a path of four segments or more.
pub module_of_lem :
    (a b c d rest : List ℕ)
    → Segment a
    → Segment b
    → Segment c
    → Segment d
    → (module_of (in_segments a b c d) ≡ d) × (module_of (in_segments a b c (d ++ 47 ∷ rest)) ≡ d)
module_of_lem a b c d rest ha hb hc hd = (
  module_of-third (in_segments a b c d) p3 (third_slash a b c ha hb hc d)
      ∙ ap (cut (in_segments a b c d) p3)
          (find_next-third a b c ha hb hc d ∙ find_slash-last (suc p3) d hd)
      ∙ after_third a b c ha hb hc d,
  module_of-third whole p3 (third_slash a b c ha hb hc (d ++ 47 ∷ rest))
      ∙ ap (cut whole p3)
          (find_next-third a b c ha hb hc (d ++ 47 ∷ rest) ∙ find_slash-Segment (suc p3) d rest hd)
      ∙ ap (λ n. take n (drop (suc p3) whole)) (omega arith)
      ∙ ap (take (length d)) (after_third a b c ha hb hc (d ++ 47 ∷ rest))
      ∙ take-append d (47 ∷ rest),
)
  where
    p3 : ℕ
    p3 = third a b c ha hb hc rest

    whole : List ℕ
    whole = in_segments a b c (d ++ 47 ∷ rest)
