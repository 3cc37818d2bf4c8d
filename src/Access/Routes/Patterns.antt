-- ===== src/Access/Routes/Patterns.antt =====
-- When the translation of a route's pattern ends, and what it gives
-- (mes-backend/src/middlewares/perm_routes.cc).
use mes_cpp.Base.{
  ℕ, zero, suc, ◌<◌, ◌≡◌, refl, ap, sym, ◌∙◌, inl, inr, Bool, true, false, Option, none, some, List,
  [], ◌∷◌, ◌++◌, ◌==◌, if◌then◌else◌, arith, length, Bool-cases, Option-cases,
}
use mes_cpp.Access.Routes.{segment, literal, after_brace, turn, to_regex_loop, to_regex}

abbrev pub prepend : List ℕ → Option (List ℕ) → Option (List ℕ)
prepend xs none = none
prepend xs (some ys) = some (xs ++ ys)

-- What a pattern means, read from left to right with whether its characters stand in braces; `none`
-- where a brace is not closed.
unfoldable pub translation : Bool → List ℕ → Option (List ℕ)
translation true [] = none
translation false [] = some []
translation true (c ∷ cs) =
    let outside = translation false cs in
    let inside = translation true cs in if c == 125 then outside else inside
translation false (c ∷ cs) =
    let outside = translation false cs in
    let inside = translation true cs in
    if c == 123 then prepend segment inside else prepend (literal c) outside

-- In braces the rest decides, after the first closing one.
translation_inside :
    (cs rest : List ℕ) → after_brace cs ≡ some rest → translation true cs ≡ translation false rest
unfolding translation after_brace
translation_inside [] rest h = cc
translation_inside (c ∷ cs) rest h = ground (arith, translation_inside cs rest)

after_brace_shorter : (cs rest : List ℕ) → after_brace cs ≡ some rest → length rest < length cs
unfolding after_brace
after_brace_shorter [] rest h = cc
after_brace_shorter (c ∷ cs) rest h = ground (arith, after_brace_shorter cs rest)

translation_open : (cs : List ℕ) → after_brace cs ≡ none → translation true cs ≡ none
unfolding translation after_brace
translation_open [] h = refl
translation_open (c ∷ cs) h = ground (arith, translation_open cs)

append_assoc : (xs ys zs : List ℕ) → (xs ++ ys) ++ zs ≡ xs ++ (ys ++ zs)
append_assoc [] ys zs = refl
append_assoc (x ∷ xs) ys zs = ap (λ us. x ∷ us) (append_assoc xs ys zs)

-- After a turn less of the pattern is left, and it means what it meant.
turn_closed :
    (pattern : List ℕ) (c : ℕ) (cs ys : List ℕ)
    → translation false (c ∷ cs) ≡ some ys
    → (length (turn pattern c cs).0 < suc (length cs))
      × (prepend (turn pattern c cs).1 (translation false (turn pattern c cs).0) ≡ some ys)
unfolding turn translation after_brace
turn_closed pattern c cs ys h = elim (Bool-cases (c == 123)) [
  | inr other ↦ ground (arith, other)
  | inl brace ↦ elim (Option-cases (after_brace cs)) [
    | inl missing ↦ ground (arith, translation_open cs missing, brace)
    | inr (rest, found) ↦
        ground (arith, translation_inside cs rest found, brace, after_brace_shorter cs rest found)
  ]
]

translation-literal :
    (c : ℕ) (cs : List ℕ)
    → (c == 123) ≡ false
    → translation false (c ∷ cs) ≡ prepend (literal c) (translation false cs)
unfolding translation
translation-literal c cs h = rw h refl

prepend-none : (xs : List ℕ) (o : Option (List ℕ)) → prepend xs o ≡ none → o ≡ none
prepend-none xs none h = refl
prepend-none xs (some ys) h = cc

abbrev after_or : List ℕ → Option (List ℕ) → List ℕ
after_or pattern none = pattern
after_or pattern (some rest) = rest

turn_brace :
    (pattern : List ℕ) (c : ℕ) (cs : List ℕ)
    → (c == 123) ≡ true
    → (turn pattern c cs).0 ≡ after_or pattern (after_brace cs)
unfolding turn after_brace
turn_brace pattern c cs h = ground arith

translation_brace :
    (c : ℕ) (cs : List ℕ)
    → (c == 123) ≡ true
    → translation false (c ∷ cs) ≡ prepend segment (translation true cs)
unfolding translation
translation_brace c cs h = rw h refl

turn_open :
    (pattern : List ℕ) (c : ℕ) (cs : List ℕ)
    → translation false pattern ≡ none
    → translation false (c ∷ cs) ≡ none
    → translation false (turn pattern c cs).0 ≡ none
unfolding turn translation after_brace
turn_open pattern c cs k h = elim (Bool-cases (c == 123)) [
  | inr other ↦
      rw other
        (prepend-none (literal c) (translation false cs) (sym (translation-literal c cs other) ∙ h))
  | inl brace ↦ elim (Option-cases (after_brace cs)) [
    | inl missing ↦
        ap (translation false) (turn_brace pattern c cs brace ∙ ap (after_or pattern) missing) ∙ k
    | inr (rest, found) ↦
        ap (translation false) (turn_brace pattern c cs brace ∙ ap (after_or pattern) found)
        ∙ sym (translation_inside cs rest found)
        ∙ prepend-none segment (translation true cs) (sym (translation_brace c cs brace) ∙ h)
  ]
]

prepend-some :
    (xs : List ℕ) (o : Option (List ℕ)) (ys : List ℕ)
    → prepend xs o ≡ some ys
    → (zs : List ℕ) × (o ≡ some zs) × (ys ≡ xs ++ zs)
prepend-some xs none ys h = cc
prepend-some xs (some zs) ys h = (zs, refl, cc)

loop_ends :
    (n : ℕ) (pattern cs out ys : List ℕ)
    → length cs < n
    → translation false cs ≡ some ys
    → to_regex_loop n pattern cs out ≡ some (out ++ (ys ++ 36 ∷ []))
unfolding to_regex_loop translation
loop_ends zero pattern cs out ys l h = absurd (omega arith)
loop_ends (suc n) pattern [] out ys l h = ground (arith, h)
loop_ends (suc n) pattern (c ∷ cs) out ys l h =
    let (less, means) = turn_closed pattern c cs ys h in
    let (zs, left, whole) = prepend-some (turn pattern c cs).1 _ ys means in
    loop_ends n pattern (turn pattern c cs).0 (out ++ (turn pattern c cs).1) zs (omega arith) left
    ∙ ap some (
        append_assoc out (turn pattern c cs).1 (zs ++ 36 ∷ [])
        ∙ ap (λ us. out ++ us)
            (sym (append_assoc (turn pattern c cs).1 zs (36 ∷ []))
              ∙ ap (λ us. us ++ 36 ∷ []) (sym whole)))

open_end : translation false [] ≡ none → ⊥
unfolding translation
open_end h = cc

loop_goes_on :
    (n : ℕ) (pattern cs out : List ℕ)
    → translation false pattern ≡ none
    → translation false cs ≡ none
    → to_regex_loop n pattern cs out ≡ none
unfolding to_regex_loop
loop_goes_on zero pattern cs out k h = refl
loop_goes_on (suc n) pattern [] out k h = absurd (open_end h)
loop_goes_on (suc n) pattern (c ∷ cs) out k h =
    loop_goes_on n pattern _ _ k (turn_open pattern c cs k h)

-- On enough fuel, one more than the pattern is long, the loop of `toRegex` ends for a pattern whose
-- braces are all closed and gives the pattern's translation between `^` and `$`; for any other pattern
-- it ends on no fuel.
pub to_regex_lem :
    (pattern : List ℕ)
    → ((ys : List ℕ)
        → translation false pattern ≡ some ys
        → to_regex (suc (length pattern)) pattern ≡ some (94 ∷ ys ++ 36 ∷ []))
      × (translation false pattern ≡ none → (n : ℕ) → to_regex n pattern ≡ none)
to_regex_lem pattern = (
  λ ys h. loop_ends (suc (length pattern)) pattern pattern (94 ∷ []) ys (omega arith) h,
  λ h n. loop_goes_on n pattern pattern (94 ∷ []) h h,
)
