-- ===== src/Access/Captcha/Accepts.antt =====
-- Which codes are accepted (mes-backend/src/utils/Captcha.hh).
use Prim.Native.Nat.{bit_or, bit_xor, digits, differ, bit_or-bitwise, bit_xor-bitwise, max}
use mes_cpp.Base.{
  ℕ, zero, suc, ◌/◌, ◌%◌, ◌≤◌, ◌≡◌, ◌↔◌, refl, ap, sym, subst, ◌∙◌, inl, inr, true, false, List, [],
  ◌∷◌, ◌++◌, map, ◌==◌, if◌then◌else◌, arith, length, ==_iff, Bool-cases,
}
use mes_cpp.Access.Captcha.{
  upper, fnv1a, hex_digit, hex_digits, hash_code, diff_of, const_time_eq, is_empty, verify_code,
}

differ-zero : (a b : ℕ) → (differ a b ≡ 0) ↔ (a ≡ b)
differ-zero zero zero = (λ h. refl, λ h. refl)
differ-zero zero (suc b) = (λ h. sym h, λ h. sym h)
differ-zero (suc a) zero = (λ h. h, λ h. h)
differ-zero (suc a) (suc b) =
    (λ h. ap suc ((differ-zero a b).0 h), λ h. (differ-zero a b).1 (omega arith))

-- Two numbers have the same digits exactly when they are the same.
digits-zero : (n a b : ℕ) → a ≤ n → (digits (λ b. b) differ n a b ≡ 0) ↔ (a ≡ b)
digits-zero zero zero b l = (λ h. sym h, λ h. sym h)
digits-zero zero (suc a) b l = absurd (omega arith)
digits-zero (suc n) zero b l = (λ h. sym h, λ h. sym h)
digits-zero (suc n) (suc a) b l =
    let (to_half, of_half) = digits-zero n (suc a / 2) (b / 2) (omega arith) in
    let (to_rest, of_rest) = differ-zero (suc a % 2) (b % 2) in
    (
      λ h. omega (arith, to_half (omega arith), to_rest (omega arith)),
      λ h. omega (arith, of_half (omega arith), of_rest (omega arith)),
    )

xor-zero : (a b : ℕ) → (bit_xor a b ≡ 0) ↔ (a ≡ b)
xor-zero a b =
    let (left, right) = digits-zero a a b (omega arith) in
    (λ h. left (sym (bit_xor-bitwise a b) ∙ h), λ h. bit_xor-bitwise a b ∙ right h)

-- Their disjunction is 0 exactly when both are.
or-digits : (n a b : ℕ) → a ≤ n → digits (λ b. b) max n a b ≡ 0 → (a ≡ 0) × (b ≡ 0)
or-digits zero zero b l h = (refl, h)
or-digits zero (suc a) b l h = absurd (omega arith)
or-digits (suc n) zero b l h = (refl, h)
or-digits (suc n) (suc a) b l h =
    let (left, right) = or-digits n (suc a / 2) (b / 2) (omega arith) (omega arith) in
    (omega arith, omega arith)

or-zero : (a b : ℕ) → bit_or a b ≡ 0 → (a ≡ 0) × (b ≡ 0)
or-zero a b h = or-digits a a b (omega arith) (sym (bit_or-bitwise a b) ∙ h)

diff_of-zero :
    (d : ℕ) (xs ys : List ℕ) → length xs ≡ length ys → diff_of d xs ys ≡ 0 → (d ≡ 0) × (xs ≡ ys)
unfolding diff_of
diff_of-zero d [] [] l h = (h, refl)
diff_of-zero d [] (y ∷ ys) l h = absurd (omega arith)
diff_of-zero d (x ∷ xs) [] l h = absurd (omega arith)
diff_of-zero d (x ∷ xs) (y ∷ ys) l h =
    let (both, rest) = diff_of-zero (bit_or d (bit_xor x y)) xs ys (omega arith) h in
    let (none_yet, same) = or-zero d (bit_xor x y) both in
    (none_yet, cc ((xor-zero x y).0 same, rest))

diff_of-same : (xs : List ℕ) → diff_of 0 xs xs ≡ 0
unfolding diff_of
diff_of-same [] = refl
diff_of-same (x ∷ xs) =
    ap (λ d. diff_of (bit_or 0 d) xs xs) ((xor-zero x x).1 refl) ∙ diff_of-same xs

pub const_time_eq_iff : (xs ys : List ℕ) → (const_time_eq xs ys ≡ true) ↔ (xs ≡ ys)
unfolding const_time_eq
const_time_eq_iff xs ys = (
  λ h. elim (Bool-cases (length xs == length ys)) [
    | inl same ↦ (diff_of-zero 0 xs ys ((==_iff (length xs) (length ys)).0 same) (found same h)).1
    | inr other ↦ absurd (refused other h)
  ],
  λ h. subst (λ zs. const_time_eq xs zs ≡ true) h (itself xs),
)
  where
    found :
        (length xs == length ys) ≡ true
        → (if length xs == length ys then diff_of 0 xs ys == 0 else false) ≡ true
        → diff_of 0 xs ys ≡ 0
    found same h = ground (arith, same)

    refused :
        (length xs == length ys) ≡ false
        → (if length xs == length ys then diff_of 0 xs ys == 0 else false) ≡ true
        → ⊥
    refused other h = ground (arith, other)

    itself : (zs : List ℕ) → const_time_eq zs zs ≡ true
    itself zs = ground (arith, diff_of-same zs)

-- The hash of a code is not empty.
hash_code-filled : (code : List ℕ) → is_empty (hash_code code) ≡ false
unfolding hash_code hex_digits
hash_code-filled code =
    last_digit (hex_digit (fnv1a (map upper code) % 16))
      (hex_digits 15 (fnv1a (map upper code) / 16))
  where
    last_digit : (d : ℕ) (ds : List ℕ) → is_empty (ds ++ d ∷ []) ≡ false
    last_digit d [] = refl
    last_digit d (c ∷ ds) = refl

verify_code-filled :
    (input stored : List ℕ)
    → is_empty stored ≡ false
    → verify_code input stored ≡ const_time_eq (hash_code input) stored
unfolding verify_code
verify_code-filled input stored h = rw h refl

verify_code-none :
    (input stored : List ℕ) → is_empty stored ≡ true → verify_code input stored ≡ false
unfolding verify_code
verify_code-none input stored h = rw h refl

verify_code-same :
    (input stored : List ℕ) → hash_code input ≡ stored → verify_code input stored ≡ true
verify_code-same input stored e =
    subst (λ bytes. verify_code input bytes ≡ true) e
      (verify_code-filled input (hash_code input) (hash_code-filled input)
        ∙ (const_time_eq_iff (hash_code input) (hash_code input)).1 refl)

-- A code is accepted for a stored hash exactly when its own hash is the stored one; and so a code that
-- differs from another in the case of letters at most is accepted for the other's hash.
pub verify_code_iff :
    (input stored : List ℕ)
    → ((verify_code input stored ≡ true) ↔ (hash_code input ≡ stored))
      × ((code : List ℕ)
          → map upper input ≡ map upper code
          → verify_code input (hash_code code) ≡ true)
unfolding hash_code
verify_code_iff input stored = (
  (
    λ h. elim (Bool-cases (is_empty stored)) [
      | inl nothing ↦ cc (h, verify_code-none input stored nothing)
      | inr filled ↦
          (const_time_eq_iff (hash_code input) stored).0
            (sym (verify_code-filled input stored filled) ∙ h)
    ],
    verify_code-same input stored,
  ),
  λ code e. verify_code-same input (hash_code code) (ap (λ cs. hex_digits 16 (fnv1a cs)) e),
)
