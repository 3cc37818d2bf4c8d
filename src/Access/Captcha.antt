-- ===== src/Access/Captcha.antt =====
-- The hash of a captcha's code and its check (mes-backend/src/utils/Captcha.hh), on lists of bytes.
pub mod Accepts
use Prim.Native.Nat.{bit_or, bit_xor}
use mes_cpp.Base.{
  ℕ, zero, suc, ◌+◌, ◌-◌, ◌*◌, ◌/◌, ◌%◌, ◌^◌, Bool, true, false, ◌&&◌, List, [], ◌∷◌, ◌++◌, map,
  ◌==◌, if◌then◌else◌, leb, ltb, length,
}

abbrev pub fnv_offset : ℕ
fnv_offset = 1469598103934665603

abbrev pub fnv_prime : ℕ
fnv_prime = 1099511628211

-- The loop of `fnv1a`, in uint64_t.
unfoldable pub fnv1a_from : ℕ → List ℕ → ℕ
fnv1a_from h [] = h
fnv1a_from h (c ∷ cs) = fnv1a_from (bit_xor h c * fnv_prime % 2 ^ 64) cs

abbrev pub fnv1a : List ℕ → ℕ
fnv1a cs = fnv1a_from fnv_offset cs

unfoldable pub upper : ℕ → ℕ
upper c = if leb 97 c && leb c 122 then c - 97 + 65 else c

abbrev pub hex_digit : ℕ → ℕ
hex_digit d = if ltb d 10 then 48 + d else 87 + d

-- `%016llx`: the last n hexadecimal digits of a number.
unfoldable pub hex_digits : ℕ → ℕ → List ℕ
hex_digits zero h = []
hex_digits (suc n) h = hex_digits n (h / 16) ++ hex_digit (h % 16) ∷ []

unfoldable pub hash_code : List ℕ → List ℕ
hash_code code = hex_digits 16 (fnv1a (map upper code))

-- The loop of `constTimeEq`, on texts of one length.
unfoldable pub diff_of : ℕ → List ℕ → List ℕ → ℕ
diff_of diff [] bs = diff
diff_of diff (a ∷ as') [] = diff
diff_of diff (a ∷ as') (b ∷ bs) = diff_of (bit_or diff (bit_xor a b)) as' bs

unfoldable pub const_time_eq : List ℕ → List ℕ → Bool
const_time_eq as' bs = if length as' == length bs then diff_of 0 as' bs == 0 else false

abbrev pub is_empty : List ℕ → Bool
is_empty [] = true
is_empty (c ∷ cs) = false

unfoldable pub verify_code : List ℕ → List ℕ → Bool
verify_code input stored = if is_empty stored then false else const_time_eq (hash_code input) stored
