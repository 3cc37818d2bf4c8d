-- ===== src/Access/Login/Cached.antt =====
-- What the cache of verified passwords holds (mes-backend/src/services/AuthService.cc).
use text.Mathlib.Text.{◌==◌ as str_eq}
use text.Mathlib.TextEquality.{eq_iff}
use Prim.Native.String.{◌++◌ as add_text}
use mes_cpp.Base.{
  ℕ, ◌≡◌, refl, inl, inr, true, some, [], ◌∷◌, String, leb, ltb, length, arith, Bool-cases,
  Option-cases, subst, All,
}
use mes_cpp.Access.Login.{
  sha256_hex, CryptoLibrary, VerifyCache, find_key, erase_key, verify_cache_get, cache_max,
  verify_cache_put, verify_password, cache_key,
}

module _ (lib : CryptoLibrary) where
  -- The text of a name, an address, a password's digest and a stored hash.
  abbrev pub credentials : String → String → String → String → String
  credentials username ip password hash = add_text username (
      add_text "|"
        (add_text ip (add_text "|" (add_text (sha256_hex lib password) (add_text "|" hash)))))

  pub cache_key_lem :
      (username ip password hash : String)
      → cache_key lib username ip password hash ≡ credentials username ip password hash
  unfolding cache_key
  cache_key_lem username ip password hash = refl

  -- The text of credentials with a password that bcrypt accepts for the stored hash in it.
  pub record Earned (key : String) : Type 0 where
    pub username : String
    pub ip : String
    pub password : String
    pub hash : String
    pub key_of : key ≡ credentials username ip password hash
    pub accepted : verify_password lib password hash ≡ true

  abbrev pub EarnedCache : VerifyCache → Type 0
  EarnedCache cache = All (λ (k : String × ℕ). Earned k.0) cache

  erase_key-Earned :
      (key : String) (cache : VerifyCache) → EarnedCache cache → EarnedCache (erase_key key cache)
  unfolding erase_key
  erase_key-Earned key [] h = tt
  erase_key-Earned key ((k, e) ∷ cache) h = elim (Bool-cases (str_eq k key)) [
    | inl own ↦ rw own (erase_key-Earned key cache h.1)
    | inr other ↦ rw other (h.0, erase_key-Earned key cache h.1)
  ]

  pub verify_cache_get-Earned :
      (now : ℕ) (key : String) (cache : VerifyCache)
      → EarnedCache cache
      → EarnedCache (verify_cache_get now key cache).1
  unfolding verify_cache_get
  verify_cache_get-Earned now key cache h = elim (Option-cases (find_key key cache)) [
    | inl missing ↦ rw (missing, verify_cache_get) h
    | inr (e, found) ↦ elim (Bool-cases (ltb e now)) [
      | inl late ↦ rw (found, late, verify_cache_get) (erase_key-Earned key cache h)
      | inr fresh ↦ rw (found, fresh, verify_cache_get) h
    ]
  ]

  find_key-Earned :
      (key : String) (cache : VerifyCache) (e : ℕ)
      → EarnedCache cache
      → find_key key cache ≡ some e
      → Earned key
  unfolding find_key
  find_key-Earned key [] e h f = cc f
  find_key-Earned key ((k, d) ∷ cache) e h f = elim (Bool-cases (str_eq k key)) [
    | inl own ↦ subst Earned ((eq_iff k key).0 own) h.0
    | inr other ↦ find_key-Earned key cache e h.1 (ground (arith, other))
  ]

  pub verify_cache_get-hit :
      (now : ℕ) (key : String) (cache : VerifyCache)
      → EarnedCache cache
      → (verify_cache_get now key cache).0 ≡ true
      → Earned key
  unfolding verify_cache_get
  verify_cache_get-hit now key cache h hit = elim (Option-cases (find_key key cache)) [
    | inl missing ↦ absurd (ground (arith, missing))
    | inr (e, found) ↦ find_key-Earned key cache e h found
  ]

  pub verify_cache_put-Earned :
      (now : ℕ) (key : String) (cache : VerifyCache)
      → Earned key
      → EarnedCache cache
      → EarnedCache (verify_cache_put now key cache)
  unfolding verify_cache_put
  verify_cache_put-Earned now key cache k h = elim (Bool-cases (leb cache_max (length cache))) [
    | inl full ↦ rw full (k, erase_key-Earned key [] tt)
    | inr fits ↦ rw fits (k, erase_key-Earned key cache h)
  ]
