-- ===== src/Access/Tokens/Apart.antt =====
-- What a verified token says (mes-backend/src/utils/JwtUtils.cc).
use text.Mathlib.Text.{◌==◌ as str_eq}
use text.Mathlib.TextEquality.{eq_iff}
use mes_cpp.Base.{
  ℕ, ◌+◌, ◌≤◌, ◌≡◌, refl, ap, inl, inr, Bool, true, false, Option, none, some, String,
  if◌then◌else◌, to_int, ◌>>=◌, Bool-cases,
}
use mes_cpp.Access.Tokens.{
  Claims, JwtLibrary, JwtLaws, Settings, TokenPayload, is_word, refresh_fields, get_claim, as_word,
  access_claims, sign_access_token, has_type, read_payload, verify_access_token,
  verify_refresh_token,
}

module _ (lib : JwtLibrary) (s : Settings) where
  read_payload-claims :
      JwtLaws lib
      → (now : ℕ) (p : TokenPayload) → to_int p.data_scope ≡ p.data_scope
      → read_payload lib s (access_claims lib s now p)
        ≡ some (record p { iat = now; exp = now + s.access_ttl })
  unfolding read_payload access_claims get_claim
  read_payload-claims laws now p small =
      rw (laws.stoll-to_string p.user_id, laws.stoll-to_string p.dept_id, small) refl

  -- If the library for tokens does as it documents, then from the time that an access token is signed
  -- until its lifetime is over it verifies, and gives the payload that was signed with these two times,
  -- where the scope is an `int`.
  pub verify-sign_access :
      JwtLaws lib
      → (now later : ℕ) (p : TokenPayload) → to_int p.data_scope ≡ p.data_scope
      → now ≤ later
      → later ≤ now + s.access_ttl
      → verify_access_token lib s later (sign_access_token lib s now p)
        ≡ some (record p { iat = now; exp = now + s.access_ttl })
  unfolding verify_access_token sign_access_token has_type get_claim access_claims
  verify-sign_access laws now later p small from until =
      rw (laws.verified-sign later s.secret (access_claims lib s now p) from until)
        (read_payload-claims laws now p small)

  apart : (o : Option String) → is_word "access" o ≡ true → is_word "refresh" o ≡ false
  apart none h = refl
  apart (some t) h =
      let same : t ≡ "access" = (eq_iff t "access").0 h in ap (λ u. str_eq u "refresh") same

  not_both : (c : Claims) → has_type lib s "access" c ≡ true → has_type lib s "refresh" c ≡ false
  unfolding has_type
  not_both c h = apart (as_word (get_claim "typ" c.payload)) h

  refused_claims :
      (o : Option Claims) (p : TokenPayload)
      → (o >>= λ c. if has_type lib s "access" c then read_payload lib s c else none) ≡ some p
      → (o >>= λ c. if has_type lib s "refresh" c then refresh_fields lib s c else none) ≡ none
  refused_claims none p h = refl
  refused_claims (some c) p h = elim (Bool-cases (has_type lib s "access" c)) [
    | inl access ↦ rw (not_both c access) refl
    | inr other ↦ absurd (refuses (has_type lib s "access" c) (read_payload lib s c) other h)
  ]
    where
      refuses :
          (b : Bool) (o : Option TokenPayload) → b ≡ false → (if b then o else none) ≡ some p → ⊥
      refuses true o e h = cc e
      refuses false o e h = cc h

  -- A token that verifies as an access token is refused as a refresh token at that time, whatever its
  -- claims are.
  pub refused_as_refresh :
      (now : ℕ) (token : lib.Token) (p : TokenPayload)
      → verify_access_token lib s now token ≡ some p
      → verify_refresh_token lib s now token ≡ none
  unfolding verify_access_token verify_refresh_token
  refused_as_refresh now token p h = refused_claims (lib.verified now s.secret token) p h
