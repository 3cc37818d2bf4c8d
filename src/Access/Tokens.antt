-- ===== src/Access/Tokens.antt =====
-- Access and refresh tokens (mes-backend/src/utils/JwtUtils.cc). The library that signs and checks
-- them, and the text of numbers, are parameters; times are in seconds.
pub mod Apart
use text.Mathlib.Text.{◌==◌ as str_eq}
use mes_cpp.Base.{
  ℕ, zero, suc, ◌+◌, ◌≤◌, ◌<◌, ◌≡◌, Bool, true, false, Option, none, some, List, [], ◌∷◌, String,
  if◌then◌else◌, ℤ, pos, negsuc, to_int, ◌>>=◌,
}

pub data Claim : Type 0 where
  word : String → Claim
  number : ℤ → Claim
  words : List String → Claim
  numbers : List ℤ → Claim

pub record Claims : Type 0 where
  pub subject : String
  pub payload : List (String × Claim)
  pub issued_at : ℕ
  pub expires_at : ℕ
  pub id : Option String

pub record JwtLibrary : Type 1 where
  -- a signed token, and the one that a text is
  pub Token : Type 0
  pub token_of : String → Token
  pub sign : String → Claims → Token
  -- `decode` and `verify`, at a time and with a secret; `none` for an exception
  pub verified : ℕ → String → Token → Option Claims
  pub to_string : ℤ → String
  pub stoll : String → Option ℤ

-- What the library documents: a token that it signed verifies from when it is issued until it expires,
-- and not after that.
pub record JwtLaws (lib : JwtLibrary) : Type 0 where
  pub verified-sign :
      (now : ℕ) (secret : String) (c : Claims)
      → c.issued_at ≤ now
      → now ≤ c.expires_at
      → lib.verified now secret (lib.sign secret c) ≡ some c
  pub verified-expired :
      (now : ℕ) (secret : String) (c : Claims)
      → c.expires_at < now
      → lib.verified now secret (lib.sign secret c) ≡ none
  pub stoll-to_string : (n : ℤ) → lib.stoll (lib.to_string n) ≡ some n

-- g_secret, g_accessTtl and g_refreshTtl
pub record Settings : Type 0 where
  pub secret : String
  pub access_ttl : ℕ
  pub refresh_ttl : ℕ

abbrev pub defaults : Settings
defaults = record { secret = "change-me-in-prod"; access_ttl = 7200; refresh_ttl = 604800 }

abbrev pub positive_or : ℕ → ℤ → ℕ
positive_or n (pos zero) = n
positive_or n (pos (suc k)) = suc k
positive_or n (negsuc k) = n

unfoldable pub init_tokens : String → ℤ → ℤ → Settings → Settings
init_tokens secret access refresh s = record s {
  secret = if str_eq secret "" then s.secret else secret;
  access_ttl = positive_or s.access_ttl access;
  refresh_ttl = positive_or s.refresh_ttl refresh;
}

pub record TokenPayload : Type 0 where
  pub user_id : ℤ
  pub username : String
  pub dept_id : ℤ
  pub roles : List String
  pub data_scope : ℤ
  pub custom_dept_ids : List ℤ
  pub session_id : String
  pub jti : String
  pub iat : ℕ
  pub exp : ℕ

-- `get_payload_claim`; `none` for an exception
unfoldable pub get_claim : String → List (String × Claim) → Option Claim
get_claim name [] = none
get_claim name ((k, v) ∷ cs) =
    let rest = get_claim name cs in if str_eq k name then some v else rest

abbrev pub as_word : Option Claim → Option String
as_word (some (word s)) = some s
as_word _ = none

abbrev pub is_word : String → Option String → Bool
is_word typ none = false
is_word typ (some t) = str_eq t typ

abbrev pub as_number : Option Claim → Option ℤ
as_number (some (number n)) = some n
as_number _ = none

abbrev pub as_words : Option Claim → Option (List String)
as_words (some (words ss)) = some ss
as_words _ = none

abbrev pub as_numbers : Option Claim → Option (List ℤ)
as_numbers (some (numbers ns)) = some ns
as_numbers _ = none

module _ (lib : JwtLibrary) (s : Settings) where
  unfoldable pub access_claims : ℕ → TokenPayload → Claims
  access_claims now p = record {
    subject = lib.to_string p.user_id;
    payload =
        ("username", word p.username)
        ∷ ("dept_id", word (lib.to_string p.dept_id))
        ∷ ("roles", words p.roles)
        ∷ ("data_scope", number p.data_scope)
        ∷ ("custom_dept_ids", numbers p.custom_dept_ids)
        ∷ ("session_id", word p.session_id)
        ∷ ("typ", word "access")
        ∷ [];
    issued_at = now;
    expires_at = now + s.access_ttl;
    id = some p.jti;
  }

  unfoldable pub sign_access_token : ℕ → TokenPayload → lib.Token
  sign_access_token now p = lib.sign s.secret (access_claims now p)

  unfoldable pub refresh_claims : ℕ → ℤ → String → Claims
  refresh_claims now user session = record {
    subject = lib.to_string user;
    payload = ("session_id", word session) ∷ ("typ", word "refresh") ∷ [];
    issued_at = now;
    expires_at = now + s.refresh_ttl;
    id = none;
  }

  unfoldable pub sign_refresh_token : ℕ → ℤ → String → lib.Token
  sign_refresh_token now user session = lib.sign s.secret (refresh_claims now user session)

  unfoldable pub has_type : String → Claims → Bool
  has_type typ c = is_word typ (as_word (get_claim "typ" c.payload))

  unfoldable pub read_payload : Claims → Option TokenPayload
  read_payload c = do
    user_id ← lib.stoll c.subject
    username ← as_word (get_claim "username" c.payload)
    dept ← as_word (get_claim "dept_id" c.payload)
    dept_id ← lib.stoll dept
    roles ← as_words (get_claim "roles" c.payload)
    scope ← as_number (get_claim "data_scope" c.payload)
    custom_dept_ids ← as_numbers (get_claim "custom_dept_ids" c.payload)
    session_id ← as_word (get_claim "session_id" c.payload)
    jti ← c.id
    some (record {
      user_id = user_id;
      username = username;
      dept_id = dept_id;
      roles = roles;
      data_scope = to_int scope;
      custom_dept_ids = custom_dept_ids;
      session_id = session_id;
      jti = jti;
      iat = c.issued_at;
      exp = c.expires_at;
    })

  unfoldable pub verify_access_token : ℕ → lib.Token → Option TokenPayload
  verify_access_token now token = do
    c ← lib.verified now s.secret token
    if has_type "access" c then read_payload c else none

  -- The user and the session.
  unfoldable pub refresh_fields : Claims → Option (ℤ × String)
  refresh_fields c = do
    user ← lib.stoll c.subject
    session ← as_word (get_claim "session_id" c.payload)
    some (user, session)

  unfoldable pub verify_refresh_token : ℕ → lib.Token → Option (ℤ × String)
  verify_refresh_token now token = do
    c ← lib.verified now s.secret token
    if has_type "refresh" c then refresh_fields c else none
