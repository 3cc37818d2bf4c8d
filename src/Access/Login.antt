-- ===== src/Access/Login.antt =====
-- Logins by password (`login`, `handleVerified` and the cache of verified passwords of
-- mes-backend/src/services/AuthService.cc, and mes-backend/src/utils/CryptoUtils.hh). The libraries for
-- bcrypt and SHA-256 are parameters; times are in seconds.
pub mod Lockout
pub mod Cached
pub mod Attempts
pub mod Earned
use Prim.Native.String.{char_at, ◌++◌ as add_text}
use text.Mathlib.Text.{◌==◌ as str_eq}
use mes_cpp.Base.{
  ℕ, zero, suc, ◌+◌, ◌/◌, ◌%◌, Bool, true, false, Option, none, some, List, [], ◌∷◌, ◌++◌, String,
  ◌==◌, if◌then◌else◌, ◌||◌, ltb, leb, ℤ, eqb_ℤ, length, find_row, update_rows, get_elem?,
}

pub record CryptoLibrary : Type 0 where
  -- `BCrypt::validatePassword`; `none` for an exception
  pub validate_password : String → String → Option Bool
  -- the bytes of `SHA256`
  pub sha256 : String → List ℕ

-- The columns of sys_users that a login reads and writes.
pub record User : Type 0 where
  pub id : ℤ
  pub username : String
  pub password_hash : String
  pub status : ℕ
  pub deleted : Bool
  pub login_fail_count : ℕ

-- g_verifyCache, with the time that each key expires
abbrev pub VerifyCache : Type 0
VerifyCache = List (String × ℕ)

unfoldable pub hex : List ℕ → String
hex [] = String.[]
hex (c ∷ cs) =
    String.◌∷◌ (char_at "0123456789abcdef" (c / 16))
      (String.◌∷◌ (char_at "0123456789abcdef" (c % 16)) (hex cs))

unfoldable pub find_key : String → VerifyCache → Option ℕ
find_key key [] = none
find_key key ((k, e) ∷ cache) =
    let rest = find_key key cache in if str_eq k key then some e else rest

unfoldable pub erase_key : String → VerifyCache → VerifyCache
erase_key key [] = []
erase_key key ((k, e) ∷ cache) =
    let rest = erase_key key cache in if str_eq k key then rest else (k, e) ∷ rest

-- Whether the key is there, and what is left of the cache.
unfoldable pub verify_cache_get : ℕ → String → VerifyCache → Bool × VerifyCache
verify_cache_get now key cache = elim (find_key key cache) [
  | none ↦ (false, cache)
  | some e ↦ if ltb e now then (false, erase_key key cache) else (true, cache)
]

abbrev pub cache_max : ℕ
cache_max = 10000

unfoldable pub verify_cache_put : ℕ → String → VerifyCache → VerifyCache
verify_cache_put now key cache =
    (key, now + 60) ∷ erase_key key (if leb cache_max (length cache) then [] else cache)

module _ (lib : CryptoLibrary) where
  unfoldable pub sha256_hex : String → String
  sha256_hex text = hex (lib.sha256 text)

  unfoldable pub verify_password : String → String → Bool
  verify_password plain hash = elim (lib.validate_password plain hash) [ none ↦ false | some b ↦ b ]

  unfoldable pub cache_key : String → String → String → String → String
  cache_key username ip password hash = add_text username (
      add_text "|"
        (add_text ip (add_text "|" (add_text (sha256_hex password) (add_text "|" hash)))))

abbrev pub has_id : ℤ → User → Bool
has_id id u = eqb_ℤ u.id id

-- `handleVerified` on the table: the two UPDATE statements.
unfoldable pub count_failure : User → User
count_failure u = record u {
  login_fail_count = u.login_fail_count + 1;
  status = if leb 5 (u.login_fail_count + 1) then 2 else u.status;
}

unfoldable pub count_success : User → User
count_success u = record u { login_fail_count = 0 }

unfoldable pub record_verified : ℤ → Bool → List User → List User
record_verified id true users = update_rows (has_id id) count_success users
record_verified id false users = update_rows (has_id id) count_failure users

-- What `login` answers; on `granted` the server goes on to the scope and the tokens.
pub data Reply : Type 0 where
  refused : ℕ → String → Reply
  granted : ℤ → Reply

abbrev pub verified_reply : ℤ → Bool → Reply
verified_reply id true = granted id
verified_reply id false = refused 401 "用户名或密码错误"

-- A password that a worker thread is to verify, for the row as it was read.
pub record Job : Type 0 where
  pub request : ℕ
  pub user : User
  pub ip : String
  pub password : String
  pub key : String

pub record Server : Type 0 where
  pub users : List User
  pub cache : VerifyCache
  pub jobs : List Job
  pub replies : List (ℕ × Reply)

abbrev pub reply : ℕ → Reply → Server → Server
reply request r s = record s { replies = s.replies ++ (request, r) ∷ [] }

unfoldable pub handle_verified : ℕ → ℤ → Bool → Server → Server
handle_verified request id ok s =
    reply request (verified_reply id ok) (record s { users = record_verified id ok s.users })

pub record Attempt : Type 0 where
  pub request : ℕ
  pub username : String
  pub password : String
  pub ip : String

-- The tests of `login` on the row.
unfoldable pub refusal : User → Option Reply
refusal u =
    if u.deleted
    then some (refused 401 "用户名或密码错误")
    else if u.status == 0
    then some (refused 403 "账号已禁用")
    else if u.status == 2
    then some (refused 403 "账号已锁定")
    else none

unfoldable pub drop_job : ℕ → List Job → List Job
drop_job n [] = []
drop_job zero (j ∷ js) = js
drop_job (suc n) (j ∷ js) = j ∷ drop_job n js

pub data Event : Type 0 where
  logs_in : ℕ → Attempt → Event
  finishes : ℕ → ℕ → Event

module _ (lib : CryptoLibrary) where
  -- The cache decides, or the password goes to a worker.
  unfoldable pub try_cache : ℕ → Attempt → User → Server → Server
  try_cache now a u s =
      let key = cache_key lib a.username a.ip a.password u.password_hash in
      let got = verify_cache_get now key s.cache in
      if got.0
      then handle_verified a.request u.id true (record s { cache = got.1 })
      else (record s {
        cache = got.1;
        jobs =
            s.jobs
            ++ record { request = a.request; user = u; ip = a.ip; password = a.password; key = key }
              ∷ [];
      })

  -- `login` without a captcha, on the row that the SELECT by name finds.
  unfoldable pub login : ℕ → Attempt → Server → Server
  login now a s =
      if str_eq a.username "" || str_eq a.password ""
      then reply a.request (refused 400 "用户名或密码不能为空") s
      else elim (find_row (λ (u : User). str_eq u.username a.username) s.users) [
        | none ↦ reply a.request (refused 401 "用户名或密码错误") s
        | some u ↦ elim (refusal u) [ some r ↦ reply a.request r s | none ↦ try_cache now a u s ]
      ]

  -- A worker is done, and its result comes back.
  unfoldable pub finish_job : ℕ → Job → Server → Server
  finish_job now j s =
      let ok = verify_password lib j.password j.user.password_hash in
      handle_verified j.request j.user.id ok
        (record s { cache = if ok then verify_cache_put now j.key s.cache else s.cache })

  unfoldable pub step : Server → Event → Server
  step s (logs_in now a) = login now a s
  step s (finishes now n) = elim (get_elem? s.jobs n) [
    | none ↦ s
    | some j ↦ finish_job now j (record s { jobs = drop_job n s.jobs })
  ]

  unfoldable pub run : Server → List Event → Server
  run s [] = s
  run s (e ∷ es) = run (step s e) es
