-- ===== src/Access/Sessions.antt =====
-- The refresh of a session and its end: `refresh` and `logout` of
-- mes-backend/src/services/AuthService.cc, and the session's time that
-- mes-backend/src/controllers/AuthController.cc gives. Redis' and the database's answers are inputs.
pub mod Replay
use text.Mathlib.Text.{◌==◌ as str_eq}
use mes_cpp.Base.{
  ℕ, zero, suc, ◌+◌, Bool, true, false, Option, none, some, List, [], ◌∷◌, ◌++◌, String,
  if◌then◌else◌, ltb, ℤ,
}
use mes_cpp.Access.Tokens.{JwtLibrary, Settings, verify_refresh_token}

abbrev pub revoke_ttl : ℕ
revoke_ttl = 604800

pub data Reply : Type 0 where
  issued : ℤ → Reply
  logged_out : Reply
  refused : ℕ → String → Reply

-- jwt:blacklist:*, each SET with its session and its time, the last one first; the refreshes that have
-- passed the test of the blacklist, and what was answered.
pub record Sessions : Type 0 where
  pub revoked : List (String × ℕ)
  pub passed : List (ℤ × String)
  pub replies : List Reply

-- The last SET of a session's key.
unfoldable pub last_set : String → List (String × ℕ) → Option ℕ
last_set session [] = none
last_set session ((s, t) ∷ sets) =
    let rest = last_set session sets in if str_eq s session then some t else rest

-- EXISTS
unfoldable pub exists : ℕ → String → List (String × ℕ) → Bool
exists now session sets = elim (last_set session sets) [
  | none ↦ false
  | some t ↦ ltb now (t + revoke_ttl)
]

-- `SET ... 1 EX 604800`; `written` is whether it succeeds.
abbrev pub revoke : Bool → ℕ → String → Sessions → Sessions
revoke true now session s = record s { revoked = (session, now) ∷ s.revoked }
revoke false now session s = s

abbrev pub answer : Reply → Sessions → Sessions
answer r s = record s { replies = s.replies ++ r ∷ [] }

unfoldable pub drop_passed : ℕ → List (ℤ × String) → List (ℤ × String)
drop_passed n [] = []
drop_passed zero (p ∷ ps) = ps
drop_passed (suc n) (p ∷ ps) = p ∷ drop_passed n ps

unfoldable pub nth_passed : ℕ → List (ℤ × String) → Option (ℤ × String)
nth_passed n [] = none
nth_passed zero (p ∷ ps) = some p
nth_passed (suc n) (p ∷ ps) = nth_passed n ps

-- What the SELECT of the user gives and then the load of the scope.
pub data Found : Type 0 where
  usable : Found
  unusable : Found
  database_error : String → Found

-- What a verified token's user and session lead to; `available` is whether Redis answers.
unfoldable pub on_claims : ℕ → Bool → Sessions → Option (ℤ × String) → Sessions
on_claims now available s none = answer (refused 401 "refresh_token 无效或已过期") s
on_claims now available s (some claims) =
    if available
    then (if exists now claims.1 s.revoked
        then answer (refused 401 "会话已注销") s
        else (record s { passed = s.passed ++ claims ∷ [] }))
    else answer (refused 500 "认证服务暂不可用") s

-- `refresh` until the blacklist is read.
unfoldable pub begin_refresh :
    (lib : JwtLibrary) → Settings → ℕ → lib.Token → Bool → Sessions → Sessions
begin_refresh lib config now token available s =
    on_claims now available s (verify_refresh_token lib config now token)

-- The rest of `refresh`, which issues the tokens and then revokes the old session.
unfoldable pub finish_refresh : ℕ → ℤ × String → Found → Bool → Sessions → Sessions
finish_refresh now claims usable written s =
    answer (issued claims.0) (revoke written now claims.1 s)
finish_refresh now claims unusable written s = answer (refused 401 "用户不存在或已禁用") s
finish_refresh now claims (database_error what) written s = answer (refused 500 what) s

-- `error` is Redis' error, where there is one.
unfoldable pub logout : ℕ → String → Option String → Sessions → Sessions
logout now session none s = answer logged_out (revoke true now session s)
logout now session (some error) s = answer (refused 500 error) s

pub data Event (Token : Type 0) : Type 0 where
  asks : ℕ → Token → Bool → Event Token
  goes_on : ℕ → ℕ → Found → Bool → Event Token
  ends : ℕ → String → Option String → Event Token

module _ (lib : JwtLibrary) (config : Settings) where
  unfoldable pub step : Sessions → Event lib.Token → Sessions
  step s (asks now token available) = begin_refresh lib config now token available s
  step s (goes_on now n found written) = elim (nth_passed n s.passed) [
    | none ↦ s
    | some claims ↦
        finish_refresh now claims found written (record s { passed = drop_passed n s.passed })
  ]
  step s (ends now session error) = logout now session error s

  unfoldable pub run : Sessions → List (Event lib.Token) → Sessions
  run s [] = s
  run s (e ∷ es) = run (step s e) es
