-- ===== src/Access/Checks.antt =====
-- The checks that each request passes before its handler runs: `jwtCheck` and `rbacCheck` of
-- mes-backend/src/middlewares/CrossCutting.cc, in the order of `installCrossCutting`. Redis' answers
-- and the permissions that the server finds for a user are inputs; std::regex and the library for
-- tokens are parameters, and so is the user number that drogon gives where a request has none.
pub mod Reached
use Prim.Native.String.{len, slice, ◌++◌ as add_text}
use text.Mathlib.Text.{◌==◌ as str_eq, starts_with}
use mes_cpp.Base.{
  ℕ, zero, suc, Bool, true, false, Option, none, some, List, [], ◌∷◌, String, if◌then◌else◌, ◌&&◌,
  leb, ltb, ℤ,
}
use mes_cpp.Access.Permissions.{Answer, permissions, failed}
use mes_cpp.Access.Routes.{Routes, get_permission, is_public_path}
use mes_cpp.Access.Tokens.{JwtLibrary, Settings, TokenPayload, verify_access_token}

pub record Request : Type 0 where
  pub path : String
  pub method : String
  pub authorization : String

-- What a request meets: the answer of EXISTS for a session, `none` for an exception, and the answer of
-- `getUserPermissionsAsync` for a user, `none` where there is none.
pub record Surroundings : Type 0 where
  pub now : ℕ
  pub exists : String → Option ℕ
  pub permissions_of : ℤ → Option Answer

-- The request goes on with its user, where it has one; or it is answered; or nothing answers it.
pub data Verdict : Type 0 where
  passes : Option TokenPayload → Verdict
  rejected : ℕ → String → Verdict
  unanswered : Verdict

unfoldable pub has : String → List String → Bool
has perm [] = false
has perm (p ∷ ps) = let rest = has perm ps in if str_eq p perm then true else rest

-- The header's token: `size() <= 7 || substr(0, 7) != "Bearer "`, and `substr(7)`.
unfoldable pub bearer_token : String → Option String
bearer_token header =
    if leb (len header) 7
    then none
    else if starts_with header "Bearer "
    then some (slice header 7 (len header))
    else none

unfoldable pub is_refresh : Request → Bool
is_refresh r = str_eq r.path "/api/v1/auth/refresh" && str_eq r.method "POST"

-- Steps 4 and 5 of `jwtCheck`.
unfoldable pub check_session : Surroundings → TokenPayload → Verdict
check_session env p = elim (env.exists p.session_id) [
  | none ↦ rejected 401 "认证服务暂不可用"
  | some n ↦ if ltb 0 n then rejected 401 "会话已注销" else passes (some p)
]

-- The answer to `getUserPermissionsAsync` in `rbacCheck`.
unfoldable pub check_permission : String → Option TokenPayload → Option Answer → Verdict
check_permission perm user none = unanswered
check_permission perm user (some failed) = rejected 500 "权限服务暂不可用"
check_permission perm user (some (permissions ps)) =
    if has perm ps then passes user else rejected 403 (add_text "无权限: " perm)

-- `attrs->get<int64_t>("current_user_id")`
abbrev pub user_id_of : ℤ → Option TokenPayload → ℤ
user_id_of no_user none = no_user
user_id_of no_user (some p) = p.user_id

module _ (regex_match : String → List ℕ → Bool) (lib : JwtLibrary) (s : Settings) (t : Routes)
    (no_user : ℤ) (env : Surroundings) where
  unfoldable pub is_public : Request → Bool
  is_public r = is_public_path regex_match t.public_routes r.path r.method

  unfoldable pub check_token : Option String → Verdict
  check_token none = rejected 401 "缺少认证令牌"
  check_token (some token) = elim (verify_access_token lib s env.now (lib.token_of token)) [
    | none ↦ rejected 401 "令牌无效或已过期"
    | some p ↦ check_session env p
  ]

  unfoldable pub jwt_check : Request → Verdict
  jwt_check r =
      if is_public r
      then passes none
      else if is_refresh r
      then passes none
      else check_token (bearer_token r.authorization)

  unfoldable pub required : Request → String
  required r = get_permission regex_match t.routes r.path r.method

  unfoldable pub rbac_check : Request → Option TokenPayload → Verdict
  rbac_check r user =
      if is_public r
      then passes user
      else if str_eq (required r) ""
      then rejected 403 "路由未配置权限映射"
      else if str_eq (required r) "auth:bearer"
      then passes user
      else check_permission (required r) user (env.permissions_of (user_id_of no_user user))

  -- The chain of advice: the second check runs where the first calls `accb`.
  unfoldable pub handle : Request → Verdict
  handle r = elim (jwt_check r) [
    | passes user ↦ rbac_check r user
    | rejected code msg ↦ rejected code msg
    | unanswered ↦ unanswered
  ]
