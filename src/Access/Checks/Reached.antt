-- ===== src/Access/Checks/Reached.antt =====
-- Which requests reach their handler (mes-backend/src/middlewares/CrossCutting.cc).
use Prim.Native.String.{◌++◌ as add_text}
use text.Mathlib.Text.{◌==◌ as str_eq}
use mes_cpp.Base.{
  ℕ, ◌≡◌, refl, subst, sym, inl, inr, ◌⊎◌, Bool, true, false, Option, none, some, List, String,
  if◌then◌else◌, ℤ, arith, Bool-cases,
}
use mes_cpp.Access.Permissions.{Answer, permissions, failed}
use mes_cpp.Access.Routes.{Routes}
use mes_cpp.Access.Tokens.{JwtLibrary, Settings, TokenPayload, verify_access_token}
use mes_cpp.Access.Checks.{
  Request, Surroundings, Verdict, passes, rejected, unanswered, has, bearer_token, is_refresh,
  check_session, check_permission, is_public, check_token, jwt_check, user_id_of, required,
  rbac_check, handle,
}

-- The permission that a route asks for is granted.
pub record Granted (env : Surroundings) (perm : String) (user : ℤ) : Type 0 where
  pub list : List String
  pub found : env.permissions_of user ≡ some (permissions list)
  pub holds : has perm list ≡ true

-- The header's token is valid, and its session is not revoked.
pub record Authenticated (lib : JwtLibrary) (s : Settings) (env : Surroundings) (header : String)
    (p : TokenPayload) : Type 0 where
  pub token : String
  pub given : bearer_token header ≡ some token
  pub valid : verify_access_token lib s env.now (lib.token_of token) ≡ some p
  pub live : env.exists p.session_id ≡ some 0

abbrev session_of : Surroundings → Option TokenPayload → Verdict
session_of env none = rejected 401 "令牌无效或已过期"
session_of env (some p) = check_session env p

module _ (regex_match : String → List ℕ → Bool) (lib : JwtLibrary) (s : Settings) (t : Routes)
    (no_user : ℤ) (env : Surroundings) where
  abbrev pub public_route : Request → Bool
  public_route = is_public regex_match lib s t no_user env

  abbrev pub perm_of : Request → String
  perm_of = required regex_match lib s t no_user env

  -- The route asks for a permission, and asks for a session alone or for one that the user has.
  abbrev pub Permitted : Request → ℤ → Type 0
  Permitted r user =
      (str_eq (perm_of r) "" ≡ false)
      × ((str_eq (perm_of r) "auth:bearer" ≡ true) ⊎ Granted env (perm_of r) user)

  -- What is known of a request that reaches its handler, with or without a user.
  abbrev pub Admitted : Request → Option TokenPayload → Type 0
  Admitted r none = (public_route r ≡ true) ⊎ ((is_refresh r ≡ true) × Permitted r no_user)
  Admitted r (some p) = Authenticated lib s env r.authorization p × Permitted r p.user_id

  check_session-passes :
      (p : TokenPayload) (user : Option TokenPayload)
      → check_session env p ≡ passes user
      → (user ≡ some p) × (env.exists p.session_id ≡ some 0)
  unfolding check_session
  check_session-passes p user h = ground arith

  payload_passes :
      (header token : String) (user : Option TokenPayload)
      → bearer_token header ≡ some token
      → (o : Option TokenPayload) → verify_access_token lib s env.now (lib.token_of token) ≡ o
      → session_of env o ≡ passes user
      → (p : TokenPayload) × (user ≡ some p) × Authenticated lib s env header p
  payload_passes header token user g none v h = cc h
  payload_passes header token user g (some p) v h =
      let (same, live) = check_session-passes p user h in
      (p, same, record { token = token; given = g; valid = v; live = live })

  token_passes :
      (header : String) (user : Option TokenPayload)
      → (o : Option String) → bearer_token header ≡ o
      → check_token regex_match lib s t no_user env o ≡ passes user
      → (p : TokenPayload) × (user ≡ some p) × Authenticated lib s env header p
  unfolding check_token
  token_passes header user none g h = cc h
  token_passes header user (some token) g h =
      payload_passes header token user g (verify_access_token lib s env.now (lib.token_of token))
        refl h

  -- What `jwtCheck` lets pass.
  abbrev Known : Request → Option TokenPayload → Type 0
  Known r user =
      ((public_route r ≡ true) × (user ≡ none))
      ⊎ (((is_refresh r ≡ true) × (user ≡ none))
          ⊎ ((public_route r ≡ false)
              × ((p : TokenPayload) × (user ≡ some p) × Authenticated lib s env r.authorization p)))

  jwt_check-Known :
      (r : Request) (user : Option TokenPayload)
      → jwt_check regex_match lib s t no_user env r ≡ passes user
      → Known r user
  unfolding jwt_check
  jwt_check-Known r user h = elim (Bool-cases (public_route r)) [
    | inl e ↦ inl (e, user_of e)
    | inr e ↦ elim (Bool-cases (is_refresh r)) [
      | inl f ↦ inr (inl (f, ground arith))
      | inr f ↦ inr (
          inr (
            e,
            token_passes r.authorization user (bearer_token r.authorization) refl (ground arith),
          ))
    ]
  ]
    where
      user_of : public_route r ≡ true → user ≡ none
      user_of e = ground arith

  check_permission-passes :
      (perm : String) (user v : Option TokenPayload) (id : ℤ)
      → check_permission perm user (env.permissions_of id) ≡ passes v
      → (v ≡ user) × Granted env perm id
  unfolding check_permission
  check_permission-passes perm user v id h = answered (env.permissions_of id) refl h
    where
      answered :
          (o : Option Answer)
          → env.permissions_of id ≡ o
          → check_permission perm user o ≡ passes v
          → (v ≡ user) × Granted env perm id
      answered none e k = cc k
      answered (some failed) e k = cc k
      answered (some (permissions ps)) e k =
          let (same, holds) = has_passes (has perm ps) k in
          (same, record { list = ps; found = e; holds = holds })
        where
          has_passes :
              (b : Bool)
              → (if b then passes user else rejected 403 (add_text "无权限: " perm)) ≡ passes v
              → (v ≡ user) × (b ≡ true)
          has_passes true k = (ground arith, refl)
          has_passes false k = cc k

  rbac_check-passes :
      (r : Request) (user v : Option TokenPayload)
      → rbac_check regex_match lib s t no_user env r user ≡ passes v
      → (v ≡ user) × ((public_route r ≡ true) ⊎ Permitted r (user_id_of no_user user))
  unfolding rbac_check
  rbac_check-passes r user v h = elim (Bool-cases (public_route r)) [
    | inl e ↦ (ground arith, inl e)
    | inr e ↦ elim (Bool-cases (str_eq (perm_of r) "")) [
      | inl f ↦ absurd (ground arith)
      | inr f ↦ elim (Bool-cases (str_eq (perm_of r) "auth:bearer")) [
        | inl g ↦ (ground arith, inr (f, inl g))
        | inr g ↦
            let (same, granted) =
              check_permission-passes (perm_of r) user v (user_id_of no_user user) (ground arith) in
            (same, inr (f, inr granted))
      ]
    ]
  ]

  -- What follows on a verdict of `jwtCheck`.
  abbrev next : Request → Verdict → Verdict
  next r (passes user) = rbac_check regex_match lib s t no_user env r user
  next r (rejected code msg) = rejected code msg
  next r unanswered = unanswered

  some_eq : {p q : TokenPayload} → some p ≡ some q → p ≡ q
  some_eq h = cc h

  -- A request reaches its handler without a user only on a public route, or where it is the request for
  -- a refresh and its route asks for a permission that is a session alone or is granted to the user of
  -- none. It reaches its handler with a user only where its header has a token that verifies as that
  -- user's access token, Redis answers that the session is not revoked, and its route asks for a
  -- permission that is a session alone or is in the list that is found for that user.
  pub handle-Admitted :
      (r : Request) (user : Option TokenPayload)
      → handle regex_match lib s t no_user env r ≡ passes user
      → Admitted r user
  unfolding handle
  handle-Admitted r user h = after (jwt_check regex_match lib s t no_user env r) refl h
    where
      admit :
          (u : Option TokenPayload)
          → Known r u
          → (public_route r ≡ true) ⊎ Permitted r (user_id_of no_user u)
          → Admitted r u
      admit none (inl (free, same)) k = inl free
      admit none (inr (inl (fresh, same))) (inl free) = inl free
      admit none (inr (inl (fresh, same))) (inr k) = inr (fresh, k)
      admit none (inr (inr (shut, (p, same, a)))) k = cc same
      admit (some p) (inl (free, same)) k = cc same
      admit (some p) (inr (inl (fresh, same))) k = cc same
      admit (some p) (inr (inr (shut, (q, same, a)))) (inl free) = cc (shut, free)
      admit (some p) (inr (inr (shut, (q, same, a)))) (inr k) = (
        subst (λ (o : TokenPayload). Authenticated lib s env r.authorization o) (sym (some_eq same))
            a,
        k,
      )

      after :
          (v : Verdict)
          → jwt_check regex_match lib s t no_user env r ≡ v
          → next r v ≡ passes user
          → Admitted r user
      after (passes u) e k =
          let (same, how) = rbac_check-passes r u user k in
          subst (Admitted r) (sym same) (admit u (jwt_check-Known r u e) how)
      after (rejected code msg) e k = cc k
      after unanswered e k = cc k
