-- ===== src/Access/Sessions/Replay.antt =====
-- A refresh token of a session that was revoked (mes-backend/src/services/AuthService.cc).
use text.Mathlib.Text.{◌==◌ as str_eq}
use mes_cpp.Base.{
  ℕ, ◌+◌, ◌≤◌, ◌<◌, ◌≡◌, refl, ap, subst, sym, ◌∙◌, inl, inr, ◌⊎◌, Bool, true, false, Option, none,
  some, List, [], ◌∷◌, ◌++◌, String, if◌then◌else◌, ltb, ℤ, arith, Bool-cases, Option-cases, lt→ltb,
  All,
}
use mes_cpp.Access.Tokens.{
  JwtLibrary, JwtLaws, Settings, refresh_claims, sign_refresh_token, refresh_fields, has_type,
  get_claim, verify_refresh_token,
}
use mes_cpp.Access.Sessions.{
  revoke_ttl, refused, Sessions, last_set, exists, answer, nth_passed, Found, usable, unusable,
  database_error, on_claims, begin_refresh, finish_refresh, logout, Event, asks, goes_on, ends,
  step, run,
}

abbrev pub time_of : {Token : Type 0} → Event Token → ℕ
time_of (asks now token available) = now
time_of (goes_on now n found written) = now
time_of (ends now session error) = now

-- The session's key was last set at a time or after it.
abbrev pub RevokedSince : ℕ → String → Sessions → Type 0
RevokedSince t session s = (u : ℕ) × (last_set session s.revoked ≡ some u) × (t ≤ u)

set_since :
    (t now : ℕ) (session other : String) (sets : List (String × ℕ))
    → t ≤ now
    → ((u : ℕ) × (last_set session sets ≡ some u) × (t ≤ u))
    → (u : ℕ) × (last_set session ((other, now) ∷ sets) ≡ some u) × (t ≤ u)
unfolding last_set
set_since t now session other sets l (u, e, k) = elim (Bool-cases (str_eq other session)) [
  | inl same ↦ (now, rw same refl, l)
  | inr differs ↦ (u, rw differs e, k)
]

module _ (lib : JwtLibrary) (config : Settings) (t : ℕ) (session : String) where
  begin-RevokedSince :
      (now : ℕ) (token : lib.Token) (available : Bool) (s : Sessions)
      → RevokedSince t session s
      → RevokedSince t session (begin_refresh lib config now token available s)
  unfolding begin_refresh on_claims
  begin-RevokedSince now token available s r =
      subst (λ sets. (u : ℕ) × (last_set session sets ≡ some u) × (t ≤ u))
        (sym (begun (verify_refresh_token lib config now token))) r
    where
      tested :
          (a b : Bool) (c : ℤ × String)
          → (if a
              then (if b
                  then answer (refused 401 "会话已注销") s
                  else (record s { passed = s.passed ++ c ∷ [] }))
              else answer (refused 500 "认证服务暂不可用") s).revoked
            ≡ s.revoked
      tested true true c = refl
      tested true false c = refl
      tested false b c = refl

      begun : (o : Option (ℤ × String)) → (on_claims now available s o).revoked ≡ s.revoked
      begun none = refl
      begun (some claims) = tested available (exists now claims.1 s.revoked) claims

  finish-RevokedSince :
      (now : ℕ) (claims : ℤ × String) (found : Found) (written : Bool) (s : Sessions)
      → t ≤ now
      → RevokedSince t session s
      → RevokedSince t session (finish_refresh now claims found written s)
  unfolding finish_refresh
  finish-RevokedSince now claims usable true s l r = set_since t now session claims.1 s.revoked l r
  finish-RevokedSince now claims usable false s l r = r
  finish-RevokedSince now claims unusable written s l r = r
  finish-RevokedSince now claims (database_error what) written s l r = r

  step-RevokedSince :
      (s : Sessions) (e : Event lib.Token)
      → t ≤ time_of e
      → RevokedSince t session s
      → RevokedSince t session (step lib config s e)
  unfolding step logout
  step-RevokedSince s (asks now token available) l r = begin-RevokedSince now token available s r
  step-RevokedSince s (goes_on now n found written) l r =
      elim (Option-cases (nth_passed n s.passed)) [
        | inl e ↦ rw (e, step) r
        | inr (claims, e) ↦ rw (e, step) (finish-RevokedSince now claims found written _ l r)
      ]
  step-RevokedSince s (ends now other none) l r = set_since t now session other s.revoked l r
  step-RevokedSince s (ends now other (some error)) l r = r

  run-RevokedSince :
      (s : Sessions) (es : List (Event lib.Token))
      → All (λ (e : Event lib.Token). t ≤ time_of e) es
      → RevokedSince t session s
      → RevokedSince t session (run lib config s es)
  unfolding run
  run-RevokedSince s [] l r = r
  run-RevokedSince s (e ∷ es) l r =
      run-RevokedSince (step lib config s e) es l.1 (step-RevokedSince s e l.0 r)

  -- A session's refresh token whose time is over, or that gives its user and session.
  verify-sign_refresh :
      JwtLaws lib
      → (from now : ℕ) (user : ℤ) → from ≤ now
      → ((verify_refresh_token lib config now (sign_refresh_token lib config from user session)
            ≡ some (user, session))
          × (now ≤ from + config.refresh_ttl))
        ⊎ ((from + config.refresh_ttl < now)
            × (verify_refresh_token lib config now (sign_refresh_token lib config from user session)
                ≡ none))
  unfolding verify_refresh_token sign_refresh_token refresh_claims refresh_fields has_type get_claim
  verify-sign_refresh laws from now user l =
      elim (Bool-cases (ltb (from + config.refresh_ttl) now)) [
        | inl late ↦ inr (
          ground arith,
          rw
              (laws.verified-expired now config.secret (refresh_claims lib config from user session)
                (ground arith))
              refl,
        )
        | inr early ↦ inl (
            (
              rw
                  (
                    laws.verified-sign now config.secret
                        (refresh_claims lib config from user session) l (ground arith),
                    laws.stoll-to_string user,
                  )
                  refl,
              ground arith,
            ))
      ]

  exists-since :
      (now u : ℕ) (s : Sessions)
      → last_set session s.revoked ≡ some u
      → now < u + revoke_ttl
      → exists now session s.revoked ≡ true
  unfolding exists
  exists-since now u s e l = rw (e, exists) (lt→ltb now (u + revoke_ttl) l)

  refused_live :
      (now : ℕ) (user : ℤ) (s : Sessions)
      → exists now session s.revoked ≡ true
      → on_claims now true s (some (user, session)) ≡ answer (refused 401 "会话已注销") s
  unfolding on_claims
  refused_live now user s e = rw e refl

  expired :
      (now : ℕ) (s : Sessions)
      → on_claims now true s none ≡ answer (refused 401 "refresh_token 无效或已过期") s
  unfolding on_claims
  expired now s = refl

  -- A session was revoked at some time, by a refresh or by a logout, and after that whatever refreshes
  -- and logouts come, at that time or later: if the library for tokens does as it documents and refresh
  -- tokens live seven days at most, then each refresh token of the session that was signed before that
  -- time is refused from then on with 401 where Redis answers, and its request goes no further.
  pub run-refuses_replay :
      JwtLaws lib
      → config.refresh_ttl ≤ revoke_ttl
      → (s : Sessions) (es : List (Event lib.Token)) → RevokedSince t session s
      → All (λ (e : Event lib.Token). t ≤ time_of e) es
      → (from now : ℕ) (user : ℤ) → from < t
      → t ≤ now
      → (msg : String) × (begin_refresh lib config now
            (sign_refresh_token lib config from user session)
            true
            (run lib config s es)
          ≡ answer (refused 401 msg) (run lib config s es))
  unfolding begin_refresh
  run-refuses_replay laws ttl s es r later from now user l k =
      let (u, set, since) = run-RevokedSince s es later r in
      let after = run lib config s es in
      elim (verify-sign_refresh laws from now user (omega arith)) [
        | inl (valid, until) ↦ (
          "会话已注销",
          ap (on_claims now true after) valid
              ∙ refused_live now user after (exists-since now u after set (omega arith)),
        )
        | inr (late, gone) ↦
            ("refresh_token 无效或已过期", ap (on_claims now true after) gone ∙ expired now after)
      ]
