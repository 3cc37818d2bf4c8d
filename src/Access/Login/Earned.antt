-- ===== src/Access/Login/Earned.antt =====
-- For whom a login is granted (mes-backend/src/services/AuthService.cc).
use text.Mathlib.Text.{◌==◌ as str_eq}
use mes_cpp.Base.{
  ◌∙◌, ap, sym, ℕ, zero, suc, ◌≡◌, refl, inl, inr, true, Option, none, some, List, [], ◌∷◌, String,
  ◌||◌, ℤ, arith, Bool-cases, Option-cases, subst, All, All-append, find_row, get_elem?,
}
use mes_cpp.Access.Login.{
  CryptoLibrary, verify_cache_get, verify_password, cache_key, handle_verified, User, Reply,
  refused, granted, reply, Job, Server, Attempt, refusal, try_cache, login, drop_job, finish_job,
  Event, logs_in, finishes, step, run,
}
use mes_cpp.Access.Login.Cached.{
  credentials, cache_key_lem, Earned, EarnedCache, verify_cache_get-Earned, verify_cache_get-hit,
  verify_cache_put-Earned,
}
use mes_cpp.Access.Login.Attempts.{Finds, BeginsAt, Began, refusal-Finds}

-- `B` holds of the attempts that have begun, each with the row that it found.
module _ (lib : CryptoLibrary) (B : Attempt → User → Type 0) where
  -- A job is that of an attempt, on the row that the attempt found.
  pub record Keyed (j : Job) : Type 0 where
    pub attempt : Attempt
    pub began : B attempt j.user
    pub request : j.request ≡ attempt.request
    pub key_of :
        j.key ≡ cache_key lib attempt.username attempt.ip attempt.password j.user.password_hash
    pub password : j.password ≡ attempt.password

  -- The request's own attempt found the user's row, and its credentials are those of a password that
  -- bcrypt accepted.
  pub record Entitled (request : ℕ) (id : ℤ) : Type 0 where
    pub attempt : Attempt
    pub own : attempt.request ≡ request
    pub user : User
    pub named : user.id ≡ id
    pub began : B attempt user
    pub earned :
        Earned lib (credentials lib attempt.username attempt.ip attempt.password user.password_hash)

  abbrev pub Justified : ℕ → Reply → Type 0
  Justified request (refused code msg) = Unit
  Justified request (granted id) = Entitled request id

  pub record Sound (s : Server) : Type 0 where
    pub cached : EarnedCache lib s.cache
    pub keyed : All Keyed s.jobs
    pub justified : All (λ (r : ℕ × Reply). Justified r.0 r.1) s.replies

  drop_job-Keyed : (n : ℕ) (js : List Job) → All Keyed js → All Keyed (drop_job n js)
  unfolding drop_job
  drop_job-Keyed n [] h = tt
  drop_job-Keyed zero (j ∷ js) h = h.1
  drop_job-Keyed (suc n) (j ∷ js) h = (h.0, drop_job-Keyed n js h.1)

  get_elem?-Keyed :
      (n : ℕ) (js : List Job) (j : Job) → All Keyed js → get_elem? js n ≡ some j → Keyed j
  get_elem?-Keyed n [] j h e = cc e
  get_elem?-Keyed zero (x ∷ js) j h e = subst Keyed (some_eq e) h.0
    where
      some_eq : {p q : Job} → some p ≡ some q → p ≡ q
      some_eq h = cc h
  get_elem?-Keyed (suc n) (x ∷ js) j h e = get_elem?-Keyed n js j h.1 e

  reply-Sound :
      (request : ℕ) (r : Reply) (s : Server)
      → Justified request r
      → Sound s
      → Sound (reply request r s)
  reply-Sound request r s j v = record {
    cached = v.cached;
    keyed = v.keyed;
    justified =
        All-append (λ (q : ℕ × Reply). Justified q.0 q.1) s.replies ((request, r) ∷ []) v.justified
          (j, tt);
  }

  try_cache-Sound :
      (now : ℕ) (a : Attempt) (u : User) (s : Server)
      → B a u
      → Sound s
      → Sound (try_cache lib now a u s)
  unfolding try_cache handle_verified
  try_cache-Sound now a u s f v = elim (Bool-cases (verify_cache_get now key s.cache).0) [
    | inl hit ↦ rw hit (
        reply-Sound a.request (granted u.id) _
          (record {
            attempt = a;
            own = refl;
            user = u;
            named = refl;
            began = f;
            earned =
                subst (Earned lib) (cache_key_lem lib a.username a.ip a.password u.password_hash)
                  (verify_cache_get-hit lib now key s.cache v.cached hit);
          })
          (record { cached = left; keyed = v.keyed; justified = v.justified }))
    | inr miss ↦ rw miss (record {
      cached = left;
      keyed =
          All-append Keyed s.jobs _ v.keyed
            (record { attempt = a; began = f; request = refl; key_of = refl; password = refl }, tt);
      justified = v.justified;
    })
  ]
    where
      key : String
      key = cache_key lib a.username a.ip a.password u.password_hash

      left : EarnedCache lib (verify_cache_get now key s.cache).1
      left = verify_cache_get-Earned lib now key s.cache v.cached

  refusal-Justified :
      (request : ℕ) (u : User) (r : Reply) → refusal u ≡ some r → Justified request r
  unfolding refusal
  refusal-Justified request u (refused code msg) e = tt
  refusal-Justified request u (granted id) e = absurd (ground arith)

  login-Sound :
      (now : ℕ) (a : Attempt) (s : Server)
      → ((u : User) → Finds s a u → B a u)
      → Sound s
      → Sound (login lib now a s)
  unfolding login
  login-Sound now a s begins v = elim (Bool-cases (str_eq a.username "" || str_eq a.password "")) [
    | inl e ↦ rw e (reply-Sound a.request _ s tt v)
    | inr e ↦ rw e (on_row (find_row (λ (u : User). str_eq u.username a.username) s.users) refl)
  ]
    where
      on_row :
          (o : Option User)
          → find_row (λ (u : User). str_eq u.username a.username) s.users ≡ o
          → Sound (elim o [
            | none ↦ reply a.request (refused 401 "用户名或密码错误") s
            | some u ↦ elim (refusal u) [
              | some r ↦ reply a.request r s
              | none ↦ try_cache lib now a u s
            ]
          ])
      on_row none f = reply-Sound a.request _ s tt v
      on_row (some u) f = elim (Option-cases (refusal u)) [
        | inl fits ↦ rw fits (try_cache-Sound now a u s (begins u (refusal-Finds s a u f fits)) v)
        | inr (r, e) ↦ rw e (reply-Sound a.request r s (refusal-Justified a.request u r e) v)
      ]

  finish_job-Sound :
      (now : ℕ) (j : Job) (s : Server) → Keyed j → Sound s → Sound (finish_job lib now j s)
  unfolding finish_job handle_verified
  finish_job-Sound now j s k v =
      elim (Bool-cases (verify_password lib j.password j.user.password_hash)) [
        | inl ok ↦ rw ok (
            reply-Sound j.request (granted j.user.id) _ (entitled ok) (record {
              cached =
                  verify_cache_put-Earned lib now j.key s.cache
                    (subst (Earned lib) (sym key_text) (earned ok)) v.cached;
              keyed = v.keyed;
              justified = v.justified;
            }))
        | inr wrong ↦ rw wrong (
            reply-Sound j.request _ _ tt
              (record { cached = v.cached; keyed = v.keyed; justified = v.justified }))
      ]
    where
      a : Attempt
      a = k.attempt

      key_text : j.key ≡ credentials lib a.username a.ip a.password j.user.password_hash
      key_text = k.key_of ∙ cache_key_lem lib a.username a.ip a.password j.user.password_hash

      earned :
          verify_password lib j.password j.user.password_hash ≡ true
          → Earned lib (credentials lib a.username a.ip a.password j.user.password_hash)
      earned ok = record {
        username = a.username;
        ip = a.ip;
        password = a.password;
        hash = j.user.password_hash;
        key_of = refl;
        accepted = ap (λ p. verify_password lib p j.user.password_hash) (sym k.password) ∙ ok;
      }

      entitled :
          verify_password lib j.password j.user.password_hash ≡ true → Entitled j.request j.user.id
      entitled ok = record {
        attempt = a;
        own = sym k.request;
        user = j.user;
        named = refl;
        began = k.began;
        earned = earned ok;
      }

  step-Sound :
      (s : Server) (e : Event)
      → ((a : Attempt) (u : User) → BeginsAt s e a u → B a u)
      → Sound s
      → Sound (step lib s e)
  unfolding step
  step-Sound s (logs_in now a) begins v = login-Sound now a s (λ u f. begins a u (refl, f)) v
  step-Sound s (finishes now n) begins v = elim (Option-cases (get_elem? s.jobs n)) [
    | inl e ↦ rw (e, step) v
    | inr (j, e) ↦
        rw (e, step)
          (finish_job-Sound now j _ (get_elem?-Keyed n s.jobs j v.keyed e) (record {
            cached = v.cached;
            keyed = drop_job-Keyed n s.jobs v.keyed;
            justified = v.justified;
          }))
  ]

  steps-Sound :
      (s : Server) (es : List Event)
      → ((a : Attempt) (u : User) → Began lib s es a u → B a u)
      → Sound s
      → Sound (run lib s es)
  unfolding run
  steps-Sound s [] begins v = v
  steps-Sound s (e ∷ es) begins v =
      steps-Sound (step lib s e) es (λ a u h. begins a u (inr h))
        (step-Sound s e (λ a u h. begins a u (inl h)) v)

module _ (lib : CryptoLibrary) where
  -- Whatever logins begin and whichever workers are done, in any order, from a server without jobs and
  -- answers whose cache holds only keys of accepted passwords. Each login that is granted has an attempt of
  -- that request among the events, which in the table at its time found by its name the row of the user
  -- that is granted, neither deleted nor disabled nor locked. The text of the attempt's name, address,
  -- password's digest and that row's hash is also that of some name, address, password's digest and hash
  -- where bcrypt accepted the password for the hash. So too each job is that of such an attempt, and each
  -- key in the cache is the text of an accepted password.
  pub run-Sound :
      (s : Server) (es : List Event)
      → s.jobs ≡ []
      → s.replies ≡ []
      → EarnedCache lib s.cache
      → Sound lib (Began lib s es) (run lib s es)
  run-Sound s es jobs replies cache =
      steps-Sound lib (Began lib s es) s es (λ a u h. h)
        (record {
          cached = cache;
          keyed = subst (All (Keyed lib (Began lib s es))) (sym jobs) tt;
          justified =
              subst (All (λ (r : ℕ × Reply). Justified lib (Began lib s es) r.0 r.1)) (sym replies)
                tt;
        })
