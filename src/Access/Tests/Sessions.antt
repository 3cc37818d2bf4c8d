-- ===== src/Access/Tests/Sessions.antt =====
-- The theorems on tokens, sessions, routes and checks at a concrete library for tokens.
use Prim.Native.Char.{char, code}
use Prim.Native.String.{String}
use text.Mathlib.Text.{◌==◌ as str_eq}
use text.Mathlib.TextEquality.{eq_iff}
use mes_cpp.Base.{
  ℕ, zero, suc, ◌+◌, ◌≤◌, ◌<◌, ◌≡◌, refl, ap, Bool, true, false, ◌&&◌, Option, none, some, List, [],
  ◌∷◌, ◌++◌, if◌then◌else◌, ◌==◌, leb, ℤ, pos, negsuc, arith, to_int, to_int-pos, bits_of_int,
  int_of_bits, codes, length,
}
use mes_cpp.Access.Routes.{Routes, to_regex, literal, is_special}
use mes_cpp.Access.Routes as Routing
use mes_cpp.Access.Checks
use mes_cpp.Access.Routes.Patterns.{translation, to_regex_lem}
use mes_cpp.Access.Tokens.{
  Claims, JwtLibrary, JwtLaws, defaults, TokenPayload, sign_access_token, sign_refresh_token,
  verify_access_token, access_claims, has_type, read_payload, get_claim,
}
use mes_cpp.Access.Tokens.Apart.{verify-sign_access}
use mes_cpp.Access.Permissions.{permissions}
use mes_cpp.Audit.{bytes_eq}
use mes_cpp.Access.Sessions.{Sessions, last_set, refused, answer, begin_refresh, ends, run}
use mes_cpp.Access.Sessions.Replay.{RevokedSince, run-refuses_replay}
use mes_cpp.Access.Routes.Table.{route_table}
use mes_cpp.Access.Checks.{Request, Surroundings, Verdict, passes, handle}
use mes_cpp.Access.Checks.Reached.{Admitted, handle-Admitted}

-- Numbers by as many digits, with a sign; a token is its secret and its claims.
ones : ℕ → String
ones zero = String.[]
ones (suc n) = String.◌∷◌ (char 49 tt) (ones n)

count_ones : String → ℕ
count_ones String.[] = 0
count_ones (String.◌∷◌ c s) = suc (count_ones s)

whole_text : ℤ → String
whole_text (pos n) = String.◌∷◌ (char 43 tt) (ones n)
whole_text (negsuc n) = String.◌∷◌ (char 45 tt) (ones n)

text_whole : String → Option ℤ
text_whole String.[] = none
text_whole (String.◌∷◌ c s) =
    some (if code c == 43 then pos (count_ones s) else negsuc (count_ones s))

count_ones-ones : (n : ℕ) → count_ones (ones n) ≡ n
unfolding count_ones ones
count_ones-ones zero = refl
count_ones-ones (suc n) = ap suc (count_ones-ones n)

text_whole-whole_text : (n : ℤ) → text_whole (whole_text n) ≡ some n
unfolding text_whole whole_text
text_whole-whole_text (pos n) = ap (λ k. some (pos k)) (count_ones-ones n)
text_whole-whole_text (negsuc n) = ap (λ k. some (negsuc k)) (count_ones-ones n)

abbrev no_claims : Claims
no_claims = record { subject = ""; payload = []; issued_at = 0; expires_at = 0; id = none }

abbrev tokens : JwtLibrary
tokens = record {
  Token = String × Claims;
  token_of = λ s. (s, no_claims);
  sign = λ secret c. (secret, c);
  verified = λ now secret t.
      if str_eq t.0 secret && (leb t.1.issued_at now && leb now t.1.expires_at)
      then some t.1
      else none;
  to_string = whole_text;
  stoll = text_whole;
}

tokens-laws : JwtLaws tokens
tokens-laws = record {
  verified-sign = λ now secret c l k. valid now secret c (same secret) l k;
  verified-expired = λ now secret c l. late now secret c (not_leb c.expires_at now l);
  stoll-to_string = text_whole-whole_text;
}
  where
    same : (s : String) → str_eq s s ≡ true
    same s = (eq_iff s s).1 refl

    not_leb : (e now : ℕ) → e < now → leb now e ≡ false
    not_leb e now l = ground arith

    valid :
        (now : ℕ) (secret : String) (c : Claims)
        → str_eq secret secret ≡ true
        → c.issued_at ≤ now
        → now ≤ c.expires_at
        → (if str_eq secret secret && (leb c.issued_at now && leb now c.expires_at)
            then some c
            else none)
          ≡ some c
    valid now secret c e l k = ground arith

    late :
        (now : ℕ) (secret : String) (c : Claims)
        → leb now c.expires_at ≡ false
        → (if str_eq secret secret && (leb c.issued_at now && leb now c.expires_at)
            then some c
            else none)
          ≡ none
    late now secret c h = ground arith

abbrev payload : TokenPayload
payload = record {
  user_id = pos 3;
  username = "a";
  dept_id = pos 0;
  roles = "r" ∷ [];
  data_scope = pos 2;
  custom_dept_ids = [];
  session_id = "s";
  jti = "j";
  iat = 0;
  exp = 0;
}

verify-sign_access_example :
    verify_access_token tokens defaults 20 (sign_access_token tokens defaults 10 payload)
    ≡ some (record payload { iat = 10; exp = 10 + 7200 })
verify-sign_access_example =
    verify-sign_access tokens defaults tokens-laws 10 20 payload (to_int-pos 2 (omega arith))
      (omega arith) (omega arith)

-- The routes of one path.
abbrev one_route : Routes
one_route = record {
  routes = record { pattern = codes "^/a$"; method = "GET"; perm = "p" } ∷ [];
  public_routes = [];
}

abbrev exact : String → List ℕ → Bool
exact path pattern = bytes_eq (94 ∷ codes path ++ 36 ∷ []) pattern

abbrev bearers : JwtLibrary
bearers = record {
  Token = String;
  token_of = λ s. s;
  sign = λ secret c. "t";
  verified =
      λ now secret t. if str_eq t "t" then some (access_claims tokens defaults 0 payload) else none;
  to_string = whole_text;
  stoll = text_whole;
}

abbrev surroundings : Surroundings
surroundings = record {
  now = 5;
  exists = λ session. some 0;
  permissions_of = λ user. some (permissions ("o" ∷ "p" ∷ []));
}

abbrev request : Request
request = record { path = "/a"; method = "GET"; authorization = "Bearer t" }

abbrev payload_read : TokenPayload
payload_read = record payload { exp = 7200 }

request_passes :
    handle exact bearers defaults one_route (pos 0) surroundings request
    ≡ passes (some payload_read)
unfolding handle Checks.jwt_check Checks.is_public Routing.is_public_path Checks.is_refresh
    Checks.check_token Checks.bearer_token verify_access_token has_type get_claim access_claims
    read_payload text_whole whole_text Checks.check_session Checks.rbac_check Checks.required
    Routing.get_permission Checks.check_permission Checks.has count_ones ones bits_of_int
    int_of_bits to_int bytes_eq codes
request_passes = refl

handle-Admitted_example :
    Admitted exact bearers defaults one_route (pos 0) surroundings request (some payload_read)
handle-Admitted_example =
    handle-Admitted exact bearers defaults one_route (pos 0) surroundings request
      (some payload_read) request_passes

-- The session is revoked at time 50, and one of its tokens comes again after a failed refresh.
abbrev revoked_session : Sessions
revoked_session = record { revoked = ("s", 50) ∷ []; passed = []; replies = [] }

revoked_since : RevokedSince 50 "s" revoked_session
unfolding last_set
revoked_since = (50, refl, omega arith)

run-refuses_replay_example :
    (msg : String) × (begin_refresh tokens defaults 70
        (sign_refresh_token tokens defaults 10 (pos 3) "s")
        true
        (run tokens defaults revoked_session (ends 60 "o" none ∷ []))
      ≡ answer (refused 401 msg) (run tokens defaults revoked_session (ends 60 "o" none ∷ [])))
run-refuses_replay_example =
    run-refuses_replay tokens defaults 50 "s" tokens-laws (omega arith) revoked_session
      (ends 60 "o" none ∷ []) revoked_since (omega arith, tt) 10 70 (pos 3) (omega arith)
      (omega arith)

to_regex_lem_example :
    ((ys : List ℕ)
      → translation false (codes "/u/{id}") ≡ some ys
      → to_regex (suc (length (codes "/u/{id}"))) (codes "/u/{id}") ≡ some (94 ∷ ys ++ 36 ∷ []))
    × (translation false (codes "/u/{id}") ≡ none → (n : ℕ) → to_regex n (codes "/u/{id}") ≡ none)
to_regex_lem_example = to_regex_lem (codes "/u/{id}")

-- Every brace of the table is closed.
closed : Option (List ℕ) → Bool
closed none = false
closed (some ys) = true

each_closed : List (String × String × String) → Bool
each_closed [] = true
each_closed (r ∷ rs) = closed (translation false (codes r.0)) && each_closed rs

table_closed : each_closed route_table ≡ true
unfolding each_closed closed translation codes literal is_special
table_closed = refl
