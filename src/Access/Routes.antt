-- ===== src/Access/Routes.antt =====
-- The routes and the permissions that they ask for
-- (mes-backend/src/middlewares/perm_routes.cc). Texts that are walked are lists of their
-- characters' codes; std::regex is a parameter.
pub mod Table
pub mod Patterns
use text.Mathlib.Text.{◌==◌ as str_eq}
use mes_cpp.Base.{
  ℕ, zero, suc, Bool, true, false, Option, none, some, List, [], ◌∷◌, ◌++◌, String, ◌==◌,
  if◌then◌else◌, codes, ◌&&◌,
}
use mes_cpp.Access.Routes.Table.{route_table, public_table}

-- `std::string(".^$|()[]*+?\\").find(c) != npos`
unfoldable pub is_special : ℕ → List ℕ → Bool
is_special c [] = false
is_special c (s ∷ specials) = let rest = is_special c specials in if s == c then true else rest

abbrev pub specials : List ℕ
specials = 46 ∷ 94 ∷ 36 ∷ 124 ∷ 40 ∷ 41 ∷ 91 ∷ 93 ∷ 42 ∷ 43 ∷ 63 ∷ 92 ∷ []

-- `[^/]+`
abbrev pub segment : List ℕ
segment = 91 ∷ 94 ∷ 47 ∷ 93 ∷ 43 ∷ []

unfoldable pub literal : ℕ → List ℕ
literal c = if is_special c specials then 92 ∷ c ∷ [] else c ∷ []

-- What stands after the first `}`: `pathPattern.find('}', i)` and `end + 1`.
unfoldable pub after_brace : List ℕ → Option (List ℕ)
after_brace [] = none
after_brace (c ∷ cs) = let rest = after_brace cs in if c == 125 then some cs else rest

-- One turn: where the loop goes on, and what it adds. Without a `}`, `end + 1` is 0.
unfoldable pub turn : List ℕ → ℕ → List ℕ → List ℕ × List ℕ
turn pattern c cs =
    if c == 123
    then (elim (after_brace (c ∷ cs)) [ none ↦ pattern | some rest ↦ rest ], segment)
    else (cs, literal c)

-- The loop of `toRegex`, on fuel.
unfoldable pub to_regex_loop : ℕ → List ℕ → List ℕ → List ℕ → Option (List ℕ)
to_regex_loop zero pattern cs out = none
to_regex_loop (suc n) pattern [] out = some (out ++ 36 ∷ [])
to_regex_loop (suc n) pattern (c ∷ cs) out =
    to_regex_loop n pattern (turn pattern c cs).0 (out ++ (turn pattern c cs).1)

abbrev pub to_regex : ℕ → List ℕ → Option (List ℕ)
to_regex n pattern = to_regex_loop n pattern pattern (94 ∷ [])

pub record RoutePerm : Type 0 where
  pub pattern : List ℕ
  pub method : String
  pub perm : String

-- g_routes and g_public
pub record Routes : Type 0 where
  pub routes : List RoutePerm
  pub public_routes : List (List ℕ × String)

-- The loops are on fuel; `none` is a loop that has not ended.
unfoldable pub add : ℕ → String × String × String → Routes → Option Routes
add n (path, method, perm) t = elim (to_regex n (codes path)) [
  | none ↦ none
  | some pattern ↦ some (record t {
    routes = t.routes ++ record { pattern = pattern; method = method; perm = perm } ∷ [];
  })
]

unfoldable pub add_public : ℕ → String × String → Routes → Option Routes
add_public n (path, method) t = elim (to_regex n (codes path)) [
  | none ↦ none
  | some pattern ↦ some (record t { public_routes = t.public_routes ++ (pattern, method) ∷ [] })
]

unfoldable pub add_each : ℕ → List (String × String × String) → Routes → Option Routes
add_each n [] t = some t
add_each n (r ∷ rs) t = elim (add n r t) [ none ↦ none | some u ↦ add_each n rs u ]

unfoldable pub add_public_each : ℕ → List (String × String) → Routes → Option Routes
add_public_each n [] t = some t
add_public_each n (r ∷ rs) t = elim (add_public n r t) [
  | none ↦ none
  | some u ↦ add_public_each n rs u
]

unfoldable pub init : ℕ → Option Routes
init n = elim (add_public_each n public_table (record { routes = []; public_routes = [] })) [
  | none ↦ none
  | some t ↦ add_each n route_table t
]

-- `std::regex_match`
module _ (regex_match : String → List ℕ → Bool) where
  unfoldable pub get_permission : List RoutePerm → String → String → String
  get_permission [] path method = ""
  get_permission (r ∷ rs) path method =
      let rest = get_permission rs path method in
      if str_eq r.method method && regex_match path r.pattern then r.perm else rest

  unfoldable pub is_public_path : List (List ℕ × String) → String → String → Bool
  is_public_path [] path method = false
  is_public_path ((pattern, m) ∷ rs) path method =
      let rest = is_public_path rs path method in
      if str_eq m method && regex_match path pattern then true else rest
