-- ===== src/Access/Scope.antt =====
-- The scope of the data that a user sees: `mergeDataScope` of
-- mes-backend/src/utils/DataScopeFilter.hh, and the cache of merged scopes of
-- mes-backend/src/services/RbacService.cc. What the database gives is an input; times are in seconds.
pub mod Widest
pub mod Cached
use mes_cpp.Base.{
  ℕ, ◌+◌, Bool, true, false, ◌&&◌, not, Option, none, some, List, [], ◌∷◌, ◌++◌, String,
  if◌then◌else◌, ltb, ℤ, pos, eqb_ℤ, ltb_ℤ, map, any_row,
}

abbrev pub is_empty : List ℤ → Bool
is_empty [] = true
is_empty (s ∷ ss) = false

-- 1 own, 2 department, 3 department and below, 4 all, 5 chosen departments
unfoldable pub merge_loop : Bool → ℤ → List ℤ → ℤ
merge_loop empty widest [] = if ltb_ℤ (pos 0) widest then widest else if empty then pos 1 else pos 5
merge_loop empty widest (s ∷ ss) =
    let rest =
      merge_loop empty (if not (eqb_ℤ s (pos 5)) && ltb_ℤ widest s then s else widest) ss in
    if eqb_ℤ s (pos 4) then pos 4 else rest

unfoldable pub merge_data_scope : List ℤ → ℤ
merge_data_scope scopes = merge_loop (is_empty scopes) (pos 0) scopes

pub record ScopeResult : Type 0 where
  pub data_scope : ℤ
  pub custom_dept_ids : List ℤ
  pub role_codes : List String

-- g_scopeCache, with the time that each entry expires
abbrev pub ScopeCache : Type 0
ScopeCache = List (ℤ × ScopeResult × ℕ)

unfoldable pub find_scope : ℤ → ScopeCache → Option (ScopeResult × ℕ)
find_scope user [] = none
find_scope user ((u, scope, expire) ∷ cache) =
    let rest = find_scope user cache in if eqb_ℤ u user then some (scope, expire) else rest

unfoldable pub erase_scope : ℤ → ScopeCache → ScopeCache
erase_scope user [] = []
erase_scope user ((u, scope, expire) ∷ cache) =
    let rest = erase_scope user cache in if eqb_ℤ u user then rest else (u, scope, expire) ∷ rest

abbrev pub fresh_entry :
    ℕ → ℤ → ScopeCache → Option (ScopeResult × ℕ) → Option ScopeResult × ScopeCache
fresh_entry now user cache none = (none, cache)
fresh_entry now user cache (some (scope, expire)) =
    if ltb expire now then (none, erase_scope user cache) else (some scope, cache)

-- `loadMergedScopeAsync` until it asks the database: the scope that it answers at once, where there is
-- one, and the cache.
unfoldable pub cached_scope : ℕ → ℤ → ScopeCache → Option ScopeResult × ScopeCache
cached_scope now user cache = fresh_entry now user cache (find_scope user cache)

-- The rows of the user's roles, each with its code and its scope, and the departments of the second
-- query, which is made for the merged scope 5.
unfoldable pub merged_scope : List (String × ℤ) → List ℤ → ScopeResult
merged_scope roles depts = record {
  data_scope = merge_data_scope (map (λ (r : String × ℤ). r.1) roles);
  custom_dept_ids =
      if eqb_ℤ (merge_data_scope (map (λ (r : String × ℤ). r.1) roles)) (pos 5)
        && any_row (λ (r : String × ℤ). eqb_ℤ r.1 (pos 5)) roles
      then depts
      else [];
  role_codes = map (λ (r : String × ℤ). r.0) roles;
}

unfoldable pub store_scope : ℕ → ℤ → ScopeResult → ScopeCache → ScopeCache
store_scope now user scope cache = (user, scope, now + 60) ∷ erase_scope user cache

-- `invalidateUserPerm`, as far as this cache goes
unfoldable pub invalidate_scope : ℤ → ScopeCache → ScopeCache
invalidate_scope user cache = erase_scope user cache
