-- ===== src/Access/Scope/Cached.antt =====
-- How long a merged scope is answered from the cache (mes-backend/src/services/RbacService.cc).
use mes_cpp.Base.{
  ℕ, ◌+◌, ◌≡◌, refl, ap, ◌∙◌, inl, inr, false, Option, none, some, [], ◌∷◌, if◌then◌else◌, ltb, ℤ,
  eqb_ℤ, arith, Bool-cases,
}
use mes_cpp.Access.Scope.{
  ScopeResult, ScopeCache, find_scope, erase_scope, fresh_entry, cached_scope, store_scope,
  invalidate_scope,
}

find_scope-erased :
    (user : ℤ) (cache : ScopeCache) → find_scope user (erase_scope user cache) ≡ none
unfolding find_scope erase_scope
find_scope-erased user [] = refl
find_scope-erased user ((u, scope, expire) ∷ cache) = elim (Bool-cases (eqb_ℤ u user)) [
  | inl own ↦ rw own (find_scope-erased user cache)
  | inr other ↦ rw (other, other) (find_scope-erased user cache)
]

find_scope-erased_other :
    (user other : ℤ) (cache : ScopeCache)
    → eqb_ℤ other user ≡ false
    → find_scope user (erase_scope other cache) ≡ find_scope user cache
unfolding find_scope erase_scope
find_scope-erased_other user other [] h = refl
find_scope-erased_other user other ((u, scope, expire) ∷ cache) h =
    ground (arith, find_scope-erased_other user other cache)

find_scope-store :
    (t : ℕ) (user : ℤ) (scope : ScopeResult) (cache : ScopeCache)
    → find_scope user (store_scope t user scope cache) ≡ some (scope, t + 60)
unfolding find_scope store_scope
find_scope-store t user scope cache = ground arith

find_scope-store_other :
    (t : ℕ) (user other : ℤ) (scope : ScopeResult) (cache : ScopeCache)
    → eqb_ℤ user other ≡ false
    → find_scope other (store_scope t user scope cache) ≡ find_scope other cache
unfolding find_scope store_scope
find_scope-store_other t user other scope cache h =
    rw h (find_scope-erased_other other user cache h)

-- What an entry answers does not depend on the rest of the cache.
answer_same :
    (now : ℕ) (user : ℤ) (c d : ScopeCache) (o : Option (ScopeResult × ℕ))
    → (fresh_entry now user c o).0 ≡ (fresh_entry now user d o).0
answer_same now user c d none = refl
answer_same now user c d (some (scope, expire)) = ground arith

entry_answer :
    (now : ℕ) (user : ℤ) (c : ScopeCache) (scope : ScopeResult) (expire : ℕ)
    → (fresh_entry now user c (some (scope, expire))).0
      ≡ (if ltb expire now then none else some scope)
entry_answer now user c scope expire = ground arith

-- A scope that was stored is what the cache answers its user for sixty seconds, and nothing after that;
-- nothing is answered once it is invalidated, and another user's answer is what it was.
pub cached-store :
    (t now : ℕ) (user other : ℤ) (scope : ScopeResult) (cache : ScopeCache)
    → ((cached_scope now user (store_scope t user scope cache)).0
        ≡ (if ltb (t + 60) now then none else some scope))
      × ((cached_scope now user (invalidate_scope user (store_scope t user scope cache))).0 ≡ none)
      × (eqb_ℤ user other ≡ false
          → (cached_scope now other (store_scope t user scope cache)).0
            ≡ (cached_scope now other cache).0)
unfolding cached_scope invalidate_scope
cached-store t now user other scope cache =
    let stored = store_scope t user scope cache in
    (
      ap (λ o. (fresh_entry now user stored o).0) (find_scope-store t user scope cache)
          ∙ entry_answer now user stored scope (t + 60),
      ap (λ o. (fresh_entry now user (erase_scope user stored) o).0)
          (find_scope-erased user stored),
      λ h.
          ap (λ o. (fresh_entry now other stored o).0)
            (find_scope-store_other t user other scope cache h)
          ∙ answer_same now other stored cache (find_scope other cache),
    )
