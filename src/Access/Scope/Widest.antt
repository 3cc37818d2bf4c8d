-- ===== src/Access/Scope/Widest.antt =====
-- The merged scope is the widest (mes-backend/src/utils/DataScopeFilter.hh).
use mes_cpp.Base.{
  ℕ, zero, suc, ◌≤◌, ◌<◌, ◌≡◌, refl, subst, sym, ◌∙◌, inl, inr, ◌⊎◌, true, false, List, [], ◌∷◌,
  map, if◌then◌else◌, ◌==◌, pos, arith, ltb, ltb→lt, Bool-cases, All, All-mono, any_row,
}
use mes_cpp.Access.Scope.{merge_loop, merge_data_scope}

-- A chosen set of departments counts less than the other scopes, and those count in their order.
abbrev pub rank : ℕ → ℕ
rank n = if n == 5 then 0 else n

abbrev pub Known : ℕ → Type 0
Known n = (1 ≤ n) × (n ≤ 5)

-- Some roles' scopes, the widest before them, 0 where there is none, and the merged scope.
record Merged (w : ℕ) (ns : List ℕ) : Type 0 where
  merged : ℕ
  is_merged : merge_loop false (pos w) (map pos ns) ≡ pos merged
  widest : All (λ n. rank n ≤ rank merged) ns
  above : w ≤ rank merged
  among :
      (any_row (λ n. n == merged) ns ≡ true)
      ⊎ (((merged ≡ w) × (1 ≤ w)) ⊎ ((w ≡ 0) × (merged ≡ 5) × (ns ≡ [])))

-- One more scope, with what the loop makes of it.
loop_all : (w : ℕ) (ns : List ℕ) → merge_loop false (pos w) (map pos (4 ∷ ns)) ≡ pos 4
unfolding merge_loop
loop_all w ns = ground arith

loop_chosen :
    (w : ℕ) (ns : List ℕ)
    → merge_loop false (pos w) (map pos (5 ∷ ns)) ≡ merge_loop false (pos w) (map pos ns)
unfolding merge_loop
loop_chosen w ns = ground arith

loop_wider :
    (w n : ℕ) (ns : List ℕ)
    → n ≤ 3
    → w < n
    → merge_loop false (pos w) (map pos (n ∷ ns)) ≡ merge_loop false (pos n) (map pos ns)
unfolding merge_loop
loop_wider w n ns l k = ground arith

loop_narrower :
    (w n : ℕ) (ns : List ℕ)
    → n ≤ 3
    → n ≤ w
    → merge_loop false (pos w) (map pos (n ∷ ns)) ≡ merge_loop false (pos w) (map pos ns)
unfolding merge_loop
loop_narrower w n ns l k = ground arith

rank-4 : (ns : List ℕ) → All Known ns → All (λ n. rank n ≤ rank 4) ns
rank-4 ns h = All-mono ns (λ n k. ground (arith, k)) h

head-among : (n : ℕ) (ns : List ℕ) → any_row (λ m. m == n) (n ∷ ns) ≡ true
unfolding any_row
head-among n ns = ground arith

tail-among :
    (m n : ℕ) (ns : List ℕ)
    → any_row (λ k. k == m) ns ≡ true
    → any_row (λ k. k == m) (n ∷ ns) ≡ true
unfolding any_row
tail-among m n ns h = ground arith

merge-nil : (w : ℕ) → w ≤ 3 → Merged w []
unfolding merge_loop
merge-nil zero l = record {
  merged = 5;
  is_merged = refl;
  widest = tt;
  above = omega arith;
  among = inr (inr (refl, refl, refl));
}
merge-nil (suc w) l = record {
  merged = suc w;
  is_merged = ground arith;
  widest = tt;
  above = ground arith;
  among = inr (inl (refl, omega arith));
}

merge-all : (w : ℕ) (ns : List ℕ) → w ≤ 3 → All Known ns → Merged w (4 ∷ ns)
merge-all w ns l h = record {
  merged = 4;
  is_merged = loop_all w ns;
  widest = (ground arith, rank-4 ns h);
  above = ground arith;
  among = inl (head-among 4 ns);
}

merge-chosen : (w : ℕ) (ns : List ℕ) → Merged w ns → Merged w (5 ∷ ns)
merge-chosen w ns m = record {
  merged = m.merged;
  is_merged = loop_chosen w ns ∙ m.is_merged;
  widest = (ground arith, m.widest);
  above = m.above;
  among = kept m.among;
}
  where
    kept :
        (any_row (λ n. n == m.merged) ns ≡ true)
          ⊎ (((m.merged ≡ w) × (1 ≤ w)) ⊎ ((w ≡ 0) × (m.merged ≡ 5) × (ns ≡ [])))
        → (any_row (λ n. n == m.merged) (5 ∷ ns) ≡ true)
          ⊎ (((m.merged ≡ w) × (1 ≤ w)) ⊎ ((w ≡ 0) × (m.merged ≡ 5) × (5 ∷ ns ≡ [])))
    kept (inl h) = inl (tail-among m.merged 5 ns h)
    kept (inr (inl h)) = inr (inl h)
    kept (inr (inr (z, five, nil))) =
        inl (subst (λ k. any_row (λ n. n == k) (5 ∷ ns) ≡ true) (sym five) (head-among 5 ns))

merge-wider : (w n : ℕ) (ns : List ℕ) → n ≤ 3 → w < n → Merged n ns → Merged w (n ∷ ns)
merge-wider w n ns l k m = record {
  merged = m.merged;
  is_merged = loop_wider w n ns l k ∙ m.is_merged;
  widest = (ground (arith, m.above), m.widest);
  above = omega (arith, m.above);
  among = kept m.among;
}
  where
    kept :
        (any_row (λ k. k == m.merged) ns ≡ true)
          ⊎ (((m.merged ≡ n) × (1 ≤ n)) ⊎ ((n ≡ 0) × (m.merged ≡ 5) × (ns ≡ [])))
        → (any_row (λ k. k == m.merged) (n ∷ ns) ≡ true)
          ⊎ (((m.merged ≡ w) × (1 ≤ w)) ⊎ ((w ≡ 0) × (m.merged ≡ 5) × (n ∷ ns ≡ [])))
    kept (inl h) = inl (tail-among m.merged n ns h)
    kept (inr (inl h)) =
        inl (subst (λ k. any_row (λ j. j == k) (n ∷ ns) ≡ true) (sym h.0) (head-among n ns))
    kept (inr (inr (z, five, nil))) = absurd (omega arith)

merge-narrower : (w n : ℕ) (ns : List ℕ) → 1 ≤ n → n ≤ 3 → n ≤ w → Merged w ns → Merged w (n ∷ ns)
merge-narrower w n ns p l k m = record {
  merged = m.merged;
  is_merged = loop_narrower w n ns l k ∙ m.is_merged;
  widest = (ground (arith, m.above), m.widest);
  above = m.above;
  among = kept m.among;
}
  where
    kept :
        (any_row (λ k. k == m.merged) ns ≡ true)
          ⊎ (((m.merged ≡ w) × (1 ≤ w)) ⊎ ((w ≡ 0) × (m.merged ≡ 5) × (ns ≡ [])))
        → (any_row (λ k. k == m.merged) (n ∷ ns) ≡ true)
          ⊎ (((m.merged ≡ w) × (1 ≤ w)) ⊎ ((w ≡ 0) × (m.merged ≡ 5) × (n ∷ ns ≡ [])))
    kept (inl h) = inl (tail-among m.merged n ns h)
    kept (inr (inl h)) = inr (inl h)
    kept (inr (inr (z, five, nil))) = absurd (omega arith)

merge-Merged : (w : ℕ) (ns : List ℕ) → w ≤ 3 → All Known ns → Merged w ns
merge-Merged w [] l h = merge-nil w l
merge-Merged w (n ∷ ns) l h = elim (Bool-cases (n == 4)) [
  | inl all ↦ subst (λ k. Merged w (k ∷ ns)) (ground arith) (merge-all w ns l h.1)
  | inr a ↦ elim (Bool-cases (n == 5)) [
    | inl chosen ↦
        subst (λ k. Merged w (k ∷ ns)) (ground arith) (merge-chosen w ns (merge-Merged w ns l h.1))
    | inr b ↦
        let known : n ≤ 3 = ground (arith, h.0) in
        elim (Bool-cases (ltb w n)) [
          | inl wider ↦ merge-wider w n ns known (ltb→lt w n wider) (merge-Merged n ns known h.1)
          | inr narrower ↦
              merge-narrower w n ns h.0.0 known (ground arith) (merge-Merged w ns l h.1)
        ]
  ]
]

-- Roles with known scopes, at least one, have a merged scope that is the scope of one of them, and none
-- of them is wider: 4 counts more than 3, 3 than 2, 2 than 1, and 1 than 5, the chosen departments.
pub merge_data_scope-widest :
    (n : ℕ) (ns : List ℕ)
    → All Known (n ∷ ns)
    → (m : ℕ) × (merge_data_scope (map pos (n ∷ ns)) ≡ pos m)
      × (any_row (λ k. k == m) (n ∷ ns) ≡ true)
      × All (λ k. rank k ≤ rank m) (n ∷ ns)
unfolding merge_data_scope
merge_data_scope-widest n ns h =
    let m = merge-Merged 0 (n ∷ ns) (omega arith) h in
    (m.merged, m.is_merged, found m m.among, m.widest)
  where
    found :
        (m : Merged 0 (n ∷ ns))
        → (any_row (λ k. k == m.merged) (n ∷ ns) ≡ true)
          ⊎ (((m.merged ≡ 0) × (1 ≤ 0)) ⊎ ((◌≡◌ {A = ℕ} 0 0) × (m.merged ≡ 5) × (n ∷ ns ≡ [])))
        → any_row (λ k. k == m.merged) (n ∷ ns) ≡ true
    found m (inl k) = k
    found m (inr (inl k)) = absurd (omega (arith, k.1))
    found m (inr (inr (z, five, nil))) = cc nil
