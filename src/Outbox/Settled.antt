-- ===== src/Outbox/Settled.antt =====
-- What a round of the dispatcher keeps (mes-backend/src/mq/OutboxDispatcher.cc, OutboxPolicy.hh).
use mes_cpp.Base.{
  ℕ, zero, suc, ◌≤◌, ◌<◌, ◌≡◌, refl, ap, sym, ◌∙◌, inl, inr, Bool, true, false, List, [], ◌∷◌, leb,
  arith, Bool-cases, if◌then◌else◌, subst, All, All-mono, All-take, Distinct, Distinct-select,
  Distinct-take, select, get_elem?, some, update_rows, map,
}
use mes_cpp.Outbox.{
  Row, next_status_on_failure, is_due, insert_row, sort_rows, due_rows, settle, same_id, dispatch,
}

-- A row that waits has not failed, one that failed may be tried again, and one that is dead has
-- failed five times.
pub record IsSound (r : Row) : Type 0 where
  pub known : r.status ≤ 3
  pub fresh : r.status ≡ 0 → r.retry_count ≡ 0
  pub sent : r.status ≡ 1 → r.retry_count < 5
  pub failed : r.status ≡ 2 → (1 ≤ r.retry_count) × (r.retry_count < 5)
  pub dead : r.status ≡ 3 → r.retry_count ≡ 5

settle-IsSound :
    (now : ℕ) (sent : Bool) (r : Row) → is_due r ≡ true → IsSound r → IsSound (settle now sent r r)
unfolding next_status_on_failure
settle-IsSound now sent r d v = ground (arith, v.fresh, v.failed)

module _ (now : ℕ) (publish : Row → Bool) where
  -- What the loop does to one row.
  unfoldable pub settle_all : List Row → Row → Row
  settle_all [] r = r
  settle_all (s ∷ ss) r = settle_all ss (if same_id s r then settle now (publish s) s r else r)

  update_rows-map :
      (p : Row → Bool) (f g : Row → Row) (rows : List Row)
      → map g (update_rows p f rows) ≡ map (λ r. g (if p r then f r else r)) rows
  unfolding update_rows
  update_rows-map p f g [] = refl
  update_rows-map p f g (r ∷ rs) =
      ap (λ t. g (if p r then f r else r) ∷ t) (update_rows-map p f g rs)

  map-id : (rows : List Row) → map (λ r. r) rows ≡ rows
  map-id [] = refl
  map-id (r ∷ rs) = ap (λ t. r ∷ t) (map-id rs)

  pub dispatch-map : (ss rows : List Row) → dispatch now publish ss rows ≡ map (settle_all ss) rows
  unfolding dispatch settle_all
  dispatch-map [] rows = sym (map-id rows)
  dispatch-map (s ∷ ss) rows =
      dispatch-map ss _
      ∙ update_rows-map (same_id s) (settle now (publish s) s) (settle_all ss) rows

  -- Rows that no selected row names stay as they are.
  pub settle_all-other :
      (ss : List Row) (r : Row) → All (λ s. same_id s r ≡ false) ss → settle_all ss r ≡ r
  unfolding settle_all
  settle_all-other [] r h = refl
  settle_all-other (s ∷ ss) r h = rw h.0 (settle_all-other ss r h.1)

  -- The selected rows are rows of the table.
  abbrev pub AgreesWith : Row → Row → Type 0
  AgreesWith r s = s.id ≡ r.id → s ≡ r

  others :
      (s : Row) (ss : List Row) (r : Row)
      → same_id s r ≡ true
      → All (λ y. same_id s y ≡ false) ss
      → All (λ y. same_id y (settle now (publish s) s r) ≡ false) ss
  others s ss r hit d = All-mono ss (λ y e. ground arith) d

  pub settle_all-IsSound :
      (ss : List Row) (r : Row)
      → Distinct same_id ss
      → All (AgreesWith r) ss
      → All (λ s. is_due s ≡ true) ss
      → IsSound r
      → IsSound (settle_all ss r)
  unfolding settle_all
  settle_all-IsSound [] r d a e v = v
  settle_all-IsSound (s ∷ ss) r d a e v = elim (Bool-cases (same_id s r)) [
    | inl hit ↦
        let same : s ≡ r = a.0 (ground arith) in
        rw (hit, settle_all-other ss (settle now (publish s) s r) (others s ss r hit d.0))
          (subst (λ x. IsSound (settle now (publish s) x r)) (sym same)
            (settle-IsSound now (publish s) r (subst (λ x. is_due x ≡ true) same e.0) v))
    | inr miss ↦ rw miss (settle_all-IsSound ss r d.1 a.1 e.1 v)
  ]

  apart_at :
      (s : Row) (ss : List Row) (j : ℕ) (r : Row)
      → All (λ y. same_id s y ≡ false) ss
      → get_elem? ss j ≡ some r
      → same_id s r ≡ false
  apart_at s [] j r a e = absurd (cc)
  apart_at s (y ∷ ys) zero r a e =
      let same : y ≡ r = ground arith in subst (λ x. same_id s x ≡ false) same a.0
  apart_at s (y ∷ ys) (suc j) r a e = apart_at s ys j r a.1 e

  -- A selected row is settled once.
  pub settle_all-selected :
      (ss : List Row) (j : ℕ) (r : Row)
      → Distinct same_id ss
      → get_elem? ss j ≡ some r
      → settle_all ss r ≡ settle now (publish r) r r
  unfolding settle_all
  settle_all-selected [] j r d e = absurd (cc)
  settle_all-selected (s ∷ ss) zero r d e =
      let same : s ≡ r = ground arith in
      let hit : same_id s r ≡ true = ap (λ x. same_id x r) same ∙ ground arith in
      rw hit (
        settle_all-other ss (settle now (publish s) s r) (others s ss r hit d.0)
        ∙ ap (λ x. settle now (publish x) x r) same)
  settle_all-selected (s ∷ ss) (suc j) r d e =
      rw (apart_at s ss j r d.0 e) (settle_all-selected ss j r d.1 e)

-- Sorting keeps what holds of every row, and the rows apart.
module _ (P : Row → Type 0) where
  insert_row-All : (r : Row) (rs : List Row) → P r → All P rs → All P (insert_row r rs)
  unfolding insert_row
  insert_row-All r [] h a = (h, tt)
  insert_row-All r (s ∷ ss) h a = elim (Bool-cases (leb r.created_at s.created_at)) [
    | inl e ↦ rw e (h, a)
    | inr e ↦ rw e (a.0, insert_row-All r ss h a.1)
  ]

  sort_rows-All : (rs : List Row) → All P rs → All P (sort_rows rs)
  unfolding sort_rows
  sort_rows-All [] a = tt
  sort_rows-All (r ∷ rs) a = insert_row-All r (sort_rows rs) a.0 (sort_rows-All rs a.1)

  pub due_rows-All : (rows : List Row) → All P (select is_due rows) → All P (due_rows rows)
  unfolding due_rows
  due_rows-All rows a = All-take P 50 _ (sort_rows-All (select is_due rows) a)

insert_row-Distinct :
    (r : Row) (rs : List Row)
    → All (λ y. same_id r y ≡ false) rs
    → Distinct same_id rs
    → Distinct same_id (insert_row r rs)
unfolding insert_row
insert_row-Distinct r [] a d = (tt, tt)
insert_row-Distinct r (s ∷ ss) a d = elim (Bool-cases (leb r.created_at s.created_at)) [
  | inl e ↦ rw e (a, d)
  | inr e ↦ rw e (
    insert_row-All (λ y. same_id s y ≡ false) r ss (ground (arith, a.0)) d.0,
    insert_row-Distinct r ss a.1 d.1,
  )
]

sort_rows-Distinct : (rs : List Row) → Distinct same_id rs → Distinct same_id (sort_rows rs)
unfolding sort_rows
sort_rows-Distinct [] d = tt
sort_rows-Distinct (r ∷ rs) d =
    insert_row-Distinct r (sort_rows rs) (sort_rows-All (λ y. same_id r y ≡ false) rs d.0)
      (sort_rows-Distinct rs d.1)

pub due_rows-Distinct : (rows : List Row) → Distinct same_id rows → Distinct same_id (due_rows rows)
unfolding due_rows
due_rows-Distinct rows d =
    Distinct-take same_id 50 _
      (sort_rows-Distinct (select is_due rows) (Distinct-select same_id is_due rows d))

-- A key names one row.
pub agree :
    (rows : List Row) → Distinct same_id rows → All (λ r. All (λ s. s.id ≡ r.id → s ≡ r) rows) rows
agree [] d = tt
agree (r ∷ rs) d = (
  (λ e. refl, All-mono rs (λ y k e. absurd (clash r y k e)) d.0),
  All-mono2 rs (λ y k a. (λ e. absurd (clash r y k (sym e)), a)) d.0 (agree rs d.1),
)
  where
    clash : (x y : Row) → same_id x y ≡ false → y.id ≡ x.id → ⊥
    clash x y k e = ground arith

    All-mono2 :
        {P Q S : Row → Type 0} (xs : List Row)
        → ((x : Row) → P x → Q x → S x)
        → All P xs
        → All Q xs
        → All S xs
    All-mono2 [] f a b = tt
    All-mono2 (x ∷ xs) f a b = (f x a.0 b.0, All-mono2 xs f a.1 b.1)
