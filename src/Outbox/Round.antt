-- ===== src/Outbox/Round.antt =====
-- What one round of the dispatcher does to the table (mes-backend/src/mq/OutboxDispatcher.cc).
use mes_cpp.Base.{
  ℕ, zero, suc, ◌≡◌, ap, sym, ◌∙◌, inl, inr, Bool, true, false, some, List, [], ◌∷◌, arith,
  get_elem?, Bool-cases, subst, All, All-mono, All-select, select-All, Distinct, map,
}
use mes_cpp.Outbox.{Row, is_due, due_rows, settle, same_id, tick}
use mes_cpp.Outbox.Settled.{
  IsSound, settle_all, dispatch-map, settle_all-other, AgreesWith, settle_all-IsSound,
  settle_all-selected, due_rows-All, due_rows-Distinct, agree,
}

get_elem?-map :
    (f : Row → Row) (rows : List Row) (i : ℕ) (r : Row)
    → get_elem? rows i ≡ some r
    → get_elem? (map f rows) i ≡ some (f r)
get_elem?-map f [] i r e = cc
get_elem?-map f (x ∷ xs) zero r e = ground (arith, e)
get_elem?-map f (x ∷ xs) (suc i) r e = get_elem?-map f xs i r e

All-get_elem? :
    (P : Row → Type 0) (rows : List Row) (i : ℕ) (r : Row)
    → get_elem? rows i ≡ some r
    → All P rows
    → P r
All-get_elem? P [] i r e a = absurd (cc)
All-get_elem? P (x ∷ xs) zero r e a = subst P (ground arith) a.0
All-get_elem? P (x ∷ xs) (suc i) r e a = All-get_elem? P xs i r e a.1

All-map_of :
    (P : Row → Type 0) (f : Row → Row) (rows : List Row)
    → All (λ r. P (f r)) rows
    → All P (map f rows)
All-map_of P f [] a = tt
All-map_of P f (r ∷ rs) a = (a.0, All-map_of P f rs a.1)

All-both :
    (P Q : Row → Type 0) (rows : List Row) → All P rows → All Q rows → All (λ r. P r × Q r) rows
All-both P Q [] a b = tt
All-both P Q (r ∷ rs) a b = ((a.0, b.0), All-both P Q rs a.1 b.1)

due_agree :
    (rows : List Row) (r : Row)
    → All (AgreesWith 0 (λ x. true) r) rows
    → All (AgreesWith 0 (λ x. true) r) (due_rows rows)
due_agree rows r a = due_rows-All _ rows (All-select _ is_due rows a)

due_due : (rows : List Row) → All (λ s. is_due s ≡ true) (due_rows rows)
due_due rows = due_rows-All _ rows (select-All is_due rows)

module _ (now : ℕ) (publish : Row → Bool) (rows : List Row) (d : Distinct same_id rows) where
  after : List Row
  after = (tick now false true publish rows).0

  after-map : after ≡ map (settle_all now publish (due_rows rows)) rows
  unfolding after tick
  after-map = dispatch-map now publish (due_rows rows) rows

  -- Under the lock, and with the round before ended, a round keeps every row sound: a waiting row has
  -- not failed, a failed row that may be tried again has failed one to four times, a dead one five times.
  -- It needs that no two rows share an id.
  pub tick-IsSound : All IsSound rows → All IsSound (tick now false true publish rows).0
  unfolding tick after
  tick-IsSound v = subst (All IsSound) (sym after-map) (
      All-map_of IsSound (settle_all now publish (due_rows rows)) rows (
        All-mono rows
          (λ r h.
            settle_all-IsSound now publish (due_rows rows) r (due_rows-Distinct rows d)
              (due_agree rows r h.1) (due_due rows) h.0)
          (All-both IsSound _ rows v (agree rows d))))

  not_due_other :
      (ss : List Row) (r : Row)
      → is_due r ≡ false
      → All (λ s. s.id ≡ r.id → s ≡ r) ss
      → All (λ s. is_due s ≡ true) ss
      → All (λ s. same_id s r ≡ false) ss
  not_due_other [] r n a e = tt
  not_due_other (s ∷ ss) r n a e = (other, not_due_other ss r n a.1 e.1)
    where
      due_too : same_id s r ≡ true → is_due r ≡ true
      due_too hit = subst (λ x. is_due x ≡ true) (a.0 (ground arith)) e.0

      other : same_id s r ≡ false
      other = elim (Bool-cases (same_id s r)) [
        | inl hit ↦ let due = due_too hit in absurd (cc)
        | inr miss ↦ miss
      ]

  agrees_at :
      (i : ℕ) (r : Row) → get_elem? rows i ≡ some r → All (λ s. s.id ≡ r.id → s ≡ r) (due_rows rows)
  agrees_at i r at = due_agree rows r (All-get_elem? _ rows i r at (agree rows d))

  -- A round, under the lock and with the round before ended, leaves a row that is sent, dead or out of
  -- tries exactly as it is, where no two rows share an id.
  pub tick-not_due :
      (i : ℕ) (r : Row)
      → get_elem? rows i ≡ some r
      → is_due r ≡ false
      → get_elem? (tick now false true publish rows).0 i ≡ some r
  unfolding tick after
  tick-not_due i r at n =
      ap (λ rs. get_elem? rs i) after-map
      ∙ get_elem?-map (settle_all now publish (due_rows rows)) rows i r at
      ∙ ap some (
          settle_all-other now publish (due_rows rows) r
            (not_due_other (due_rows rows) r n (agrees_at i r at) (due_due rows)))

  -- A round, under the lock and with the round before ended, settles each row that it hands to the
  -- broker once, by the broker's answer for it: the row is sent now, or has one more failure and the
  -- status that follows from the count. It needs that no two rows share an id.
  pub tick-due :
      (i j : ℕ) (r : Row)
      → get_elem? rows i ≡ some r
      → get_elem? (tick now false true publish rows).1 j ≡ some r
      → get_elem? (tick now false true publish rows).0 i ≡ some (settle now (publish r) r r)
  unfolding tick after
  tick-due i j r at chosen =
      ap (λ rs. get_elem? rs i) after-map
      ∙ get_elem?-map (settle_all now publish (due_rows rows)) rows i r at
      ∙ ap some
          (settle_all-selected now publish (due_rows rows) j r (due_rows-Distinct rows d) chosen)
