-- ===== src/Ingest/Limits.antt =====
-- The bounds of batches, of retries and of alarms (mes-backend/src/mq/DataIngestHandler.cc).
use mes_cpp.Base.{
  subst, not, ◌&&◌, ◌||◌, leb, ℕ, zero, suc, ◌+◌, ◌≤◌, ◌<◌, ◌≡◌, ◌≢◌, refl, inl, inr, Bool, true,
  false, Option, none, some, List, [], ◌∷◌, arith, Bool-cases, Option-cases, length, length-append,
  All, All-append, ℤ, pos, to_int-pos, ◌+ℤ◌, eqb_ℤ,
}
use mes_cpp.Ingest.{
  World, Envelope, Row, AlertType, acked, rejected, republished, accept, retry_count_of,
  handle_invalid,
}
use mes_cpp.Ingest.Threshold.{Sensors, LastAlert, dedup_key, is_suppressed, remember, publish_alert}
use mes_cpp.Ingest.Consumer.{
  Consumer, handle_message, is_empty, flush_batch, take_batch, answer, drain, receive, must_flush,
  flush_if_due, turn, Event, turns, answers, step, run,
}

module _ (w : World) where
  -- What one statement writes: 1 to 500 rows, with a delivery for each.
  abbrev pub IsBatch : List (Row w) × List ℕ → Type 0
  IsBatch b = (length b.0 ≡ length b.1) × (1 ≤ length b.0) × (length b.0 ≤ 500)

  pub record IsBatched (s : Consumer w) : Type 0 where
    pub paired : length s.rows ≡ length s.dels
    pub room : length s.rows < 500
    pub batches : All IsBatch s.in_flight

  -- As `IsBatched`, with the message that has just come.
  record IsFilled (s : Consumer w) : Type 0 where
    paired : length s.rows ≡ length s.dels
    full : length s.rows ≤ 500
    batches : All IsBatch s.in_flight

  handle_message-IsFilled :
      (sensors : Sensors w) (now : ℕ) (e : Envelope) (s : Consumer w)
      → IsBatched s
      → IsFilled (handle_message w sensors now e s)
  unfolding handle_message
  handle_message-IsFilled sensors now e s v = elim (Option-cases (accept w e.body)) [
    | inl none_ ↦
        rw (none_, handle_message)
          (record { paired = v.paired; full = omega (arith, v.room); batches = v.batches })
    | inr (r, some_) ↦
        let rows = length-append s.rows (r ∷ []) in
        rw (some_, handle_message)
          (record {
            paired = omega (arith, rows, length-append s.dels (e.tag ∷ []), v.paired);
            full = omega (arith, rows, v.room);
            batches = v.batches;
          })
  ]

  receive-IsFilled :
      (sensors : Sensors w) (now : ℕ) (got : Option Envelope) (s : Consumer w)
      → IsBatched s
      → IsFilled (receive w sensors now got s)
  receive-IsFilled sensors now none s v = record {
    paired = v.paired;
    full = omega (arith, v.room);
    batches = v.batches;
  }
  receive-IsFilled sensors now (some e) s v =
      let f = handle_message-IsFilled sensors now e s v in
      record { paired = f.paired; full = f.full; batches = f.batches }

  stays_small :
      (rows : List (Row w)) (late : Bool)
      → (not (is_empty w rows) && (leb 500 (length rows) || late)) ≡ false
      → length rows < 500
  stays_small [] late e = omega arith
  stays_small (r ∷ rs) late e = ground arith

  has_rows :
      (rows : List (Row w)) (b : Bool)
      → (not (is_empty w rows) && b) ≡ true
      → (is_empty w rows ≡ false) × (1 ≤ length rows)
  has_rows [] b e = absurd (cc)
  has_rows (r ∷ rs) b e = (refl, omega arith)

  flush_batch-IsBatched :
      (s : Consumer w)
      → is_empty w s.rows ≡ false
      → 1 ≤ length s.rows
      → IsFilled s
      → IsBatched (flush_batch w s)
  unfolding flush_batch
  flush_batch-IsBatched s e one v = rw e (record {
    paired = refl;
    room = omega arith;
    batches =
        All-append IsBatch s.in_flight ((s.rows, s.dels) ∷ []) v.batches
          ((v.paired, one, v.full), tt);
  })

  flush_if_due-IsBatched :
      (now : ℕ) (got : Option Envelope) (s : Consumer w)
      → IsFilled s
      → IsBatched (flush_if_due w now got s)
  flush_if_due-IsBatched now got s v = elim (Bool-cases (must_flush w now got s)) [
    | inl e ↦
        let (some_, one) = has_rows s.rows _ e in
        let f = flush_batch-IsBatched s some_ one v in
        rw e (record { paired = f.paired; room = f.room; batches = f.batches })
    | inr e ↦
        rw e (record { paired = v.paired; room = stays_small s.rows _ e; batches = v.batches })
  ]

  take_batch-IsBatch :
      (i : ℕ) (bs cs : List (List (Row w) × List ℕ)) (b : List (Row w) × List ℕ)
      → take_batch w i bs ≡ some (b, cs)
      → All IsBatch bs
      → All IsBatch cs
  unfolding take_batch
  take_batch-IsBatch i [] cs b e a = absurd (cc)
  take_batch-IsBatch zero (x ∷ xs) cs b e a = subst (All IsBatch) (ground (arith, e)) a.1
  take_batch-IsBatch (suc i) (x ∷ xs) cs b e a = elim (Option-cases (take_batch w i xs)) [
    | inl gone ↦ ground (arith, e, gone)
    | inr ((c, ds), found) ↦
        let same : x ∷ ds ≡ cs = ground (arith, e, found) in
        subst (All IsBatch) same (a.0, take_batch-IsBatch i xs ds c found a.1)
  ]

  answer-IsBatched :
      (i : ℕ) (ok : Bool) (s : Consumer w) → IsBatched s → IsBatched (answer w i ok s)
  unfolding answer
  answer-IsBatched i ok s v = elim (Option-cases (take_batch w i s.in_flight)) [
    | inl e ↦ rw (e, answer) v
    | inr ((b, bs), e) ↦
        rw (e, answer)
          (record {
            paired = v.paired;
            room = v.room;
            batches = take_batch-IsBatch i s.in_flight bs b e v.batches;
          })
  ]

  step-IsBatched : (s : Consumer w) (e : Event w) → IsBatched s → IsBatched (step w s e)
  unfolding step turn drain
  step-IsBatched s (turns sensors now got) v = flush_if_due-IsBatched now got _ (
      receive-IsFilled sensors now got (drain w s)
        (record { paired = v.paired; room = v.room; batches = v.batches }))
  step-IsBatched s (answers i ok) v = answer-IsBatched i ok s v

  -- Any turns and answers keep the batch that is filled below 500 rows with one delivery for each, and
  -- each batch that the database has between 1 and 500 rows with one delivery for each.
  pub run-IsBatched : (s : Consumer w) (es : List (Event w)) → IsBatched s → IsBatched (run w s es)
  unfolding run
  run-IsBatched s [] v = v
  run-IsBatched s (e ∷ es) v = run-IsBatched (step w s e) es (step-IsBatched s e v)

  -- The message as it comes back from the retry queue for the n-th time.
  unfoldable pub redelivered : ℕ → Envelope → Envelope
  redelivered zero e = e
  redelivered (suc n) e = record (redelivered n e) {
    retry_header = some (retry_count_of w (redelivered n e) +ℤ pos 1);
  }

  retries :
      (n : ℕ) (e : Envelope)
      → n ≤ 3
      → e.retry_header ≡ none
      → retry_count_of w (redelivered n e) ≡ pos n
  unfolding redelivered ◌+ℤ◌
  retries zero e small h = rw h refl
  retries (suc n) e small h =
      let next : pos n +ℤ pos 1 ≡ pos (suc n) = ground arith in
      rw (retries n e (omega arith) h, next) (to_int-pos (suc n) (omega arith))

  invalid_again :
      (e : Envelope) (n : ℕ)
      → retry_count_of w e ≡ pos n
      → n < 3
      → handle_invalid w e ≡ republished e.body (pos (n + 1)) ∷ acked e.tag ∷ []
  unfolding handle_invalid ◌+ℤ◌
  invalid_again e n c less = rw c (ground arith)

  invalid_dead :
      (e : Envelope) → retry_count_of w e ≡ pos 3 → handle_invalid w e ≡ rejected e.tag false ∷ []
  unfolding handle_invalid
  invalid_dead e c = rw c refl

  -- An invalid message that comes without a retry count is published again, with the counts 1, 2 and
  -- 3, the first three times that it comes, and goes to the dead letters the fourth time.
  pub handle_invalid_lem :
      (e : Envelope)
      → e.retry_header ≡ none
      → ((n : ℕ)
          → n < 3
          → handle_invalid w (redelivered n e)
            ≡ republished (redelivered n e).body (pos (n + 1)) ∷ acked (redelivered n e).tag ∷ [])
        × (handle_invalid w (redelivered 3 e) ≡ rejected (redelivered 3 e).tag false ∷ [])
  handle_invalid_lem e h = (
    λ n less. invalid_again (redelivered n e) n (retries n e (omega arith) h) less,
    invalid_dead (redelivered 3 e) (retries 3 e (omega arith) h),
  )

  suppressed_after :
      (now later : ℕ) (last : LastAlert w) (key key' : ℤ)
      → key ≡ key'
      → later < now + 30000
      → is_suppressed w (remember w last key now) key' later ≡ true
  suppressed_after now later last key key' same soon =
      subst (λ k. is_suppressed w (remember w last key now) k later ≡ true) same
        (let hit : eqb_ℤ key key ≡ true = ground arith in rw (hit, is_suppressed) (ground arith))

  -- Once an alarm is published, the alarms with the same key, of the same sensor, direction and
  -- level, are dropped for thirty seconds.
  pub publish_alert-suppresses :
      (now later : ℕ) (last : LastAlert w) (r r' : Row w) (x x' : World.Double w)
      (found found' : AlertType w × World.Double w × ℕ)
      → (publish_alert w now last r x found).1 ≢ []
      → dedup_key w r found.0 found.2 ≡ dedup_key w r' found'.0 found'.2
      → later < now + 30000
      → publish_alert w later (publish_alert w now last r x found).0 r' x' found'
        ≡ ((publish_alert w now last r x found).0, [])
  unfolding publish_alert
  publish_alert-suppresses now later last r r' x x' found found' sent same soon =
      elim (Bool-cases (is_suppressed w last (dedup_key w r found.0 found.2) now)) [
        | inl e ↦ absurd (sent (rw (e, publish_alert) refl))
        | inr e ↦ rw (e, publish_alert) (rw (suppressed_after now later last _ _ same soon) refl)
      ]
