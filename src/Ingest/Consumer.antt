-- ===== src/Ingest/Consumer.antt =====
-- The loop of the consumer: messages, batches, and what the database's callbacks register
-- (`handleMessage`, `flushBatch`, `enqueueAck` and `start` of
-- mes-backend/src/mq/DataIngestHandler.cc), as long as the channel lives.
use mes_cpp.Base.{
  ℕ, zero, suc, ◌+◌, Bool, true, false, not, ◌&&◌, ◌||◌, Option, none, some, List, [], ◌∷◌, ◌++◌,
  leb, if◌then◌else◌, length, map,
}
use mes_cpp.Ingest.{
  World, Envelope, batch_rows, flush_window_ms, Row, Effect, acked, rejected, accept,
  handle_invalid,
}
use mes_cpp.Ingest.Threshold.{Sensors, LastAlert, check_threshold}

module _ (w : World) where
  pub record Consumer : Type 0 where
    pub rows : List (Row w)
    pub dels : List ℕ
    -- the batches handed to the database whose callback has not come
    pub in_flight : List (List (Row w) × List ℕ)
    pub ack_queue : List (ℕ × Bool)
    pub last_alert : LastAlert w
    pub last_flush : ℕ
    -- what was handed to the channel
    pub log : List (Effect w)

  abbrev pub keep_row : Sensors w → ℕ → Envelope → Consumer → Row w → Consumer
  keep_row sensors now e s r =
      let (last, alerts) = check_threshold w sensors now s.last_alert r in
      record s {
        rows = s.rows ++ r ∷ [];
        dels = s.dels ++ e.tag ∷ [];
        last_alert = last;
        log = s.log ++ alerts;
      }

  unfoldable pub handle_message : Sensors w → ℕ → Envelope → Consumer → Consumer
  handle_message sensors now e s = elim (accept w e.body) [
    | none ↦ record s { log = s.log ++ handle_invalid w e }
    | some r ↦ keep_row sensors now e s r
  ]

  abbrev pub is_empty : List (Row w) → Bool
  is_empty [] = true
  is_empty (r ∷ rs) = false

  unfoldable pub flush_batch : Consumer → Consumer
  flush_batch s =
      if is_empty s.rows
      then s
      else record s { rows = []; dels = []; in_flight = s.in_flight ++ (s.rows, s.dels) ∷ [] }

  -- `enqueueAck` for each delivery of a batch
  abbrev pub enqueue_all : List ℕ → Bool → List (ℕ × Bool)
  enqueue_all [] ok = []
  enqueue_all (t ∷ ts) ok = (t, ok) ∷ enqueue_all ts ok

  -- The batch at a place, and the others.
  unfoldable pub take_batch :
      ℕ
      → List (List (Row w) × List ℕ)
      → Option ((List (Row w) × List ℕ) × List (List (Row w) × List ℕ))
  take_batch i [] = none
  take_batch zero (b ∷ bs) = some (b, bs)
  take_batch (suc i) (b ∷ bs) = elim (take_batch i bs) [
    | none ↦ none
    | some (c, cs) ↦ some (c, b ∷ cs)
  ]

  -- The callback for a batch, with or without an error.
  unfoldable pub answer : ℕ → Bool → Consumer → Consumer
  answer i ok s = elim (take_batch i s.in_flight) [
    | none ↦ s
    | some (b, bs) ↦ record s { in_flight = bs; ack_queue = s.ack_queue ++ enqueue_all b.1 ok }
  ]

  abbrev pub settlement : ℕ × Bool → Effect w
  settlement (t, true) = acked t
  settlement (t, false) = rejected t true

  unfoldable pub drain : Consumer → Consumer
  drain s = record s { ack_queue = []; log = s.log ++ map settlement s.ack_queue }

  abbrev pub receive : Sensors w → ℕ → Option Envelope → Consumer → Consumer
  receive sensors now none s = s
  receive sensors now (some e) s = record (handle_message sensors now e s) { last_flush = now }

  abbrev pub is_none : Option Envelope → Bool
  is_none none = true
  is_none (some e) = false

  abbrev pub must_flush : ℕ → Option Envelope → Consumer → Bool
  must_flush now got s =
      not (is_empty s.rows)
      && (leb batch_rows (length s.rows)
          || (leb (s.last_flush + flush_window_ms) now && is_none got))

  abbrev pub flush_if_due : ℕ → Option Envelope → Consumer → Consumer
  flush_if_due now got s =
      if must_flush now got s then record (flush_batch s) { last_flush = now } else s

  -- One turn of the loop.
  unfoldable pub turn : Sensors w → ℕ → Option Envelope → Consumer → Consumer
  turn sensors now got s = flush_if_due now got (receive sensors now got (drain s))

  -- A turn of the consumer's thread, or a callback on the database's thread.
  pub data Event : Type 0 where
    turns : Sensors w → ℕ → Option Envelope → Event
    answers : ℕ → Bool → Event

  unfoldable pub step : Consumer → Event → Consumer
  step s (turns sensors now got) = turn sensors now got s
  step s (answers i ok) = answer i ok s

  unfoldable pub run : Consumer → List Event → Consumer
  run s [] = s
  run s (e ∷ es) = run (step s e) es
