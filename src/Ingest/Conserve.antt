-- ===== src/Ingest/Conserve.antt =====
-- No delivery is lost or settled twice (mes-backend/src/mq/DataIngestHandler.cc).
use mes_cpp.Base.{
  total, total-append, ℕ, zero, suc, ◌+◌, ◌≡◌, refl, ap, ◌∙◌, inl, inr, Bool, true, false, Option,
  none, some, List, [], ◌∷◌, ◌==◌, if◌then◌else◌, arith, Bool-cases, Option-cases, map,
}
use mes_cpp.Ingest.{
  World, Envelope, Row, Value, number, text, Effect, acked, rejected, republished, alerted, accept,
  handle_invalid,
}
use mes_cpp.Ingest.Threshold.{
  SensorCfg, Sensors, LastAlert, classify, publish_alert, publish_found, find_sensor, check_value,
  check_threshold,
}
use mes_cpp.Ingest.Consumer.{
  Consumer, handle_message, flush_batch, enqueue_all, take_batch, answer, settlement, drain,
  receive, must_flush, flush_if_due, turn, Event, turns, answers, step, run,
}

module _ (w : World) (tag : ℕ) where
  abbrev pub hit : ℕ → ℕ
  hit t = if t == tag then 1 else 0

  -- How often the effect settles the delivery.
  abbrev pub settles : Effect w → ℕ
  settles (acked t) = hit t
  settles (rejected t again) = hit t
  settles (republished body n) = 0
  settles (alerted a) = 0

  abbrev pub in_batch : List (Row w) × List ℕ → ℕ
  in_batch b = total hit b.1

  abbrev pub in_queue : ℕ × Bool → ℕ
  in_queue q = hit q.0

  -- How often the consumer holds the delivery: in the batch it fills, in a batch that the database
  -- has, or among the answers that wait for the consumer's thread.
  abbrev pub held : Consumer w → ℕ
  held s = total hit s.dels + total in_batch s.in_flight + total in_queue s.ack_queue

  abbrev pub settled : Consumer w → ℕ
  settled s = total settles s.log

  abbrev pub account : Consumer w → ℕ
  account s = held s + settled s

  -- How often the event brings the delivery.
  abbrev pub brings : Event w → ℕ
  brings (turns sensors now none) = 0
  brings (turns sensors now (some e)) = hit e.tag
  brings (answers i ok) = 0

  publish_alert-silent :
      (now : ℕ) (last : LastAlert w) (r : Row w) (x : World.Double w) (found : _)
      → total settles (publish_alert w now last r x found).1 ≡ 0
  unfolding publish_alert total
  publish_alert-silent now last r x found = ground arith

  publish_found-silent :
      (now : ℕ) (last : LastAlert w) (r : Row w) (x : World.Double w) (found : Option _)
      → total settles (publish_found w now last r x found).1 ≡ 0
  unfolding total
  publish_found-silent now last r x none = refl
  publish_found-silent now last r x (some found) = publish_alert-silent now last r x found

  check_value-silent :
      (now : ℕ) (last : LastAlert w) (r : Row w) (c : SensorCfg w) (v : Value w)
      → total settles (check_value w now last r c v).1 ≡ 0
  unfolding total
  check_value-silent now last r c (text s) = refl
  check_value-silent now last r c (number x) = publish_found-silent now last r x (classify w c x)

  check_threshold-silent :
      (sensors : Sensors w) (now : ℕ) (last : LastAlert w) (r : Row w)
      → total settles (check_threshold w sensors now last r).1 ≡ 0
  unfolding check_threshold total
  check_threshold-silent sensors now last r = elim (Option-cases (find_sensor w sensors r)) [
    | inl e ↦ rw (e, check_threshold) refl
    | inr (c, e) ↦ rw (e, check_threshold) (check_value-silent now last r c r.value)
  ]

  handle_invalid-settles : (e : Envelope) → total settles (handle_invalid w e) ≡ hit e.tag
  unfolding handle_invalid total
  handle_invalid-settles e = ground arith

  settlements : (qs : List (ℕ × Bool)) → total settles (map (settlement w) qs) ≡ total in_queue qs
  unfolding total
  settlements [] = refl
  settlements ((t, true) ∷ qs) = omega (arith, settlements qs)
  settlements ((t, false) ∷ qs) = omega (arith, settlements qs)

  drain-account : (s : Consumer w) → account (drain w s) ≡ account s
  unfolding drain total
  drain-account s =
      omega (
        arith,
        total-append settles s.log (map (settlement w) s.ack_queue),
        settlements s.ack_queue,
      )

  flush_batch-account : (s : Consumer w) → account (flush_batch w s) ≡ account s
  unfolding flush_batch total
  flush_batch-account s = ground (arith, total-append in_batch s.in_flight ((s.rows, s.dels) ∷ []))

  take_batch-total :
      (i : ℕ) (bs cs : List (List (Row w) × List ℕ)) (b : List (Row w) × List ℕ)
      → take_batch w i bs ≡ some (b, cs)
      → total in_batch bs ≡ in_batch b + total in_batch cs
  unfolding take_batch total
  take_batch-total i [] cs b e = absurd (cc)
  take_batch-total zero (x ∷ xs) cs b e = ground (arith, e)
  take_batch-total (suc i) (x ∷ xs) cs b e = elim (Option-cases (take_batch w i xs)) [
    | inl gone ↦ ground (arith, e, gone)
    | inr ((c, ds), found) ↦ ground (arith, e, found, take_batch-total i xs ds c found)
  ]

  enqueued : (ts : List ℕ) (ok : Bool) → total in_queue (enqueue_all w ts ok) ≡ total hit ts
  unfolding total
  enqueued [] ok = refl
  enqueued (t ∷ ts) ok = omega (arith, enqueued ts ok)

  answer-account : (i : ℕ) (ok : Bool) (s : Consumer w) → account (answer w i ok s) ≡ account s
  unfolding answer
  answer-account i ok s = elim (Option-cases (take_batch w i s.in_flight)) [
    | inl e ↦ rw (e, answer) refl
    | inr ((b, bs), e) ↦
        rw (e, answer)
          (omega (
            arith,
            take_batch-total i s.in_flight bs b e,
            total-append in_queue s.ack_queue (enqueue_all w b.1 ok),
            enqueued b.1 ok,
          ))
  ]

  handle_message-account :
      (sensors : Sensors w) (now : ℕ) (e : Envelope) (s : Consumer w)
      → account (handle_message w sensors now e s) ≡ account s + hit e.tag
  unfolding handle_message total
  handle_message-account sensors now e s = elim (Option-cases (accept w e.body)) [
    | inl none_ ↦
        rw (none_, handle_message)
          (omega (arith, total-append settles s.log (handle_invalid w e), handle_invalid-settles e))
    | inr (r, some_) ↦
        rw (some_, handle_message)
          (omega (
            arith,
            total-append hit s.dels (e.tag ∷ []),
            total-append settles s.log (check_threshold w sensors now s.last_alert r).1,
            check_threshold-silent sensors now s.last_alert r,
          ))
  ]

  receive-account :
      (sensors : Sensors w) (now : ℕ) (got : Option Envelope) (s : Consumer w)
      → account (receive w sensors now got s) ≡ account s + brings (turns sensors now got)
  receive-account sensors now none s = omega arith
  receive-account sensors now (some e) s = handle_message-account sensors now e s

  flush_if_due-account :
      (now : ℕ) (got : Option Envelope) (s : Consumer w)
      → account (flush_if_due w now got s) ≡ account s
  flush_if_due-account now got s = elim (Bool-cases (must_flush w now got s)) [
    | inl e ↦ rw e (flush_batch-account s)
    | inr e ↦ rw e refl
  ]

  step-account : (s : Consumer w) (e : Event w) → account (step w s e) ≡ account s + brings e
  unfolding step turn
  step-account s (turns sensors now got) =
      flush_if_due-account now got (receive w sensors now got (drain w s))
      ∙ receive-account sensors now got (drain w s)
      ∙ ap (λ n. n + brings (turns sensors now got)) (drain-account s)
  step-account s (answers i ok) = omega (arith, answer-account i ok s)

  -- Through any turns of the loop and any answers of the database, in any order, each delivery is
  -- held by the consumer and settled on the channel as often in all as it was before and was brought
  -- since: none is lost, and none is settled twice.
  pub run-account :
      (s : Consumer w) (es : List (Event w))
      → held (run w s es) + settled (run w s es) ≡ held s + settled s + total brings es
  unfolding run total
  run-account s [] = omega arith
  run-account s (e ∷ es) = omega (arith, run-account (step w s e) es, step-account s e)
