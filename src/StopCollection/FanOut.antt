-- ===== src/StopCollection/FanOut.antt =====
-- How often, and how, the delivery of a stop command is settled
-- (mes-backend/src/mq/StopCollectionHandler.cc).
use mes_cpp.Base.{
  ℕ, suc, ◌+◌, ◌≡◌, refl, ap, sym, ◌∙◌, Bool, true, false, some, List, [], ◌∷◌, ◌++◌, if◌then◌else◌,
  arith, ℤ, length,
}
use mathlib.Core.List.{append_assoc, append-nil}
use mes_cpp.StopCollection.{
  Relay, new_relay, start_relay, on_success, on_failure, take_at, Event, issues, answers, step, run,
}

-- All inserts are sent, then all are answered: each answer is that to the first insert that has none.
unfoldable pub issue_all : List ℤ → List Event
issue_all [] = []
issue_all (d ∷ ds) = issues ∷ issue_all ds

unfoldable pub answer_all : List Bool → List Event
answer_all [] = []
answer_all (ok ∷ oks) = answers 0 ok ∷ answer_all oks

-- What is enqueued in the end, from whether an insert had failed and the answers that come: an
-- acknowledgement if all succeed, a request for the message again if the last one fails, and nothing
-- if one fails and the last one succeeds.
unfoldable pub settlement : Bool → List Bool → List Bool
settlement failed [] = []
settlement failed (ok ∷ []) = if ok then (if failed then [] else true ∷ []) else false ∷ []
settlement failed (ok ∷ next ∷ oks) = settlement (if ok then failed else true) (next ∷ oks)

run-append : (s : Relay) (es fs : List Event) → run s (es ++ fs) ≡ run (run s es) fs
unfolding run
run-append s [] fs = refl
run-append s (e ∷ es) fs = run-append (step s e) es fs

-- The relay with all inserts sent.
sent : List ℤ → Relay → Relay
sent ds s = record s {
  devices = [];
  unanswered = s.unanswered ++ ds;
  pending = s.pending + length ds;
}

issue-sent :
    (d : ℤ) (ds : List ℤ) (s : Relay)
    → s.devices ≡ d ∷ ds
    → sent ds (step s issues) ≡ sent (d ∷ ds) s
unfolding step sent
issue-sent d ds s e = rw e (
    ap (λ (p : List ℤ × ℕ). record s { devices = []; unanswered = p.0; pending = p.1 })
      (λ i. (append_assoc s.unanswered (d ∷ []) ds i, count i)))
  where
    count : s.pending + 1 + length ds ≡ s.pending + length (d ∷ ds)
    count = omega arith

run-issue_all : (ds : List ℤ) (s : Relay) → s.devices ≡ ds → run s (issue_all ds) ≡ sent ds s
unfolding run issue_all
run-issue_all [] s e = unfold sent in nothing_sent
  where
    nothing_sent : s ≡ sent [] s
    nothing_sent =
        unfold sent in
        ap
          (λ (p : List ℤ × List ℤ × ℕ). record s { devices = p.0; unanswered = p.1; pending = p.2 })
          (λ i. (e i, sym (append-nil s.unanswered) i, plain i))
      where
        plain : s.pending ≡ s.pending + length {A = ℤ} []
        plain = omega arith
run-issue_all (d ∷ ds) s e = run-issue_all ds (step s issues) (issued e) ∙ issue-sent d ds s e
  where
    issued : s.devices ≡ d ∷ ds → (step s issues).devices ≡ ds
    issued e = unfold step in rw e refl

answer_first :
    (d : ℤ) (ds : List ℤ) (s : Relay) (ok : Bool)
    → s.unanswered ≡ d ∷ ds
    → step s (answers 0 ok) ≡ (if ok then on_success d ds s else on_failure ds s)
unfolding step take_at
answer_first d ds s ok e = rw e refl

run-answer_all :
    (oks : List Bool) (ds : List ℤ) (s : Relay)
    → s.unanswered ≡ ds
    → length ds ≡ length oks
    → s.pending ≡ length oks
    → (run s (answer_all oks)).acks ≡ s.acks ++ settlement s.failed oks
unfolding run answer_all settlement
run-answer_all [] ds s e n p = sym (append-nil s.acks)
run-answer_all (ok ∷ oks) [] s e n p = absurd (omega arith)
run-answer_all (ok ∷ []) (d ∷ ds) s e n p =
    rw (answer_first d ds s ok e) (ground (arith, append-nil s.acks))
run-answer_all (ok ∷ next ∷ oks) (d ∷ ds) s e n p =
    ap (λ x. (run x (answer_all (next ∷ oks))).acks) (answer_first d ds s ok e)
    ∙ run-answer_all (next ∷ oks) ds (after ok) (waits ok) (omega arith) (counts ok)
    ∙ ap (λ (q : List Bool × Bool). q.0 ++ settlement q.1 (next ∷ oks))
        (λ i. (keeps ok i, fails ok i))
  where
    after : Bool → Relay
    after b = if b then on_success d ds s else on_failure ds s

    waits : (b : Bool) → (after b).unanswered ≡ ds
    waits b = ground arith

    counts : (b : Bool) → (after b).pending ≡ suc (length oks)
    counts true = omega (arith, p)
    counts false = omega (arith, p)

    keeps : (b : Bool) → (after b).acks ≡ s.acks
    keeps b = ground (arith, p)

    fails : (b : Bool) → (after b).failed ≡ (if b then s.failed else true)
    fails b = ground arith

-- If the inserts for one or more devices are all sent before the first answer, and the answers come
-- one for each insert, then the delivery is acknowledged when all succeed, asked for again when the
-- last answer is a failure, and never settled when a failure comes and the last answer is a success.
pub run-settlement :
    (d : ℤ) (ds : List ℤ) (oks : List Bool)
    → length oks ≡ length (d ∷ ds)
    → (run (start_relay (some (d ∷ ds))) (issue_all (d ∷ ds) ++ answer_all oks)).acks
      ≡ settlement false oks
unfolding start_relay
run-settlement d ds oks n =
    ap (λ x. x.acks)
      (run-append (new_relay (d ∷ ds)) (issue_all (d ∷ ds)) (answer_all oks)
        ∙ ap (λ x. run x (answer_all oks)) (run-issue_all (d ∷ ds) (new_relay (d ∷ ds)) refl))
    ∙ unfold sent in
      run-answer_all oks (d ∷ ds) (sent (d ∷ ds) (new_relay (d ∷ ds))) refl (sym n)
        (omega (arith, n))

-- Each insert is answered before the next one is sent.
unfoldable pub one_by_one : List ℤ → List Event
one_by_one [] = []
one_by_one (d ∷ ds) = issues ∷ answers 0 true ∷ one_by_one ds

unfoldable pub trues : List ℤ → List Bool
trues [] = []
trues (d ∷ ds) = true ∷ trues ds

one_turn :
    (d : ℤ) (ds : List ℤ) (s : Relay)
    → s.devices ≡ d ∷ ds
    → s.unanswered ≡ []
    → s.pending ≡ 0
    → s.failed ≡ false
    → step (step s issues) (answers 0 true)
      ≡ record s { devices = ds; acks = s.acks ++ true ∷ []; outbox = s.outbox ++ d ∷ [] }
unfolding step take_at
one_turn d ds s e u p f = rw e (rw u (ground (arith, p, f)))

-- If each insert succeeds before the next one is sent, the delivery is acknowledged once for each
-- device.
pub run-one_by_one :
    (ds : List ℤ) (s : Relay)
    → s.devices ≡ ds
    → s.unanswered ≡ []
    → s.pending ≡ 0
    → s.failed ≡ false
    → (run s (one_by_one ds)).acks ≡ s.acks ++ trues ds
unfolding run one_by_one trues
run-one_by_one [] s e u p f = sym (append-nil s.acks)
run-one_by_one (d ∷ ds) s e u p f =
    ap (λ x. (run x (one_by_one ds)).acks) (one_turn d ds s e u p f)
    ∙ run-one_by_one ds _ refl u p f
    ∙ append_assoc s.acks (true ∷ []) (trues ds)
