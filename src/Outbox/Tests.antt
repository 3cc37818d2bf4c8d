-- ===== src/Outbox/Tests.antt =====
-- The theorems on the outbox at a concrete table.
use mes_cpp.Base.{
  ℕ, ◌≡◌, refl, true, false, some, none, List, [], ◌∷◌, All, arith, ◌==◌, get_elem?, select,
  update_rows, ◌+◌,
}
use mes_cpp.Outbox.{Row, tick, dispatch, due_rows, sort_rows, insert_row, next_status_on_failure}
use mes_cpp.Outbox.Settled.{IsSound}
use mes_cpp.Outbox.Round.{tick-IsSound}

abbrev row : ℕ → ℕ → ℕ → Row
row id status retries = record {
  id = id;
  exchange = "mes.wo";
  routing_key = "wo.completed";
  payload = "{}";
  status = status;
  retry_count = retries;
  created_at = 10 + id;
  sent_at = none;
}

abbrev rows : List Row
rows = row 1 0 0 ∷ row 2 3 5 ∷ row 3 2 4 ∷ []

fresh_row : IsSound (row 1 0 0)
fresh_row = ground arith

dead_row : IsSound (row 2 3 5)
dead_row = ground arith

failed_row : IsSound (row 3 2 4)
failed_row = ground arith

tick-IsSound_example : All IsSound (tick 99 false true (λ r. r.id == 1) rows).0
tick-IsSound_example =
    tick-IsSound 99 (λ r. r.id == 1) rows ((refl, (refl, tt)), ((refl, tt), (tt, tt)))
      (fresh_row, (dead_row, (failed_row, tt)))

-- The last attempt fails: the row is dead.
last_try : get_elem? (tick 99 false true (λ r. false) rows).0 2 ≡ some (row 3 3 5)
unfolding tick dispatch due_rows sort_rows insert_row next_status_on_failure select update_rows
last_try = refl
