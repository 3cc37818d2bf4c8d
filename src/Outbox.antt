-- ===== src/Outbox.antt =====
-- The outbox and its dispatcher (mes-backend/src/mq/OutboxDispatcher.cc and OutboxPolicy.hh).
pub mod Settled
pub mod Round
mod Tests
use mes_cpp.Base.{
  ℕ, suc, ◌+◌, Bool, true, false, not, ◌&&◌, ◌||◌, Option, none, some, List, [], ◌∷◌, ◌++◌, String,
  ◌==◌, leb, ltb, if◌then◌else◌, take, select, update_rows,
}

-- mq_outbox: status 0 is waiting, 1 sent, 2 failed, 3 dead
pub record Row : Type 0 where
  pub id : ℕ
  pub exchange : String
  pub routing_key : String
  pub payload : String
  pub status : ℕ
  pub retry_count : ℕ
  pub created_at : ℕ
  pub sent_at : Option ℕ

abbrev pub max_retry : ℕ
max_retry = 5

abbrev pub batch_size : ℕ
batch_size = 50

unfoldable pub next_status_on_failure : ℕ → ℕ
next_status_on_failure before = if leb max_retry (before + 1) then 3 else 2

-- WHERE of the SELECT
abbrev pub is_due : Row → Bool
is_due r = r.status == 0 || (r.status == 2 && ltb r.retry_count max_retry)

-- ORDER BY created_at
unfoldable pub insert_row : Row → List Row → List Row
insert_row r [] = r ∷ []
insert_row r (s ∷ ss) =
    let rest = insert_row r ss in if leb r.created_at s.created_at then r ∷ s ∷ ss else s ∷ rest

unfoldable pub sort_rows : List Row → List Row
sort_rows [] = []
sort_rows (r ∷ rs) = insert_row r (sort_rows rs)

unfoldable pub due_rows : List Row → List Row
due_rows rows = take batch_size (sort_rows (select is_due rows))

-- The UPDATE after an attempt: `sent` is what `publishSync` returned for the selected row.
abbrev pub settle : ℕ → Bool → Row → Row → Row
settle now sent selected r =
    if sent then record r { status = 1; sent_at = some now } else record r {
      status = next_status_on_failure selected.retry_count;
      retry_count = r.retry_count + 1;
    }

abbrev pub same_id : Row → Row → Bool
same_id a b = a.id == b.id

-- The loop over the selected rows; `publish` is the broker.
unfoldable pub dispatch : ℕ → (Row → Bool) → List Row → List Row → List Row
dispatch now publish [] rows = rows
dispatch now publish (s ∷ ss) rows =
    dispatch now publish ss (update_rows (same_id s) (settle now (publish s) s) rows)

-- One round of the timer. `running`: the round before has not ended. `locked`: this instance got the
-- advisory lock. The second part is what was handed to the broker.
unfoldable pub tick : ℕ → Bool → Bool → (Row → Bool) → List Row → List Row × List Row
tick now running locked publish rows =
    if running
    then (rows, [])
    else if not locked
    then (rows, [])
    else (dispatch now publish (due_rows rows) rows, due_rows rows)
