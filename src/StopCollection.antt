-- ===== src/StopCollection.antt =====
-- The relay of the stop command to the devices of a line
-- (mes-backend/src/mq/StopCollectionHandler.cc). What the JSON library and the database answer is a
-- parameter; the answers to the inserts come in any order, also before the next one is sent.
pub mod FanOut
pub mod NeverPauses
mod Tests
use text.Mathlib.Text.{◌==◌ as str_eq, starts_with}
use mes_cpp.Base.{
  ℕ, zero, suc, ◌+◌, ◌-◌, Bool, true, false, not, ◌&&◌, Option, none, some, List, [], ◌∷◌, ◌++◌,
  String, ◌==◌, if◌then◌else◌, ℤ, pos, ltb_ℤ, map,
}

-- An envelope, with what `value("work_order_id", 0)` gives for its body: `none` for an exception.
pub record Envelope : Type 0 where
  pub routing_key : String
  pub work_order_id : Option ℤ

-- How a message is taken: dropped with an acknowledgement, or its devices are looked up.
pub data Taken : Type 0 where
  dropped : Taken
  looked_up : ℤ → Taken

abbrev pub work_order_of : Envelope → ℤ
work_order_of e = elim e.work_order_id [ none ↦ pos 0 | some n ↦ n ]

unfoldable pub take_message : Envelope → Taken
take_message e =
    if starts_with e.routing_key "cmd.stop."
    then dropped
    else if not (ltb_ℤ (pos 0) (work_order_of e))
    then dropped
    else looked_up (work_order_of e)

-- The relay to the devices: those that still wait for their insert, the number of inserts without an
-- answer, `State`, what was enqueued for the delivery, and the devices that have a row in the outbox.
pub record Relay : Type 0 where
  pub devices : List ℤ
  pub unanswered : List ℤ
  pub pending : ℕ
  pub failed : Bool
  pub acks : List Bool
  pub outbox : List ℤ

abbrev pub new_relay : List ℤ → Relay
new_relay devices = record {
  devices = devices;
  unanswered = [];
  pending = 0;
  failed = false;
  acks = [];
  outbox = [];
}

-- The body of the loop over the devices: `fetch_add` and the insert.
abbrev pub issue_to : ℤ → List ℤ → Relay → Relay
issue_to d ds s = record s {
  devices = ds;
  unanswered = s.unanswered ++ d ∷ [];
  pending = s.pending + 1;
}

abbrev pub issue_first : List ℤ → Relay → Relay
issue_first [] s = s
issue_first (d ∷ ds) s = issue_to d ds s

-- The callback of an insert that succeeded: `fetch_sub` gives the number before.
abbrev pub on_success : ℤ → List ℤ → Relay → Relay
on_success d rest s = record s {
  unanswered = rest;
  pending = s.pending - 1;
  acks = if s.pending == 1 && not s.failed then s.acks ++ true ∷ [] else s.acks;
  outbox = s.outbox ++ d ∷ [];
}

abbrev pub on_failure : List ℤ → Relay → Relay
on_failure rest s = record s {
  unanswered = rest;
  pending = s.pending - 1;
  failed = true;
  acks = if s.pending == 1 then s.acks ++ false ∷ [] else s.acks;
}

-- The answer to the insert at a place.
unfoldable pub take_at : ℕ → List ℤ → Option (ℤ × List ℤ)
take_at i [] = none
take_at zero (d ∷ ds) = some (d, ds)
take_at (suc i) (d ∷ ds) = elim (take_at i ds) [ none ↦ none | some (e, es) ↦ some (e, d ∷ es) ]

pub data Event : Type 0 where
  issues : Event
  answers : ℕ → Bool → Event

unfoldable pub step : Relay → Event → Relay
step s issues = issue_first s.devices s
step s (answers i ok) = elim (take_at i s.unanswered) [
  | none ↦ s
  | some (d, rest) ↦ if ok then on_success d rest s else on_failure rest s
]

unfoldable pub run : Relay → List Event → Relay
run s [] = s
run s (e ∷ es) = run (step s e) es

-- The answer to the query for the devices: no device is acknowledged at once, an error asks for the
-- message again.
unfoldable pub start_relay : Option (List ℤ) → Relay
start_relay none = record (new_relay []) { acks = false ∷ [] }
start_relay (some []) = record (new_relay []) { acks = true ∷ [] }
start_relay (some (d ∷ ds)) = new_relay (d ∷ ds)
