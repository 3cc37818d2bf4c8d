-- ===== src/Broadcast.antt =====
-- Messages to the browsers: mes-backend/src/websocket/WsBroadcastManager.cc. A connection is a number. The
-- maps from channels are a function for the subscribers and a list of pairs for what is pending.
pub mod Limits
pub mod Latest
pub mod Leader
mod Tests
use text.Mathlib.Text.{◌==◌ as str_eq}
use mes_cpp.Base.{
  ℕ, zero, suc, Bool, true, false, ◌&&◌, not, Option, none, some, List, [], ◌∷◌, ◌++◌, String, ◌==◌,
  leb, if◌then◌else◌, length, any_row, select, drop, map,
}

-- What goes to a channel, by its text.
abbrev pub Envelope : Type 0
Envelope = String

abbrev pub Pending : Type 0
Pending = List (String × Envelope)

-- A text that was sent on a connection.
pub record Delivery : Type 0 where
  pub conn : ℕ
  pub env : Envelope

-- g_subs and g_pending, the rest of the batch that `drainPending` is going through, and what was sent.
pub record Server : Type 0 where
  pub subs : String → List ℕ
  pub pending : Pending
  pub batch : Pending
  pub sent : List Delivery

abbrev pub max_subs_per_channel : ℕ
max_subs_per_channel = 2000

-- `g_pending[channel] = env`
unfoldable pub set_pending : String → Envelope → Pending → Pending
set_pending channel env [] = (channel, env) ∷ []
set_pending channel env ((c, e) ∷ ps) =
    let rest = set_pending channel env ps in
    if str_eq c channel then (c, env) ∷ ps else (c, e) ∷ rest

unfoldable pub find_pending : String → Pending → Option Envelope
find_pending channel [] = none
find_pending channel ((c, e) ∷ ps) =
    let rest = find_pending channel ps in if str_eq c channel then some e else rest

-- The vector of a channel in `subscribe`.
unfoldable pub add_sub : ℕ → List ℕ → List ℕ
add_sub conn vec =
    if any_row (λ s. s == conn) vec
    then vec
    else if leb max_subs_per_channel (length vec)
    then drop 1 vec ++ conn ∷ []
    else vec ++ conn ∷ []

unfoldable pub subscribe : String → ℕ → Server → Server
subscribe channel conn s = record s {
  subs = λ c. if str_eq c channel then add_sub conn (s.subs c) else s.subs c;
}

unfoldable pub unsubscribe_all : ℕ → Server → Server
unsubscribe_all conn s = record s { subs = λ c. select (λ x. not (x == conn)) (s.subs c) }

unfoldable pub subscriber_count : String → Server → ℕ
subscriber_count channel s = length (s.subs channel)

-- What a message from Redis is: an envelope for its channel, another JSON value, for which `publishLocal`
-- makes the envelope, or neither, which is only logged.
pub data Message : Type 0 where
  standard : Envelope → Message
  other : Envelope → Message
  refused : Message

unfoldable pub handle_message : String → Message → Server → Server
handle_message channel (standard body) s = record s { pending = set_pending channel body s.pending }
handle_message channel (other env) s = record s { pending = set_pending channel env s.pending }
handle_message channel refused s = s

-- The start of `drainPending`: the batch takes what is pending.
unfoldable pub swap_pending : Server → Server
swap_pending s = record s { batch = s.batch ++ s.pending; pending = [] }

abbrev pub deliveries : Envelope → List ℕ → List Delivery
deliveries env conns = map (λ c. record { conn = c; env = env }) conns

-- One channel of its loop; `connected` is what the connections answer.
unfoldable pub drain_channel : (ℕ → Bool) → Pending → Server → Server
drain_channel connected [] s = s
drain_channel connected ((channel, env) ∷ rest) s = record s {
  batch = rest;
  sent = s.sent ++ deliveries env (select connected (s.subs channel));
}

-- What threads do, in any order. The timer's loop starts a batch only when it is done with the last.
pub data Event : Type 0 where
  subscribes : String → ℕ → Event
  leaves : ℕ → Event
  message : String → Message → Event
  swaps : Event
  drains : (ℕ → Bool) → Event

unfoldable pub step : Server → Event → Server
step s (subscribes channel conn) = subscribe channel conn s
step s (leaves conn) = unsubscribe_all conn s
step s (message channel m) = handle_message channel m s
step s swaps = swap_pending s
step s (drains connected) = drain_channel connected s.batch s

unfoldable pub run : Server → List Event → Server
run s [] = s
run s (e ∷ es) = run (step s e) es
