-- ===== src/Broadcast/Latest.antt =====
-- What a channel sends is its newest message (mes-backend/src/websocket/WsBroadcastManager.cc).
use text.Mathlib.Text.{◌==◌ as str_eq}
use text.Mathlib.TextEquality.{eq_iff}
use mes_cpp.Base.{
  ℕ, ◌≡◌, refl, ap, sym, ◌∙◌, Bool, Option, none, some, List, [], ◌∷◌, ◌++◌, arith, String,
  if◌then◌else◌, select,
}
use mathlib.Core.List.{append_assoc, append-nil}
use mes_cpp.Broadcast.{
  Envelope, Pending, Delivery, Server, set_pending, find_pending, Message, standard, other, refused,
  handle_message, swap_pending, deliveries, drain_channel, subscribe, unsubscribe_all, Event,
  subscribes, leaves, message, swaps, drains, step, run,
}

find-set_pending :
    (c channel : String) (env : Envelope) (ps : Pending)
    → find_pending c (set_pending channel env ps)
      ≡ (if str_eq channel c then some env else find_pending c ps)
unfolding find_pending set_pending
find-set_pending c channel env [] = refl
find-set_pending c channel env ((d, e) ∷ ps) =
    ground
      (arith, eq_iff d channel, eq_iff d c, eq_iff channel c, find-set_pending c channel env ps)

-- The newest message of a channel, after one more.
abbrev pub newest_with : String → String → Message → Option Envelope → Option Envelope
newest_with c channel (standard body) o = if str_eq channel c then some body else o
newest_with c channel (other env) o = if str_eq channel c then some env else o
newest_with c channel refused o = o

-- The newest message of a channel since the start of the last batch, by the events alone; `o` is the one
-- before them.
unfoldable pub newest : String → Option Envelope → List Event → Option Envelope
newest c o [] = o
newest c o (subscribes channel conn ∷ es) = newest c o es
newest c o (leaves conn ∷ es) = newest c o es
newest c o (message channel m ∷ es) = newest c (newest_with c channel m o) es
newest c o (swaps ∷ es) = newest c none es
newest c o (drains connected ∷ es) = newest c o es

handle_message_lem :
    (c channel : String) (m : Message) (s : Server)
    → find_pending c (handle_message channel m s).pending
      ≡ newest_with c channel m (find_pending c s.pending)
unfolding handle_message
handle_message_lem c channel (standard body) s = find-set_pending c channel body s.pending
handle_message_lem c channel (other env) s = find-set_pending c channel env s.pending
handle_message_lem c channel refused s = refl

drain_channel-pending :
    (connected : ℕ → Bool) (batch : Pending) (s : Server)
    → (drain_channel connected batch s).pending ≡ s.pending
unfolding drain_channel
drain_channel-pending connected [] s = refl
drain_channel-pending connected ((c, e) ∷ rest) s = refl

-- Whatever happens, in any order, what is pending for a channel is the newest message that came for it since
-- the last batch was begun; where none came, it is what was pending before, if no batch was begun, and
-- otherwise nothing.
pub run-newest :
    (c : String) (s : Server) (es : List Event)
    → find_pending c (run s es).pending ≡ newest c (find_pending c s.pending) es
unfolding run step newest subscribe unsubscribe_all swap_pending find_pending
run-newest c s [] = refl
run-newest c s (subscribes channel conn ∷ es) = run-newest c (subscribe channel conn s) es
run-newest c s (leaves conn ∷ es) = run-newest c (unsubscribe_all conn s) es
run-newest c s (message channel m ∷ es) =
    run-newest c (handle_message channel m s) es
    ∙ ap (λ o. newest c o es) (handle_message_lem c channel m s)
run-newest c s (swaps ∷ es) = run-newest c (swap_pending s) es
run-newest c s (drains connected ∷ es) =
    run-newest c (drain_channel connected s.batch s) es
    ∙ ap (λ ps. newest c (find_pending c ps) es) (drain_channel-pending connected s.batch s)

-- What a whole batch sends.
unfoldable pub batch_deliveries : (ℕ → Bool) → (String → List ℕ) → Pending → List Delivery
batch_deliveries connected subs [] = []
batch_deliveries connected subs ((c, e) ∷ ps) =
    deliveries e (select connected (subs c)) ++ batch_deliveries connected subs ps

-- The loop of `drainPending` for a batch.
unfoldable pub drain_rounds : (ℕ → Bool) → Pending → List Event
drain_rounds connected [] = []
drain_rounds connected (p ∷ ps) = drains connected ∷ drain_rounds connected ps

drain_rounds_lem :
    (connected : ℕ → Bool) (batch : Pending) (s : Server)
    → run (record s { batch = batch }) (drain_rounds connected batch)
      ≡ record s { batch = []; sent = s.sent ++ batch_deliveries connected s.subs batch }
unfolding run step drain_rounds batch_deliveries drain_channel
drain_rounds_lem connected [] s =
    ap (λ (x : List Delivery). record s { batch = []; sent = x }) (sym (append-nil s.sent))
drain_rounds_lem connected ((c, e) ∷ ps) s =
    drain_rounds_lem connected ps
      (record s { sent = s.sent ++ deliveries e (select connected (s.subs c)) })
    ∙ ap (λ (x : List Delivery). record s { batch = []; sent = x })
        (append_assoc s.sent (deliveries e (select connected (s.subs c)))
          (batch_deliveries connected s.subs ps))

-- A batch that is begun when the last is done, and gone through with no other event between, sends what is
-- pending of each channel to exactly its subscribers that are connected, in their order, and leaves nothing
-- pending.
pub run-drain_rounds :
    (connected : ℕ → Bool) (s : Server)
    → s.batch ≡ []
    → run s (swaps ∷ drain_rounds connected s.pending) ≡ record s {
      batch = [];
      pending = [];
      sent = s.sent ++ batch_deliveries connected s.subs s.pending;
    }
unfolding run step swap_pending
run-drain_rounds connected s h =
    ap
      (λ (b : Pending).
        run (record s { batch = b ++ s.pending; pending = [] }) (drain_rounds connected s.pending))
      h
    ∙ drain_rounds_lem connected s.pending (record s { pending = [] })
