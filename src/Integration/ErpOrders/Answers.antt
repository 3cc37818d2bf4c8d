-- ===== src/Integration/ErpOrders/Answers.antt =====
-- A synchronisation with the ERP as a whole: `syncErpOrders` of
-- mes-backend/src/services/IntegrationService.cc.
use mes_cpp.Base.{
  ℕ, pos, ◌+◌, ◌≡◌, refl, ◌⊎◌, inl, inr, Bool, true, false, ◌||◌, Option, none, some, List, [], ◌∷◌,
  arith, String, if◌then◌else◌, Bool-cases,
}
use mes_cpp.Breaker.{Limits, Breaker}
use mes_cpp.Integration.Urls.{orders_path, get_url}
use mes_cpp.Integration.Call.{ApiConfig, Attempt, ExtResult, no_fault, Called, call_external}
use mes_cpp.Integration.Logs.{
  SyncLogs, not_configured, dates_required, statement_failed, Result, ok, err, write_log,
  fail_external,
}
use mes_cpp.Integration.ErpOrders.{ErpOrder, Incoming, Sync, sync_orders}
use mes_cpp.Integration.ErpOrders.Synced.{sync_orders-Synced}

-- The body, with the text of `order_type`.
pub record SyncBody : Type 0 where
  pub start_date : List ℕ
  pub end_date : List ℕ
  pub order_type : List ℕ

-- The tables and the breaker of the ERP.
pub record World : Type 0 where
  pub rows : List ErpOrder
  pub next_id : ℕ
  pub logs : SyncLogs
  pub breaker : Breaker

pub record Summary : Type 0 where
  pub total_synced : ℕ
  pub new_orders : ℕ
  pub updated_orders : ℕ
  pub sync_log_id : ℕ

-- What the service takes from its surroundings: the attempts of the call, the orders in the body of the
-- answer, `none` where reading them throws, and whether the INSERT of the log succeeds.
pub record Env : Type 0 where
  pub now : ℕ
  pub limits : Limits
  pub config : Option ApiConfig
  pub send : ℕ → Attempt
  pub orders_in : Option String → Option (List Incoming)
  pub log_written : Bool

abbrev pub path_of : SyncBody → List ℕ
path_of b = orders_path b.start_date b.end_date b.order_type

abbrev pub start_sync : World → Sync
start_sync w = record { rows = w.rows; next_id = w.next_id; total = 0; inserted = 0; updated = 0 }

-- The loop, the log and the answer.
unfoldable pub store_orders :
    Env → SyncBody → ExtResult → World → Option (List Incoming) → World × Result Summary
store_orders env b r w none = (w, err statement_failed)
store_orders env b r w (some orders) =
    let s = sync_orders orders (start_sync w) in
    let stored = record w { rows = s.rows; next_id = s.next_id } in
    if env.log_written
    then (
      record stored {
        logs =
            write_log "ERP" 1 "sync_orders" (pos 0) (get_url (path_of b)) "" r true no_fault w.logs;
      },
      ok (record {
        total_synced = s.total;
        new_orders = s.inserted;
        updated_orders = s.updated;
        sync_log_id = w.logs.next_id;
      }),
    )
    else (stored, err statement_failed)

abbrev pub with_logs : World → SyncLogs × Result Summary → World × Result Summary
with_logs w (logs, r) = (record w { logs = logs }, r)

unfoldable pub after_call : Env → SyncBody → World → Called → World × Result Summary
after_call env b w c =
    let after = record w { breaker = c.breaker } in
    if c.result.ok
    then store_orders env b c.result after (env.orders_in c.result.body)
    else with_logs after (
        fail_external env.log_written "ERP" 1 "sync_orders" (pos 0) (get_url (path_of b)) ""
          c.result w.logs)

abbrev pub is_blank : List ℕ → Bool
is_blank [] = true
is_blank (c ∷ s) = false

unfoldable pub sync_configured : Env → SyncBody → World → Option ApiConfig → World × Result Summary
sync_configured env b w none = (w, err (not_configured "ERP"))
sync_configured env b w (some c) =
    if is_blank b.start_date || is_blank b.end_date
    then (w, err dates_required)
    else after_call env b w (call_external env.limits env.now env.send c w.breaker)

unfoldable pub sync_erp_orders : Env → SyncBody → World → World × Result Summary
sync_erp_orders env b w = sync_configured env b w env.config

-- A success: the orders of an answer that the ERP gave are stored, and its counters are those of the rows.
pub record Stored (w : World) (r : World × Result Summary) : Type 0 where
  pub orders : List Incoming
  pub summary : Summary
  pub result : r.1 ≡ ok summary
  pub rows : r.0.rows ≡ (sync_orders orders (start_sync w)).rows
  pub counts : summary.total_synced ≡ summary.new_orders + summary.updated_orders

-- What holds of the tables after any answer.
abbrev pub Answered : World → World × Result Summary → Type 0
Answered w (w', ok s) = Stored w (w', ok s)
Answered w (w', err e) = (w'.rows ≡ w.rows) ⊎ (e ≡ statement_failed)

store_orders-Answered :
    (env : Env) (b : SyncBody) (r : ExtResult) (w : World) (breaker : Breaker)
    (o : Option (List Incoming))
    → Answered w (store_orders env b r (record w { breaker = breaker }) o)
unfolding store_orders
store_orders-Answered env b r w breaker none = inl refl
store_orders-Answered env b r w breaker (some orders) = elim (Bool-cases env.log_written) [
  | inl l ↦ rw l (record {
    orders = orders;
    summary = _;
    result = refl;
    rows = refl;
    counts = omega (arith, (sync_orders-Synced orders (start_sync w)).counts);
  })
  | inr l ↦ rw l (inr refl)
]

fail_external-Answered :
    (written : Bool) (url : List ℕ) (r : ExtResult) (w v : World)
    → v.rows ≡ w.rows
    → Answered w (with_logs v (fail_external written "ERP" 1 "sync_orders" (pos 0) url "" r w.logs))
unfolding fail_external
fail_external-Answered true url r w v e = inl e
fail_external-Answered false url r w v e = inl e

after_call-Answered :
    (env : Env) (b : SyncBody) (w : World) (c : Called) → Answered w (after_call env b w c)
unfolding after_call
after_call-Answered env b w c = elim (Bool-cases c.result.ok) [
  | inl e ↦ rw e (
      store_orders-Answered env b (record (c.result) { ok = true }) w c.breaker
        (env.orders_in c.result.body))
  | inr e ↦ rw e (
      fail_external-Answered env.log_written (get_url (path_of b))
        (record (c.result) { ok = false }) w (record w { breaker = c.breaker }) refl)
]

sync_configured-Answered :
    (env : Env) (b : SyncBody) (w : World) (o : Option ApiConfig)
    → Answered w (sync_configured env b w o)
unfolding sync_configured
sync_configured-Answered env b w none = inl refl
sync_configured-Answered env b w (some c) =
    elim (Bool-cases (is_blank b.start_date || is_blank b.end_date)) [
      | inl e ↦ rw e (inl refl)
      | inr e ↦
          rw e (after_call-Answered env b w (call_external env.limits env.now env.send c w.breaker))
    ]

-- A synchronisation that succeeds has stored the orders of an answer in the table, and counts as many orders
-- as it counts inserted and updated. One that ends in an error has left the table as it was, or is one of
-- whose statements one threw.
pub sync_erp_orders-Answered :
    (env : Env) (b : SyncBody) (w : World) → Answered w (sync_erp_orders env b w)
unfolding sync_erp_orders
sync_erp_orders-Answered env b w = sync_configured-Answered env b w env.config
