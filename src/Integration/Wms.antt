-- ===== src/Integration/Wms.antt =====
-- Material that is asked of the WMS or given to it: `wmsCall` of
-- mes-backend/src/services/IntegrationService.cc. A `double` stands by its text.
use text.Mathlib.Text.{◌==◌ as str_eq}
use mes_cpp.Base.{
  ℕ, suc, ◌≡◌, refl, ◌⊎◌, inl, inr, Bool, true, false, not, ◌||◌, Option, none, some, List, [], ◌∷◌,
  ◌++◌, String, ◌==◌, if◌then◌else◌, ℤ, codes, Bool-cases,
}
use mes_cpp.Breaker.{Limits, Breaker}
use mes_cpp.Integration.Urls.{post_url}
use mes_cpp.Integration.Call.{ApiConfig, Attempt, ExtResult, no_fault, Called, call_external}
use mes_cpp.Integration.Logs.{
  SyncLogs, material_required, not_configured, statement_failed, Result, ok, err, write_log,
  fail_external,
}

-- The body, with the defaults filled in.
pub record WmsBody : Type 0 where
  pub material_code : String
  pub material_name : String
  pub warehouse : String
  pub unit : String
  pub quantity : String
  pub work_order_id : ℤ

-- integ_wms_inventory
pub record WmsRow : Type 0 where
  pub id : ℕ
  pub material_code : String
  pub material_name : String
  pub warehouse : String
  pub quantity : String
  pub unit : String
  pub status : String
  pub sync_type : ℕ
  pub work_order_id : ℤ

pub record World : Type 0 where
  pub rows : List WmsRow
  pub next_id : ℕ
  pub logs : SyncLogs
  pub breaker : Breaker

-- `not_positive` is the test `quantity <= 0`, and `payload` the text of the payload.
pub record Env : Type 0 where
  pub now : ℕ
  pub limits : Limits
  pub config : Option ApiConfig
  pub send : ℕ → Attempt
  pub not_positive : String → Bool
  pub payload : WmsBody → ℕ → String
  pub inventory_written : Bool
  pub log_written : Bool

-- An action, by the end of its path and its type: pick-request with 1 or stock-in with 2.
pub record Action : Type 0 where
  pub name : String
  pub path : List ℕ
  pub sync_type : ℕ

abbrev pub pick_request : Action
pick_request = record { name = "pick-request"; path = codes "/wms/pick-request"; sync_type = 1 }

abbrev pub stock_in : Action
stock_in = record { name = "stock-in"; path = codes "/wms/stock-in"; sync_type = 2 }

abbrev pub new_row : ℕ → WmsBody → Action → WmsRow
new_row id b a = record {
  id = id;
  material_code = b.material_code;
  material_name = b.material_name;
  warehouse = b.warehouse;
  quantity = b.quantity;
  unit = b.unit;
  status = if a.sync_type == 1 then "ISSUED" else "INBOUND";
  sync_type = a.sync_type;
  work_order_id = b.work_order_id;
}

abbrev pub insert_row : WmsBody → Action → World → World
insert_row b a w = record w { rows = w.rows ++ new_row w.next_id b a ∷ []; next_id = suc w.next_id }

-- The row, the log and the numbers of both, the log's first.
unfoldable pub store_row : Env → WmsBody → Action → ExtResult → World → World × Result (ℕ × ℕ)
store_row env b a r w =
    let stored = insert_row b a w in
    let logs =
      write_log "WMS" 2 a.name b.work_order_id (post_url a.path) (env.payload b a.sync_type) r true
        no_fault w.logs in
    if not env.inventory_written
    then (w, err statement_failed)
    else if not env.log_written
    then (stored, err statement_failed)
    else (record stored { logs = logs }, ok (w.logs.next_id, w.next_id))

abbrev pub with_logs : World → SyncLogs × Result (ℕ × ℕ) → World × Result (ℕ × ℕ)
with_logs w (logs, r) = (record w { logs = logs }, r)

unfoldable pub after_call : Env → WmsBody → Action → World → Called → World × Result (ℕ × ℕ)
after_call env b a w c =
    let after = record w { breaker = c.breaker } in
    if c.result.ok
    then store_row env b a c.result after
    else with_logs after (
        fail_external env.log_written "WMS" 2 a.name b.work_order_id (post_url a.path)
          (env.payload b a.sync_type) c.result w.logs)

unfoldable pub call_configured :
    Env → WmsBody → Action → World → Option ApiConfig → World × Result (ℕ × ℕ)
call_configured env b a w none = (w, err (not_configured "WMS"))
call_configured env b a w (some c) =
    after_call env b a w (call_external env.limits env.now env.send c w.breaker)

unfoldable pub wms_call : Env → WmsBody → Action → World → World × Result (ℕ × ℕ)
wms_call env b a w =
    if str_eq b.material_code "" || env.not_positive b.quantity
    then (w, err material_required)
    else call_configured env b a w env.config

-- What is in the inventory after any answer: with a success one more row, and with an error none, unless a
-- statement threw.
abbrev pub Kept : WmsBody → Action → World → World × Result (ℕ × ℕ) → Type 0
Kept b a w (w', ok numbers) =
    (w'.rows ≡ w.rows ++ new_row w.next_id b a ∷ []) × (numbers.1 ≡ w.next_id)
Kept b a w (w', err e) = (w'.rows ≡ w.rows) ⊎ (e ≡ statement_failed)

module _ (env : Env) (b : WmsBody) (a : Action) (w : World) where
  store_row-Kept :
      (r : ExtResult) (breaker : Breaker)
      → Kept b a w (store_row env b a r (record w { breaker = breaker }))
  unfolding store_row
  store_row-Kept r breaker = elim (Bool-cases env.inventory_written) [
    | inr i ↦ rw i (inl refl)
    | inl i ↦ elim (Bool-cases env.log_written) [
      | inr l ↦ rw (i, l) (inr refl)
      | inl l ↦ rw (i, l) (refl, refl)
    ]
  ]

  fail_external-Kept :
      (written : Bool) (r : ExtResult) (breaker : Breaker)
      → Kept b a w (
          with_logs
            (record w { breaker = breaker })
            (fail_external written "WMS" 2 a.name b.work_order_id
              (post_url a.path)
              (env.payload b a.sync_type)
              r
              w.logs))
  unfolding fail_external
  fail_external-Kept true r breaker = inl refl
  fail_external-Kept false r breaker = inl refl

  after_call-Kept : (c : Called) → Kept b a w (after_call env b a w c)
  unfolding after_call
  after_call-Kept c = elim (Bool-cases c.result.ok) [
    | inl e ↦ rw e (store_row-Kept (record (c.result) { ok = true }) c.breaker)
    | inr e ↦ rw e (fail_external-Kept env.log_written (record (c.result) { ok = false }) c.breaker)
  ]

  call_configured-Kept : (o : Option ApiConfig) → Kept b a w (call_configured env b a w o)
  unfolding call_configured
  call_configured-Kept none = inl refl
  call_configured-Kept (some c) =
      after_call-Kept (call_external env.limits env.now env.send c w.breaker)

  -- A call of the WMS that succeeds leaves exactly one more row in the inventory, with the number that is
  -- answered; one that ends in an error leaves none, or is one of whose statements one threw.
  pub wms_call-Kept : Kept b a w (wms_call env b a w)
  unfolding wms_call
  wms_call-Kept = elim (Bool-cases (str_eq b.material_code "" || env.not_positive b.quantity)) [
    | inl e ↦ rw e (inl refl)
    | inr e ↦ rw e (call_configured-Kept env.config)
  ]
