-- ===== src/WorkOrder/Store.antt =====
-- The tables that the work order service reads and writes, its requests, its errors, and how a
-- transaction ends (mes-backend/src/services/WorkOrderService.cc, common/SqlParam.hh).
use mes_cpp.Base.{
  ℕ, Bool, Option, none, some, List, ℤ, String, ◌==◌, if◌then◌else◌, ◌≡◌, refl, inl, inr,
  Bool-cases,
}

-- prod_work_orders
pub record Order : Type 0 where
  pub id : ℕ
  pub work_order_no : String
  pub product_id : Option ℤ
  pub process_id : ℤ
  pub line_id : Option ℤ
  pub plan_qty : ℤ
  pub completed_qty : ℤ
  pub good_qty : ℤ
  pub defect_qty : ℤ
  pub scrap_qty : ℤ
  pub priority : ℤ
  pub status : ℕ
  pub source : ℕ
  pub remark : String
  pub actual_start_at : Option ℕ
  pub actual_end_at : Option ℕ
  pub created_by : ℕ
  pub updated_at : ℕ

-- prod_work_order_operations
pub record Operation : Type 0 where
  pub id : ℕ
  pub work_order_id : ℕ
  pub process_step_id : Option ℕ
  pub step_seq : ℤ
  pub step_name : String
  pub plan_qty : ℤ
  pub completed_qty : ℤ
  pub good_qty : ℤ
  pub defect_qty : ℤ
  pub scrap_qty : ℤ
  pub operator_id : Option ℕ
  pub status : ℕ
  pub actual_start_at : Option ℕ
  pub actual_end_at : Option ℕ

-- prod_products
pub record Product : Type 0 where
  pub id : ℤ
  pub process_id : Option ℤ
  pub deleted : Bool

-- prod_process_steps
pub record ProcessStep : Type 0 where
  pub id : ℕ
  pub process_id : ℤ
  pub step_seq : ℤ
  pub step_name : String
  pub quality_check : Bool

-- qc_inspections
pub record Inspection : Type 0 where
  pub work_order_id : ℕ
  pub operation_id : Option ℕ
  pub result : ℕ

-- The payload of the message that stops the collection.
pub record StopMessage : Type 0 where
  pub version : String
  pub kind : String
  pub work_order_id : ℕ
  pub work_order_no : String
  pub product_id : ℤ
  pub timestamp : ℕ

-- mq_outbox, as `kEnqueueSql` writes it
pub record OutboxRow : Type 0 where
  pub exchange : String
  pub routing_key : String
  pub payload : StopMessage

pub record Db : Type 0 where
  pub orders : List Order
  pub operations : List Operation
  pub outbox : List OutboxRow
  pub products : List Product
  pub steps : List ProcessStep
  pub inspections : List Inspection
  -- `config_value` of `quality_gate_enabled`
  pub quality_gate_enabled : Option String
  -- the sequences behind the keys and the order numbers
  pub next_order_id : ℕ
  pub next_operation_id : ℕ
  pub order_no_seq : ℕ

pub data Error : Type 0 where
  unknown_action product_and_qty_required product_not_found process_not_bound no_steps : Error
  order_not_found already_released nothing_to_update illegal_transition : Error
  step_required negative_qty qty_required inspection_required not_in_progress : Error
  operation_not_found over_report commit_failed : Error

-- BadRequest 400, NotFound 404, Conflict 409, Internal 500
abbrev pub http_status : Error → ℕ
http_status unknown_action = 400
http_status product_and_qty_required = 400
http_status product_not_found = 404
http_status process_not_bound = 400
http_status no_steps = 400
http_status order_not_found = 404
http_status already_released = 409
http_status nothing_to_update = 400
http_status illegal_transition = 409
http_status step_required = 400
http_status negative_qty = 400
http_status qty_required = 400
http_status inspection_required = 409
http_status not_in_progress = 409
http_status operation_not_found = 404
http_status over_report = 409
http_status commit_failed = 500

pub data Result {ℓ} (A : Type ℓ) : Type ℓ where
  ok : A → Result A
  err : Error → Result A

-- What the service takes from its surroundings.
pub record Env : Type 0 where
  -- NOW()
  pub now : ℕ
  -- `ctx.userId`
  pub user_id : ℕ
  -- the order number for a value of the sequence, on the current date
  pub gen_no : ℕ → String
  -- the callback of COMMIT
  pub committed : Bool
  -- what the database holds when an exception drops the transaction: the tables before the
  -- transaction, the tables as the transaction left them
  pub dropped : Db → Db → Db

-- `if (!co_await commitAwait(std::move(trans))) throw Internal(...)`, and an exception before it.
unfoldable pub end_txn {ℓ} : {A : Type ℓ} → Env → Db → Db × Result A → Db × Result A
end_txn env before (working, ok a) =
    if env.committed then (working, ok a) else (before, err commit_failed)
end_txn env before (working, err e) = (env.dropped before working, err e)

pub end_txn-err {ℓ} :
    {A : Type ℓ} (env : Env) (before working : Db) (e : Error)
    → end_txn {A = A} env before (working, err e) ≡ (env.dropped before working, err e)
unfolding end_txn
end_txn-err env before working e = refl

-- What holds before a transaction and of its result holds when it has ended.
pub end_txn_keeps {ℓ κ} :
    {A : Type ℓ} (P : Db → Type κ) (env : Env) (before : Db) (r : Db × Result A)
    → P before
    → P (env.dropped before r.0)
    → P r.0
    → P (end_txn env before r).0
unfolding end_txn
end_txn_keeps P env before (w, ok a) b d h = elim (Bool-cases env.committed) [
  | inl e ↦ rw e h
  | inr e ↦ rw e b
]
end_txn_keeps P env before (w, err e) b d h = d

-- With a result, the tables are those of the transaction, or, where COMMIT fails, those before it.
pub end_txn_ok_keeps {ℓ κ} :
    {A : Type ℓ} (P : Db → Type κ) (env : Env) (before working : Db) (a : A)
    → P before
    → P working
    → P (end_txn env before (working, ok a)).0
unfolding end_txn
end_txn_ok_keeps P env before w a b h = elim (Bool-cases env.committed) [
  | inl e ↦ rw e h
  | inr e ↦ rw e b
]

-- WHERE id = $n
abbrev pub is_order : ℕ → Order → Bool
is_order id o = o.id == id

-- COALESCE on a time column
abbrev pub coalesce : Option ℕ → ℕ → Option ℕ
coalesce none t = some t
coalesce (some s) t = some s
