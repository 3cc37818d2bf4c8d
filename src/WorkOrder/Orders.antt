-- ===== src/WorkOrder/Orders.antt =====
-- New and changed work orders: `create` and `update` of
-- mes-backend/src/services/WorkOrderService.cc.
pub mod Effects
use mathlib.Core.Option.{get_or}
use mes_cpp.Base.{
  ℕ, suc, Bool, true, false, ◌&&◌, ◌||◌, not, Option, none, some, List, [], ◌∷◌, ◌++◌, ◌==◌,
  if◌then◌else◌, String, ℤ, pos, leb_ℤ, eqb_ℤ, find_row, select, update_rows, ltb, leb,
}
use mes_cpp.WorkOrder.StateMachine.{scheduled}
use mes_cpp.WorkOrder.Store.{
  Order, Operation, Product, ProcessStep, Db, product_and_qty_required, product_not_found,
  process_not_bound, no_steps, order_not_found, already_released, nothing_to_update, Result, ok,
  err, Env, end_txn, is_order,
}

-- The body of `create`.
pub record CreateBody : Type 0 where
  pub product_id : Option ℤ
  pub plan_qty : Option ℤ
  pub process_id : Option ℤ
  pub line_id : Option ℤ
  pub priority : Option ℤ
  pub remark : Option String

abbrev pub is_product : ℤ → Product → Bool
is_product id p = eqb_ℤ p.id id && not p.deleted

-- The process of the order: the one of the request, or the product's.
unfoldable pub process_of : ℤ → ℤ → Db → Result ℤ
process_of process_id product_id db =
    if not (eqb_ℤ process_id (pos 0))
    then ok process_id
    else elim (find_row (is_product product_id) db.products) [
      | none ↦ err product_not_found
      | some p ↦ elim p.process_id [ none ↦ err process_not_bound | some process ↦ ok process ]
    ]

-- ORDER BY step_seq
unfoldable pub insert_step : ProcessStep → List ProcessStep → List ProcessStep
insert_step s [] = s ∷ []
insert_step s (t ∷ ts) =
    let rest = insert_step s ts in if leb_ℤ s.step_seq t.step_seq then s ∷ t ∷ ts else t ∷ rest

unfoldable pub sort_steps : List ProcessStep → List ProcessStep
sort_steps [] = []
sort_steps (s ∷ ss) = insert_step s (sort_steps ss)

unfoldable pub steps_of : ℤ → Db → List ProcessStep
steps_of process db = sort_steps (select (λ s. eqb_ℤ s.process_id process) db.steps)

abbrev pub nullif_zero : ℤ → Option ℤ
nullif_zero z = if eqb_ℤ z (pos 0) then none else some z

abbrev pub new_order : Env → ℕ → String → CreateBody → ℤ → ℤ → ℤ → Order
new_order env id number body product process plan = record {
  id = id;
  work_order_no = number;
  product_id = some product;
  process_id = process;
  line_id = nullif_zero (get_or body.line_id (pos 0));
  plan_qty = plan;
  completed_qty = pos 0;
  good_qty = pos 0;
  defect_qty = pos 0;
  scrap_qty = pos 0;
  priority = get_or body.priority (pos 5);
  status = 0;
  source = 2;
  remark = get_or body.remark "";
  actual_start_at = none;
  actual_end_at = none;
  created_by = env.user_id;
  updated_at = env.now;
}

abbrev pub new_operation : ℕ → ℕ → ℤ → ProcessStep → Operation
new_operation id order plan s = record {
  id = id;
  work_order_id = order;
  process_step_id = some s.id;
  step_seq = s.step_seq;
  step_name = s.step_name;
  plan_qty = plan;
  completed_qty = pos 0;
  good_qty = pos 0;
  defect_qty = pos 0;
  scrap_qty = pos 0;
  operator_id = none;
  status = 0;
  actual_start_at = none;
  actual_end_at = none;
}

-- The loop that inserts an operation for each step.
unfoldable pub insert_operations : ℕ → ℤ → List ProcessStep → Db → Db
insert_operations order plan [] db = db
insert_operations order plan (s ∷ ss) db = insert_operations order plan ss (record db {
  operations = db.operations ++ new_operation db.next_operation_id order plan s ∷ [];
  next_operation_id = suc db.next_operation_id;
})

abbrev pub insert_order : Env → CreateBody → ℤ → ℤ → ℤ → Db → Db
insert_order env body product process plan db = record db {
  orders =
      db.orders
      ++ new_order env db.next_order_id (env.gen_no db.order_no_seq) body product process plan ∷ [];
  next_order_id = suc db.next_order_id;
  order_no_seq = suc db.order_no_seq;
}

unfoldable pub create_rows : Env → CreateBody → ℤ → ℤ → ℤ → List ProcessStep → Db → Db × Result ℕ
create_rows env body product process plan [] db = (db, err no_steps)
create_rows env body product process plan (s ∷ ss) db = (
  insert_operations db.next_order_id plan (s ∷ ss) (insert_order env body product process plan db),
  ok db.next_order_id,
)

unfoldable pub create_txn : Env → CreateBody → ℤ → ℤ → Db → Db × Result ℕ
create_txn env body product plan db =
    elim (process_of (get_or body.process_id (pos 0)) product db) [
      | err e ↦ (db, err e)
      | ok process ↦ create_rows env body product process plan (steps_of process db) db
    ]

unfoldable pub create : Env → CreateBody → Db → Db × Result ℕ
create env body db =
    let product : ℤ = get_or body.product_id (pos 0) in
    let plan : ℤ = get_or body.plan_qty (pos 0) in
    if leb_ℤ product (pos 0) || leb_ℤ plan (pos 0)
    then (db, err product_and_qty_required)
    else end_txn env db (create_txn env body product plan db)

-- The body of `update`; only the keys that it contains are set.
pub record UpdateBody : Type 0 where
  pub plan_qty : Option ℤ
  pub priority : Option ℤ
  pub line_id : Option ℤ

abbrev pub is_empty : UpdateBody → Bool
is_empty b = elim b.plan_qty [
  | some p ↦ false
  | none ↦ elim b.priority [
    | some p ↦ false
    | none ↦ elim b.line_id [ some l ↦ false | none ↦ true ]
  ]
]

abbrev pub set_fields : Env → UpdateBody → Order → Order
set_fields env b o = record o {
  plan_qty = get_or b.plan_qty o.plan_qty;
  priority = get_or b.priority o.priority;
  line_id = elim b.line_id [ none ↦ o.line_id | some l ↦ some l ];
  updated_at = env.now;
}

-- The plan of the operations that have not begun.
abbrev pub sync_operations : ℕ → Option ℤ → List Operation → List Operation
sync_operations id none ops = ops
sync_operations id (some plan) ops =
    update_rows (λ op. op.work_order_id == id && op.status == 0)
      (λ op. record op { plan_qty = plan }) ops

unfoldable pub update_row : Env → ℕ → UpdateBody → Order → Db → Db × Result ℕ
update_row env id b row db =
    if ltb scheduled row.status
    then (db, err already_released)
    else if is_empty b
    then (db, err nothing_to_update)
    else (
      record db {
        orders = update_rows (is_order id) (set_fields env b) db.orders;
        operations = sync_operations id b.plan_qty db.operations;
      },
      ok id,
    )

unfoldable pub update_txn : Env → ℕ → UpdateBody → Db → Db × Result ℕ
update_txn env id b db = elim (find_row (is_order id) db.orders) [
  | none ↦ (db, err order_not_found)
  | some row ↦ update_row env id b row db
]

unfoldable pub update : Env → ℕ → UpdateBody → Db → Db × Result ℕ
update env id b db = end_txn env db (update_txn env id b db)
