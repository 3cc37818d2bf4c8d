-- ===== src/WorkOrder/Report.antt =====
-- Reports of finished work: `report` of mes-backend/src/services/WorkOrderService.cc.
pub mod Frame
pub mod Late
pub mod Totals
pub mod Limits
pub mod Gate
pub mod Outcome
use text.Mathlib.Text.{◌==◌ as str_eq}
use mathlib.Core.Option.{get_or}
use mes_cpp.Base.{
  ℕ, Bool, true, false, ◌&&◌, ◌||◌, not, Option, none, some, List, [], ◌∷◌, ◌++◌, ◌==◌,
  if◌then◌else◌, ℤ, pos, ◌+ℤ◌, leb_ℤ, eqb_ℤ, find_row, any_row, update_rows,
}
use mes_cpp.WorkOrder.StateMachine.{in_progress, completed}
use mes_cpp.WorkOrder.Rules.{valid_step, valid_qty, total_delta}
use mes_cpp.WorkOrder.Store.{
  Order, Operation, ProcessStep, Inspection, OutboxRow, Db, Error, order_not_found, step_required,
  negative_qty, qty_required, inspection_required, not_in_progress, operation_not_found,
  over_report, Result, ok, err, Env, end_txn, is_order, coalesce,
}

-- The body of a report; a missing key is 0.
pub record ReportBody : Type 0 where
  pub step_seq : Option ℤ
  pub good_qty : Option ℤ
  pub defect_qty : Option ℤ
  pub scrap_qty : Option ℤ

-- The checked quantities that the statements are given.
pub record Quantities : Type 0 where
  pub step : ℤ
  pub good : ℤ
  pub defect : ℤ
  pub scrap : ℤ
  pub delta : ℤ

unfoldable pub check_report : ReportBody → Result Quantities
check_report body =
    let step : ℤ = get_or body.step_seq (pos 0) in
    let good : ℤ = get_or body.good_qty (pos 0) in
    let defect : ℤ = get_or body.defect_qty (pos 0) in
    let scrap : ℤ = get_or body.scrap_qty (pos 0) in
    let delta : ℤ = total_delta good defect scrap in
    if not (valid_step step)
    then err step_required
    else if not (valid_qty good defect scrap)
    then err negative_qty
    else if leb_ℤ delta (pos 0)
    then err qty_required
    else ok (record { step = step; good = good; defect = defect; scrap = scrap; delta = delta })

abbrev pub is_operation : ℕ → ℤ → Operation → Bool
is_operation id step op = op.work_order_id == id && eqb_ℤ op.step_seq step

abbrev pub fits : ℤ → ℤ → ℤ → Bool
fits completed_qty delta plan_qty = leb_ℤ (completed_qty +ℤ delta) plan_qty

abbrev pub fills : ℤ → ℤ → ℤ → Bool
fills completed_qty delta plan_qty = leb_ℤ plan_qty (completed_qty +ℤ delta)

-- The quality gate: the joined rows of the operation and its process step.
abbrev pub is_passing : ℕ → Operation → Inspection → Bool
is_passing id op i =
    i.work_order_id == id
    && (elim i.operation_id [ none ↦ true | some o ↦ o == op.id ])
    && (i.result == 1 || i.result == 3)

abbrev pub gate_enabled : Db → Bool
gate_enabled db = str_eq (get_or db.quality_gate_enabled "true") "true"

-- `ps.id = op.process_step_id`; NULL joins nothing.
abbrev pub joins : Operation → ProcessStep → Bool
joins op ps = elim op.process_step_id [ none ↦ false | some s ↦ ps.id == s ]

gate_row : ℕ → ℤ → List ProcessStep → Operation → Option (Operation × ProcessStep)
gate_row id step steps op = elim (find_row (joins op) steps) [
  | none ↦ none
  | some ps ↦ if is_operation id step op then some (op, ps) else none
]

-- The first row of the join, as `gate[0]` reads it.
first_gate : ℕ → ℤ → List ProcessStep → List Operation → Option (Operation × ProcessStep)
first_gate id step steps [] = none
first_gate id step steps (op ∷ ops) =
    let rest = first_gate id step steps ops in
    elim (gate_row id step steps op) [ none ↦ rest | some r ↦ some r ]

unfoldable pub gate_blocks : ℕ → ℤ → Db → Bool
unfolding first_gate gate_row
gate_blocks id step db = elim (first_gate id step db.steps db.operations) [
  | none ↦ false
  | some (op, ps) ↦
      ps.quality_check && gate_enabled db && not (any_row (is_passing id op) db.inspections)
]

-- WHERE of the inner UPDATE
abbrev pub op_matches : ℕ → Quantities → Operation → Bool
op_matches id q op = is_operation id q.step op && fits op.completed_qty q.delta op.plan_qty

-- SET of the inner UPDATE
abbrev pub report_operation : Env → Quantities → Operation → Operation
report_operation env q op = record op {
  completed_qty = op.completed_qty +ℤ q.delta;
  good_qty = op.good_qty +ℤ q.good;
  defect_qty = op.defect_qty +ℤ q.defect;
  scrap_qty = op.scrap_qty +ℤ q.scrap;
  operator_id = some env.user_id;
  status = if fills op.completed_qty q.delta op.plan_qty then 2 else 1;
  actual_start_at = coalesce op.actual_start_at env.now;
  actual_end_at =
      if fills op.completed_qty q.delta op.plan_qty then some env.now else op.actual_end_at;
}

-- WHERE of the outer UPDATE, but for EXISTS
abbrev pub order_matches : ℕ → Order → Bool
order_matches id o = o.id == id && o.status == in_progress

-- SET of the outer UPDATE
abbrev pub report_order : Env → Quantities → Order → Order
report_order env q o = record o {
  completed_qty = o.completed_qty +ℤ q.delta;
  good_qty = o.good_qty +ℤ q.good;
  defect_qty = o.defect_qty +ℤ q.defect;
  scrap_qty = o.scrap_qty +ℤ q.scrap;
  status = if fills o.completed_qty q.delta o.plan_qty then completed else o.status;
  actual_end_at =
      if fills o.completed_qty q.delta o.plan_qty then some env.now else o.actual_end_at;
  updated_at = env.now;
}

-- The inner UPDATE runs whether or not the outer one finds its row.
abbrev pub report_operations : Env → ℕ → Quantities → Db → Db
report_operations env id q db = record db {
  operations = update_rows (op_matches id q) (report_operation env q) db.operations;
}

-- Why the statement returned no row.
unfoldable pub diagnose : ℕ → Quantities → Db → Error
diagnose id q db = elim (find_row (is_order id) db.orders) [
  | none ↦ order_not_found
  | some o ↦
      if not (o.status == in_progress)
      then not_in_progress
      else elim (find_row (is_operation id q.step) db.operations) [
        | none ↦ operation_not_found
        | some op ↦ over_report
      ]
]

abbrev pub stop_row : Env → Order → OutboxRow
stop_row env o = record {
  exchange = "iot.exchange";
  routing_key = "cmd.stop_collection";
  payload = record {
    version = "1.0";
    kind = "stop_collection";
    work_order_id = o.id;
    work_order_no = o.work_order_no;
    product_id = get_or o.product_id (pos 0);
    timestamp = env.now;
  };
}

-- What a report answers.
pub record Reported : Type 0 where
  pub reported : ℤ
  pub finished : Bool
  pub status : ℕ

-- The outer UPDATE found the row `o`.
unfoldable pub report_hit : Env → ℕ → Quantities → Order → Db → Db × Result Reported
report_hit env id q o db =
    let finished : Bool = fills o.completed_qty q.delta o.plan_qty in
    (
      record db {
        orders = update_rows (order_matches id) (report_order env q) db.orders;
        outbox = if finished then db.outbox ++ stop_row env o ∷ [] else db.outbox;
      },
      ok (record {
        reported = q.delta;
        finished = finished;
        status = if finished then completed else in_progress;
      }),
    )

unfoldable pub report_order_row : Env → ℕ → Quantities → Db → Db × Result Reported
unfolding report_hit
report_order_row env id q db = elim (find_row (order_matches id) db.orders) [
  | none ↦ (db, err (diagnose id q db))
  | some o ↦ report_hit env id q o db
]

unfoldable pub report_statement : Env → ℕ → Quantities → Db → Db × Result Reported
unfolding report_order_row
report_statement env id q db =
    if any_row (op_matches id q) db.operations
    then report_order_row env id q (report_operations env id q db)
    else (db, err (diagnose id q db))

unfoldable pub report_txn : Env → ℕ → Quantities → Db → Db × Result Reported
unfolding report_statement
report_txn env id q db =
    if gate_blocks id q.step db then (db, err inspection_required) else report_statement env id q db

unfoldable pub report : Env → ℕ → ReportBody → Db → Db × Result Reported
unfolding report_txn
report env id body db = elim (check_report body) [
  | err e ↦ (db, err e)
  | ok q ↦ end_txn env db (report_txn env id q db)
]
