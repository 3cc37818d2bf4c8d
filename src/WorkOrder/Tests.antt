-- ===== src/WorkOrder/Tests.antt =====
-- The theorems on work orders at concrete tables, and runs of the service on them.
use mes_cpp.Base.{
  false, ℕ, ◌≡◌, refl, ◌↔◌, ◌⊎◌, inl, inr, true, some, none, List, [], ◌∷◌, arith, pos, find_row,
  update_rows, any_row, add_int, ◌+ℤ◌, int_of_bits, bits_of_int,
}
use mes_cpp.WorkOrder.StateMachine.{complete, next}
use mes_cpp.WorkOrder.StateMachine.Spec.{Allowed, next_iff}
use mes_cpp.WorkOrder.Rules.{total_delta, valid_step, valid_qty}
use mes_cpp.WorkOrder.Store.{
  Result, order_not_found, not_in_progress, Order, Operation, Db, over_report, ok, err, Env,
  end_txn,
}
use mes_cpp.WorkOrder.Report.{
  ReportBody, Quantities, Reported, check_report, report, gate_blocks, diagnose,
}
use mes_cpp.WorkOrder.Report.Late.{Late}
use mes_cpp.WorkOrder.Report.Totals.{sum_completed}
use mes_cpp.WorkOrder.Report.Limits.{AllWithinPlan, report-AllWithinPlan}
use mes_cpp.WorkOrder.Report.Outcome.{report_refused_but_counted}
use mes_cpp.WorkOrder.History.{Request, transits, reports, run, step}
use mes_cpp.WorkOrder.History.Moves.{Moves}
use mes_cpp.WorkOrder.History.Invariant.{WellFormed}
use mes_cpp.WorkOrder.History.Runs.{AllTimely, run-WellFormed, run-Moves}

abbrev rolling_back : Env
rolling_back = record {
  now = 100;
  user_id = 7;
  gen_no = λ n. "WO2026081700001";
  committed = true;
  dropped = λ a b. a;
}

abbrev committing : Env
committing = record rolling_back { dropped = λ a b. b }

abbrev order : ℕ → Order
order status = record {
  id = 1;
  work_order_no = "WO2026081700001";
  product_id = some (pos 5);
  process_id = pos 9;
  line_id = none;
  plan_qty = pos 10;
  completed_qty = pos 8;
  good_qty = pos 8;
  defect_qty = pos 0;
  scrap_qty = pos 0;
  priority = pos 5;
  status = status;
  source = 2;
  remark = "";
  actual_start_at = some 50;
  actual_end_at = none;
  created_by = 7;
  updated_at = 60;
}

abbrev operation : ℕ → ℕ → ℕ → Operation
operation id step done = record {
  id = id;
  work_order_id = 1;
  process_step_id = none;
  step_seq = pos step;
  step_name = "assemble";
  plan_qty = pos 10;
  completed_qty = pos done;
  good_qty = pos done;
  defect_qty = pos 0;
  scrap_qty = pos 0;
  operator_id = none;
  status = 1;
  actual_start_at = some 50;
  actual_end_at = none;
}

-- One order of two steps, of which the first has completed eight pieces.
abbrev tables : ℕ → Db
tables status = record {
  orders = order status ∷ [];
  operations = operation 1 1 8 ∷ operation 2 2 0 ∷ [];
  outbox = [];
  products = [];
  steps = [];
  inspections = [];
  quality_gate_enabled = none;
  next_order_id = 2;
  next_operation_id = 3;
  order_no_seq = 2;
}

-- Good pieces on a step.
abbrev body : ℕ → ℕ → ReportBody
body step good = record {
  step_seq = some (pos step);
  good_qty = some (pos good);
  defect_qty = none;
  scrap_qty = none;
}

abbrev quantities : ℕ → ℕ → Quantities
quantities step good = record {
  step = pos step;
  good = pos good;
  defect = pos 0;
  scrap = pos 0;
  delta = pos good;
}

tables-WellFormed : WellFormed (tables 3)
unfolding sum_completed ◌+ℤ◌
tables-WellFormed = record {
  inv = record {
    steps_distinct = ((refl, tt), (tt, tt));
    orders_distinct = (tt, tt);
    totals = (refl, tt);
  };
  order_ids = (omega arith, tt);
  operation_orders = (omega arith, (omega arith, tt));
  process_steps = tt;
}

abbrev requests : List (Env × Request)
requests =
    (rolling_back, reports 1 (body 1 1))
    ∷ (rolling_back, transits 1 "pause")
    ∷ (rolling_back, reports 1 (body 1 1))
    ∷ []

run-Moves_example : Moves (order 3 ∷ []) (run (tables 3) requests).orders
run-Moves_example =
    run-Moves (tables 3) requests ((λ a b. refl), ((λ a b. refl), ((λ a b. refl), tt)))
      tables-WellFormed

-- The same tables with the transactions committed when they are dropped.
abbrev committed_requests : List (Env × Request)
committed_requests =
    (committing, reports 1 (body 1 1))
    ∷ (committing, reports 1 (body 1 5))
    ∷ (committing, reports 1 (body 1 1))
    ∷ []

ok-not-Late : (r : Result Reported) (x : Reported) → r ≡ ok x → ¬ Late r
ok-not-Late r x e (inl h) = cc (e, h)
ok-not-Late r x e (inr h) = cc (e, h)

over-not-Late : (r : Result Reported) → r ≡ err over_report → ¬ Late r
over-not-Late r e (inl h) = cc (e, h)
over-not-Late r e (inr h) = cc (e, h)

-- The second report is beyond the plan.
committed_requests-AllTimely : AllTimely (tables 3) committed_requests
unfolding step report check_report int_of_bits bits_of_int valid_step valid_qty total_delta add_int
    end_txn gate_blocks find_row any_row ◌+ℤ◌ diagnose update_rows
committed_requests-AllTimely = (
  ok-not-Late _ (record { reported = pos 1; finished = false; status = 3 }) refl,
  (
    over-not-Late _ refl,
    (ok-not-Late _ (record { reported = pos 1; finished = true; status = 5 }) refl, tt),
  ),
)

run-WellFormed_example : WellFormed (run (tables 3) committed_requests)
run-WellFormed_example =
    run-WellFormed (tables 3) committed_requests
      ((λ a b. inr refl), ((λ a b. inr refl), ((λ a b. inr refl), tt))) committed_requests-AllTimely
      tables-WellFormed

report-AllWithinPlan_example : AllWithinPlan (report committing 1 (body 1 2) (tables 3)).0
report-AllWithinPlan_example =
    report-AllWithinPlan committing 1 (body 1 2) (tables 3) (λ a b. inr refl)
      (omega arith, (omega arith, tt))

-- A report that fills the plan finishes the order.
abbrev finished_report : Reported
finished_report = record { reported = pos 2; finished = true; status = 5 }

too_much : (report rolling_back 1 (body 1 3) (tables 3)).1 ≡ err over_report
unfolding report check_report int_of_bits bits_of_int valid_step valid_qty total_delta add_int
    end_txn gate_blocks find_row any_row ◌+ℤ◌ diagnose
too_much = refl

checked :
    (step good : ℕ)
    → (step ≡ 1) ⊎ (step ≡ 2)
    → (good ≡ 1) ⊎ (good ≡ 5)
    → check_report (body step good) ≡ ok (quantities step good)
unfolding check_report int_of_bits bits_of_int valid_step valid_qty total_delta add_int
checked step good h k = ground arith

-- The order is paused: the report is refused, and the operation has nine pieces.
report_refused_but_counted_example :
    (((report committing 1 (body 1 1) (tables 4)).1 ≡ err order_not_found)
      ⊎ ((report committing 1 (body 1 1) (tables 4)).1 ≡ err not_in_progress))
    × ((report committing 1 (body 1 1) (tables 4)).0.orders ≡ (tables 4).orders)
    × (sum_completed 1 (report committing 1 (body 1 1) (tables 4)).0.operations
        ≡ sum_completed 1 (tables 4).operations +ℤ pos 1)
unfolding gate_blocks any_row find_row ◌+ℤ◌
report_refused_but_counted_example =
    report_refused_but_counted committing 1 (body 1 1) (tables 4) (quantities 1 1) (λ a b. refl)
      ((refl, tt), (tt, tt)) (checked 1 1 (inl refl) (inl refl)) refl refl
      ((λ e s. absurd (omega (arith, s))), tt)

next_iff_example : (next 3 complete ≡ pos 5) ↔ Allowed 3 complete 5
next_iff_example = next_iff 3 complete 5
