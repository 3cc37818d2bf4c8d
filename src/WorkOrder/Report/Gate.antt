-- ===== src/WorkOrder/Report/Gate.antt =====
-- The quality gate of a report (mes-backend/src/services/WorkOrderService.cc).
use mathlib.Core.Option.{get_or}
use mes_cpp.Base.{
  ℕ, true, false, ◌≡◌, refl, ◌⊎◌, inl, inr, ◌&&◌, not, some, none, List, [], ◌∷◌, arith, ℤ, pos,
  Bool-cases, Option-cases, find_row, any_row,
}
use mes_cpp.WorkOrder.Rules.{total_delta}
use mes_cpp.WorkOrder.Store.{Operation, ProcessStep, Db, ok}
use mes_cpp.WorkOrder.Report.{
  ReportBody, Quantities, check_report, op_matches, is_operation, is_passing, gate_enabled, joins,
  gate_row, first_gate, gate_blocks,
}

-- The step of an order, by its first operation of that number: the operation has no process step, or one
-- without a quality check, or the gate is off, or a passing inspection of the operation is there.
pub record PassesGate (id : ℕ) (step : ℤ) (db : Db) : Type 0 where
  pub operation : Operation
  pub found : find_row (is_operation id step) db.operations ≡ some operation
  pub passes :
      (find_row (joins operation) db.steps ≡ none)
      ⊎ ((ps : ProcessStep) × (find_row (joins operation) db.steps ≡ some ps)
          × ((ps.quality_check ≡ false)
              ⊎ ((gate_enabled db ≡ false)
                  ⊎ (any_row (is_passing id operation) db.inspections ≡ true))))

-- The first operation of the step, where it joins a process step, is the row that the gate reads.
first_gate_lem :
    (id : ℕ) (step : ℤ) (steps : List ProcessStep) (ops : List Operation) (op : Operation)
    (ps : ProcessStep)
    → find_row (is_operation id step) ops ≡ some op
    → find_row (joins op) steps ≡ some ps
    → first_gate id step steps ops ≡ some (op, ps)
unfolding first_gate gate_row find_row
first_gate_lem id step steps [] op ps f j = cc f
first_gate_lem id step steps (x ∷ ops) op ps f j = elim (Bool-cases (is_operation id step x)) [
  | inl own ↦ ground (arith, own, f, j)
  | inr other ↦ ground (arith, other, f, first_gate_lem id step steps ops op ps)
]

matches-find :
    (id : ℕ) (q : Quantities) (ops : List Operation)
    → any_row (op_matches id q) ops ≡ true
    → (op : Operation) × (find_row (is_operation id q.step) ops ≡ some op)
unfolding any_row find_row
matches-find id q [] h = cc h
matches-find id q (x ∷ ops) h = elim (Bool-cases (is_operation id q.step x)) [
  | inl own ↦ rw own (x, refl)
  | inr other ↦ rw other (matches-find id q ops (ground arith))
]

blocks_lem :
    (id : ℕ) (step : ℤ) (db : Db) (op : Operation) (ps : ProcessStep)
    → first_gate id step db.steps db.operations ≡ some (op, ps)
    → gate_blocks id step db
      ≡ (ps.quality_check && gate_enabled db && not (any_row (is_passing id op) db.inspections))
unfolding gate_blocks
blocks_lem id step db op ps e = rw (e, gate_blocks) refl

pub unblocked-PassesGate :
    (id : ℕ) (q : Quantities) (db : Db)
    → gate_blocks id q.step db ≡ false
    → any_row (op_matches id q) db.operations ≡ true
    → PassesGate id q.step db
unblocked-PassesGate id q db g h =
    let first = matches-find id q db.operations h in
    record {
      operation = first.0;
      found = first.1;
      passes = elim (Option-cases (find_row (joins first.0) db.steps)) [
        | inl missing ↦ inl missing
        | inr (ps, joined) ↦ inr (ps, joined, open_gate first.0 first.1 ps joined)
      ];
    }
  where
    open_gate :
        (op : Operation)
        → find_row (is_operation id q.step) db.operations ≡ some op
        → (ps : ProcessStep) → find_row (joins op) db.steps ≡ some ps
        → (ps.quality_check ≡ false)
          ⊎ ((gate_enabled db ≡ false) ⊎ (any_row (is_passing id op) db.inspections ≡ true))
    open_gate op f ps j =
        let shut =
          blocks_lem id q.step db op ps
            (first_gate_lem id q.step db.steps db.operations op ps f j) in
        elim (Bool-cases ps.quality_check) [
          | inr free ↦ inl free
          | inl checks ↦ elim (Bool-cases (gate_enabled db)) [
            | inr off ↦ inr (inl off)
            | inl on ↦ elim (Bool-cases (any_row (is_passing id op) db.inspections)) [
              | inl passing ↦ inr (inr passing)
              | inr missing ↦ absurd (ground (arith, shut, g, checks, on, missing))
            ]
          ]
        ]

-- What the checks leave of the body.
pub check_report-ok :
    (body : ReportBody) (q : Quantities)
    → check_report body ≡ ok q
    → (q.step ≡ get_or body.step_seq (pos 0))
      × (q.delta
          ≡ total_delta
              (get_or body.good_qty (pos 0))
              (get_or body.defect_qty (pos 0))
              (get_or body.scrap_qty (pos 0)))
unfolding check_report
check_report-ok body q h = (ground arith, ground arith)
