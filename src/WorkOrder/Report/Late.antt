-- ===== src/WorkOrder/Report/Late.antt =====
-- The answers of a report whose inner UPDATE has run (mes-backend/src/services/WorkOrderService.cc).
use mes_cpp.Base.{
  ℕ, ◌≡◌, refl, ap, ◌∙◌, ◌⊎◌, inl, inr, none, some, List, [], ◌∷◌, ◌==◌, arith, Bool-cases,
  Option-cases, find_row,
}
use mes_cpp.WorkOrder.StateMachine.{in_progress}
use mes_cpp.WorkOrder.Store.{
  Order, Db, Error, order_not_found, not_in_progress, Result, err, Env, is_order,
}
use mes_cpp.WorkOrder.Report.{Quantities, Reported, order_matches, report_operations, diagnose}

-- Refused, since the order is not found or not in progress.
abbrev pub Late : Result Reported → Type 0
Late r = (r ≡ err order_not_found) ⊎ (r ≡ err not_in_progress)

pub matches_after :
    (id : ℕ) (os : List Order) (o : Order)
    → find_row (is_order id) os ≡ some o
    → o.status ≡ in_progress
    → find_row (order_matches id) os ≡ some o
unfolding find_row
matches_after id [] o e s = cc
matches_after id (x ∷ xs) o e s = ground (arith, matches_after id xs o)

-- Where the outer UPDATE finds no row, the answer is one of the two.
pub diagnose-Late :
    (env : Env) (id : ℕ) (q : Quantities) (db : Db)
    → find_row (order_matches id) db.orders ≡ none
    → (diagnose id q (report_operations env id q db) ≡ order_not_found)
      ⊎ (diagnose id q (report_operations env id q db) ≡ not_in_progress)
unfolding diagnose
diagnose-Late env id q db m = elim (Option-cases (find_row (is_order id) db.orders)) [
  | inl e ↦ rw (e, diagnose) (inl refl)
  | inr (o, e) ↦ elim (Bool-cases (o.status == in_progress)) [
    | inl s ↦ absurd (cc (m, matches_after id db.orders o e (ground (arith, s))))
    | inr s ↦ rw (e, s, diagnose) (inr refl)
  ]
]

pub refused-Late :
    (e : Error) (f : Error) → (f ≡ order_not_found) ⊎ (f ≡ not_in_progress) → e ≡ f → Late (err e)
refused-Late e f (inl h) g = inl (ap (λ x. err x) (g ∙ h))
refused-Late e f (inr h) g = inr (ap (λ x. err x) (g ∙ h))

-- A refused report whose inner UPDATE has run is rolled back.
abbrev pub Rolled : Env → ℕ → Db → Result Reported → Type 0
Rolled env id db r = (q : Quantities) → Late r → env.dropped db (report_operations env id q db) ≡ db
