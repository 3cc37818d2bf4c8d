-- ===== src/WorkOrder/History/NewSteps.antt =====
-- The operations that `create` of mes-backend/src/services/WorkOrderService.cc inserts.
use mes_cpp.Base.{
  ℕ, suc, ◌<◌, Bool, true, false, ◌≡◌, refl, ap, List, [], ◌∷◌, ◌++◌, ◌&&◌, arith, ℤ, pos, eqb_ℤ,
  pos_part, neg_part, ◌+ℤ◌, +ℤ_parts, eq_of_parts, All, Distinct, select,
}
use mes_cpp.WorkOrder.Store.{Operation, ProcessStep}
use mes_cpp.WorkOrder.Report.Totals.{same_step, sum_completed}
use mes_cpp.WorkOrder.Orders.{new_operation, insert_step, sort_steps}
use mes_cpp.WorkOrder.Orders.Effects.{new_operations}

-- UNIQUE(process_id, step_seq)
abbrev pub same_process_step : ProcessStep → ProcessStep → Bool
same_process_step a b = eqb_ℤ a.process_id b.process_id && eqb_ℤ a.step_seq b.step_seq

-- Sorting and selecting keep the steps apart.
insert_step-apart :
    (x s : ProcessStep) (ss : List ProcessStep)
    → same_process_step x s ≡ false
    → All (λ y. same_process_step x y ≡ false) ss
    → All (λ y. same_process_step x y ≡ false) (insert_step s ss)
unfolding insert_step
insert_step-apart x s [] h a = (h, tt)
insert_step-apart x s (t ∷ ts) h a = ground (arith, insert_step-apart x s ts h a.1)

insert_step-Distinct :
    (s : ProcessStep) (ss : List ProcessStep)
    → All (λ y. same_process_step s y ≡ false) ss
    → Distinct same_process_step ss
    → Distinct same_process_step (insert_step s ss)
unfolding insert_step
insert_step-Distinct s [] a d = (tt, tt)
insert_step-Distinct s (t ∷ ts) a d =
    ground (arith, insert_step-Distinct s ts a.1 d.1, insert_step-apart t s ts)

sort_steps-apart :
    (x : ProcessStep) (ss : List ProcessStep)
    → All (λ y. same_process_step x y ≡ false) ss
    → All (λ y. same_process_step x y ≡ false) (sort_steps ss)
unfolding sort_steps
sort_steps-apart x [] a = tt
sort_steps-apart x (s ∷ ss) a =
    insert_step-apart x s (sort_steps ss) a.0 (sort_steps-apart x ss a.1)

pub sort_steps-Distinct :
    (ss : List ProcessStep)
    → Distinct same_process_step ss
    → Distinct same_process_step (sort_steps ss)
unfolding sort_steps
sort_steps-Distinct [] d = tt
sort_steps-Distinct (s ∷ ss) d =
    insert_step-Distinct s (sort_steps ss) (sort_steps-apart s ss d.0) (sort_steps-Distinct ss d.1)

abbrev pub IsOf : ℤ → ProcessStep → Type 0
IsOf process s = eqb_ℤ s.process_id process ≡ true

pub select-IsOf :
    (process : ℤ) (ss : List ProcessStep)
    → All (IsOf process) (select (λ s. eqb_ℤ s.process_id process) ss)
unfolding select
select-IsOf process [] = tt
select-IsOf process (s ∷ ss) = ground (arith, select-IsOf process ss)

insert_step-IsOf :
    (process : ℤ) (s : ProcessStep) (ss : List ProcessStep)
    → IsOf process s
    → All (IsOf process) ss
    → All (IsOf process) (insert_step s ss)
unfolding insert_step
insert_step-IsOf process s [] h a = (h, tt)
insert_step-IsOf process s (t ∷ ts) h a = ground (arith, insert_step-IsOf process s ts h a.1)

pub sort_steps-IsOf :
    (process : ℤ) (ss : List ProcessStep)
    → All (IsOf process) ss
    → All (IsOf process) (sort_steps ss)
unfolding sort_steps
sort_steps-IsOf process [] a = tt
sort_steps-IsOf process (s ∷ ss) a =
    insert_step-IsOf process s (sort_steps ss) a.0 (sort_steps-IsOf process ss a.1)

select-apart :
    (p : ProcessStep → Bool) (x : ProcessStep) (ss : List ProcessStep)
    → All (λ y. same_process_step x y ≡ false) ss
    → All (λ y. same_process_step x y ≡ false) (select p ss)
unfolding select
select-apart p x [] a = tt
select-apart p x (s ∷ ss) a = ground (arith, select-apart p x ss a.1)

pub select-Distinct :
    (p : ProcessStep → Bool) (ss : List ProcessStep)
    → Distinct same_process_step ss
    → Distinct same_process_step (select p ss)
unfolding select
select-Distinct p [] d = tt
select-Distinct p (s ∷ ss) d = ground (arith, select-apart p s ss d.0, select-Distinct p ss d.1)

new_operations-apart :
    (id order : ℕ) (plan process : ℤ) (k : ℕ) (s : ProcessStep) (ss : List ProcessStep)
    → IsOf process s
    → All (IsOf process) ss
    → All (λ t. same_process_step s t ≡ false) ss
    → All
        (λ y. same_step (new_operation k order plan s) y ≡ false)
        (new_operations id order plan ss)
unfolding new_operations
new_operations-apart id order plan process k s [] h a d = tt
new_operations-apart id order plan process k s (t ∷ ts) h a d =
    (ground arith, new_operations-apart (suc id) order plan process k s ts h a.1 d.1)

pub new_operations-Distinct :
    (id order : ℕ) (plan process : ℤ) (ss : List ProcessStep)
    → All (IsOf process) ss
    → Distinct same_process_step ss
    → Distinct same_step (new_operations id order plan ss)
unfolding new_operations
new_operations-Distinct id order plan process [] a d = tt
new_operations-Distinct id order plan process (s ∷ ss) a d = (
  new_operations-apart (suc id) order plan process id s ss a.0 a.1 d.0,
  new_operations-Distinct (suc id) order plan process ss a.1 d.1,
)

pub new_operations-orders :
    (id order : ℕ) (plan : ℤ) (ss : List ProcessStep)
    → All (λ op. op.work_order_id ≡ order) (new_operations id order plan ss)
unfolding new_operations
new_operations-orders id order plan [] = tt
new_operations-orders id order plan (s ∷ ss) = (refl, new_operations-orders (suc id) order plan ss)

zero_sum : (a : ℤ) → a ≡ pos 0 → pos 0 +ℤ a ≡ pos 0
zero_sum a h = omega (arith, +ℤ_parts, eq_of_parts, ap pos_part h, ap neg_part h)

pub sum-new_operations :
    (k id order : ℕ) (plan : ℤ) (ss : List ProcessStep)
    → sum_completed k (new_operations id order plan ss) ≡ pos 0
unfolding new_operations sum_completed
sum-new_operations k id order plan [] = refl
sum-new_operations k id order plan (s ∷ ss) = ground (
  arith,
  sum-new_operations k (suc id) order plan ss,
  zero_sum (sum_completed k (new_operations (suc id) order plan ss)),
)

-- Operations that have completed nothing leave every total as it was.
pub sum-append_zero :
    (k : ℕ) (ops new : List Operation)
    → sum_completed k new ≡ pos 0
    → sum_completed k (ops ++ new) ≡ sum_completed k ops
unfolding sum_completed
sum-append_zero k [] new h = h
sum-append_zero k (op ∷ ops) new h = ground (arith, sum-append_zero k ops new h)

pub sum_of_others :
    (k : ℕ) (ops : List Operation)
    → All (λ op. op.work_order_id < k) ops
    → sum_completed k ops ≡ pos 0
unfolding sum_completed
sum_of_others k [] a = refl
sum_of_others k (op ∷ ops) a = ground (arith, sum_of_others k ops a.1)
