-- ===== src/Integration/Saga/Steps.antt =====
-- What the steps of a saga leave of the order (mes-backend/src/services/IntegrationService.cc).
use mes_cpp.Base.{
  ℕ, ℤ, pos, ◌≡◌, refl, ap, sym, subst, ◌∙◌, ◌⊎◌, inl, inr, Bool, true, false, some, List, [], ◌∷◌,
  arith, Bool-cases, find_row, any_row, update_rows, All, String, ==_iff,
}
use mes_cpp.WorkOrder.StateMachine.{in_progress, completed}
use mes_cpp.WorkOrder.Store.{Order, Db, is_order}
use mes_cpp.Integration.Call.{ExtResult}
use mes_cpp.Integration.Logs.{
  SyncLogs, Error, ok, err, call_failed, statement_failed, fail_external,
}
use mes_cpp.Integration.Saga.Messages.{Accepts, NotReported, Cancelled}
use mes_cpp.Integration.Saga.{
  World, Env, Told, can_complete, complete_row, complete_order, reopen_row, rollback_t1, settle,
  Ended, report, saga_from, saga_of, report_completion_saga, report_path, ends_failed,
}

-- Each row of the order has the status.
abbrev pub HasStatus : ℕ → ℕ → Db → Type 0
HasStatus id status db = All (λ o. o.id ≡ id → o.status ≡ status) db.orders

-- An UPDATE by key that sets the status of the rows that have another.
pub update-HasStatus :
    (id s t : ℕ) (p : Order → Bool) (f : Order → Order)
    → ((o : Order) → (f o).status ≡ t)
    → ((o : Order) → (f o).id ≡ o.id)
    → ((o : Order) → o.id ≡ id → o.status ≡ s → p o ≡ true)
    → (os : List Order) → All (λ o. o.id ≡ id → o.status ≡ s) os
    → All (λ o. o.id ≡ id → o.status ≡ t) (update_rows p f os)
unfolding update_rows
update-HasStatus id s t p f sets keeps hits [] h = tt
update-HasStatus id s t p f sets keeps hits (o ∷ os) h = elim (Bool-cases (p o)) [
  | inl e ↦ rw e (λ k. sets o, update-HasStatus id s t p f sets keeps hits os h.1)
  | inr e ↦
      rw e
        (λ k. absurd (cc (e, hits o k (h.0 k))), update-HasStatus id s t p f sets keeps hits os h.1)
]

-- All is done: the order is completed, and the ERP and the WMS were sent their messages and accepted them.
pub record Done (id : ℕ) (row : Order) (e : Ended) : Type 0 where
  pub log_id : ℕ
  pub result : e.result ≡ ok log_id
  pub status : HasStatus id completed e.world.db
  pub report : Told
  pub stock : Told
  pub messages : e.messages ≡ report ∷ stock ∷ []
  pub reported : Accepts (report_path row) report
  pub stocked : Accepts "/wms/stock-in" stock

-- The answer is an error, and the order is in progress.
pub record Failed (id : ℕ) (e : Ended) : Type 0 where
  pub fault : Error
  pub result : e.result ≡ err fault
  pub status : HasStatus id in_progress e.world.db

-- All is undone.
abbrev pub Undone : Env → ℕ → Order → Ended → Type 0
Undone env id row e = Failed id e × (NotReported row e ⊎ Cancelled env row e)

abbrev pub Atomic : Env → ℕ → Order → Ended → Type 0
Atomic env id row e = Done id row e ⊎ Undone env id row e

module _ (env : Env) (id : ℕ) (row : Order) (rolls : env.rollback_runs ≡ true) where
  pub rollback-HasStatus :
      (w : World) → HasStatus id completed w.db → HasStatus id in_progress (rollback_t1 env id w).db
  unfolding rollback_t1
  rollback-HasStatus w h = rw rolls (
      update-HasStatus id completed in_progress (is_order id) (reopen_row env.now) (λ o. refl)
        (λ o. refl) (λ o k _. ground (arith, k)) w.db.orders h)

-- A failure answers an error.
fail_external_lem :
    (written : Bool) (system kind : String) (id : ℤ) (url : List ℕ) (body : String) (r : ExtResult)
    (logs : SyncLogs)
    → (x : Error) × ((fail_external {A = ℕ} written system 2 kind id url body r logs).1 ≡ err x)
unfolding fail_external
fail_external_lem true system kind id url body r logs = (call_failed system r.err, refl)
fail_external_lem false system kind id url body r logs = (statement_failed, refl)

-- The three statements of T4 leave the orders.
pub settle_lem :
    (env : Env) (id : ℕ) (row : Order) (t2 t3 : ExtResult) (w : World)
    → env.inventory_written ≡ true
    → env.erp_log_written ≡ true
    → env.wms_log_written ≡ true
    → let s = settle env id row t2 t3 w in (s.1 ≡ ok w.logs.next_id) × (s.0.db ≡ w.db)
unfolding settle
settle_lem env id row t2 t3 w a b c = rw (a, b, c) (refl, refl)

pub HasStatus-same : (id s : ℕ) (d d' : Db) → d' ≡ d → HasStatus id s d → HasStatus id s d'
HasStatus-same id s d d' e h = subst (HasStatus id s) (sym e) h

module _ (env : Env) (id : ℕ) (row : Order) (rolls : env.rollback_runs ≡ true) where
  -- A failure after T1 whose rollback runs.
  pub rollback-Failed :
      (written : Bool) (system kind : String) (url : List ℕ) (body : String) (r : ExtResult)
      (logs : SyncLogs) (said : List Told) (w : World)
      → HasStatus id completed w.db
      → Failed id (
          ends_failed said
            (rollback_t1 env id w)
            (fail_external written system 2 kind (pos id) url body r logs))
  rollback-Failed written system kind url body r logs said w h =
      let failed = fail_external_lem written system kind (pos id) url body r logs in
      record {
        fault = failed.0;
        result = failed.1;
        status = rollback-HasStatus env id row rolls w h;
      }

  -- The rollback leaves the breaker of the ERP.
  pub rollback-breaker : (w : World) → (rollback_t1 env id w).erp_breaker ≡ w.erp_breaker
  unfolding rollback_t1
  rollback-breaker w = rw rolls refl

pub complete-HasStatus :
    (env : Env) (id : ℕ) (row : Order) (d : Db)
    → env.committed ≡ true
    → HasStatus id in_progress d
    → HasStatus id completed (complete_order env id row d)
unfolding complete_order
complete-HasStatus env id row d c h = rw c (
    update-HasStatus id in_progress completed (can_complete id) (complete_row env.now) (λ o. refl)
      (λ o. refl) (λ o k s. ground (arith, k, s)) d.orders h)

-- A row of the order in progress is one that T1 completes.
pub in_progress_any :
    (id : ℕ) (os : List Order) (row : Order)
    → find_row (is_order id) os ≡ some row
    → row.status ≡ in_progress
    → any_row (can_complete id) os ≡ true
unfolding find_row any_row
in_progress_any id [] row h s = cc h
in_progress_any id (o ∷ os) row h s = ground (arith, in_progress_any id os row)

-- A saga of an order in progress does T1 and goes on with T2.
pub saga_runs :
    (env : Env) (id : ℕ) (row : Order) (w : World)
    → find_row (is_order id) w.db.orders ≡ some row
    → row.status ≡ in_progress
    → report_completion_saga env id w
      ≡ report env id row
          (record w { db = env.meanwhile (complete_order env id row w.db) })
          env.erp_config
unfolding report_completion_saga saga_of saga_from
saga_runs env id row w f s =
    ap (saga_of env id w) f
    ∙ rw ((==_iff row.status in_progress).1 s, in_progress_any id w.db.orders row f s) refl
