-- ===== src/Integration/Saga/Stuck.antt =====
-- Where a saga stops half way (mes-backend/src/services/IntegrationService.cc).
use mes_cpp.Base.{
  ◌<◌, ℕ, codes, ◌≡◌, refl, sym, subst, ◌⊎◌, inl, inr, true, false, Option, none, some, [], ◌∷◌,
  Bool-cases, find_row,
}
use mes_cpp.WorkOrder.StateMachine.{in_progress, completed}
use mes_cpp.WorkOrder.Store.{Order, Db, is_order}
use mes_cpp.Integration.Call.{ApiConfig, Called, call_external, ExtResult}
use mes_cpp.Integration.Urls.{post_url}
use mes_cpp.Integration.Logs.{err, not_configured}
use mes_cpp.Integration.Saga.{
  World, Env, Told, complete_order, Ended, stock_in, after_t2, report, report_completion_saga,
  report_path,
}
use mes_cpp.Integration.Saga.Messages.{Accepts, NotReported, call-accepted}
use mes_cpp.Integration.Saga.Steps.{
  HasStatus, Failed, rollback-Failed, complete-HasStatus, saga_runs,
}

-- Half done: the ERP accepted the report, the order is completed, and the answer is an error.
pub record Stuck (id : ℕ) (row : Order) (e : Ended) : Type 0 where
  pub result : e.result ≡ err (not_configured "WMS")
  pub status : HasStatus id completed e.world.db
  pub report : Told
  pub messages : e.messages ≡ report ∷ []
  pub reported : Accepts (report_path row) report

-- The ERP did not accept the report and nothing else was told; the answer is an error and the order is in
-- progress.
pub record Unreported (id : ℕ) (row : Order) (e : Ended) : Type 0 where
  pub failed : Failed id e
  pub not_reported : NotReported row e

module _ (env : Env) (id : ℕ) (row : Order) (rolls : env.rollback_runs ≡ true) where
  stock_in-Stuck :
      (erp : ApiConfig) (m : Told) (t2 : ExtResult) (w : World) (o : Option ApiConfig)
      → o ≡ none
      → Accepts (report_path row) m
      → HasStatus id completed w.db
      → Stuck id row (stock_in env id row erp (m ∷ []) t2 w o)
  unfolding stock_in
  stock_in-Stuck erp m t2 w none c n h = record {
    result = refl;
    status = h;
    report = m;
    messages = refl;
    reported = n;
  }
  stock_in-Stuck erp m t2 w (some other) c n h = cc c

  after_t2-Stuck :
      (erp : ApiConfig) (w : World) (t2 : Called)
      → env.wms_config ≡ none
      → HasStatus id completed w.db
      → (t2.result.ok ≡ true → 0 < t2.sent)
      → Stuck id row (after_t2 env id row erp w t2)
        ⊎ Unreported id row (after_t2 env id row erp w t2)
  unfolding after_t2
  after_t2-Stuck erp w t2 c h sends = elim (Bool-cases t2.result.ok) [
    | inl e ↦ rw e (
        inl (
          stock_in-Stuck erp _ (record (t2.result) { ok = true })
            (record w { erp_breaker = t2.breaker }) env.wms_config c
            (record { path_is = refl; sent = sends e; accepted = refl }) h))
    | inr e ↦ rw e (
        inr (record {
          failed =
              rollback-Failed env id row rolls env.erp_log_written "ERP" "completion_report"
                (post_url (codes (report_path row))) (env.erp_payload row)
                (record (t2.result) { ok = false }) w.logs _ (record w { erp_breaker = t2.breaker })
                h;
          not_reported = record {
            report = _;
            messages = refl;
            declined = record { path_is = refl; accepted = refl };
          };
        }))
  ]

  report-Stuck :
      (erp : ApiConfig) (w : World) (o : Option ApiConfig)
      → o ≡ some erp
      → env.wms_config ≡ none
      → HasStatus id completed w.db
      → Stuck id row (report env id row w o) ⊎ Unreported id row (report env id row w o)
  unfolding report
  report-Stuck erp w none e c h = cc e
  report-Stuck erp w (some other) e c h =
      after_t2-Stuck other w
        (call_external env.limits env.report_at env.erp_report other w.erp_breaker) c h
        (call-accepted env.limits env.report_at env.erp_report other w.erp_breaker)

-- The saga of an order in progress, where COMMIT succeeds, the ERP is configured and the WMS is not, the
-- rollback succeeds and what others do meanwhile leaves the order completed, ends in one of two ways. Either
-- the ERP did not accept the report, which was all that was told: the order is in progress again and the
-- answer is an error. Or the ERP was sent the report and accepted it: the answer is the error that the WMS
-- is not configured, the order stays completed, and the report is all that was told, with nothing cancelled.
pub report_completion_saga-Stuck :
    (env : Env) (id : ℕ) (row : Order) (erp : ApiConfig) (w : World)
    → env.committed ≡ true
    → env.erp_config ≡ some erp
    → env.wms_config ≡ none
    → env.rollback_runs ≡ true
    → ((d : Db) → HasStatus id completed d → HasStatus id completed (env.meanwhile d))
    → find_row (is_order id) w.db.orders ≡ some row
    → HasStatus id in_progress w.db
    → row.status ≡ in_progress
    → Stuck id row (report_completion_saga env id w)
      ⊎ Unreported id row (report_completion_saga env id w)
report_completion_saga-Stuck env id row erp w commits has_erp no_wms rolls leaves f h s =
    subst (λ e. Stuck id row e ⊎ Unreported id row e) (sym (saga_runs env id row w f s))
      (report-Stuck env id row rolls erp
        (record w { db = env.meanwhile (complete_order env id row w.db) }) env.erp_config has_erp
        no_wms
        (leaves (complete_order env id row w.db) (complete-HasStatus env id row w.db commits h)))
