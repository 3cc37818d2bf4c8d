-- ===== src/Integration/Saga/Outcome.antt =====
-- A saga is all or nothing (mes-backend/src/services/IntegrationService.cc).
use mes_cpp.Base.{
  ◌<◌, ◌∙◌, ◌⊎◌, arith, ℕ, codes, ◌≡◌, refl, ap, sym, subst, inl, inr, true, false, Option, none,
  some, [], ◌∷◌, Bool-cases, find_row,
}
use mes_cpp.WorkOrder.StateMachine.{in_progress, completed}
use mes_cpp.WorkOrder.Store.{Order, Db, is_order}
use mes_cpp.Integration.Call.{ApiConfig, Called, call_external, ExtResult}
use mes_cpp.Integration.Urls.{post_url}
use mes_cpp.Breaker.{Breaker}
use mes_cpp.Integration.Saga.{
  rollback_t1, World, Env, Told, complete_order, told, after_t3, stock_in, after_t2, report,
  report_completion_saga, report_path, cancel_path,
}
use mes_cpp.Integration.Saga.Messages.{Accepts, Withheld, call-sends, call-accepted}
use mes_cpp.Integration.Saga.Steps.{
  HasStatus, Atomic, settle_lem, HasStatus-same, rollback-Failed, rollback-breaker,
  complete-HasStatus, saga_runs,
}

module _ (env : Env) (id : ℕ) (row : Order) (rolls : env.rollback_runs ≡ true)
    (inventory : env.inventory_written ≡ true) (erp_log : env.erp_log_written ≡ true)
    (wms_log : env.wms_log_written ≡ true) where
  -- The cancel was sent, or the breaker withheld it.
  cancel_sent :
      (erp : ApiConfig) (w : World) (b : Breaker)
      → let cancel = call_external env.limits env.cancel_at env.erp_cancel erp b in
        w.erp_breaker ≡ cancel.breaker
        → (0 < cancel.sent)
          ⊎ Withheld env.limits env.cancel_at
              (rollback_t1 env id w).erp_breaker
              (told "ERP" (cancel_path row) cancel)
  cancel_sent erp w b e = elim (call-sends env.limits env.cancel_at env.erp_cancel erp b) [
    | inl sent ↦ inl sent
    | inr (sent, accepted, state, window) ↦
        let same = rollback-breaker env id row rolls w ∙ e in
        inr (record {
          sent = sent;
          accepted = accepted;
          state = ap (λ x. x.state) same ∙ state;
          window = omega (arith, window, ap (λ x. x.opened_at) same);
        })
  ]

  after_t3-Atomic :
      (erp : ApiConfig) (m : Told) (t2 : ExtResult) (w : World) (t3 : Called)
      → Accepts (report_path row) m
      → HasStatus id completed w.db
      → (t3.result.ok ≡ true → 0 < t3.sent)
      → Atomic env id row (after_t3 env id row erp (m ∷ []) t2 w t3)
  unfolding after_t3
  after_t3-Atomic erp m t2 w t3 n h sends =
      let after = record w { wms_breaker = t3.breaker } in
      let cancel = call_external env.limits env.cancel_at env.erp_cancel erp after.erp_breaker in
      elim (Bool-cases t3.result.ok) [
        | inl e ↦
            let settled =
              settle_lem env id row t2 (record (t3.result) { ok = true }) after inventory erp_log
                wms_log in
            rw e (
              inl (record {
                log_id = w.logs.next_id;
                result = settled.0;
                status = HasStatus-same id completed after.db _ settled.1 h;
                report = m;
                stock = _;
                messages = refl;
                reported = n;
                stocked = record { path_is = refl; sent = sends e; accepted = refl };
              }))
        | inr e ↦ rw e (
            inr (
              rollback-Failed env id row rolls env.wms_log_written "WMS" "stock_in"
                  (post_url (codes "/wms/stock-in")) (env.wms_payload row)
                  (record (t3.result) { ok = false }) w.logs _
                  (record after { erp_breaker = cancel.breaker }) h,
              inr (record {
                report = m;
                stock = _;
                cancel = told "ERP" (cancel_path row) cancel;
                messages = refl;
                reported = n;
                declined = record { path_is = refl; accepted = refl };
                path_is = refl;
                sent =
                    cancel_sent erp (record after { erp_breaker = cancel.breaker })
                      after.erp_breaker refl;
              }),
            ))
      ]

  stock_in-Atomic :
      (erp wms : ApiConfig) (m : Told) (t2 : ExtResult) (w : World) (o : Option ApiConfig)
      → o ≡ some wms
      → Accepts (report_path row) m
      → HasStatus id completed w.db
      → Atomic env id row (stock_in env id row erp (m ∷ []) t2 w o)
  unfolding stock_in
  stock_in-Atomic erp wms m t2 w none c n h = cc c
  stock_in-Atomic erp wms m t2 w (some other) c n h =
      after_t3-Atomic erp m t2 w
        (call_external env.limits env.stock_in_at env.wms_stock_in other w.wms_breaker) n h
        (call-accepted env.limits env.stock_in_at env.wms_stock_in other w.wms_breaker)

  after_t2-Atomic :
      (erp wms : ApiConfig) (w : World) (t2 : Called)
      → env.wms_config ≡ some wms
      → HasStatus id completed w.db
      → (t2.result.ok ≡ true → 0 < t2.sent)
      → Atomic env id row (after_t2 env id row erp w t2)
  unfolding after_t2
  after_t2-Atomic erp wms w t2 c h sends = elim (Bool-cases t2.result.ok) [
    | inl e ↦ rw e (
        stock_in-Atomic erp wms _ (record (t2.result) { ok = true })
          (record w { erp_breaker = t2.breaker }) env.wms_config c
          (record { path_is = refl; sent = sends e; accepted = refl }) h)
    | inr e ↦ rw e (
        inr (
          rollback-Failed env id row rolls env.erp_log_written "ERP" "completion_report"
              (post_url (codes (report_path row))) (env.erp_payload row)
              (record (t2.result) { ok = false }) w.logs _ (record w { erp_breaker = t2.breaker })
              h,
          inl (record {
            report = _;
            messages = refl;
            declined = record { path_is = refl; accepted = refl };
          }),
        ))
  ]

  report-Atomic :
      (erp wms : ApiConfig) (w : World) (o : Option ApiConfig)
      → o ≡ some erp
      → env.wms_config ≡ some wms
      → HasStatus id completed w.db
      → Atomic env id row (report env id row w o)
  unfolding report
  report-Atomic erp wms w none c d h = cc c
  report-Atomic erp wms w (some other) c d h =
      after_t2-Atomic other wms w
        (call_external env.limits env.report_at env.erp_report other w.erp_breaker) d h
        (call-accepted env.limits env.report_at env.erp_report other w.erp_breaker)

-- What the saga relies on: COMMIT succeeds, both systems are configured, the statements after T1 succeed,
-- and what others do meanwhile leaves the order completed.
pub record Reliable (env : Env) (id : ℕ) : Type 0 where
  pub commits : env.committed ≡ true
  pub leaves : (d : Db) → HasStatus id completed d → HasStatus id completed (env.meanwhile d)
  pub erp : ApiConfig
  pub has_erp : env.erp_config ≡ some erp
  pub wms : ApiConfig
  pub has_wms : env.wms_config ≡ some wms
  pub rolls : env.rollback_runs ≡ true
  pub inventory : env.inventory_written ≡ true
  pub erp_log : env.erp_log_written ≡ true
  pub wms_log : env.wms_log_written ≡ true

-- The saga of an order in progress, where COMMIT succeeds, both systems are configured, the statements
-- after T1 succeed and what others do meanwhile leaves the order completed, is all or nothing. Either it
-- answers with success, the order is completed, and the report was sent to the ERP and then the stock to
-- the WMS, each at least once and each accepted; or it answers an error and the order is in progress again.
-- Then either the ERP did not accept the report and nothing else was told, or it was sent the report and
-- accepted it, the WMS did not accept the stock, and the cancel was sent to the ERP at least once, unless
-- the ERP's breaker is open and its window has not passed: then nothing is sent of the cancel.
pub report_completion_saga-Atomic :
    (env : Env) (id : ℕ) (row : Order) (w : World)
    → Reliable env id
    → find_row (is_order id) w.db.orders ≡ some row
    → HasStatus id in_progress w.db
    → row.status ≡ in_progress
    → Atomic env id row (report_completion_saga env id w)
report_completion_saga-Atomic env id row w r f h s =
    subst (Atomic env id row) (sym (saga_runs env id row w f s)) (
      report-Atomic env id row r.rolls r.inventory r.erp_log r.wms_log r.erp r.wms
        (record w { db = env.meanwhile (complete_order env id row w.db) }) env.erp_config r.has_erp
        r.has_wms
        (r.leaves (complete_order env id row w.db)
          (complete-HasStatus env id row w.db r.commits h)))
