-- ===== src/Integration/Saga/Messages.antt =====
-- What a saga told the outer systems (mes-backend/src/services/IntegrationService.cc).
use mes_cpp.Base.{
  ℕ, ◌<◌, ◌+◌, ◌≡◌, refl, ◌∙◌, ap, ◌⊎◌, inl, inr, true, false, [], ◌∷◌, String, arith, ℤ, pos,
  negsuc, Bool-cases, leb,
}
use mes_cpp.Breaker.{
  State, closed, opened, half_open, Limits, Breaker, allow_in, allow_request, is_cool, run, step,
}
use mes_cpp.WorkOrder.Store.{Order}
use mes_cpp.Integration.Call.{ApiConfig, Attempt, attempts, call_external}
use mes_cpp.Integration.Call.Attempts.{call_external_lem}
use mes_cpp.Integration.Saga.{Env, Told, Ended, report_path, cancel_path}

-- A message to the path that was sent and accepted.
pub record Accepts (path : String) (m : Told) : Type 0 where
  pub path_is : m.path ≡ path
  pub sent : 0 < m.times
  pub accepted : m.accepted ≡ true

-- One that was not accepted.
pub record Declines (path : String) (m : Told) : Type 0 where
  pub path_is : m.path ≡ path
  pub accepted : m.accepted ≡ false

-- Nothing was sent, since the breaker is open and its window has not passed.
pub record Withheld (l : Limits) (now : ℕ) (b : Breaker) (m : Told) : Type 0 where
  pub sent : m.times ≡ 0
  pub accepted : m.accepted ≡ false
  pub state : b.state ≡ opened
  pub window : now < b.opened_at + l.open_window

-- The ERP did not accept the report, and no more was told.
pub record NotReported (row : Order) (e : Ended) : Type 0 where
  pub report : Told
  pub messages : e.messages ≡ report ∷ []
  pub declined : Declines (report_path row) report

-- The ERP accepted the report, the WMS did not accept the stock, and the cancel was sent to the ERP, or
-- withheld by its breaker.
pub record Cancelled (env : Env) (row : Order) (e : Ended) : Type 0 where
  pub report : Told
  pub stock : Told
  pub cancel : Told
  pub messages : e.messages ≡ report ∷ stock ∷ cancel ∷ []
  pub reported : Accepts (report_path row) report
  pub declined : Declines "/wms/stock-in" stock
  pub path_is : cancel.path ≡ cancel_path row
  pub sent : (0 < cancel.times) ⊎ Withheld env.limits env.cancel_at e.world.erp_breaker cancel

some_attempt : (z : ℤ) (c : ApiConfig) → 0 < attempts (record c { retry_count = z })
some_attempt (pos n) c = elim (Bool-cases (leb 1 n)) [
  | inl e ↦ rw e (ground (arith, e))
  | inr e ↦ rw e (omega arith)
]
some_attempt (negsuc n) c = omega arith

-- A refusal of the breaker: it is open, and stays so.
pub record Shut (l : Limits) (now : ℕ) (b : Breaker) : Type 0 where
  pub state : b.state ≡ opened
  pub window : now < b.opened_at + l.open_window
  pub stays : (allow_request l now b).0 ≡ b

allow_in-shut :
    (l : Limits) (now : ℕ) (b : Breaker) (s : State)
    → (allow_in l now b s).1 ≡ false
    → (s ≡ opened) × (now < b.opened_at + l.open_window) × ((allow_in l now b s).0 ≡ b)
allow_in-shut l now b closed h = absurd (ground (arith, h))
allow_in-shut l now b opened h = elim (Bool-cases (is_cool l now b)) [
  | inl e ↦ absurd (ground (arith, e, h))
  | inr e ↦ (refl, ground (arith, e), rw e refl)
]
allow_in-shut l now b half_open h = absurd (ground (arith, h))

module _ (l : Limits) (now : ℕ) (send : ℕ → Attempt) (c : ApiConfig) (b : Breaker) where
  -- A call sends something, or the breaker refuses it, and both are as before.
  pub call-sends :
      (0 < (call_external l now send c b).sent)
      ⊎ (((call_external l now send c b).sent ≡ 0)
          × ((call_external l now send c b).result.ok ≡ false)
          × ((call_external l now send c b).breaker.state ≡ opened)
          × (now < (call_external l now send c b).breaker.opened_at + l.open_window))
  unfolding allow_request run step
  call-sends = elim (call_external_lem l now send c b) [
    | inr (inl s) ↦ inl (omega (arith, s.sent))
    | inr (inr f) ↦ inl (omega (arith, f.sent, some_attempt c.retry_count c))
    | inl r ↦
        let shut = allow_in-shut l now b b.state r.refuses in
        let same = r.breaker ∙ shut.2 in
        inr (
          r.sent,
          ap (λ x. x.ok) r.result,
          ap (λ x. x.state) same ∙ shut.0,
          omega (arith, shut.1, ap (λ x. x.opened_at) same),
        )
  ]

  pub call-accepted :
      (call_external l now send c b).result.ok ≡ true → 0 < (call_external l now send c b).sent
  call-accepted e = elim call-sends [ inl s ↦ s | inr (_, n, _, _) ↦ absurd (cc (e, n)) ]
