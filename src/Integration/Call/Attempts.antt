-- ===== src/Integration/Call/Attempts.antt =====
-- How a call to an outer system ends (mes-backend/src/services/IntegrationService.cc).
use mes_cpp.Base.{
  ℕ, zero, suc, ◌+◌, ◌<◌, ◌≡◌, refl, sym, ap, ◌⊎◌, inl, inr, Bool, true, false, List, [], ◌∷◌,
  arith, Bool-cases,
}
use mes_cpp.Breaker.{
  Limits, Breaker, allow_request, record_failure, Call, allows, succeeds, fails, step, run,
}
use mes_cpp.Integration.Call.{
  ApiConfig, ExtResult, new_result, Attempt, ended, is_success, noted, Called, attempt_loop,
  attempts, refused_result, call_allowed, call_external,
}

-- The calls of the breaker for `n` failed attempts from attempt `i` on, and then `rest`.
unfoldable pub failures : (ℕ → Attempt) → ℕ → ℕ → List Call → List Call
failures send i zero rest = rest
failures send i (suc n) rest = fails (ended (send i)) ∷ failures send (suc i) n rest

-- What `n` attempts from attempt `i` on leave in the result.
unfoldable pub noted_all : (ℕ → Attempt) → ℕ → ℕ → ExtResult → ExtResult
noted_all send i zero res = res
noted_all send i (suc n) res = noted_all send (suc i) n (noted (send i) res)

-- The attempts from `i` on, `n` of them, fail.
unfoldable pub AllFail : (ℕ → Attempt) → ℕ → ℕ → Type 0
AllFail send i zero = Unit
AllFail send i (suc n) = (is_success (send i) ≡ false) × AllFail send (suc i) n

-- The attempt `last` is the first that succeeds, after `before` that fail.
pub record Succeeds (l : Limits) (send : ℕ → Attempt) (i n : ℕ) (b : Breaker) (res : ExtResult)
    (c : Called) : Type 0 where
  pub before : ℕ
  pub last : ℕ
  pub counts : last ≡ i + before
  pub within : before < n
  pub fail_first : AllFail send i before
  pub success : is_success (send last) ≡ true
  pub sent : c.sent ≡ suc last
  pub result : c.result ≡ record (noted (send last) (noted_all send i before res)) { ok = true }
  pub breaker : c.breaker ≡ run l b (failures send i before (succeeds ∷ []))

-- All fail.
pub record Fails (l : Limits) (send : ℕ → Attempt) (i n : ℕ) (b : Breaker) (res : ExtResult)
    (c : Called) : Type 0 where
  pub fail_all : AllFail send i n
  pub sent : c.sent ≡ i + n
  pub result : c.result ≡ noted_all send i n res
  pub breaker : c.breaker ≡ run l b (failures send i n [])

module _ (l : Limits) (send : ℕ → Attempt) (i n : ℕ) (b : Breaker) (res : ExtResult) where
  abbrev next_breaker : Breaker
  next_breaker = record_failure l (ended (send i)) b

  one_more :
      (c : Called)
      → is_success (send i) ≡ false
      → Succeeds l send (suc i) n next_breaker (noted (send i) res) c
        ⊎ Fails l send (suc i) n next_breaker (noted (send i) res) c
      → Succeeds l send i (suc n) b res c ⊎ Fails l send i (suc n) b res c
  unfolding failures noted_all AllFail run step
  one_more c e (inl s) = inl (record {
    before = suc s.before;
    last = s.last;
    counts = omega (arith, s.counts);
    within = omega (arith, s.within);
    fail_first = (e, s.fail_first);
    success = s.success;
    sent = s.sent;
    result = s.result;
    breaker = s.breaker;
  })
  one_more c e (inr s) = inr (record {
    fail_all = (e, s.fail_all);
    sent = omega (arith, s.sent);
    result = s.result;
    breaker = s.breaker;
  })

attempt_loop_lem :
    (l : Limits) (send : ℕ → Attempt) (i n : ℕ) (b : Breaker) (res : ExtResult)
    → Succeeds l send i n b res (attempt_loop l send i n b res)
      ⊎ Fails l send i n b res (attempt_loop l send i n b res)
unfolding attempt_loop failures noted_all AllFail run step
attempt_loop_lem l send i zero b res =
    inr (record { fail_all = tt; sent = omega arith; result = refl; breaker = refl })
attempt_loop_lem l send i (suc n) b res = elim (Bool-cases (is_success (send i))) [
  | inl e ↦ rw e (
      inl (record {
        before = 0;
        last = i;
        counts = omega arith;
        within = omega arith;
        fail_first = tt;
        success = e;
        sent = refl;
        result = refl;
        breaker = refl;
      }))
  | inr e ↦ rw e (
      one_more l send i n b res
        (attempt_loop l send (suc i) n (record_failure l (ended (send i)) b) (noted (send i) res)) e
        (attempt_loop_lem l send (suc i) n (record_failure l (ended (send i)) b)
          (noted (send i) res)))
]

-- The breaker refuses: nothing is sent.
pub record Refused (l : Limits) (now : ℕ) (b : Breaker) (c : Called) : Type 0 where
  pub refuses : (allow_request l now b).1 ≡ false
  pub sent : c.sent ≡ 0
  pub result : c.result ≡ refused_result
  pub breaker : c.breaker ≡ run l b (allows now ∷ [])

abbrev pub CallEnds : Limits → ℕ → (ℕ → Attempt) → ApiConfig → Breaker → Called → Type 0
CallEnds l now send c b called =
    Refused l now b called
    ⊎ (Succeeds l send 0 (attempts c) (step l b (allows now)) new_result called
        ⊎ Fails l send 0 (attempts c) (step l b (allows now)) new_result called)

call_allowed_lem :
    (l : Limits) (now : ℕ) (send : ℕ → Attempt) (c : ApiConfig) (b : Breaker) (a : Breaker × Bool)
    → allow_request l now b ≡ a
    → CallEnds l now send c b (call_allowed l send c a)
unfolding call_allowed step run
call_allowed_lem l now send c b (b', true) e =
    rw (e, step) (inr (attempt_loop_lem l send 0 (attempts c) b' new_result))
call_allowed_lem l now send c b (b', false) e = inl (record {
  refuses = ap (λ a. a.1) e;
  sent = refl;
  result = refl;
  breaker = sym (ap (λ a. a.0) e);
})

-- A call ends in one of three ways. The breaker refuses it and nothing is sent; or some attempt within
-- the configured number, at least one, is the first that is answered with a status from 200 to 299 and
-- is the last that is sent; or all of that number are sent and fail. The breaker has then counted the
-- question, each failure, and the success, in this order.
pub call_external_lem :
    (l : Limits) (now : ℕ) (send : ℕ → Attempt) (c : ApiConfig) (b : Breaker)
    → CallEnds l now send c b (call_external l now send c b)
unfolding call_external
call_external_lem l now send c b = call_allowed_lem l now send c b (allow_request l now b) refl
