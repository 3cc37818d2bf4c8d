-- ===== src/Breaker/History.antt =====
-- When the breaker opens, and when it lets requests through again
-- (mes-backend/src/utils/CircuitBreaker.hh).
use mes_cpp.Base.{
  ℕ, ◌+◌, ◌≤◌, ◌<◌, ◌≡◌, ◌≢◌, refl, ap, sym, ◌∙◌, true, false, List, [], ◌∷◌, arith, All, subst,
}
use mes_cpp.Breaker.{
  closed, opened, half_open, Limits, Breaker, allow_request, record_success, record_failure, Call,
  allows, succeeds, fails, step, run,
}

-- The failures since the last success.
unfoldable pub streak_after : ℕ → Call → ℕ
streak_after n (allows now) = n
streak_after n succeeds = 0
streak_after n (fails now) = n + 1

unfoldable pub streak : ℕ → List Call → ℕ
streak n [] = n
streak n (c ∷ cs) = streak (streak_after n c) cs

-- At every moment there were fewer than `limit` failures since the last success.
abbrev pub Calm : ℕ → ℕ → List Call → Type 0
Calm limit n [] = n < limit
Calm limit n (c ∷ cs) = (n < limit) × Calm limit (streak_after n c) cs

Calm-now : (limit n : ℕ) (cs : List Call) → Calm limit n cs → n < limit
Calm-now limit n [] h = h
Calm-now limit n (c ∷ cs) h = h.0

module _ (l : Limits) where
  step-closed :
      (b : Breaker) (c : Call)
      → b.state ≡ closed
      → streak_after b.failure_count c < l.fail_threshold
      → ((step l b c).state ≡ closed)
        × ((step l b c).failure_count ≡ streak_after b.failure_count c)
  unfolding step allow_request record_success record_failure streak_after
  step-closed b (allows now) s h = ground arith
  step-closed b succeeds s h = ground arith
  step-closed b (fails now) s h = ground arith

  -- A closed breaker stays closed through any calls in which the failures since the last success,
  -- those it has counted included, are always fewer than the threshold, and it has then counted
  -- exactly those since the last success.
  pub run-Calm :
      (b : Breaker) (cs : List Call)
      → b.state ≡ closed
      → Calm l.fail_threshold b.failure_count cs
      → ((run l b cs).state ≡ closed) × ((run l b cs).failure_count ≡ streak b.failure_count cs)
  unfolding run streak
  run-Calm b [] s h = (s, refl)
  run-Calm b (c ∷ cs) s h =
      let (s', e) = step-closed b c s (Calm-now l.fail_threshold _ cs h.1) in
      let (r, f) =
        run-Calm (step l b c) cs s' (subst (λ n. Calm l.fail_threshold n cs) (sym e) h.1) in
      (r, f ∙ ap (λ n. streak n cs) e)

  trips_at :
      (b : Breaker) (now : ℕ)
      → b.state ≡ closed
      → l.fail_threshold ≤ b.failure_count + 1
      → ((record_failure l now b).state ≡ opened) × ((record_failure l now b).opened_at ≡ now)
  unfolding record_failure
  trips_at b now s h = ground arith

  -- The failure that makes the failures since the last success as many as the threshold opens a
  -- breaker that was closed and calm until then, at the time of that failure.
  pub run-trips :
      (b : Breaker) (cs : List Call) (now : ℕ)
      → b.state ≡ closed
      → Calm l.fail_threshold b.failure_count cs
      → l.fail_threshold ≤ streak b.failure_count cs + 1
      → ((record_failure l now (run l b cs)).state ≡ opened)
        × ((record_failure l now (run l b cs)).opened_at ≡ now)
  run-trips b cs now s h full =
      let (r, f) = run-Calm b cs s h in
      trips_at (run l b cs) now r (omega (arith, ap (λ n. n + 1) f))

  -- The call was not after the time.
  abbrev pub IsBy : ℕ → Call → Type 0
  IsBy end (allows now) = now ≤ end
  IsBy end succeeds = Unit
  IsBy end (fails now) = now ≤ end

  step-opened_at :
      (end : ℕ) (b : Breaker) (c : Call)
      → IsBy end c
      → b.opened_at ≤ end
      → (step l b c).opened_at ≤ end
  unfolding step allow_request record_success record_failure
  step-opened_at end b (allows now) i h = ground arith
  step-opened_at end b succeeds i h = ground arith
  step-opened_at end b (fails now) i h = ground arith

  run-opened_at :
      (end : ℕ) (b : Breaker) (cs : List Call)
      → All (IsBy end) cs
      → b.opened_at ≤ end
      → (run l b cs).opened_at ≤ end
  unfolding run
  run-opened_at end b [] a h = h
  run-opened_at end b (c ∷ cs) a h =
      run-opened_at end (step l b c) cs a.1 (step-opened_at end b c a.0 h)

  allow-cool :
      (b : Breaker) (now : ℕ)
      → b.opened_at + l.open_window ≤ now
      → ((allow_request l now b).1 ≡ true) × ((allow_request l now b).0.state ≢ opened)
  unfolding allow_request
  allow-cool b now h = ground arith

  -- Whatever calls were made until some time, a request that comes the open window after it is let
  -- through, and leaves a breaker that is not open.
  pub run-recovers :
      (end now : ℕ) (b : Breaker) (cs : List Call)
      → All (IsBy end) cs
      → b.opened_at ≤ end
      → end + l.open_window ≤ now
      → ((allow_request l now (run l b cs)).1 ≡ true)
        × ((allow_request l now (run l b cs)).0.state ≢ opened)
  run-recovers end now b cs a h late =
      allow-cool (run l b cs) now (omega (arith, run-opened_at end b cs a h))

  -- Requests that come before the open window has passed.
  abbrev pub IsEarly : ℕ → Call → Type 0
  IsEarly since (allows now) = now < since + l.open_window
  IsEarly since succeeds = ⊥
  IsEarly since (fails now) = ⊥

  step-IsEarly :
      (b : Breaker) (c : Call) → b.state ≡ opened → IsEarly b.opened_at c → step l b c ≡ b
  unfolding step allow_request
  step-IsEarly b (allows now) s h = ground arith
  step-IsEarly b succeeds s h = absurd h
  step-IsEarly b (fails now) s h = absurd h

  -- An open breaker refuses every request of the open window, and stays as it is: none of them is
  -- let through as a probe.
  pub run-refuses :
      (b : Breaker) (cs : List Call) (now : ℕ)
      → b.state ≡ opened
      → All (IsEarly b.opened_at) cs
      → now < b.opened_at + l.open_window
      → allow_request l now (run l b cs) ≡ (b, false)
  unfolding run allow_request
  run-refuses b [] now s a h = ground arith
  run-refuses b (c ∷ cs) now s a h =
      ap (λ x. allow_request l now (run l x cs)) (step-IsEarly b c s a.0)
      ∙ run-refuses b cs now s a.1 h

  -- A probe decides: after a success a half-open breaker is closed with no failures counted, and
  -- after a failure it is open from that time, whatever the threshold, so that it refuses each
  -- request of the open window.
  pub probe_decides :
      (b : Breaker) (now later : ℕ)
      → b.state ≡ half_open
      → ((record_success b).state ≡ closed)
        × ((record_success b).failure_count ≡ 0)
        × ((record_failure l now b).state ≡ opened)
        × (later < now + l.open_window → (allow_request l later (record_failure l now b)).1 ≡ false)
  unfolding record_success record_failure allow_request
  probe_decides b now later s = (ground arith, refl, ground arith, λ h. ground arith)
