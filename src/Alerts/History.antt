-- ===== src/Alerts/History.antt =====
-- What an alarm keeps through its life (mes-backend/src/services/IotService.cc).
use mes_cpp.Base.{
  ℕ, ◌≤◌, ◌≡◌, refl, ap, ◌∙◌, true, Option, none, some, List, [], ◌∷◌, ℤ, arith, All, Rows,
  Rows-refl, Rows-trans, Rows-All, update-Rows,
}
use mes_cpp.Alerts.{
  Alert, coalesce, can_acknowledge, acknowledged, can_resolve, resolved, can_dismiss, dismissed,
  acknowledge_alert, resolve_alert, dismiss_alert, Call, acknowledge, resolve, dismiss, step, run,
}

-- Exactly an alarm that is not handled has nobody, and exactly a resolved one has the time of that.
pub record WellFormed (a : Alert) : Type 0 where
  pub waits : a.status ≡ 0 → a.acknowledged_by ≡ none
  pub handled : 1 ≤ a.status → (u : ℤ) × (a.acknowledged_by ≡ some u)
  pub dated : a.status ≡ 2 → (t : ℕ) × (a.resolved_at ≡ some t)
  pub undated : (t : ℕ) → a.resolved_at ≡ some t → a.status ≡ 2
  pub known : a.status ≤ 3

-- The same alarm later: its status has not gone back, who handled it first stays, and after its end
-- nothing changes.
pub record Later (a b : Alert) : Type 0 where
  pub forward : a.status ≤ b.status
  pub first : (u : ℤ) → a.acknowledged_by ≡ some u → b.acknowledged_by ≡ some u
  pub final : 2 ≤ a.status → b ≡ a

-- The alarms after, row for row.
abbrev pub History : List Alert → List Alert → Type 0
History = Rows WellFormed Later

Later-refl : (a : Alert) → Later a a
Later-refl a = record { forward = omega arith; first = λ u h. h; final = λ h. refl }

Later-trans : (a b c : Alert) → Later a b → Later b c → Later a c
Later-trans a b c h k = record {
  forward = omega (arith, h.forward, k.forward);
  first = λ u e. k.first u (h.first u e);
  final = λ l. k.final (omega (arith, h.forward)) ∙ h.final l;
}

coalesce-some : (o : Option ℤ) (user : ℤ) → (u : ℤ) × (coalesce o user ≡ some u)
coalesce-some none user = (user, refl)
coalesce-some (some u) user = (u, refl)

acknowledged-Later :
    (now : ℕ) (id user : ℤ) (a : Alert)
    → can_acknowledge id a ≡ true
    → WellFormed a
    → WellFormed (acknowledged now user a) × Later a (acknowledged now user a)
acknowledged-Later now id user a p w =
    let start : a.status ≡ 0 = ground arith in
    (
      record {
        waits = λ h. absurd (omega arith);
        handled = λ h. (user, refl);
        dated = λ h. absurd (omega arith);
        undated = λ t h. absurd (omega (arith, w.undated t h));
        known = omega arith;
      },
      record {
        forward = omega arith;
        first = λ u h. cc (w.waits start, h);
        final = λ h. absurd (omega arith);
      },
    )

resolved-Later :
    (now : ℕ) (id user : ℤ) (a : Alert)
    → can_resolve id a ≡ true
    → WellFormed a
    → WellFormed (resolved now user a) × Later a (resolved now user a)
resolved-Later now id user a p w =
    let start : a.status ≡ 1 = ground arith in
    (
      record {
        waits = λ h. absurd (omega arith);
        handled = λ h. coalesce-some a.acknowledged_by user;
        dated = λ h. (now, refl);
        undated = λ t h. refl;
        known = omega arith;
      },
      record {
        forward = omega arith;
        first = λ u h. ap (λ o. coalesce o user) h;
        final = λ h. absurd (omega arith);
      },
    )

dismissed-Later :
    (now : ℕ) (id user : ℤ) (a : Alert)
    → can_dismiss id a ≡ true
    → WellFormed a
    → WellFormed (dismissed now user a) × Later a (dismissed now user a)
dismissed-Later now id user a p w =
    let start : a.status ≤ 1 = ground arith in
    (
      record {
        waits = λ h. absurd (omega arith);
        handled = λ h. coalesce-some a.acknowledged_by user;
        dated = λ h. absurd (omega arith);
        undated = λ t h. absurd (omega (arith, w.undated t h));
        known = omega arith;
      },
      record {
        forward = omega arith;
        first = λ u h. ap (λ o. coalesce o user) h;
        final = λ h. absurd (omega arith);
      },
    )

step-History :
    (alerts : List Alert) (c : Call) → All WellFormed alerts → History alerts (step alerts c)
unfolding step acknowledge_alert resolve_alert dismiss_alert
step-History alerts (acknowledge now id user) h =
    update-Rows WellFormed Later Later-refl (can_acknowledge id) (acknowledged now user)
      (acknowledged-Later now id user) alerts h
step-History alerts (resolve now id user) h =
    update-Rows WellFormed Later Later-refl (can_resolve id) (resolved now user)
      (resolved-Later now id user) alerts h
step-History alerts (dismiss now id user) h =
    update-Rows WellFormed Later Later-refl (can_dismiss id) (dismissed now user)
      (dismissed-Later now id user) alerts h

-- Through any calls of any users on alarms that are well formed, each alarm stays well formed (nobody is
-- named exactly while it is not handled, and it has a time of resolution exactly while it is resolved),
-- its status never goes back, who handled it first stays, and one that is resolved or dismissed does
-- not change any more.
pub run-History :
    (alerts : List Alert) (cs : List Call) → All WellFormed alerts → History alerts (run alerts cs)
unfolding run
run-History alerts [] h = Rows-refl WellFormed Later Later-refl alerts h
run-History alerts (c ∷ cs) h =
    let first = step-History alerts c h in
    Rows-trans WellFormed Later Later-trans alerts (step alerts c) (run (step alerts c) cs) first
      (run-History (step alerts c) cs (Rows-All WellFormed Later alerts (step alerts c) first))
