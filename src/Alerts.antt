-- ===== src/Alerts.antt =====
-- What users do with alarms: `acknowledgeAlert`, `resolveAlert` and `dismissAlert` of
-- mes-backend/src/services/IotService.cc, each one UPDATE on iot_alerts.
pub mod History
mod Tests
use mes_cpp.Base.{
  ℕ, Bool, true, false, ◌&&◌, ◌||◌, Option, none, some, List, [], ◌∷◌, ◌==◌, if◌then◌else◌, ℤ,
  eqb_ℤ, any_row, update_rows,
}

-- The columns that the three write. Status 0 is not handled, 1 acknowledged, 2 resolved, 3 dismissed.
pub record Alert : Type 0 where
  pub id : ℤ
  pub status : ℕ
  pub acknowledged_by : Option ℤ
  pub acknowledged_at : Option ℕ
  pub resolved_at : Option ℕ

abbrev pub coalesce : {A : Type 0} → Option A → A → Option A
coalesce none a = some a
coalesce (some b) a = some b

-- The WHERE and the SET of each UPDATE.
abbrev pub can_acknowledge : ℤ → Alert → Bool
can_acknowledge id a = eqb_ℤ a.id id && a.status == 0

abbrev pub acknowledged : ℕ → ℤ → Alert → Alert
acknowledged now user a = record a {
  status = 1;
  acknowledged_by = some user;
  acknowledged_at = some now;
}

abbrev pub can_resolve : ℤ → Alert → Bool
can_resolve id a = eqb_ℤ a.id id && a.status == 1

abbrev pub resolved : ℕ → ℤ → Alert → Alert
resolved now user a = record a {
  status = 2;
  resolved_at = some now;
  acknowledged_by = coalesce a.acknowledged_by user;
  acknowledged_at = coalesce a.acknowledged_at now;
}

abbrev pub can_dismiss : ℤ → Alert → Bool
can_dismiss id a = eqb_ℤ a.id id && (a.status == 0 || a.status == 1)

abbrev pub dismissed : ℕ → ℤ → Alert → Alert
dismissed now user a = record a {
  status = 3;
  acknowledged_by = coalesce a.acknowledged_by user;
  acknowledged_at = coalesce a.acknowledged_at now;
}

-- The table after, and the status that is answered; `none` is the answer null, for 404.
abbrev pub update_alert : (Alert → Bool) → (Alert → Alert) → ℕ → List Alert → List Alert × Option ℕ
update_alert p f status alerts =
    (update_rows p f alerts, if any_row p alerts then some status else none)

unfoldable pub acknowledge_alert : ℕ → ℤ → ℤ → List Alert → List Alert × Option ℕ
acknowledge_alert now id user = update_alert (can_acknowledge id) (acknowledged now user) 1

unfoldable pub resolve_alert : ℕ → ℤ → ℤ → List Alert → List Alert × Option ℕ
resolve_alert now id user = update_alert (can_resolve id) (resolved now user) 2

unfoldable pub dismiss_alert : ℕ → ℤ → ℤ → List Alert → List Alert × Option ℕ
dismiss_alert now id user = update_alert (can_dismiss id) (dismissed now user) 3

-- A call, with its time, the alarm and the user.
pub data Call : Type 0 where
  acknowledge : ℕ → ℤ → ℤ → Call
  resolve : ℕ → ℤ → ℤ → Call
  dismiss : ℕ → ℤ → ℤ → Call

unfoldable pub step : List Alert → Call → List Alert
step alerts (acknowledge now id user) = (acknowledge_alert now id user alerts).0
step alerts (resolve now id user) = (resolve_alert now id user alerts).0
step alerts (dismiss now id user) = (dismiss_alert now id user alerts).0

unfoldable pub run : List Alert → List Call → List Alert
run alerts [] = alerts
run alerts (c ∷ cs) = run (step alerts c) cs
