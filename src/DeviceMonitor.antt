-- ===== src/DeviceMonitor.antt =====
-- The watch over the devices' heartbeats (mes-backend/src/mq/DeviceMonitor.cc), with the heartbeat of
-- mes-backend/src/mq/DataIngestHandler.cc. Several instances may scan at once; times are in seconds.
pub mod OneAlert
mod Tests
use mes_cpp.Base.{
  ℕ, zero, suc, ◌+◌, Bool, true, false, not, ◌&&◌, Option, none, some, List, [], ◌∷◌, ◌++◌, String,
  ◌==◌, if◌then◌else◌, ltb, ℤ, eqb_ℤ, any_row, select, update_rows, map,
}

-- The columns of iot_devices that are read and written; status 1 is online.
pub record Device : Type 0 where
  pub id : ℤ
  pub device_code : String
  pub status : ℕ
  pub deleted : Bool
  pub last_heartbeat_at : Option ℕ

abbrev pub offline_sec : ℕ
offline_sec = 60

abbrev pub is_online : Device → Bool
is_online d = d.status == 1 && not d.deleted

abbrev pub beat_before : ℕ → Option ℕ → Bool
beat_before now none = false
beat_before now (some t) = ltb (t + offline_sec) now

-- WHERE of the SELECT in `scan`
abbrev pub is_stale : ℕ → Device → Bool
is_stale now d = is_online d && beat_before now d.last_heartbeat_at

-- The table, the UPDATE statements of `markOfflineAndAlert` that are on their way, and the alarms that
-- went to the outbox or were lost, by their device.
pub record Monitor : Type 0 where
  pub devices : List Device
  pub pending : List (ℤ × String)
  pub alerts : List ℤ
  pub lost : List ℤ

abbrev pub is_device : ℤ → Device → Bool
is_device id d = eqb_ℤ d.id id

abbrev pub can_mark : ℤ → Device → Bool
can_mark id d = is_device id d && is_online d

abbrev pub set_offline : Device → Device
set_offline d = record d { status = 0 }

-- The loop over the rows of the SELECT.
unfoldable pub scan : ℕ → Monitor → Monitor
scan now s = record s {
  pending =
      s.pending ++ map (λ (d : Device). (d.id, d.device_code)) (select (is_stale now) s.devices);
}

-- The callback of the UPDATE where it touched a row, and whether the alarm's INSERT succeeds.
abbrev pub send_alert : ℤ → Bool → Monitor → Monitor
send_alert id true s = record s { alerts = s.alerts ++ id ∷ [] }
send_alert id false s = record s { lost = s.lost ++ id ∷ [] }

unfoldable pub mark_offline : ℤ → Bool → Monitor → Monitor
mark_offline id queued s =
    if any_row (can_mark id) s.devices
    then send_alert id queued
        (record s { devices = update_rows (can_mark id) set_offline s.devices })
    else s

unfoldable pub nth_pending : ℕ → List (ℤ × String) → Option (ℤ × String)
nth_pending n [] = none
nth_pending zero (p ∷ ps) = some p
nth_pending (suc n) (p ∷ ps) = nth_pending n ps

unfoldable pub drop_pending : ℕ → List (ℤ × String) → List (ℤ × String)
drop_pending n [] = []
drop_pending zero (p ∷ ps) = ps
drop_pending (suc n) (p ∷ ps) = p ∷ drop_pending n ps

-- An UPDATE on its way runs, or fails.
unfoldable pub run_mark : ℕ → Bool → Bool → Monitor → Monitor
run_mark n runs queued s = elim (nth_pending n s.pending) [
  | none ↦ s
  | some p ↦
      let taken = record s { pending = drop_pending n s.pending } in
      if runs then mark_offline p.0 queued taken else taken
]

unfoldable pub is_among : ℤ → List ℤ → Bool
is_among id [] = false
is_among id (i ∷ ids) = let rest = is_among id ids in if eqb_ℤ i id then true else rest

-- The UPDATE of `flushBatch` for the devices of a batch.
unfoldable pub heartbeat : ℕ → List ℤ → Monitor → Monitor
heartbeat now ids s = record s {
  devices =
      update_rows (λ (d : Device). is_among d.id ids && not d.deleted)
        (λ d. record d { status = 1; last_heartbeat_at = some now }) s.devices;
}

pub data Event : Type 0 where
  scans : ℕ → Event
  marks : ℕ → Bool → Bool → Event
  beats : ℕ → List ℤ → Event

unfoldable pub step : Monitor → Event → Monitor
step s (scans now) = scan now s
step s (marks n runs queued) = run_mark n runs queued s
step s (beats now ids) = heartbeat now ids s

unfoldable pub run : Monitor → List Event → Monitor
run s [] = s
run s (e ∷ es) = run (step s e) es
