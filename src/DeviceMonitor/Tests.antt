-- ===== src/DeviceMonitor/Tests.antt =====
-- The theorem on the watch at one device and two instances that scan at once.
use mes_cpp.Base.{
  ◌+◌, ◌≤◌, ◌≡◌, refl, true, false, some, List, [], ◌∷◌, pos, arith, total, select, any_row,
  update_rows,
}
use mes_cpp.DeviceMonitor.{
  Monitor, Event, scans, marks, beats, scan, mark_offline, nth_pending, drop_pending, run_mark,
  is_among, heartbeat, step, run,
}
use mes_cpp.DeviceMonitor.OneAlert.{rows, alarms, beats_of, run-alarms}

abbrev monitor : Monitor
monitor = record {
  devices =
      record {
        id = pos 4;
        device_code = "D4";
        status = 1;
        deleted = false;
        last_heartbeat_at = some 10;
      }
      ∷ [];
  pending = [];
  alerts = [];
  lost = [];
}

-- Both find the device before either marks it.
abbrev both_scan : List Event
both_scan = scans 100 ∷ scans 101 ∷ marks 0 true true ∷ marks 0 true true ∷ []

one_row : rows (pos 4) monitor.devices ≤ 1
unfolding total
one_row = omega arith

run-alarms_example :
    (alarms (pos 4) monitor ≤ alarms (pos 4) (run monitor both_scan))
    × (alarms (pos 4) (run monitor both_scan) ≤ alarms (pos 4) monitor + beats_of (pos 4) both_scan)
run-alarms_example = run-alarms (pos 4) monitor both_scan one_row

one_alert : (run monitor both_scan).alerts ≡ pos 4 ∷ []
unfolding run step scan select run_mark nth_pending drop_pending mark_offline any_row update_rows
one_alert = refl

-- The device is heard of between the scan and the UPDATE, which takes it offline all the same.
beat_missed :
    (run monitor (scans 100 ∷ beats 101 (pos 4 ∷ []) ∷ marks 0 true true ∷ [])).alerts ≡ pos 4 ∷ []
unfolding run step scan select run_mark nth_pending drop_pending mark_offline any_row update_rows
    heartbeat is_among
beat_missed = refl
