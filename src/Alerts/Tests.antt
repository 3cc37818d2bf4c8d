-- ===== src/Alerts/Tests.antt =====
-- The theorem on alarms at a concrete alarm and two users.
use mes_cpp.Base.{◌≡◌, refl, none, some, List, [], ◌∷◌, pos, arith, update_rows}
use mes_cpp.Alerts.{
  Alert, Call, acknowledge, resolve, dismiss, acknowledge_alert, resolve_alert, dismiss_alert, step,
  run,
}
use mes_cpp.Alerts.History.{WellFormed, History, run-History}

abbrev alarm : Alert
alarm = record {
  id = pos 1;
  status = 0;
  acknowledged_by = none;
  acknowledged_at = none;
  resolved_at = none;
}

alarm-WellFormed : WellFormed alarm
alarm-WellFormed = record {
  waits = λ h. refl;
  handled = λ h. absurd (omega arith);
  dated = λ h. absurd (omega arith);
  undated = λ t h. cc h;
  known = omega arith;
}

abbrev calls : List Call
calls =
    resolve 4 (pos 1) (pos 8)
    ∷ acknowledge 5 (pos 1) (pos 8)
    ∷ resolve 6 (pos 1) (pos 9)
    ∷ dismiss 7 (pos 1) (pos 9)
    ∷ []

run-History_example : History (alarm ∷ []) (run (alarm ∷ []) calls)
run-History_example = run-History (alarm ∷ []) calls (alarm-WellFormed, tt)

after_calls :
    run (alarm ∷ []) calls
    ≡ record alarm {
      status = 2;
      acknowledged_by = some (pos 8);
      acknowledged_at = some 5;
      resolved_at = some 6;
    }
      ∷ []
unfolding run step acknowledge_alert resolve_alert dismiss_alert update_rows
after_calls = refl
