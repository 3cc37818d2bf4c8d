-- ===== src/Ingest/Threshold.antt =====
-- The alarms of a row and their suppression, and one message
-- (`checkThreshold` and `handleMessage` of mes-backend/src/mq/DataIngestHandler.cc).
use mes_cpp.Base.{
  ℕ, ◌+◌, ◌*◌, Bool, true, false, Option, none, some, List, [], ◌∷◌, ◌==◌, ltb, if◌then◌else◌, ℤ,
  pos, negsuc, ◌+ℤ◌, eqb_ℤ,
}
use mes_cpp.Ingest.{
  World, alert_suppress_sec, Row, Value, number, text, Alert, AlertType, high_high, high, low_low,
  low, Effect, alerted,
}

-- `deviceId * 1000000`
abbrev pub millions : ℤ → ℤ
millions (pos n) = pos (n * 1000000)
millions (negsuc n) = negsuc (n * 1000000 + 999999)

abbrev pub eightfold : ℤ → ℤ
eightfold (pos n) = pos (n * 8)
eightfold (negsuc n) = negsuc (n * 8 + 7)

abbrev pub sensor_key : ℤ → ℤ → ℤ
sensor_key device_id sensor_id = millions device_id +ℤ sensor_id

module _ (w : World) where
  open w use {Double, at_least, at_most}

  -- The flags and the limits that they guard.
  pub record SensorCfg : Type 0 where
    pub low_limit : Option Double
    pub high_limit : Option Double
    pub low_low_limit : Option Double
    pub high_high_limit : Option Double

  -- A limit that is set and crossed.
  abbrev pub crossed : (Double → Double → Bool) → Double → Option Double → Option Double
  crossed test x none = none
  crossed test x (some limit) = if test x limit then some limit else none

  -- The type, the threshold and the level.
  unfoldable pub classify : SensorCfg → Double → Option (AlertType w × Double × ℕ)
  classify c x = elim (crossed at_least x c.high_high_limit) [
    | some t ↦ some (high_high, t, 3)
    | none ↦ elim (crossed at_least x c.high_limit) [
      | some t ↦ some (high, t, 2)
      | none ↦ elim (crossed at_most x c.low_low_limit) [
        | some t ↦ some (low_low, t, 3)
        | none ↦ elim (crossed at_most x c.low_limit) [ some t ↦ some (low, t, 2) | none ↦ none ]
      ]
    ]
  ]

  abbrev pub is_low : AlertType w → Bool
  is_low high_high = false
  is_low high = false
  is_low low_low = true
  is_low low = true

  -- `sensorKey(...) * 8 + dir * 4 + (level - 2)`
  abbrev pub dedup_key : Row w → AlertType w → ℕ → ℤ
  dedup_key r kind level =
      eightfold (sensor_key r.device_id r.sensor_id)
      +ℤ pos ((if is_low kind then 4 else 0) + (if level == 3 then 1 else 0))

  -- g_lastAlert, with times in milliseconds
  abbrev pub LastAlert : Type 0
  LastAlert = ℤ → Option ℕ

  abbrev pub is_suppressed : LastAlert → ℤ → ℕ → Bool
  is_suppressed last key now = elim (last key) [
    | none ↦ false
    | some t ↦ ltb now (t + alert_suppress_sec * 1000)
  ]

  abbrev pub remember : LastAlert → ℤ → ℕ → LastAlert
  remember last key now = λ k. if eqb_ℤ k key then some now else last k

  abbrev pub alert_of : Row w → AlertType w → Double → Double → ℕ → Alert w
  alert_of r kind x threshold level = record {
    device_id = r.device_id;
    device_code = r.device_code;
    sensor_id = r.sensor_id;
    kind = kind;
    level = level;
    value = x;
    threshold = threshold;
  }

  unfoldable pub publish_alert :
      ℕ → LastAlert → Row w → Double → AlertType w × Double × ℕ → LastAlert × List (Effect w)
  publish_alert now last r x (kind, threshold, level) =
      let key = dedup_key r kind level in
      if is_suppressed last key now
      then (last, [])
      else (remember last key now, alerted (alert_of r kind x threshold level) ∷ [])

  abbrev pub publish_found :
      ℕ
      → LastAlert
      → Row w
      → Double
      → Option (AlertType w × Double × ℕ)
      → LastAlert × List (Effect w)
  publish_found now last r x none = (last, [])
  publish_found now last r x (some found) = publish_alert now last r x found

  -- The snapshot of the sensors: `none` before the first one is loaded.
  abbrev pub Sensors : Type 0
  Sensors = Option (ℤ → Option SensorCfg)

  abbrev pub find_sensor : Sensors → Row w → Option SensorCfg
  find_sensor none r = none
  find_sensor (some sensors) r = sensors (sensor_key r.device_id r.sensor_id)

  abbrev pub check_value : ℕ → LastAlert → Row w → SensorCfg → Value w → LastAlert × List (Effect w)
  check_value now last r c (text s) = (last, [])
  check_value now last r c (number x) = publish_found now last r x (classify c x)

  unfoldable pub check_threshold : Sensors → ℕ → LastAlert → Row w → LastAlert × List (Effect w)
  check_threshold sensors now last r = elim (find_sensor sensors r) [
    | none ↦ (last, [])
    | some c ↦ check_value now last r c r.value
  ]
