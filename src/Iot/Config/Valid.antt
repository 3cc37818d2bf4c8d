-- ===== src/Iot/Config/Valid.antt =====
-- The configuration that is loaded can be polled (mes-iot/src/collector/ConfigLoader.cc).
use text.Mathlib.Text.{◌==◌ as str_eq}
use text.Mathlib.TextEquality.{eq_iff}
use mes_cpp.Base.{
  ◌≡◌, refl, ap, ◌≢◌, inl, inr, true, false, ◌||◌, Option, none, some, List, [], ◌∷◌, ◌++◌, arith,
  String, ℤ, pos, ◌≤ℤ◌, leb_ℤ, eqb_ℤ, All, All-append, Bool-cases,
}
use mes_cpp.Iot.Config.{
  SensorJson, DeviceJson, SensorConfig, DeviceConfig, Error, no_valid_devices, Sensors, sensors_are,
  sensors_fail, Verdict, fails, skipped, takes, read_sensor, check_sensor, then_sensors,
  load_sensors, read_device, check_device, with_sensors, sensors_of, take_device, load_device,
  ConfigLoadResult, loaded, then_devices, load_devices,
}

pub record SensorIsValid (s : SensorConfig) : Type 0 where
  pub id : pos 1 ≤ℤ s.sensor_id
  pub address : pos 1 ≤ℤ s.register_addr

-- Of a device without its sensors.
pub record HeadIsValid (d : DeviceConfig) : Type 0 where
  pub protocol : d.protocol ≡ "modbus_tcp"
  pub ip_address : d.ip_address ≢ ""
  pub port : d.port ≢ pos 0
  pub id : pos 1 ≤ℤ d.device_id

pub record DeviceIsValid (d : DeviceConfig) : Type 0 where
  pub head : HeadIsValid d
  pub has_sensors : d.sensors ≢ []
  pub sensors : All SensorIsValid d.sensors

-- A predicate on what a verdict takes.
abbrev Takes : {A : Type 0} → (A → Type 0) → Verdict A → Type 0
Takes P (fails e) = Unit
Takes P skipped = Unit
Takes P (takes a) = P a

abbrev AllSensors : Sensors → Type 0
AllSensors (sensors_are ss) = All SensorIsValid ss
AllSensors (sensors_fail e) = Unit

check_sensor-SensorIsValid : (o : Option SensorConfig) → Takes SensorIsValid (check_sensor o)
unfolding check_sensor
check_sensor-SensorIsValid none = tt
check_sensor-SensorIsValid (some s) = elim (Bool-cases (leb_ℤ s.sensor_id (pos 0))) [
  | inl e ↦ rw e tt
  | inr e ↦ elim (Bool-cases (leb_ℤ s.register_addr (pos 0))) [
    | inl a ↦ rw (e, a) tt
    | inr a ↦ rw (e, a) (record { id = ground (arith, e); address = ground (arith, a) })
  ]
]

then_sensors-AllSensors :
    (v : Verdict SensorConfig) (taken : List SensorConfig) (rest : List SensorConfig → Sensors)
    → Takes SensorIsValid v
    → All SensorIsValid taken
    → ((ss : List SensorConfig) → All SensorIsValid ss → AllSensors (rest ss))
    → AllSensors (then_sensors v taken rest)
then_sensors-AllSensors (fails e) taken rest p h k = tt
then_sensors-AllSensors skipped taken rest p h k = k taken h
then_sensors-AllSensors (takes s) taken rest p h k =
    k (taken ++ s ∷ []) (All-append SensorIsValid taken (s ∷ []) h (p, tt))

load_sensors-AllSensors :
    (stoi : String → Option ℤ) (ss : List SensorJson) (taken : List SensorConfig)
    → All SensorIsValid taken
    → AllSensors (load_sensors stoi ss taken)
unfolding load_sensors
load_sensors-AllSensors stoi [] taken h = h
load_sensors-AllSensors stoi (s ∷ ss) taken h =
    then_sensors-AllSensors (check_sensor (read_sensor stoi s)) taken (load_sensors stoi ss)
      (check_sensor-SensorIsValid (read_sensor stoi s)) h (load_sensors-AllSensors stoi ss)

check_device-HeadIsValid : (o : Option DeviceConfig) → Takes HeadIsValid (check_device o)
unfolding check_device
check_device-HeadIsValid none = tt
check_device-HeadIsValid (some d) = elim (Bool-cases (str_eq d.protocol "modbus_tcp")) [
  | inr p ↦ rw p tt
  | inl p ↦ elim (Bool-cases (str_eq d.ip_address "" || eqb_ℤ d.port (pos 0))) [
    | inl a ↦ rw (p, a) tt
    | inr a ↦ elim (Bool-cases (leb_ℤ d.device_id (pos 0))) [
      | inl i ↦ rw (p, a, i) tt
      | inr i ↦
          rw (p, a, i)
            (record {
              protocol = ground (arith, p, eq_iff d.protocol "modbus_tcp");
              ip_address = λ e. ground (arith, a, e, eq_iff d.ip_address "");
              port = λ e. ground (arith, a, ap (λ z. eqb_ℤ z (pos 0)) e);
              id = ground (arith, i);
            })
    ]
  ]
]

with_sensors-DeviceIsValid :
    (d : DeviceConfig) (s : Sensors)
    → HeadIsValid d
    → AllSensors s
    → Takes DeviceIsValid (with_sensors d s)
unfolding with_sensors
with_sensors-DeviceIsValid d (sensors_fail e) h k = tt
with_sensors-DeviceIsValid d (sensors_are []) h k = tt
with_sensors-DeviceIsValid d (sensors_are (s ∷ ss)) h k = record {
  head = record { protocol = h.protocol; ip_address = h.ip_address; port = h.port; id = h.id };
  has_sensors = λ e. cc e;
  sensors = k;
}

sensors_of-AllSensors :
    (stoi : String → Option ℤ) (o : Option (List SensorJson)) → AllSensors (sensors_of stoi o)
unfolding sensors_of
sensors_of-AllSensors stoi none = tt
sensors_of-AllSensors stoi (some ss) = load_sensors-AllSensors stoi ss [] tt

take_device-DeviceIsValid :
    (stoi : String → Option ℤ) (j : DeviceJson) (v : Verdict DeviceConfig)
    → Takes HeadIsValid v
    → Takes DeviceIsValid (take_device stoi j v)
unfolding take_device
take_device-DeviceIsValid stoi j (fails e) h = tt
take_device-DeviceIsValid stoi j skipped h = tt
take_device-DeviceIsValid stoi j (takes d) h =
    with_sensors-DeviceIsValid d (sensors_of stoi j.sensors) h
      (sensors_of-AllSensors stoi j.sensors)

load_device-DeviceIsValid :
    (stoi : String → Option ℤ) (j : DeviceJson) → Takes DeviceIsValid (load_device stoi j)
unfolding load_device
load_device-DeviceIsValid stoi j =
    take_device-DeviceIsValid stoi j (check_device (read_device j))
      (check_device-HeadIsValid (read_device j))

-- A result: its devices are valid, and it is a success exactly where it has no error, and then has a device.
pub record ResultIsValid (r : ConfigLoadResult) : Type 0 where
  pub devices : All DeviceIsValid r.devices
  pub success : r.ok ≡ true → (r.error ≡ none) × (r.devices ≢ [])
  pub failure : r.ok ≡ false → (e : Error) × (r.error ≡ some e)

loaded-ResultIsValid : (ds : List DeviceConfig) → All DeviceIsValid ds → ResultIsValid (loaded ds)
loaded-ResultIsValid [] h = record {
  devices = tt;
  success = λ e. cc e;
  failure = λ e. (no_valid_devices, refl);
}
loaded-ResultIsValid (d ∷ ds) h = record {
  devices = h;
  success = λ e. (refl, λ k. cc k);
  failure = λ e. cc e;
}

then_devices-ResultIsValid :
    (v : Verdict DeviceConfig) (taken : List DeviceConfig)
    (rest : List DeviceConfig → ConfigLoadResult)
    → Takes DeviceIsValid v
    → All DeviceIsValid taken
    → ((ds : List DeviceConfig) → All DeviceIsValid ds → ResultIsValid (rest ds))
    → ResultIsValid (then_devices v taken rest)
then_devices-ResultIsValid (fails e) taken rest p h k = record {
  devices = h;
  success = λ n. cc n;
  failure = λ n. (e, refl);
}
then_devices-ResultIsValid skipped taken rest p h k = k taken h
then_devices-ResultIsValid (takes d) taken rest p h k =
    k (taken ++ d ∷ []) (All-append DeviceIsValid taken (d ∷ []) h (p, tt))

-- Whatever the backend answers, each device that is loaded speaks modbus_tcp, has an address, a port, a
-- positive number and at least one sensor, and each of its sensors has a positive number and register
-- address, if the devices so far are so; the load is a success exactly where it reports no error, and then
-- there is a device.
pub load_devices-ResultIsValid :
    (stoi : String → Option ℤ) (ds : List DeviceJson) (taken : List DeviceConfig)
    → All DeviceIsValid taken
    → ResultIsValid (load_devices stoi ds taken)
unfolding load_devices
load_devices-ResultIsValid stoi [] taken h = loaded-ResultIsValid taken h
load_devices-ResultIsValid stoi (d ∷ ds) taken h =
    then_devices-ResultIsValid (load_device stoi d) taken (load_devices stoi ds)
      (load_device-DeviceIsValid stoi d) h (load_devices-ResultIsValid stoi ds)
