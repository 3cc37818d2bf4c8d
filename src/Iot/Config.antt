-- ===== src/Iot/Config.antt =====
-- The configuration that the collector loads from the backend: mes-iot/src/collector/ConfigLoader.cc.
-- The JSON library is a parameter: a field of an object is missing, there, or of another type. A
-- `double` stands by its text.
pub mod Valid
pub mod Urls
pub mod Port
pub mod Load
mod Tests
use text.Mathlib.Text.{◌==◌ as str_eq}
use mes_cpp.Base.{
  ℕ, Bool, true, false, not, ◌&&◌, ◌||◌, Option, none, some, List, [], ◌∷◌, ◌++◌, String,
  if◌then◌else◌, ℤ, pos, leb_ℤ, eqb_ℤ, ◌>>=◌,
}

pub data Field (A : Type 0) : Type 0 where
  missing : Field A
  has : A → Field A
  of_other_type : Field A

-- `value` with a default; `none` is an exception.
unfoldable pub value_or : {A : Type 0} → A → Field A → Option A
value_or d missing = some d
value_or d (has a) = some a
value_or d of_other_type = none

pub record SensorJson : Type 0 where
  pub id : Field ℤ
  pub sensor_code : Field String
  pub sensor_name : Field String
  pub data_type : Field String
  pub unit : Field String
  pub scale_factor : Field String
  pub sample_interval : Field ℤ
  pub register_addr : Field String

pub record ConnectionJson : Type 0 where
  pub unit_id : Field ℤ
  pub poll_interval_ms : Field ℤ

-- `connection_config` and `sensors` count only as an object and as an array.
pub record DeviceJson : Type 0 where
  pub id : Field ℤ
  pub device_code : Field String
  pub device_name : Field String
  pub protocol : Field String
  pub ip_address : Field String
  pub port : Field ℤ
  pub connection_config : Option ConnectionJson
  pub sensors : Option (List SensorJson)

pub record SensorConfig : Type 0 where
  pub sensor_id : ℤ
  pub sensor_code : String
  pub sensor_name : String
  pub register_addr : ℤ
  pub data_type : String
  pub scale_factor : String
  pub unit : String
  pub sample_interval : ℤ

pub record DeviceConfig : Type 0 where
  pub device_id : ℤ
  pub device_code : String
  pub device_name : String
  pub protocol : String
  pub ip_address : String
  pub port : ℤ
  pub unit_id : ℤ
  pub poll_interval_ms : ℤ
  pub sensors : List SensorConfig

pub data Error : Type 0 where
  -- an exception of the JSON library or of `std::stoi`
  parse_error : Error
  invalid_device_id : String → Error
  invalid_sensor_id : String → Error
  no_valid_devices : Error
  invalid_backend_url login_request_failed login_parse_error login_failed empty_token : Error
  devices_request_failed devices_fetch_failed devices_not_array : Error

-- `register_addr` is 0 where the text is empty.
unfoldable pub address_of : (String → Option ℤ) → String → Option ℤ
address_of stoi text = if str_eq text "" then some (pos 0) else stoi text

unfoldable pub read_sensor : (String → Option ℤ) → SensorJson → Option SensorConfig
read_sensor stoi s = do
  id ← value_or (pos 0) s.id
  code ← value_or "" s.sensor_code
  name ← value_or "" s.sensor_name
  kind ← value_or "uint16" s.data_type
  unit ← value_or "" s.unit
  scale ← value_or "1.0" s.scale_factor
  interval ← value_or (pos 1000) s.sample_interval
  text ← value_or "" s.register_addr
  addr ← address_of stoi text
  some (record {
    sensor_id = id;
    sensor_code = code;
    sensor_name = name;
    register_addr = addr;
    data_type = kind;
    scale_factor = scale;
    unit = unit;
    sample_interval = interval;
  })

-- The sensors so far, or the error that ends the load.
pub data Sensors : Type 0 where
  sensors_are : List SensorConfig → Sensors
  sensors_fail : Error → Sensors

-- What the loop does with a sensor: it ends the load, leaves the sensor out, or takes it.
pub data Verdict (A : Type 0) : Type 0 where
  fails : Error → Verdict A
  skipped : Verdict A
  takes : A → Verdict A

unfoldable pub check_sensor : Option SensorConfig → Verdict SensorConfig
check_sensor none = fails parse_error
check_sensor (some s) =
    if leb_ℤ s.sensor_id (pos 0)
    then fails (invalid_sensor_id s.sensor_code)
    else if leb_ℤ s.register_addr (pos 0)
    then skipped
    else takes s

abbrev pub then_sensors :
    Verdict SensorConfig → List SensorConfig → (List SensorConfig → Sensors) → Sensors
then_sensors (fails e) taken rest = sensors_fail e
then_sensors skipped taken rest = rest taken
then_sensors (takes s) taken rest = rest (taken ++ s ∷ [])

unfoldable pub load_sensors : (String → Option ℤ) → List SensorJson → List SensorConfig → Sensors
load_sensors stoi [] taken = sensors_are taken
load_sensors stoi (s ∷ ss) taken =
    then_sensors (check_sensor (read_sensor stoi s)) taken (load_sensors stoi ss)

-- `unit_id` and `poll_interval_ms`
unfoldable pub read_connection : Option ConnectionJson → Option (ℤ × ℤ)
read_connection none = some (pos 1, pos 1000)
read_connection (some c) = do
  unit ← value_or (pos 1) c.unit_id
  interval ← value_or (pos 1000) c.poll_interval_ms
  some (unit, interval)

-- A device without its sensors.
unfoldable pub read_device : DeviceJson → Option DeviceConfig
read_device d = do
  id ← value_or (pos 0) d.id
  code ← value_or "" d.device_code
  name ← value_or "" d.device_name
  protocol ← value_or "" d.protocol
  ip ← value_or "" d.ip_address
  port ← value_or (pos 502) d.port
  connection ← read_connection d.connection_config
  some (record {
    device_id = id;
    device_code = code;
    device_name = name;
    protocol = protocol;
    ip_address = ip;
    port = port;
    unit_id = connection.0;
    poll_interval_ms = connection.1;
    sensors = [];
  })

unfoldable pub check_device : Option DeviceConfig → Verdict DeviceConfig
check_device none = fails parse_error
check_device (some d) =
    if not (str_eq d.protocol "modbus_tcp")
    then skipped
    else if str_eq d.ip_address "" || eqb_ℤ d.port (pos 0)
    then skipped
    else if leb_ℤ d.device_id (pos 0)
    then fails (invalid_device_id d.device_code)
    else takes d

unfoldable pub with_sensors : DeviceConfig → Sensors → Verdict DeviceConfig
with_sensors d (sensors_fail e) = fails e
with_sensors d (sensors_are []) = skipped
with_sensors d (sensors_are (s ∷ ss)) = takes (record d { sensors = s ∷ ss })

unfoldable pub sensors_of : (String → Option ℤ) → Option (List SensorJson) → Sensors
sensors_of stoi none = sensors_are []
sensors_of stoi (some ss) = load_sensors stoi ss []

unfoldable pub take_device :
    (String → Option ℤ) → DeviceJson → Verdict DeviceConfig → Verdict DeviceConfig
take_device stoi j (fails e) = fails e
take_device stoi j skipped = skipped
take_device stoi j (takes d) = with_sensors d (sensors_of stoi j.sensors)

unfoldable pub load_device : (String → Option ℤ) → DeviceJson → Verdict DeviceConfig
load_device stoi j = take_device stoi j (check_device (read_device j))

-- ConfigLoadResult; `error` is `none` for the empty text.
pub record ConfigLoadResult : Type 0 where
  pub ok : Bool
  pub devices : List DeviceConfig
  pub error : Option Error

abbrev pub loaded : List DeviceConfig → ConfigLoadResult
loaded [] = record { ok = false; devices = []; error = some no_valid_devices }
loaded (d ∷ ds) = record { ok = true; devices = d ∷ ds; error = none }

abbrev pub then_devices :
    Verdict DeviceConfig
    → List DeviceConfig
    → (List DeviceConfig → ConfigLoadResult)
    → ConfigLoadResult
then_devices (fails e) taken rest = record { ok = false; devices = taken; error = some e }
then_devices skipped taken rest = rest taken
then_devices (takes d) taken rest = rest (taken ++ d ∷ [])

-- The loop over the list of the answer, and what comes after it.
unfoldable pub load_devices :
    (String → Option ℤ) → List DeviceJson → List DeviceConfig → ConfigLoadResult
load_devices stoi [] taken = loaded taken
load_devices stoi (d ∷ ds) taken = then_devices (load_device stoi d) taken (load_devices stoi ds)
