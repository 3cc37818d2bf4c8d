-- ===== src/Iot/Config/Tests.antt =====
-- The theorems on the configuration at a concrete backend.
use mes_cpp.Base.{
  ℕ, ◌≡◌, refl, true, Option, none, some, List, [], ◌∷◌, ◌++◌, codes, String, ℤ, pos,
}
use mes_cpp.Iot.Config.{
  DeviceJson, SensorJson, missing, has, load_devices, load_sensors, load_device, read_sensor,
  read_device, check_sensor, check_device, value_or, Field, address_of, read_connection,
  with_sensors, sensors_of, take_device,
}
use mes_cpp.Iot.Config.Load.{Backend, answers, LoadEnds, load_config, load_config-LoadEnds}

-- One device with two sensors, the second without an address.
abbrev sensor : Field String → SensorJson
sensor addr = record {
  id = has (pos 7);
  sensor_code = has "T1";
  sensor_name = missing;
  data_type = missing;
  unit = missing;
  scale_factor = missing;
  sample_interval = missing;
  register_addr = addr;
}

abbrev device : DeviceJson
device = record {
  id = has (pos 3);
  device_code = has "D1";
  device_name = missing;
  protocol = has "modbus_tcp";
  ip_address = has "10.0.0.5";
  port = missing;
  connection_config = none;
  sensors = some (sensor (has "40001") ∷ sensor missing ∷ []);
}

abbrev stoi : String → Option ℤ
stoi t = some (pos 40001)

abbrev stoi_bytes : List ℕ → Option ℤ
stoi_bytes [] = none
stoi_bytes (c ∷ s) = some (pos 8088)

-- It has one device with one sensor.
one_device : (load_devices stoi (device ∷ []) []).ok ≡ true
unfolding load_devices load_device take_device check_device read_device value_or read_connection
    sensors_of load_sensors check_sensor read_sensor address_of with_sensors
one_device = refl

abbrev backend : Backend
backend = record {
  post_login = λ u. codes "HTTP/1.1 200 OK" ++ 13 ∷ 10 ∷ 13 ∷ 10 ∷ codes "{}";
  get_devices = λ u t. codes "HTTP/1.1 200 OK" ++ 13 ∷ 10 ∷ 13 ∷ 10 ∷ codes "{}";
  read_login = λ body. answers "token";
  read_devices = λ body. answers (some (device ∷ []));
}

load_config-LoadEnds_example :
    LoadEnds stoi_bytes
      (codes "http://10.0.0.1:8088/")
      (load_config stoi stoi_bytes backend (codes "http://10.0.0.1:8088/"))
load_config-LoadEnds_example =
    load_config-LoadEnds stoi stoi_bytes backend (codes "http://10.0.0.1:8088/")
