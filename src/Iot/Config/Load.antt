-- ===== src/Iot/Config/Load.antt =====
-- The load of the configuration as a whole: `loadConfig` of mes-iot/src/collector/ConfigLoader.cc. What the
-- sockets receive and what the JSON library reads in it are parameters.
use text.Mathlib.Text.{◌==◌ as str_eq}
use mes_cpp.Base.{
  ℕ, ◌≡◌, refl, ◌≢◌, inl, inr, false, Option, none, some, List, [], String, if◌then◌else◌, ℤ,
  Bool-cases,
}
use mes_cpp.Iot.Config.{
  DeviceJson, ConfigLoadResult, Error, parse_error, invalid_backend_url, login_request_failed,
  login_parse_error, login_failed, empty_token, devices_request_failed, devices_fetch_failed,
  devices_not_array, load_devices,
}
use mes_cpp.Iot.Config.Urls.{
  UrlParts, Parsed, throws, refused, parsed, parse_url, body_of, is_empty,
}
use mes_cpp.Iot.Config.Port.{PortThrows, throws-PortThrows, PortThrows-throws}
use mes_cpp.Iot.Config.Valid.{ResultIsValid, load_devices-ResultIsValid}

-- An answer of the backend as the JSON library reads it: an exception, another code than 200, or its data.
pub data Answer (A : Type 0) : Type 0 where
  unreadable other_code : Answer A
  answers : A → Answer A

pub record Backend : Type 0 where
  -- all that `recv` gives for the login, and for the devices with a token; empty where there is no connection
  pub post_login : UrlParts → List ℕ
  pub get_devices : UrlParts → String → List ℕ
  -- `access_token`
  pub read_login : List ℕ → Answer String
  -- `list`; `none` where it is not an array
  pub read_devices : List ℕ → Answer (Option (List DeviceJson))

abbrev pub failed : Error → ConfigLoadResult
failed e = record { ok = false; devices = []; error = some e }

unfoldable pub on_devices :
    (String → Option ℤ) → Answer (Option (List DeviceJson)) → ConfigLoadResult
on_devices stoi unreadable = failed parse_error
on_devices stoi other_code = failed devices_fetch_failed
on_devices stoi (answers none) = failed devices_not_array
on_devices stoi (answers (some ds)) = load_devices stoi ds []

unfoldable pub fetch_devices : (String → Option ℤ) → Backend → UrlParts → String → ConfigLoadResult
fetch_devices stoi b url token =
    let body = body_of (b.get_devices url token) in
    if is_empty body then failed devices_request_failed else on_devices stoi (b.read_devices body)

unfoldable pub on_login :
    (String → Option ℤ) → Backend → UrlParts → Answer String → ConfigLoadResult
on_login stoi b url unreadable = failed login_parse_error
on_login stoi b url other_code = failed login_failed
on_login stoi b url (answers token) =
    if str_eq token "" then failed empty_token else fetch_devices stoi b url token

unfoldable pub login : (String → Option ℤ) → Backend → UrlParts → ConfigLoadResult
login stoi b url =
    let body = body_of (b.post_login url) in
    if is_empty body then failed login_request_failed else on_login stoi b url (b.read_login body)

-- `none` is an exception that leaves `loadConfig`.
unfoldable pub on_url : (String → Option ℤ) → Backend → Parsed → Option ConfigLoadResult
on_url stoi b throws = none
on_url stoi b refused = some (failed invalid_backend_url)
on_url stoi b (parsed url) = some (login stoi b url)

-- `stoi` on the texts of the answers, and `stoi_bytes` on the bytes of the address.
unfoldable pub load_config :
    (String → Option ℤ) → (List ℕ → Option ℤ) → Backend → List ℕ → Option ConfigLoadResult
load_config stoi stoi_bytes b backend_url = on_url stoi b (parse_url stoi_bytes backend_url)

failed-ResultIsValid : (e : Error) → ResultIsValid (failed e)
failed-ResultIsValid e = record { devices = tt; success = λ h. cc h; failure = λ h. (e, refl) }

module _ (stoi : String → Option ℤ) (b : Backend) where
  on_devices-ResultIsValid :
      (a : Answer (Option (List DeviceJson))) → ResultIsValid (on_devices stoi a)
  unfolding on_devices
  on_devices-ResultIsValid unreadable = failed-ResultIsValid parse_error
  on_devices-ResultIsValid other_code = failed-ResultIsValid devices_fetch_failed
  on_devices-ResultIsValid (answers none) = failed-ResultIsValid devices_not_array
  on_devices-ResultIsValid (answers (some ds)) = load_devices-ResultIsValid stoi ds [] tt

  fetch_devices-ResultIsValid :
      (url : UrlParts) (token : String) → ResultIsValid (fetch_devices stoi b url token)
  unfolding fetch_devices
  fetch_devices-ResultIsValid url token =
      let body = body_of (b.get_devices url token) in
      elim (Bool-cases (is_empty body)) [
        | inl e ↦ rw e (failed-ResultIsValid devices_request_failed)
        | inr e ↦ rw e (on_devices-ResultIsValid (b.read_devices body))
      ]

  on_login-ResultIsValid :
      (url : UrlParts) (a : Answer String) → ResultIsValid (on_login stoi b url a)
  unfolding on_login
  on_login-ResultIsValid url unreadable = failed-ResultIsValid login_parse_error
  on_login-ResultIsValid url other_code = failed-ResultIsValid login_failed
  on_login-ResultIsValid url (answers token) = elim (Bool-cases (str_eq token "")) [
    | inl e ↦ rw e (failed-ResultIsValid empty_token)
    | inr e ↦ rw e (fetch_devices-ResultIsValid url token)
  ]

  login-ResultIsValid : (url : UrlParts) → ResultIsValid (login stoi b url)
  unfolding login
  login-ResultIsValid url =
      let body = body_of (b.post_login url) in
      elim (Bool-cases (is_empty body)) [
        | inl e ↦ rw e (failed-ResultIsValid login_request_failed)
        | inr e ↦ rw e (on_login-ResultIsValid url (b.read_login body))
      ]

-- How a load ends, by what the parse of the address gives.
data UrlEnds (p : Parsed) : Option ConfigLoadResult → Type 0 where
  url_escapes : p ≡ throws → UrlEnds p none
  url_returns : (r : ConfigLoadResult) → p ≢ throws → ResultIsValid r → UrlEnds p (some r)

on_url-UrlEnds : (stoi : String → Option ℤ) (b : Backend) (p : Parsed) → UrlEnds p (on_url stoi b p)
unfolding on_url
on_url-UrlEnds stoi b throws = url_escapes refl
on_url-UrlEnds stoi b refused =
    url_returns (failed invalid_backend_url) (λ h. cc h) (failed-ResultIsValid invalid_backend_url)
on_url-UrlEnds stoi b (parsed url) =
    url_returns (login stoi b url) (λ h. cc h) (login-ResultIsValid stoi b url)

-- How a load ends, by the text of the address.
pub data LoadEnds (stoi : List ℕ → Option ℤ) (url : List ℕ) : Option ConfigLoadResult → Type 0 where
  escapes : PortThrows stoi url → LoadEnds stoi url none
  returns :
      (r : ConfigLoadResult) → ¬ PortThrows stoi url → ResultIsValid r → LoadEnds stoi url (some r)

UrlEnds-LoadEnds :
    (stoi : List ℕ → Option ℤ) (url : List ℕ) (o : Option ConfigLoadResult)
    → UrlEnds (parse_url stoi url) o
    → LoadEnds stoi url o
UrlEnds-LoadEnds stoi url none (url_escapes e) = escapes (throws-PortThrows stoi url e)
UrlEnds-LoadEnds stoi url (some r) (url_returns r' n v) =
    returns r (λ h. n (PortThrows-throws stoi url h)) v

-- A load of the configuration ends by an exception exactly where the address is http:// with a host that has
-- no colon, a colon and a port, up to the first slash or the end, and `std::stoi` throws at the text of that
-- port. Everywhere else it returns, with devices that can be polled, each with modbus_tcp, an address, a
-- port, a positive number and a sensor, whose number and register address are positive, and it is a success
-- exactly where it reports no error, and then has a device.
pub load_config-LoadEnds :
    (stoi : String → Option ℤ) (stoi_bytes : List ℕ → Option ℤ) (b : Backend) (backend_url : List ℕ)
    → LoadEnds stoi_bytes backend_url (load_config stoi stoi_bytes b backend_url)
unfolding load_config
load_config-LoadEnds stoi stoi_bytes b backend_url =
    UrlEnds-LoadEnds stoi_bytes backend_url _
      (on_url-UrlEnds stoi b (parse_url stoi_bytes backend_url))
