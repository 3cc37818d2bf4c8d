-- ===== src/Ingest.antt =====
-- The consumer of sensor messages (mes-backend/src/mq/DataIngestHandler.cc). JSON and `double` are
-- parameters; a string is the list of its bytes; a delivery is named by its tag.
pub mod Threshold
pub mod Consumer
pub mod Conserve
pub mod Limits
mod Tests
use mes_cpp.Base.{
  ℕ, ◌+◌, ◌*◌, Bool, true, false, not, ◌&&◌, ◌||◌, Option, none, some, List, [], ◌∷◌, ◌++◌, String,
  ◌==◌, ltb, leb, if◌then◌else◌, ℤ, pos, to_int, negsuc, ◌+ℤ◌, eqb_ℤ, ltb_ℤ, length, take,
}

-- What the C++ takes from its libraries for JSON and numbers.
pub record World : Type 1 where
  pub Json : Type 0
  pub Double : Type 0
  -- `none` for an exception
  pub parse : List ℕ → Option Json
  pub is_object : Json → Bool
  -- `contains` and `operator[]`
  pub member : Json → String → Option Json
  pub is_string : Json → Bool
  pub is_integer : Json → Bool
  pub is_number : Json → Bool
  pub get_string : Json → List ℕ
  pub get_integer : Json → ℤ
  pub get_double : Json → Double
  pub at_least : Double → Double → Bool
  pub at_most : Double → Double → Bool

-- A delivery of the queue, with its header `x-retry-count`.
pub record Envelope : Type 0 where
  pub tag : ℕ
  pub body : List ℕ
  pub retry_header : Option ℤ

abbrev pub max_retry : ℕ
max_retry = 3

abbrev pub batch_rows : ℕ
batch_rows = 500

abbrev pub flush_window_ms : ℕ
flush_window_ms = 100

abbrev pub alert_suppress_sec : ℕ
alert_suppress_sec = 30

module _ (w : World) where
  open w use {
    Json, Double, parse, is_object, member, is_string, is_integer, is_number, get_string,
    get_integer, get_double, at_least, at_most,
  }

  pub data Value : Type 0 where
    number : Double → Value
    text : List ℕ → Value

  pub record Row : Type 0 where
    pub device_id : ℤ
    pub device_code : List ℕ
    pub sensor_id : ℤ
    pub value : Value
    pub quality : ℤ
    pub ts : List ℕ

  -- A member that is there and has the type.
  abbrev pub has : (Json → Bool) → Json → String → Bool
  has p j name = elim (member j name) [ none ↦ false | some v ↦ p v ]

  unfoldable pub validate : Json → Bool
  validate j =
      is_object j
      && has is_string j "version"
      && has is_integer j "device_id"
      && has is_string j "device_code"
      && has is_integer j "sensor_id"
      && has (λ v. is_number v || is_string v) j "value"
      && has is_integer j "quality"
      && has is_string j "ts"

  -- `0` to `9`, `-`, `T`, `:`, `.` and `Z`
  abbrev pub is_ts_char : ℕ → Bool
  is_ts_char c = leb 48 c && leb c 57 || c == 45 || c == 84 || c == 58 || c == 46 || c == 90

  unfoldable pub all_ts_chars : List ℕ → Bool
  all_ts_chars [] = true
  all_ts_chars (c ∷ cs) = is_ts_char c && all_ts_chars cs

  unfoldable pub ts_safe : List ℕ → Bool
  ts_safe ts = not (ltb (length ts) 19 || ltb 32 (length ts)) && all_ts_chars ts

  abbrev pub text_of : Json → String → List ℕ
  text_of j name = elim (member j name) [ none ↦ [] | some v ↦ get_string v ]

  abbrev pub integer_of : Json → String → ℤ
  integer_of j name = elim (member j name) [ none ↦ pos 0 | some v ↦ get_integer v ]

  abbrev pub value_of : Json → Value
  value_of j = elim (member j "value") [
    | none ↦ text []
    | some v ↦ if is_number v then number (get_double v) else text (take 256 (get_string v))
  ]

  unfoldable pub row_of : Json → Row
  row_of j = record {
    device_id = integer_of j "device_id";
    device_code = text_of j "device_code";
    sensor_id = integer_of j "sensor_id";
    value = value_of j;
    quality = to_int (integer_of j "quality");
    ts = text_of j "ts";
  }

  -- A message that `validate` and `tsSafe` accept, as a row.
  unfoldable pub accept : List ℕ → Option Row
  accept body = elim (parse body) [
    | none ↦ none
    | some j ↦ if validate j && ts_safe (text_of j "ts") then some (row_of j) else none
  ]

  pub data AlertType : Type 0 where
    high_high high low_low low : AlertType

  pub record Alert : Type 0 where
    pub device_id : ℤ
    pub device_code : List ℕ
    pub sensor_id : ℤ
    pub kind : AlertType
    pub level : ℕ
    pub value : Double
    pub threshold : Double

  -- What is handed to the channel.
  pub data Effect : Type 0 where
    acked : ℕ → Effect
    rejected : ℕ → Bool → Effect
    -- to `retry.data`, with its new retry count
    republished : List ℕ → ℤ → Effect
    alerted : Alert → Effect

  abbrev pub retry_count_of : Envelope → ℤ
  retry_count_of e = elim e.retry_header [ none ↦ pos 0 | some n ↦ to_int n ]

  unfoldable pub handle_invalid : Envelope → List Effect
  handle_invalid e =
      if not (ltb_ℤ (retry_count_of e) (pos max_retry))
      then rejected e.tag false ∷ []
      else republished e.body (retry_count_of e +ℤ pos 1) ∷ acked e.tag ∷ []
