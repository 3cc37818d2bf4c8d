-- ===== src/Ingest/Tests.antt =====
-- The theorems on the consumer at concrete messages: a body is the number of a sensor and its value,
-- and one of another length is no JSON.
use mes_cpp.Base.{
  total, ℕ, zero, suc, ◌+◌, ◌≡◌, ◌≢◌, refl, Bool, true, false, Option, none, some, List, [], ◌∷◌,
  arith, leb, pos, if◌then◌else◌, String,
}
use package.text.Mathlib.Text.{◌==◌ as str_eq}
use mes_cpp.Ingest.{World, Envelope, Row, number, text, high}
use mes_cpp.Ingest.Threshold.{Sensors, publish_alert}
use mes_cpp.Ingest.Consumer.{Consumer, Event, turns, answers, run}
use mes_cpp.Ingest.Conserve.{held, settled, brings, run-account}
use mes_cpp.Ingest.Limits.{IsBatched}

-- A JSON value: a text, a number, or a message of a sensor with a value.
data Json : Type 0 where
  words : List ℕ → Json
  count : ℕ → Json
  message : ℕ → ℕ → Json

abbrev digits : ℕ → List ℕ
digits zero = []
digits (suc n) = 48 ∷ digits n

abbrev parse : List ℕ → Option Json
parse [] = none
parse (s ∷ []) = none
parse (s ∷ v ∷ []) = some (message s v)
parse (s ∷ v ∷ x ∷ xs) = none

abbrev member : Json → String → Option Json
member (words t) name = none
member (count n) name = none
member (message s v) name =
    if str_eq name "sensor_id"
    then some (count s)
    else if str_eq name "value"
    then some (count v)
    else if str_eq name "device_id"
    then some (count 1)
    else if str_eq name "quality"
    then some (count 192)
    else some (words (digits 19))

abbrev is_message : Json → Bool
is_message (words t) = false
is_message (count n) = false
is_message (message s v) = true

abbrev is_words : Json → Bool
is_words (words t) = true
is_words (count n) = false
is_words (message s v) = false

abbrev is_count : Json → Bool
is_count (words t) = false
is_count (count n) = true
is_count (message s v) = false

abbrev words_of : Json → List ℕ
words_of (words t) = t
words_of (count n) = []
words_of (message s v) = []

abbrev number_of : Json → ℕ
number_of (words t) = 0
number_of (count n) = n
number_of (message s v) = 0

abbrev world : World
world = record {
  Json = Json;
  Double = ℕ;
  parse = parse;
  is_object = is_message;
  member = member;
  is_string = is_words;
  is_integer = is_count;
  is_number = is_count;
  get_string = words_of;
  get_integer = λ j. pos (number_of j);
  get_double = number_of;
  at_least = λ x y. leb y x;
  at_most = leb;
}

abbrev empty_consumer : Consumer world
empty_consumer = record {
  rows = [];
  dels = [];
  in_flight = [];
  ack_queue = [];
  last_alert = λ k. none;
  last_flush = 0;
  log = [];
}

abbrev good : ℕ → Envelope
good tag = record { tag = tag; body = 5 ∷ 70 ∷ []; retry_header = none }

abbrev bad : Envelope
bad = record { tag = 9; body = 5 ∷ []; retry_header = none }

-- Alarms from 60 on.
abbrev sensors : Sensors world
sensors = some (λ key. some (record {
  low_limit = none;
  high_limit = some 60;
  low_low_limit = none;
  high_high_limit = none;
}))

-- Two good messages and a bad one, a batch, its answer, and the settlement.
abbrev events : List (Event world)
events =
    turns sensors 10 (some (good 1))
    ∷ turns sensors 20 (some bad)
    ∷ turns sensors 30 (some (good 2))
    ∷ turns sensors 200 none
    ∷ answers 0 true
    ∷ turns sensors 220 none
    ∷ []

run-account_example :
    held world 1 (run world empty_consumer events)
      + settled world 1 (run world empty_consumer events)
    ≡ held world 1 empty_consumer + settled world 1 empty_consumer + total (brings world 1) events
run-account_example = run-account world 1 empty_consumer events

empty-IsBatched : IsBatched world empty_consumer
empty-IsBatched = record { paired = refl; room = omega arith; batches = tt }

abbrev row : Row world
row = record {
  device_id = pos 1;
  device_code = [];
  sensor_id = pos 5;
  value = number 70;
  quality = pos 192;
  ts = [];
}

first_sent : (publish_alert world 10 (λ k. none) row 70 (high, 60, 2)).1 ≢ []
unfolding publish_alert
first_sent e = absurd (cc)
