-- ===== src/Iot/Tests.antt =====
-- The theorems on the collector at a concrete device: two registers at 40001 and one wide value
-- behind them.
use mes_cpp.Base.{
  ℕ, ◌+◌, ◌*◌, ◌%◌, ◌<◌, ◌≡◌, refl, true, false, some, none, List, [], ◌∷◌, arith, All, length, map,
  pos_part, take, drop,
}
use mes_cpp.Iot.Modbus.{Client, ok_code, request, read_holding_registers}
use mes_cpp.Iot.Modbus.Receive.{stream}
use mes_cpp.Iot.Modbus.RoundTrip.{read-frame_of}
use mes_cpp.Iot.Poller.{
  SensorConfig, ReadFrame, Doubles, merge_frames, merge_sorted, merge_from, modbus_addr, reg_count,
  is_wide,
}
use mes_cpp.Iot.Poller.Values.{window, own_value, value_of}
use mes_cpp.Iot.Poller.Loop.{Flags, Round, Poll, polled, poll_round}
use mes_cpp.Iot.Poller.Served.{responses, poll_round-Served}

-- Numbers in the place of `double`.
abbrev numbers : Doubles
numbers = record { Double = ℕ; of_int = pos_part; of_float_bits = λ n. n; mul = λ a b. a * b }

abbrev tenfold : SensorConfig → ℕ
tenfold s = 10

abbrev sensors : List SensorConfig
sensors =
    record { sensor_id = 7; register_addr = 40002; data_type = "uint16" }
    ∷ record { sensor_id = 8; register_addr = 40001; data_type = "int16" }
    ∷ record { sensor_id = 9; register_addr = 40003; data_type = "uint32" }
    ∷ []

abbrev by_address : List SensorConfig → List ℕ
by_address ss = 1 ∷ 0 ∷ 2 ∷ []

abbrev memory : ℕ → ℕ
memory a = (a + 3) % 65536

abbrev frame : ReadFrame
frame = record { start_addr = 0; quantity = 4; sensor_indices = 1 ∷ 0 ∷ 2 ∷ [] }

merged : merge_frames by_address sensors ≡ frame ∷ []
unfolding merge_frames merge_sorted merge_from modbus_addr reg_count is_wide
merged = refl

-- The answer to the first request: four registers, 3 to 6.
abbrev answer : List ℕ
answer = 0 ∷ 1 ∷ 0 ∷ 0 ∷ 0 ∷ 11 ∷ 1 ∷ 3 ∷ 8 ∷ 0 ∷ 3 ∷ 0 ∷ 4 ∷ 0 ∷ 5 ∷ 0 ∷ 6 ∷ []

-- It comes in three chunks.
abbrev client : Client
client = record {
  connected = true;
  unit_id = 1;
  next_transaction_id = 1;
  incoming = take 3 answer ∷ take 9 (drop 3 answer) ∷ drop 12 answer ∷ [];
  outgoing = [];
}

abbrev awake : Flags
awake = record { running = true; paused = false }

abbrev good_round : Round
good_round = record { connects = none; sends = true }

abbrev poll : Poll
poll = record { client = client; backoff_sec = 4 }

poll_round-Served_example :
    (c : Client) × (poll_round numbers tenfold 1000 sensors
        (merge_frames by_address sensors)
        awake
        good_round
        poll
      ≡ some (
        record poll { client = c },
        polled,
        1000,
        map (own_value numbers tenfold sensors memory) (by_address sensors),
      ))
unfolding merge_frames responses window stream merge_sorted merge_from modbus_addr reg_count is_wide
poll_round-Served_example =
    poll_round-Served numbers tenfold sensors memory (λ a. omega arith) by_address 1000 awake
      good_round poll [] refl refl refl (omega arith)
      (omega arith, (omega arith, (omega arith, tt))) refl

-- Those values are 30 for sensor 8, 40 for sensor 7, and 10 * (5 * 65536 + 6) for sensor 9.
published :
    map (own_value numbers tenfold sensors memory) (by_address sensors)
    ≡ (8, 30) ∷ (7, 40) ∷ (9, 3276860) ∷ []
unfolding value_of modbus_addr
published = refl

read-frame_of_example :
    (left : List (List ℕ)) × (read_holding_registers client true 0 4 ≡ (
      record client { next_transaction_id = 2; incoming = left; outgoing = request 1 1 0 4 ∷ [] },
      record { error = ok_code; registers = 3 ∷ 4 ∷ 5 ∷ 6 ∷ [] },
    ))
    × (stream left ≡ [])
    × All (λ c. 0 < length c) left
unfolding stream
read-frame_of_example =
    read-frame_of client 0 (3 ∷ 4 ∷ 5 ∷ 6 ∷ []) [] refl (omega arith) (omega arith) (omega arith)
      (omega arith, (omega arith, (omega arith, (omega arith, tt))))
      (omega arith, (omega arith, (omega arith, tt))) refl

-- The device is away: the fourth failure in a row waits eight seconds.
abbrev away : Poll
away = record { client = record client { connected = false }; backoff_sec = 8 }
