-- ===== src/Iot/Poller.antt =====
-- The poller of one device (mes-iot/src/collector/DevicePoller.cc and .hh). `double` and the order
-- that `std::sort` puts the sensors in are parameters.
pub mod Frames
pub mod Values
pub mod Loop
pub mod Served
use text.Mathlib.Text.{◌==◌ as str_eq}
use mathlib.Core.Option.{get_or}
use mes_cpp.Base.{
  ℕ, suc, ◌+◌, ◌*◌, ◌%◌, ◌-◌, Bool, true, false, not, ◌&&◌, ◌||◌, Option, none, some, List, [], ◌∷◌,
  ◌++◌, String, ◌==◌, leb, ltb, if◌then◌else◌, ℤ, pos, negsuc, get_elem?,
}

pub record SensorConfig : Type 0 where
  pub sensor_id : ℕ
  pub register_addr : ℕ
  pub data_type : String

pub record ReadFrame : Type 0 where
  pub start_addr : ℕ
  pub quantity : ℕ
  pub sensor_indices : List ℕ

-- What the C++ takes from `double`.
pub record Doubles : Type 1 where
  pub Double : Type 0
  pub of_int : ℤ → Double
  -- the `float` that 32 bits stand for, widened
  pub of_float_bits : ℕ → Double
  pub mul : Double → Double → Double

unfoldable pub is_wide : String → Bool
is_wide data_type =
    str_eq data_type "int32" || str_eq data_type "uint32" || str_eq data_type "float32"

unfoldable pub reg_count : SensorConfig → ℕ
reg_count s = if is_wide s.data_type then 2 else 1

-- `static_cast<uint16_t>(addr - kRegisterBase)`
unfoldable pub modbus_addr : SensorConfig → ℕ
modbus_addr s = (s.register_addr + 65536 - 40001) % 65536

-- `config_.sensors[idx]`; the indices of the frames are in range.
abbrev pub blank : SensorConfig
blank = record { sensor_id = 0; register_addr = 0; data_type = "" }

abbrev pub sensor_at : List SensorConfig → ℕ → SensorConfig
sensor_at sensors i = get_or (get_elem? sensors i) blank

abbrev pub open_frame : List SensorConfig → ℕ → ReadFrame
open_frame sensors i = record {
  start_addr = modbus_addr (sensor_at sensors i);
  quantity = reg_count (sensor_at sensors i);
  sensor_indices = i ∷ [];
}

abbrev pub extend_frame : List SensorConfig → ReadFrame → ℕ → ReadFrame
extend_frame sensors f i = record f {
  quantity = (f.quantity + reg_count (sensor_at sensors i)) % 65536;
  sensor_indices = f.sensor_indices ++ i ∷ [];
}

abbrev pub joins : List SensorConfig → ReadFrame → ℕ → Bool
joins sensors f i =
    modbus_addr (sensor_at sensors i) == (f.start_addr + f.quantity) % 65536
    && leb (f.quantity + reg_count (sensor_at sensors i)) 125

-- The loop of `mergeFrames` once a frame is open.
unfoldable pub merge_from : List SensorConfig → ReadFrame → List ℕ → List ReadFrame
merge_from sensors current [] = current ∷ []
merge_from sensors current (i ∷ is) =
    let merged = merge_from sensors (extend_frame sensors current i) is in
    let opened = current ∷ merge_from sensors (open_frame sensors i) is in
    if joins sensors current i then merged else opened

unfoldable pub merge_sorted : List SensorConfig → List ℕ → List ReadFrame
merge_sorted sensors [] = []
merge_sorted sensors (i ∷ is) = merge_from sensors (open_frame sensors i) is

-- `sorted`: the indices of the sensors in the order of their addresses, from `std::sort`.
unfoldable pub merge_frames : (List SensorConfig → List ℕ) → List SensorConfig → List ReadFrame
merge_frames sorted sensors = merge_sorted sensors (sorted sensors)

-- The integer of 16 and of 32 bits in two's complement.
abbrev pub signed : ℕ → ℕ → ℤ
signed half n = if ltb n half then pos n else negsuc (half + half - n - 1)

-- The two registers of a wide value, the high one first.
abbrev pub raw32 : ℕ → ℕ → ℕ
raw32 raw0 raw1 = raw0 * 65536 + raw1

module _ (d : Doubles) (scale : SensorConfig → Doubles.Double d) where
  open d use {Double, of_int, of_float_bits, mul}

  -- `none`: a read beyond the registers.
  unfoldable pub extract_value : SensorConfig → List ℕ → ℕ → Option Double
  extract_value s regs offset = elim (get_elem? regs offset) [
    | none ↦ none
    | some raw0 ↦
        let narrow : Double → Option Double = λ v. some (mul v (scale s)) in
        let wide : (ℕ → Double) → Option Double = λ f. elim (get_elem? regs (suc offset)) [
          | none ↦ none
          | some raw1 ↦ some (mul (f (raw32 raw0 raw1)) (scale s))
        ] in
        if str_eq s.data_type "uint16"
        then narrow (of_int (pos raw0))
        else if str_eq s.data_type "int16"
        then narrow (of_int (signed 32768 raw0))
        else if str_eq s.data_type "uint32"
        then wide (λ r. of_int (pos r))
        else if str_eq s.data_type "int32"
        then wide (λ r. of_int (signed 0x80000000 r))
        else if str_eq s.data_type "float32"
        then wide of_float_bits
        else narrow (of_int (pos raw0))
  ]

  -- The loop over the sensors of a frame: the messages, as pairs of a sensor and its value.
  unfoldable pub split_values : List SensorConfig → List ℕ → List ℕ → ℕ → Option (List (ℕ × Double))
  split_values sensors regs [] offset = some []
  split_values sensors regs (i ∷ is) offset =
      let s = sensor_at sensors i in
      elim (extract_value s regs offset) [
        | none ↦ none
        | some v ↦ elim (split_values sensors regs is (offset + reg_count s)) [
          | none ↦ none
          | some vs ↦ some ((s.sensor_id, v) ∷ vs)
        ]
      ]
