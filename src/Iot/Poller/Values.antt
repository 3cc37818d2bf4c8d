-- ===== src/Iot/Poller/Values.antt =====
-- Every sensor gets the value of its own registers (mes-iot/src/collector/DevicePoller.cc).
use text.Mathlib.Text.{◌==◌ as str_eq}
use mes_cpp.Base.{
  ℕ, zero, suc, ◌+◌, ◌%◌, ◌≤◌, ◌<◌, ◌≡◌, refl, ap, ◌∙◌, true, some, none, List, [], ◌∷◌, arith,
  if◌then◌else◌, get_elem?, map, pos,
}
use mes_cpp.Iot.Poller.{
  SensorConfig, ReadFrame, Doubles, is_wide, reg_count, modbus_addr, sensor_at, signed, raw32,
  extract_value, split_values,
}
use mes_cpp.Iot.Poller.Frames.{Laid, Fits, reg_count_bounds}

-- The registers that a read of `n` from the address on returns, when `memory` holds them.
unfoldable pub window : (ℕ → ℕ) → ℕ → ℕ → List ℕ
window memory start zero = []
window memory start (suc n) = memory (start % 65536) ∷ window memory (suc start) n

get_elem?-window :
    (memory : ℕ → ℕ) (n start i : ℕ)
    → i < n
    → get_elem? (window memory start n) i ≡ some (memory ((start + i) % 65536))
unfolding window
get_elem?-window memory zero start i h = absurd (omega arith)
get_elem?-window memory (suc n) start zero h = let e : start + 0 ≡ start = omega arith in rw e
get_elem?-window memory (suc n) start (suc i) h =
    let e : start + suc i ≡ suc start + i = omega arith in
    rw e (get_elem?-window memory n (suc start) i (omega arith))

Laid-le :
    (sensors : List SensorConfig) (start offset : ℕ) (is : List ℕ) (q : ℕ)
    → Laid sensors start offset is q
    → offset ≤ q
Laid-le sensors start offset [] q l = omega arith
Laid-le sensors start offset (i ∷ is) q l =
    omega (arith, Laid-le sensors start (offset + reg_count (sensor_at sensors i)) is q l.1)

module _ (d : Doubles) (scale : SensorConfig → Doubles.Double d) where
  open d use {Double, of_int, of_float_bits, mul}

  -- The value of a sensor whose registers hold `raw0` and, for a wide one, `raw1`.
  unfoldable pub value_of : SensorConfig → ℕ → ℕ → Double
  value_of s raw0 raw1 = mul raw (scale s)
    where
      raw : Double
      raw =
          if str_eq s.data_type "uint16"
          then of_int (pos raw0)
          else if str_eq s.data_type "int16"
          then of_int (signed 32768 raw0)
          else if str_eq s.data_type "uint32"
          then of_int (pos (raw32 raw0 raw1))
          else if str_eq s.data_type "int32"
          then of_int (signed 0x80000000 (raw32 raw0 raw1))
          else if str_eq s.data_type "float32"
          then of_float_bits (raw32 raw0 raw1)
          else of_int (pos raw0)

  extracted :
      (s : SensorConfig) (regs : List ℕ) (offset raw0 raw1 : ℕ)
      → get_elem? regs offset ≡ some raw0
      → (is_wide s.data_type ≡ true → get_elem? regs (suc offset) ≡ some raw1)
      → extract_value d scale s regs offset ≡ some (value_of s raw0 raw1)
  unfolding extract_value value_of is_wide
  extracted s regs offset raw0 raw1 e f = rw (e, extract_value) (ground arith)

  module _ (sensors : List SensorConfig) (memory : ℕ → ℕ) where
    abbrev pub own_value : ℕ → ℕ × Double
    own_value i =
        let s = sensor_at sensors i in
        (s.sensor_id, value_of s (memory (modbus_addr s)) (memory ((modbus_addr s + 1) % 65536)))

    wide_count : (s : SensorConfig) → is_wide s.data_type ≡ true → reg_count s ≡ 2
    unfolding reg_count
    wide_count s h = ground arith

    own_extracted :
        (start i : ℕ) (is : List ℕ) (offset q : ℕ)
        → Laid sensors start offset (i ∷ is) q
        → extract_value d scale (sensor_at sensors i) (window memory start q) offset
          ≡ some (own_value i).1
    own_extracted start i is offset q l =
        let s = sensor_at sensors i in
        let fits = Laid-le sensors start (offset + reg_count s) is q l.1 in
        extracted s (window memory start q) offset (memory (modbus_addr s))
          (memory ((modbus_addr s + 1) % 65536))
          (get_elem?-window memory q start offset (omega (arith, fits, reg_count_bounds sensors s))
            ∙ ap (λ a. some (memory a)) l.0)
          (λ w.
            get_elem?-window memory q start (suc offset) (omega (arith, fits, wide_count s w))
            ∙ ap (λ a. some (memory a)) (omega (arith, l.0)))

    split-Laid :
        (start : ℕ) (is : List ℕ) (offset q : ℕ)
        → Laid sensors start offset is q
        → split_values d scale sensors (window memory start q) is offset ≡ some (map own_value is)
    unfolding split_values
    split-Laid start [] offset q l = refl
    split-Laid start (i ∷ is) offset q l = rw (
      own_extracted start i is offset q l,
      split_values,
      split-Laid start is (offset + reg_count (sensor_at sensors i)) q l.1,
    )

  -- A frame that fits, answered with the device's registers, gives one message for each of its
  -- sensors, in order, with the value of the registers at the sensor's own address, and no read goes
  -- beyond the answer.
  pub split_values-Fits :
      (sensors : List SensorConfig) (memory : ℕ → ℕ) (f : ReadFrame)
      → Fits sensors f
      → split_values d scale sensors (window memory f.start_addr f.quantity) f.sensor_indices 0
        ≡ some (map (own_value sensors memory) f.sensor_indices)
  split_values-Fits sensors memory f v =
      split-Laid sensors memory f.start_addr f.sensor_indices 0 f.quantity v.laid

  -- With no registers at all, the first sensor of a frame is read beyond the answer.
  pub split_values-none :
      (sensors : List SensorConfig) (i : ℕ) (is : List ℕ) (offset : ℕ)
      → split_values d scale sensors [] (i ∷ is) offset ≡ none
  unfolding split_values extract_value
  split_values-none sensors i is offset = refl
