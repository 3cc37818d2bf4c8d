-- ===== src/Iot/Poller/Frames.antt =====
-- The frames cover the sensors, and each sensor lies in its frame where its address says
-- (mes-iot/src/collector/DevicePoller.cc).
use mathlib.Core.List.{append_assoc}
use mes_cpp.Base.{
  ℕ, ◌+◌, ◌%◌, ◌≤◌, ◌≡◌, refl, ap, ◌∙◌, true, List, [], ◌∷◌, ◌++◌, arith, inl, inr, Bool-cases, All,
}
use mes_cpp.Iot.Poller.{
  SensorConfig, ReadFrame, reg_count, modbus_addr, sensor_at, open_frame, extend_frame, joins,
  merge_from, merge_sorted, merge_frames,
}

module _ (sensors : List SensorConfig) where
  -- From the offset on, the sensors lie side by side at their own addresses, and end with the frame.
  abbrev pub Laid : ℕ → ℕ → List ℕ → ℕ → Type 0
  Laid start offset [] quantity = offset ≡ quantity
  Laid start offset (i ∷ is) quantity =
      ((start + offset) % 65536 ≡ modbus_addr (sensor_at sensors i))
      × Laid start (offset + reg_count (sensor_at sensors i)) is quantity

  -- A frame that one read can serve.
  pub record Fits (f : ReadFrame) : Type 0 where
    pub laid : Laid f.start_addr 0 f.sensor_indices f.quantity
    pub readable : f.quantity ≤ 125
    pub not_empty : 1 ≤ f.quantity

  pub reg_count_bounds : (s : SensorConfig) → (1 ≤ reg_count s) × (reg_count s ≤ 2)
  unfolding reg_count
  reg_count_bounds s = ground arith

  modbus_addr_small : (s : SensorConfig) → modbus_addr s % 65536 ≡ modbus_addr s
  unfolding modbus_addr
  modbus_addr_small s = omega arith

  Laid-extend :
      (start offset : ℕ) (is : List ℕ) (q i q' : ℕ)
      → Laid start offset is q
      → (start + q) % 65536 ≡ modbus_addr (sensor_at sensors i)
      → q + reg_count (sensor_at sensors i) ≡ q'
      → Laid start offset (is ++ i ∷ []) q'
  Laid-extend start offset [] q i q' l e n = (rw l e, rw l n)
  Laid-extend start offset (j ∷ is) q i q' l e n =
      (l.0, Laid-extend start (offset + reg_count (sensor_at sensors j)) is q i q' l.1 e n)

  open_frame-Fits : (i : ℕ) → Fits (open_frame sensors i)
  open_frame-Fits i =
      let s = sensor_at sensors i in
      let e : modbus_addr s + 0 ≡ modbus_addr s = omega arith in
      record {
        laid = (rw e (modbus_addr_small s), omega arith);
        readable = omega (arith, reg_count_bounds s);
        not_empty = omega (arith, reg_count_bounds s);
      }

  extend_frame-Fits :
      (f : ReadFrame) (i : ℕ) → joins sensors f i ≡ true → Fits f → Fits (extend_frame sensors f i)
  extend_frame-Fits f i j v = record {
    laid =
        Laid-extend f.start_addr 0 f.sensor_indices f.quantity i _ v.laid (ground arith)
          (ground arith);
    readable = ground arith;
    not_empty = ground (arith, v.not_empty);
  }

  merge_from-Fits :
      (is : List ℕ) (current : ReadFrame) → Fits current → All Fits (merge_from sensors current is)
  unfolding merge_from
  merge_from-Fits [] current v = (v, tt)
  merge_from-Fits (i ∷ is) current v = elim (Bool-cases (joins sensors current i)) [
    | inl j ↦ rw j (merge_from-Fits is _ (extend_frame-Fits current i j v))
    | inr j ↦ rw j (v, merge_from-Fits is (open_frame sensors i) (open_frame-Fits i))
  ]

  -- The sensors of the frames, in order.
  unfoldable pub indices_of : List ReadFrame → List ℕ
  indices_of [] = []
  indices_of (f ∷ fs) = f.sensor_indices ++ indices_of fs

  merge_from-indices :
      (is : List ℕ) (current : ReadFrame)
      → indices_of (merge_from sensors current is) ≡ current.sensor_indices ++ is
  unfolding merge_from indices_of
  merge_from-indices [] current = refl
  merge_from-indices (i ∷ is) current = elim (Bool-cases (joins sensors current i)) [
    | inl j ↦ rw j (merge_from-indices is _ ∙ append_assoc current.sensor_indices (i ∷ []) is)
    | inr j ↦ rw j (ap (◌++◌ current.sensor_indices) (merge_from-indices is (open_frame sensors i)))
  ]

  merge_sorted-Fits : (is : List ℕ) → All Fits (merge_sorted sensors is)
  unfolding merge_sorted
  merge_sorted-Fits [] = tt
  merge_sorted-Fits (i ∷ is) = merge_from-Fits is (open_frame sensors i) (open_frame-Fits i)

  merge_sorted-indices : (is : List ℕ) → indices_of (merge_sorted sensors is) ≡ is
  unfolding merge_sorted indices_of
  merge_sorted-indices [] = refl
  merge_sorted-indices (i ∷ is) = merge_from-indices is (open_frame sensors i)

  -- Every frame is short enough for one read and not empty, its sensors lie in it side by side at
  -- their own addresses, and the frames hold every sensor that was sorted, once and in that order.
  pub merge_frames-Fits :
      (sorted : List SensorConfig → List ℕ)
      → All Fits (merge_frames sorted sensors)
        × (indices_of (merge_frames sorted sensors) ≡ sorted sensors)
  unfolding merge_frames
  merge_frames-Fits sorted =
      (merge_sorted-Fits (sorted sensors), merge_sorted-indices (sorted sensors))
