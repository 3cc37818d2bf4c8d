-- ===== src/Iot/Poller/Served.antt =====
-- A whole poll, from the bytes on the wire to the messages
-- (mes-iot/src/collector/DevicePoller.cc and mes-iot/src/modbus/ModbusClient.cc).
use mathlib.Core.List.{append_assoc, append-nil}
use mes_cpp.Base.{
  ℕ, zero, suc, ◌+◌, ◌%◌, ◌<◌, ◌≡◌, refl, ap, sym, ◌∙◌, true, false, some, List, [], ◌∷◌, ◌++◌,
  arith, All, length, map,
}
use mes_cpp.Iot.Modbus.{Client, ok_code, read_holding_registers}
use mes_cpp.Iot.Modbus.Receive.{stream, IsChunk}
use mes_cpp.Iot.Modbus.Response.{frame_of, IsRegister}
use mes_cpp.Iot.Modbus.RoundTrip.{read-frame_of}
use mes_cpp.Iot.Poller.{SensorConfig, ReadFrame, Doubles, merge_frames, split_values}
use mes_cpp.Iot.Poller.Frames.{Fits, indices_of, merge_frames-Fits}
use mes_cpp.Iot.Poller.Values.{window, own_value, split_values-Fits}
use mes_cpp.Iot.Poller.Loop.{Flags, Round, Poll, polled, read_frames, read_round, poll_round}

length-window : (memory : ℕ → ℕ) (n start : ℕ) → length (window memory start n) ≡ n
unfolding window
length-window memory zero start = refl
length-window memory (suc n) start = ap suc (length-window memory n (suc start))

window-IsRegister :
    (memory : ℕ → ℕ)
    → ((a : ℕ) → memory a < 65536)
    → (n start : ℕ) → All IsRegister (window memory start n)
unfolding window
window-IsRegister memory h zero start = tt
window-IsRegister memory h (suc n) start =
    (h (start % 65536), window-IsRegister memory h n (suc start))

-- What a device with these registers sends when the frames are asked for one after the other.
unfoldable pub responses : (ℕ → ℕ) → ℕ → ℕ → List ReadFrame → List ℕ
responses memory txn unit_id [] = []
responses memory txn unit_id (f ∷ fs) =
    frame_of txn unit_id (window memory f.start_addr f.quantity)
    ++ responses memory ((txn + 1) % 65536) unit_id fs

map-append :
    {A : Type 0} {B : Type 0} (f : A → B) (xs ys : List A) → map f (xs ++ ys) ≡ map f xs ++ map f ys
map-append f [] ys = refl
map-append f (x ∷ xs) ys = ap (λ t. f x ∷ t) (map-append f xs ys)

module _ (d : Doubles) (scale : SensorConfig → Doubles.Double d) (sensors : List SensorConfig)
    (memory : ℕ → ℕ) (small : (a : ℕ) → memory a < 65536) where
  -- One frame answered: the registers come back, and the client is ready for the next frame.
  Answers : ReadFrame → Client → List ℕ → Type 0
  Answers f c more =
      (c' : Client) × (read_holding_registers c true f.start_addr f.quantity
        ≡ (c', record { error = ok_code; registers = window memory f.start_addr f.quantity }))
      × (c'.connected ≡ true)
      × (c'.next_transaction_id ≡ (c.next_transaction_id + 1) % 65536)
      × (c'.unit_id ≡ c.unit_id)
      × All IsChunk c'.incoming
      × (stream c'.incoming ≡ more)

  frame-Answers :
      (f : ReadFrame) (c : Client) (more : List ℕ)
      → Fits sensors f
      → c.connected ≡ true
      → c.next_transaction_id < 65536
      → All IsChunk c.incoming
      → stream c.incoming
        ≡ frame_of c.next_transaction_id c.unit_id (window memory f.start_addr f.quantity) ++ more
      → Answers f c more
  unfolding Answers
  frame-Answers f c more v up t a e =
      let vs = window memory f.start_addr f.quantity in
      let n : length vs ≡ f.quantity = length-window memory f.quantity f.start_addr in
      let (left, r, s, k) =
        read-frame_of c f.start_addr vs more up t (omega (arith, n, v.not_empty))
          (omega (arith, n, v.readable)) (window-IsRegister memory small f.quantity f.start_addr) a
          e in
      (_, ap (λ q. read_holding_registers c true f.start_addr q) (sym n) ∙ r, up, refl, refl, k, s)

  read_frames-step :
      (f : ReadFrame) (fs : List ReadFrame) (c c' : Client) (out ms : List (ℕ × Doubles.Double d))
      (regs : List ℕ)
      → read_holding_registers c true f.start_addr f.quantity
        ≡ (c', record { error = ok_code; registers = regs })
      → split_values d scale sensors regs f.sensor_indices 0 ≡ some ms
      → read_frames d scale sensors true (f ∷ fs) c out
        ≡ read_frames d scale sensors true fs c' (out ++ ms)
  unfolding read_frames
  read_frames-step f fs c c' out ms regs r v = ground (arith, r, v)

  -- What a round has when every frame was served.
  Served : List ReadFrame → Client → List (ℕ × Doubles.Double d) → Type 0
  Served fs c out =
      (c' : Client) × (read_frames d scale sensors true fs c out
        ≡ some (true, c', out ++ map (own_value d scale sensors memory) (indices_of sensors fs)))

  read_frames-Served :
      (fs : List ReadFrame) (c : Client) (out : List (ℕ × Doubles.Double d)) (rest : List ℕ)
      → All (Fits sensors) fs
      → c.connected ≡ true
      → c.next_transaction_id < 65536
      → All IsChunk c.incoming
      → stream c.incoming ≡ responses memory c.next_transaction_id c.unit_id fs ++ rest
      → Served fs c out
  unfolding read_frames indices_of responses Served Answers
  read_frames-Served [] c out rest v up t a e =
      (c, ap (λ o. some (true, c, o)) (sym (append-nil out)))
  read_frames-Served (f ∷ fs) c out rest v up t a e =
      let more = responses memory ((c.next_transaction_id + 1) % 65536) c.unit_id fs ++ rest in
      let (c1, r, up1, id1, unit1, a1, s1) = frame-Answers f c more v.0 up t a (
        e
        ∙ append_assoc
            (frame_of c.next_transaction_id c.unit_id (window memory f.start_addr f.quantity)) _
            rest) in
      let own = own_value d scale sensors memory in
      let values = map own f.sensor_indices in
      let (c2, rest2) =
        read_frames-Served fs c1 (out ++ values) rest v.1 up1 (rw id1 (omega arith)) a1
          (rw (id1, unit1) s1) in
      (
        c2,
        (read_frames-step f fs c c1 out values _ r (split_values-Fits d scale sensors memory f v.0)
            ∙ rest2
            ∙ ap (λ o. some (true, c2, o))
                (append_assoc out values _
                  ∙ ap (◌++◌ out) (sym (map-append own f.sensor_indices (indices_of sensors fs))))),
      )

  poll_round-all :
      (interval_ms : ℕ) (frames : List ReadFrame) (flags : Flags) (world : Round) (p : Poll)
      (c : Client) (out : List (ℕ × Doubles.Double d))
      → flags.paused ≡ false
      → world.sends ≡ true
      → p.client.connected ≡ true
      → read_frames d scale sensors true frames p.client [] ≡ some (true, c, out)
      → poll_round d scale interval_ms sensors frames flags world p
        ≡ some (record p { client = c }, polled, interval_ms, out)
  unfolding poll_round read_round
  poll_round-all interval_ms frames flags world p c out awake sends up r = ground (arith, r)

  -- A connected poller that is not paused, whose device answers each frame's request with its
  -- registers, however the network cuts the answers, publishes for every configured sensor, in the
  -- order of the sorting, the value of the registers at the sensor's own address, and waits the
  -- interval.
  pub poll_round-Served :
      (sorted : List SensorConfig → List ℕ) (interval_ms : ℕ) (flags : Flags) (world : Round)
      (p : Poll) (rest : List ℕ)
      → flags.paused ≡ false
      → world.sends ≡ true
      → p.client.connected ≡ true
      → p.client.next_transaction_id < 65536
      → All IsChunk p.client.incoming
      → stream p.client.incoming
        ≡ responses memory p.client.next_transaction_id p.client.unit_id
            (merge_frames sorted sensors)
          ++ rest
      → (c : Client) × (poll_round d scale interval_ms sensors
            (merge_frames sorted sensors)
            flags
            world
            p
          ≡ some (
            record p { client = c },
            polled,
            interval_ms,
            map (own_value d scale sensors memory) (sorted sensors),
          ))
  unfolding Served
  poll_round-Served sorted interval_ms flags world p rest awake sends up t a e =
      let (fits, order) = merge_frames-Fits sensors sorted in
      let (c, r) =
        read_frames-Served (merge_frames sorted sensors) p.client [] rest fits up t a e in
      (
        c,
        poll_round-all interval_ms (merge_frames sorted sensors) flags world p c _ awake sends up
            (r ∙ ap (λ is. some (true, c, map (own_value d scale sensors memory) is)) order),
      )
