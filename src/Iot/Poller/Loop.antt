-- ===== src/Iot/Poller/Loop.antt =====
-- One round of the polling loop, and the waits between the attempts to connect
-- (mes-iot/src/collector/DevicePoller.cc).
use mes_cpp.Base.{
  ℕ, zero, suc, ◌*◌, ◌^◌, ◌≤◌, ◌≡◌, refl, ◌≢◌, Bool, true, false, Option, some, none, List, [], ◌∷◌,
  ◌++◌, arith, inl, inr, Option-cases, if◌then◌else◌, eqb_ℤ,
}
use Prim.Native.Nat.{min}
use native.Mathlib.Nat.{pow-suc}
use mes_cpp.Iot.Modbus.{Client, ok_code, disconnect, read_holding_registers}
use mes_cpp.Iot.Poller.{SensorConfig, ReadFrame, Doubles, split_values}

-- running_ and paused_, with what `pause` and `resume` do to them.
pub record Flags : Type 0 where
  pub running : Bool
  pub paused : Bool

unfoldable pub pause : Flags → Flags
pause f = record f { paused = true }

unfoldable pub resume : Flags → Flags
resume f = record f { paused = false }

unfoldable pub max_backoff_sec : ℕ
max_backoff_sec = 30

-- What the loop keeps from round to round.
pub record Poll : Type 0 where
  pub client : Client
  pub backoff_sec : ℕ

-- `backoffSec = std::min(backoffSec * 2, kMaxReconnectBackoffSec)`
unfoldable pub next_backoff : ℕ → ℕ
unfolding max_backoff_sec
next_backoff b = min (b * 2) max_backoff_sec

-- What the world does in a round: whether `connect` succeeds, with the chunks that the new
-- connection will deliver, and whether each `send` takes the whole request.
pub record Round : Type 0 where
  pub connects : Option (List (List ℕ))
  pub sends : Bool

-- How a round ends: the wait in milliseconds, and whether the connection had failed.
pub data Ended : Type 0 where
  slept_paused connect_failed read_failed polled : Ended

module _ (d : Doubles) (scale : SensorConfig → Doubles.Double d) where
  open d use {Double}

  abbrev pub Messages : Type 0
  Messages = List (ℕ × Double)

  -- The loop over the frames: `none` for a read beyond the registers, else whether all were read,
  -- with what was published so far.
  unfoldable pub read_frames :
      List SensorConfig
      → Bool
      → List ReadFrame
      → Client
      → Messages
      → Option (Bool × Client × Messages)
  read_frames sensors sends [] c out = some (true, c, out)
  read_frames sensors sends (f ∷ fs) c out =
      let (c', r) = read_holding_registers c sends f.start_addr f.quantity in
      let failed : Option (Bool × Client × Messages) = some (false, c', out) in
      let go : Option (Bool × Client × Messages) =
        elim (split_values d scale sensors r.registers f.sensor_indices 0) [
          | none ↦ none
          | some ms ↦ read_frames sensors sends fs c' (out ++ ms)
        ] in
      elim (eqb_ℤ r.error ok_code) [ false ↦ failed | true ↦ go ]

  -- The rest of a round, once there is a connection.
  unfoldable pub read_round :
      ℕ → List SensorConfig → List ReadFrame → Bool → Poll → Option (Poll × Ended × ℕ × Messages)
  read_round interval_ms sensors frames sends p =
      elim (read_frames sensors sends frames p.client []) [
        | none ↦ none
        | some (all_ok, c, out) ↦
            if all_ok
            then some (record p { client = c }, polled, interval_ms, out)
            else some (
              record { client = disconnect c; backoff_sec = next_backoff p.backoff_sec },
              read_failed,
              p.backoff_sec * 1000,
              out,
            )
      ]

  -- A client that has connected again.
  abbrev pub reconnected : Client → List (List ℕ) → Client
  reconnected c chunks = record c { connected = true; incoming = chunks }

  -- One round of `pollLoop`: the new state, how it ended, the wait in milliseconds and what was
  -- published; `none` for a read beyond the registers.
  unfoldable pub poll_round :
      ℕ
      → List SensorConfig
      → List ReadFrame
      → Flags
      → Round
      → Poll
      → Option (Poll × Ended × ℕ × Messages)
  poll_round interval_ms sensors frames flags world p =
      if flags.paused
      then some (p, slept_paused, 500, [])
      else if p.client.connected
      then read_round interval_ms sensors frames world.sends p
      else elim world.connects [
        | none ↦ some (
          record p { backoff_sec = next_backoff p.backoff_sec },
          connect_failed,
          p.backoff_sec * 1000,
          [],
        )
        | some chunks ↦
            read_round interval_ms sensors frames world.sends
              (record { client = reconnected p.client chunks; backoff_sec = 1 })
      ]

  abbrev pub IsPatient : Poll → Type 0
  IsPatient p = (1 ≤ p.backoff_sec) × (p.backoff_sec ≤ 30)

  read_round-IsPatient :
      (interval_ms : ℕ) (sensors : List SensorConfig) (frames : List ReadFrame) (sends : Bool)
      (p p' : Poll) (e : Ended) (wait : ℕ) (out : Messages)
      → IsPatient p
      → read_round interval_ms sensors frames sends p ≡ some (p', e, wait, out)
      → IsPatient p' × (e ≢ polled → wait ≤ 30000)
  unfolding read_round next_backoff
  read_round-IsPatient interval_ms sensors frames sends p p' e wait out v h = ground arith

  -- In a round that ends without a read beyond the registers, a back-off between one second and thirty
  -- stays so, and the wait is at most thirty seconds but after a good poll.
  pub poll_round-IsPatient :
      (interval_ms : ℕ) (sensors : List SensorConfig) (frames : List ReadFrame) (flags : Flags)
      (world : Round) (p p' : Poll) (e : Ended) (wait : ℕ) (out : Messages)
      → IsPatient p
      → poll_round interval_ms sensors frames flags world p ≡ some (p', e, wait, out)
      → IsPatient p' × (e ≢ polled → wait ≤ 30000)
  unfolding poll_round next_backoff
  poll_round-IsPatient interval_ms sensors frames flags world p p' e wait out v h =
      let read = λ (q : Poll). λ (w : IsPatient q).
        read_round-IsPatient interval_ms sensors frames world.sends q p' e wait out w in
      elim (Option-cases world.connects) [
        | inl none_ ↦ ground (arith, read p v)
        | inr (chunks, some_) ↦ ground (
          arith,
          read p v,
          read (record { client = reconnected p.client chunks; backoff_sec = 1 })
              (omega arith, omega arith),
        )
      ]

-- The back-off after some failed attempts.
pub backoff_after : ℕ → ℕ
backoff_after zero = 1
backoff_after (suc n) = next_backoff (backoff_after n)

doubled : (n : ℕ) → min (min (2 ^ n) 30 * 2) 30 ≡ min (2 ^ suc n) 30
doubled n = rw pow-suc (omega arith)

-- The back-off after `n` failed attempts is the smaller of `2 ^ n` and 30 seconds.
pub backoff_after_lem : (n : ℕ) → backoff_after n ≡ min (2 ^ n) 30
unfolding backoff_after next_backoff
backoff_after_lem zero = refl
backoff_after_lem (suc n) = rw (backoff_after_lem n) (doubled n)
