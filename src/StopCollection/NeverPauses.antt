-- ===== src/StopCollection/NeverPauses.antt =====
-- What becomes of the backend's commands at the collector: the messages that
-- mes-backend/src/mq/StopCollectionHandler.cc and mes-backend/src/services/IotService.cc
-- (`sendCommand`) write, taken by mes-iot/src/cmd/CmdConsumer.cc.
use mes_cpp.Base.{
  ℕ, ◌≡◌, refl, ap, ◌∙◌, none, some, List, [], ◌∷◌, ◌++◌, String, ℤ, pos, inl, inr, Bool-cases,
  eqb_ℤ, All,
}
use mes_cpp.Json.{words, whole, nested, Fields, field, JsonLibrary, JsonLaws}
use mes_cpp.Iot.Commands.{Pollers, command, Delivery, decode_command, handle_command, consume_loop}

-- The message for a device of a finished work order.
abbrev pub stop_fields : ℤ → ℤ → String → Fields
stop_fields device_id work_order_id timestamp =
    ("version", words "1.0")
    ∷ ("type", words "stop_collection")
    ∷ ("device_id", whole device_id)
    ∷ ("work_order_id", whole work_order_id)
    ∷ ("timestamp", words timestamp)
    ∷ []

-- The message of `sendCommand`.
abbrev pub device_command_fields : ℤ → String → String → String → Fields
device_command_fields device_id device_code device_command timestamp =
    ("version", words "1.0")
    ∷ ("type", words "device_command")
    ∷ ("device_id", whole device_id)
    ∷ ("device_code", words device_code)
    ∷ ("command", words device_command)
    ∷ ("params", nested)
    ∷ ("timestamp", words timestamp)
    ∷ []

command_no_action : (id : ℤ) (ps : Pollers) → command id "" ps ≡ ps
unfolding command
command_no_action id [] = refl
command_no_action id ((k, f) ∷ ps) = elim (Bool-cases (eqb_ℤ k id)) [
  | inl e ↦ rw e refl
  | inr e ↦ rw e (ap (λ t. (k, f) ∷ t) (command_no_action id ps))
]

module _ (lib : JsonLibrary) (laws : JsonLaws lib) where
  -- The two kinds of messages that the backend sends to the collector.
  pub data FromBackend : lib.Text → Type 0 where
    stops :
        (device_id work_order_id : ℤ) (timestamp : String)
        → FromBackend (lib.dump (lib.object (stop_fields device_id work_order_id timestamp)))
    commands :
        (device_id : ℤ) (device_code device_command timestamp : String)
        → FromBackend (
            lib.dump
              (lib.object (device_command_fields device_id device_code device_command timestamp)))

  decoded :
      (fs : Fields) (id : ℤ)
      → field "device_id" fs ≡ some (whole id)
      → field "action" fs ≡ none
      → decode_command lib (lib.dump (lib.object fs)) ≡ some (id, "")
  unfolding decode_command
  decoded fs id d a =
      rw
        (
          laws.parse-dump fs,
          decode_command,
          laws.value_whole_lem fs "device_id" (pos 0),
          d,
          laws.value_words_lem fs "action" "",
          a,
        )
        refl

  FromBackend-ignored :
      (m : Delivery lib.Text) (ps : Pollers)
      → FromBackend m.body
      → handle_command (decode_command lib) m ps ≡ ps
  FromBackend-ignored m ps b = ignored m.body ps b
    where
      ignored :
          (body : lib.Text) (ps : Pollers)
          → FromBackend body
          → elim (decode_command lib body) as (λ o. Pollers) [
            | none ↦ ps
            | some (id, action) ↦ command id action ps
          ]
            ≡ ps
      ignored _ ps (stops d n t) =
          rw (decoded (stop_fields d n t) d (unfold field in refl) (unfold field in refl))
            (command_no_action d ps)
      ignored _ ps (commands d c k t) =
          rw
            (decoded (device_command_fields d c k t) d (unfold field in refl)
              (unfold field in refl))
            (command_no_action d ps)

  -- If the JSON library reads back what it wrote, and gives the default for a missing field, then the
  -- messages that the backend sends to the collector, to stop the collection or as a device's
  -- command, pause and resume no poller, whatever their devices: they have no field `action`.
  pub consume_loop-ignores :
      (ms : List (Delivery lib.Text)) (ps : Pollers) (acks : List ℕ)
      → All (λ m. FromBackend m.body) ms
      → (consume_loop (decode_command lib) ms ps acks).0 ≡ ps
  unfolding consume_loop
  consume_loop-ignores [] ps acks a = refl
  consume_loop-ignores (m ∷ ms) ps acks a =
      consume_loop-ignores ms (handle_command (decode_command lib) m ps) (acks ++ m.tag ∷ []) a.1
      ∙ FromBackend-ignored m ps a.0
