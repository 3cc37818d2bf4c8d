-- ===== src/Iot/Commands.antt =====
-- The consumer of commands (mes-iot/src/cmd/CmdConsumer.cc), as long as the channel lives. What the
-- JSON library makes of a body is a parameter: `decode_command` says what is asked of the library, and
-- the loop is stated for any `decode`, which gives `none` for an exception.
pub mod LastWord
mod Tests
use package.text.Mathlib.Text.{◌==◌ as str_eq}
use mes_cpp.Base.{
  ℕ, Bool, true, false, Option, none, some, List, [], ◌∷◌, ◌++◌, String, if◌then◌else◌, ℤ, pos,
  eqb_ℤ,
}
use mes_cpp.Json.{JsonLibrary}
use mes_cpp.Iot.Poller.Loop.{Flags, pause, resume}

-- pollers_, with the flags of each poller
abbrev pub Pollers : Type 0
Pollers = List (ℤ × Flags)

-- `pollers_[id] = poller`
unfoldable pub register_poller : ℤ → Flags → Pollers → Pollers
register_poller id f [] = (id, f) ∷ []
register_poller id f ((k, g) ∷ ps) =
    let rest = register_poller id f ps in if eqb_ℤ k id then (k, f) ∷ ps else (k, g) ∷ rest

unfoldable pub find_poller : ℤ → Pollers → Option Flags
find_poller id [] = none
find_poller id ((k, f) ∷ ps) = let rest = find_poller id ps in if eqb_ℤ k id then some f else rest

-- `pause`, `resume`, or a message on the error output
abbrev pub act : String → Flags → Flags
act action f =
    if str_eq action "stop" then pause f else if str_eq action "resume" then resume f else f

unfoldable pub command : ℤ → String → Pollers → Pollers
command id action [] = []
command id action ((k, f) ∷ ps) =
    let rest = command id action ps in if eqb_ℤ k id then (k, act action f) ∷ ps else (k, f) ∷ rest

-- A delivery: its tag and its body.
pub record Delivery (Body : Type 0) : Type 0 where
  pub tag : ℕ
  pub body : Body

-- `value("device_id", 0)` and `value("action", "")` of a body.
unfoldable pub decode_command : (lib : JsonLibrary) → lib.Text → Option (ℤ × String)
decode_command lib body = elim (lib.parse body) [
  | none ↦ none
  | some j ↦ elim (lib.value_whole j "device_id" (pos 0)) [
    | none ↦ none
    | some id ↦ elim (lib.value_words j "action" "") [
      | none ↦ none
      | some action ↦ some (id, action)
    ]
  ]
]

module _ {Body : Type 0} (decode : Body → Option (ℤ × String)) where
  abbrev pub handle_command : Delivery Body → Pollers → Pollers
  handle_command m ps = elim (decode m.body) [
    | none ↦ ps
    | some (id, action) ↦ command id action ps
  ]

  -- The loop over the messages: the pollers, and the tags that were acknowledged.
  unfoldable pub consume_loop : List (Delivery Body) → Pollers → List ℕ → Pollers × List ℕ
  consume_loop [] ps acks = (ps, acks)
  consume_loop (m ∷ ms) ps acks = consume_loop ms (handle_command m ps) (acks ++ m.tag ∷ [])
