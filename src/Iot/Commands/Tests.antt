-- ===== src/Iot/Commands/Tests.antt =====
-- The theorem on commands at two pollers: a body is a device and the number of an action.
use mes_cpp.Base.{
  ℕ, ◌≡◌, refl, true, false, Option, none, some, List, [], ◌∷◌, ◌++◌, String, ℤ, pos, map,
  if◌then◌else◌, ◌==◌,
}
use mes_cpp.Iot.Poller.Loop.{Flags}
use mes_cpp.Iot.Commands.{Pollers, find_poller, register_poller, Delivery, consume_loop}
use mes_cpp.Iot.Commands.LastWord.{last_word, told, consume_loop-last_word}

abbrev decode : List ℕ → Option (ℤ × String)
decode [] = none
decode (d ∷ []) = none
decode (d ∷ a ∷ rest) =
    some (pos d, if a == 0 then "stop" else if a == 1 then "resume" else "reboot")

abbrev going : Flags
going = record { running = true; paused = false }

abbrev pollers : Pollers
pollers = (pos 4, going) ∷ (pos 5, going) ∷ []

abbrev deliveries : List (Delivery (List ℕ))
deliveries =
    record { tag = 1; body = 5 ∷ 0 ∷ [] }
    ∷ record { tag = 2; body = 4 ∷ 0 ∷ [] }
    ∷ record { tag = 3; body = [] }
    ∷ record { tag = 4; body = 4 ∷ 1 ∷ [] }
    ∷ record { tag = 5; body = 5 ∷ 2 ∷ [] }
    ∷ []

consume_loop-last_word_example :
    (find_poller (pos 5) (consume_loop decode deliveries pollers []).0
      ≡ some (told decode (pos 5) going (last_word decode (pos 5) deliveries false)))
    × ((consume_loop decode deliveries pollers []).1
        ≡ [] ++ map (λ (m : Delivery (List ℕ)). m.tag) deliveries)
unfolding find_poller
consume_loop-last_word_example =
    consume_loop-last_word decode (pos 5) deliveries pollers [] going refl

stopped : last_word decode (pos 5) deliveries false ≡ true
unfolding last_word
stopped = refl

registered : register_poller (pos 5) going (register_poller (pos 4) going []) ≡ pollers
unfolding register_poller
registered = refl
