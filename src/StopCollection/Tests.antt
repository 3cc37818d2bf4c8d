-- ===== src/StopCollection/Tests.antt =====
-- The theorems on stop commands at a concrete relay and at a JSON library whose texts are its objects.
use mes_cpp.Base.{◌≡◌, refl, true, false, some, [], ◌∷◌, ◌++◌, pos}
use mes_cpp.Json.{Fields, field, whole_or, words_or, JsonLibrary, JsonLaws}
use mes_cpp.Iot.Commands.{Pollers, Delivery, decode_command, consume_loop}
use mes_cpp.StopCollection.{start_relay, run}
use mes_cpp.StopCollection.FanOut.{issue_all, answer_all, settlement, run-settlement}
use mes_cpp.StopCollection.NeverPauses.{stops, stop_fields, consume_loop-ignores}

abbrev library : JsonLibrary
library = record {
  Json = Fields;
  Text = Fields;
  object = λ fs. fs;
  dump = λ fs. fs;
  parse = some;
  value_whole = λ fs name d. whole_or d (field name fs);
  value_words = λ fs name d. words_or d (field name fs);
}

library_laws : JsonLaws library
library_laws = record {
  parse-dump = λ fs. refl;
  value_whole_lem = λ fs name d. refl;
  value_words_lem = λ fs name d. refl;
}

abbrev pollers : Pollers
pollers = (pos 4, record { running = true; paused = false }) ∷ []

abbrev message : Delivery Fields
message = record { tag = 1; body = stop_fields (pos 4) (pos 77) "2026-08-17T00:00:00Z" }

consume_loop-ignores_example :
    (consume_loop (decode_command library) (message ∷ []) pollers []).0 ≡ pollers
consume_loop-ignores_example =
    consume_loop-ignores library library_laws (message ∷ []) pollers []
      (stops (pos 4) (pos 77) "2026-08-17T00:00:00Z", tt)

-- The second of three inserts fails, and the last one succeeds.
run-settlement_example :
    (run
      (start_relay (some (pos 1 ∷ pos 2 ∷ pos 3 ∷ [])))
      (issue_all (pos 1 ∷ pos 2 ∷ pos 3 ∷ []) ++ answer_all (true ∷ false ∷ true ∷ []))).acks
    ≡ settlement false (true ∷ false ∷ true ∷ [])
run-settlement_example = run-settlement (pos 1) (pos 2 ∷ pos 3 ∷ []) (true ∷ false ∷ true ∷ []) refl

never_settled : settlement false (true ∷ false ∷ true ∷ []) ≡ []
unfolding settlement
never_settled = refl
