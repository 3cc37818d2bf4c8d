-- ===== src/Iot/Commands/LastWord.antt =====
-- The last command to a device is the one that counts (mes-iot/src/cmd/CmdConsumer.cc).
use package.text.Mathlib.Text.{◌==◌ as str_eq}
use mathlib.Core.List.{append_assoc, append-nil}
use mes_cpp.Base.{
  ℕ, ◌≡◌, refl, ap, sym, ◌∙◌, inl, inr, Bool, true, false, Option, none, some, List, [], ◌∷◌, ◌++◌,
  String, if◌then◌else◌, ℤ, eqb_ℤ, map, Bool-cases, arith,
}
use mes_cpp.Iot.Poller.Loop.{Flags, pause, resume}
use mes_cpp.Iot.Commands.{
  Pollers, find_poller, act, command, Delivery, handle_command, consume_loop,
}

module _ {Body : Type 0} (decode : Body → Option (ℤ × String)) (id : ℤ) where
  -- What one message makes of the device's flag.
  abbrev pub said : Option (ℤ × String) → Bool → Bool
  said none paused = paused
  said (some (k, action)) paused =
      if eqb_ℤ k id
      then (if str_eq action "stop" then true else if str_eq action "resume" then false else paused)
      else paused

  -- What the messages make of it: the last `stop` or `resume` for the device decides.
  unfoldable pub last_word : List (Delivery Body) → Bool → Bool
  last_word [] paused = paused
  last_word (m ∷ ms) paused = last_word ms (said (decode m.body) paused)

  -- A poller that runs as before, paused as told.
  abbrev pub told : Flags → Bool → Flags
  told f paused = record f { paused = paused }

  find-command_other :
      (k : ℤ) (action : String) (ps : Pollers)
      → eqb_ℤ k id ≡ false
      → find_poller id (command k action ps) ≡ find_poller id ps
  unfolding find_poller command
  find-command_other k action [] h = refl
  find-command_other k action ((x, g) ∷ ps) h = ground (arith, find-command_other k action ps h)

  find-command_own :
      (k : ℤ) (action : String) (ps : Pollers) (f : Flags)
      → eqb_ℤ k id ≡ true
      → find_poller id ps ≡ some f
      → find_poller id (command k action ps) ≡ some (act action f)
  unfolding find_poller command
  find-command_own k action [] f h e = absurd (cc)
  find-command_own k action ((x, g) ∷ ps) f h e = elim (Bool-cases (eqb_ℤ x k)) [
    | inl hit ↦
        let own : eqb_ℤ x id ≡ true = ground arith in
        let same : g ≡ f = ground arith in rw (hit, own) (ap (λ y. some (act action y)) same)
    | inr miss ↦
        let other : eqb_ℤ x id ≡ false = ground arith in
        let rest : find_poller id ps ≡ some f = ground arith in
        rw (miss, other) (find-command_own k action ps f h rest)
  ]

  act-told :
      (action : String) (f : Flags)
      → act action f
        ≡ told f (
            if str_eq action "stop"
            then true
            else if str_eq action "resume"
            then false
            else f.paused)
  unfolding pause resume
  act-told action f = ground arith

  find-command :
      (o : Option (ℤ × String)) (m : Delivery Body) (ps : Pollers) (f : Flags)
      → decode m.body ≡ o
      → find_poller id ps ≡ some f
      → find_poller id (handle_command decode m ps) ≡ some (told f (said o f.paused))
  find-command none m ps f d e = rw (d, handle_command) e
  find-command (some (k, action)) m ps f d e = elim (Bool-cases (eqb_ℤ k id)) [
    | inl own ↦
        rw (d, handle_command)
          (rw own (find-command_own k action ps f own e ∙ ap some (act-told action f)))
    | inr other ↦ rw (d, handle_command) (rw other (find-command_other k action ps other ∙ e))
  ]

  -- After any messages a registered poller is paused as the last `stop` or `resume` for its device
  -- says, or as before where there is none; messages that do not parse, that have another action or
  -- that name another device change nothing; and every message is acknowledged once, in order.
  pub consume_loop-last_word :
      (ms : List (Delivery Body)) (ps : Pollers) (acks : List ℕ) (f : Flags)
      → find_poller id ps ≡ some f
      → (find_poller id (consume_loop decode ms ps acks).0 ≡ some (told f (last_word ms f.paused)))
        × ((consume_loop decode ms ps acks).1 ≡ acks ++ map (λ (m : Delivery Body). m.tag) ms)
  unfolding consume_loop last_word
  consume_loop-last_word [] ps acks f e = (e, sym (append-nil acks))
  consume_loop-last_word (m ∷ ms) ps acks f e =
      let (r, a) =
        consume_loop-last_word ms (handle_command decode m ps) (acks ++ m.tag ∷ [])
          (told f (said (decode m.body) f.paused)) (find-command (decode m.body) m ps f refl e) in
      (r, a ∙ append_assoc acks (m.tag ∷ []) (map (λ (m : Delivery Body). m.tag) ms))
