-- ===== src/Broadcast/Leader.antt =====
-- The instance that pushes the production messages: `publishProductionRealtime` of
-- mes-backend/src/websocket/WsBroadcastManager.cc. An instance is a number, and times are in milliseconds.
use mathlib.Core.List.{append_assoc, append-nil}
use mes_cpp.Base.{
  ℕ, ◌+◌, ◌≤◌, ◌<◌, ◌≡◌, refl, ap, sym, subst, ◌∙◌, inl, inr, Bool, true, false, Option, none, some,
  List, [], ◌∷◌, ◌++◌, arith, ◌==◌, ltb, if◌then◌else◌, All, All-append, Bool-cases,
}

-- The key in Redis: who holds it, and when it expires.
pub record Key : Type 0 where
  pub holder : ℕ
  pub expires : ℕ

-- What queryAndPushRealtime was called for: the instance and the time.
pub record Push : Type 0 where
  pub instance_id : ℕ
  pub at : ℕ

pub record Election : Type 0 where
  pub key : Option Key
  pub pushes : List Push

-- The key as Redis has it at a time.
unfoldable pub live : ℕ → Option Key → Option Key
live now none = none
live now (some k) = if ltb now k.expires then some k else none

abbrev pub held_by : ℕ → Option Key → Bool
held_by i none = false
held_by i (some k) = k.holder == i

-- GET, and whether the answer is the instance's own.
unfoldable pub is_mine : ℕ → ℕ → Election → Bool
is_mine i now s = held_by i (live now s.key)

abbrev pub set_key : ℕ → ℕ → Election → Election
set_key i now s = record s { key = some (record { holder = i; expires = now + 3000 }) }

abbrev pub push : ℕ → ℕ → Election → Election
push i now s = record s { pushes = s.pushes ++ record { instance_id = i; at = now } ∷ [] }

-- SET with XX writes over a key that is there, whoever holds it; its answer is not looked at.
abbrev pub renew : ℕ → ℕ → Election → Option Key → Election
renew i now s none = push i now s
renew i now s (some k) = push i now (set_key i now s)

-- SET with NX writes a key that is not there, and only then the instance pushes.
abbrev pub acquire : ℕ → ℕ → Election → Option Key → Election
acquire i now s none = push i now (set_key i now s)
acquire i now s (some k) = s

-- The SET of an instance, by what its GET said.
unfoldable pub set_leader : ℕ → Bool → ℕ → Election → Election
set_leader i true now s = renew i now s (live now s.key)
set_leader i false now s = acquire i now s (live now s.key)

-- A tick of an instance's timer with nothing between its GET and its SET.
pub record Tick : Type 0 where
  pub instance_id : ℕ
  pub at : ℕ

unfoldable pub tick : Election → Tick → Election
tick s t = set_leader t.instance_id (is_mine t.instance_id t.at s) t.at s

unfoldable pub run : Election → List Tick → Election
run s [] = s
run s (t ∷ ts) = run (tick s t) ts

-- The instance holds the key until a time.
pub record Leads (i until : ℕ) (s : Election) : Type 0 where
  pub key : Key
  pub there : s.key ≡ some key
  pub holds : key.holder ≡ i
  pub lasts : until ≤ key.expires

-- What was pushed before, and then only pushes of the instance.
pub record OnlyPushes (i : ℕ) (s s' : Election) : Type 0 where
  pub added : List Push
  pub all : s'.pushes ≡ s.pushes ++ added
  pub own : All (λ p. p.instance_id ≡ i) added

abbrev pub Within : ℕ → ℕ → Tick → Type 0
Within from until t = (from ≤ t.at) × (t.at < until)

live_lem : (now : ℕ) (k : Key) (o : Option Key) → o ≡ some k → now < k.expires → live now o ≡ some k
unfolding live
live_lem now k o e h = ap (live now) e ∙ ground (arith, h)

OnlyPushes-trans :
    (i : ℕ) (a b c : Election) → OnlyPushes i a b → OnlyPushes i b c → OnlyPushes i a c
OnlyPushes-trans i a b c h k = record {
  added = h.added ++ k.added;
  all = k.all ∙ ap (λ ps. ps ++ k.added) h.all ∙ append_assoc a.pushes h.added k.added;
  own = All-append (λ p. p.instance_id ≡ i) h.added k.added h.own k.own;
}

module _ (i from until : ℕ) (short : until ≤ from + 3000) where
  -- A SET of an instance that finds the key of the leader.
  set_leader-Leads :
      (s : Election) (t : Tick) (k : Key)
      → Within from until t
      → Leads i until s
      → k.holder ≡ i
      → live t.at s.key ≡ some k
      → let s' = set_leader t.instance_id (held_by t.instance_id (some k)) t.at s in
        Leads i until s' × OnlyPushes i s s'
  unfolding set_leader
  set_leader-Leads s t k w h e l = elim (Bool-cases (k.holder == t.instance_id)) [
    | inl own ↦
        rw (own, l)
          (
            record {
              key = record { holder = t.instance_id; expires = t.at + 3000 };
              there = refl;
              holds = ground (arith, own, e);
              lasts = omega (arith, short, w.0);
            },
            record {
              added = record { instance_id = t.instance_id; at = t.at } ∷ [];
              all = refl;
              own = (ground (arith, own, e), tt);
            },
          )
    | inr other ↦
        rw (other, l) (h, record { added = []; all = sym (append-nil s.pushes); own = tt })
  ]

  tick-Leads :
      (s : Election) (t : Tick)
      → Within from until t
      → Leads i until s
      → Leads i until (tick s t) × OnlyPushes i s (tick s t)
  unfolding tick is_mine
  tick-Leads s t w h =
      let l = live_lem t.at h.key s.key h.there (omega (arith, w.1, h.lasts)) in
      subst
        (λ o.
          let s' = set_leader t.instance_id (held_by t.instance_id o) t.at s in
          Leads i until s' × OnlyPushes i s s')
        (sym l) (set_leader-Leads s t h.key w h h.holds l)

  -- Within three seconds of a time, while no instance's GET and SET have another's between them: where an
  -- instance holds the key to the end of that span, it still does so after the ticks of any instances in
  -- the span, and whatever is pushed in it is pushed by that instance.
  pub run-OnlyPushes :
      (s : Election) (ts : List Tick)
      → All (Within from until) ts
      → Leads i until s
      → Leads i until (run s ts) × OnlyPushes i s (run s ts)
  unfolding run
  run-OnlyPushes s [] w h = (h, record { added = []; all = sym (append-nil s.pushes); own = tt })
  run-OnlyPushes s (t ∷ ts) w h =
      let first = tick-Leads s t w.0 h in
      let rest = run-OnlyPushes (tick s t) ts w.1 first.0 in
      (rest.0, OnlyPushes-trans i s (tick s t) (run (tick s t) ts) first.1 rest.1)
