-- ===== src/Broadcast/Tests.antt =====
-- The theorems on messages to the browsers at concrete events.
use mes_cpp.Base.{◌≡◌, refl, none, some, List, [], ◌∷◌, arith}
use mes_cpp.Broadcast.{
  Server, subscribes, leaves, message, standard, other, Event, run, find_pending,
}
use mes_cpp.Broadcast.Leader as Leader
use mes_cpp.Broadcast.Leader.{
  Election, Tick, Leads, OnlyPushes, set_leader, is_mine, live, run-OnlyPushes,
}
use mes_cpp.Broadcast.Limits.{AllOrderly, run-AllOrderly}
use mes_cpp.Broadcast.Latest.{newest, run-newest}

abbrev idle : Server
idle = record { subs = λ c. []; pending = []; batch = []; sent = [] }

idle-AllOrderly : AllOrderly idle
idle-AllOrderly c = record { apart = tt; bounded = omega arith }

abbrev busy : List Event
busy =
    subscribes "alert" 1
    ∷ subscribes "alert" 2
    ∷ subscribes "alert" 1
    ∷ message "alert" (standard "first")
    ∷ message "alert" (other "second")
    ∷ leaves 2
    ∷ []

run-AllOrderly_example : AllOrderly (run idle busy)
run-AllOrderly_example = run-AllOrderly idle busy idle-AllOrderly

run-newest_example :
    find_pending "alert" (run idle busy).pending ≡ newest "alert" (find_pending "alert" []) busy
run-newest_example = run-newest "alert" idle busy

abbrev waiting : Server
waiting = record idle { subs = λ c. 1 ∷ 2 ∷ []; pending = ("alert", "second") ∷ [] }

newest_of_busy : newest "alert" none busy ≡ some "second"
unfolding newest
newest_of_busy = refl

-- The first instance leads until 5000.
abbrev led : Election
led = record { key = some (record { holder = 1; expires = 5000 }); pushes = [] }

abbrev ticks : List Tick
ticks =
    record { instance_id = 1; at = 1000 }
    ∷ record { instance_id = 2; at = 1500 }
    ∷ record { instance_id = 1; at = 2000 }
    ∷ []

run-OnlyPushes_example :
    Leads 1 4000 (Leader.run led ticks) × OnlyPushes 1 led (Leader.run led ticks)
run-OnlyPushes_example =
    run-OnlyPushes 1 1000 4000 (omega arith) led ticks
      ((omega arith, omega arith), ((omega arith, omega arith), ((omega arith, omega arith), tt)))
      (record {
        key = record { holder = 1; expires = 5000 };
        there = refl;
        holds = refl;
        lasts = omega arith;
      })

-- The first instance reads its key at 4999; the key expires, the second takes it, and the first writes over
-- it: both push.
two_leaders :
    let second = set_leader 2 (is_mine 2 5000 led) 5000 led in
    (set_leader 1 (is_mine 1 4999 led) 5001 second).pushes
    ≡ record { instance_id = 2; at = 5000 } ∷ record { instance_id = 1; at = 5001 } ∷ []
unfolding set_leader is_mine live
two_leaders = refl
