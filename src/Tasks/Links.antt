-- ===== src/Tasks/Links.antt =====
-- When the creation of a task is answered (mes-backend/src/services/IotService.cc).
use mes_cpp.Base.{
  suc, ◌<◌, ◌≡◌, refl, ap, ◌∙◌, Bool, true, false, ◌&&◌, ◌||◌, List, [], ◌∷◌, ◌++◌, String,
  if◌then◌else◌, ℤ, length, arith,
}
use text.Mathlib.Text.{◌==◌ as str_eq}
use mes_cpp.Tasks.{task, created, Creation, create_task, link_answered, links_answered}

abbrev pub all_linked : List Bool → Bool
all_linked [] = true
all_linked (ok ∷ oks) = ok && all_linked oks

-- With more links awaited than answers come, nothing is answered.
links_short :
    (s : Creation) (oks : List Bool)
    → length oks < s.remaining
    → (links_answered s oks).replies ≡ s.replies
unfolding links_answered link_answered
links_short s [] h = refl
links_short s (false ∷ oks) h = links_short s oks (omega arith)
links_short s (true ∷ oks) h = links_short (link_answered s true) oks (omega arith) ∙ (ground arith)

not_last : (s : Creation) → 1 < s.remaining → (link_answered s true).replies ≡ s.replies
unfolding link_answered
not_last s h = ground arith

links_answered_lem :
    (s : Creation) (ok : Bool) (oks : List Bool)
    → suc (length oks) ≡ s.remaining
    → (links_answered s (ok ∷ oks)).replies
      ≡ (if all_linked (ok ∷ oks) then s.replies ++ created s.task_id ∷ [] else s.replies)
unfolding links_answered link_answered
links_answered_lem s false oks h = links_short s oks (omega arith)
links_answered_lem s true [] h = ground arith
links_answered_lem s true (ok ∷ oks) h =
    links_answered_lem (link_answered s true) ok oks (omega arith)
    ∙ ap (λ rs. if all_linked (ok ∷ oks) then rs ++ created s.task_id ∷ [] else rs)
        (not_last s (omega arith))

-- A request with a code, a name and a protocol whose task is created is answered with its number when
-- the last of its devices' links is answered, if all links succeed, at once if there are none; if a link
-- fails, it is never answered.
pub create_task_lem :
    (code name protocol : String) (devices : List ℤ) (id : ℤ) (oks : List Bool)
    → (str_eq code "" || str_eq name "" || str_eq protocol "") ≡ false
    → length oks ≡ length devices
    → (links_answered (create_task code name protocol devices (task id)) oks).replies
      ≡ (if all_linked oks then created id ∷ [] else [])
unfolding create_task links_answered
create_task_lem code name protocol [] id [] named e = rw named refl
create_task_lem code name protocol [] id (ok ∷ oks) named e = absurd (omega arith)
create_task_lem code name protocol (d ∷ ds) id [] named e = absurd (omega arith)
create_task_lem code name protocol (d ∷ ds) id (ok ∷ oks) named e = rw named (
    links_answered_lem (record { task_id = id; remaining = length (d ∷ ds); replies = [] }) ok oks
      e)
