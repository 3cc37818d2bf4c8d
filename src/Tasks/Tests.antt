-- ===== src/Tasks/Tests.antt =====
-- The theorem on tasks at a task with two devices of which one is not linked.
use mes_cpp.Base.{◌≡◌, refl, true, false, [], ◌∷◌, if◌then◌else◌, pos}
use mes_cpp.Tasks.{task, created, create_task, links_answered}
use mes_cpp.Tasks.Links.{all_linked, create_task_lem}

create_task_lem_example :
    (links_answered
      (create_task "c" "n" "p" (pos 1 ∷ pos 2 ∷ []) (task (pos 5)))
      (true ∷ false ∷ [])).replies
    ≡ (if all_linked (true ∷ false ∷ []) then created (pos 5) ∷ [] else [])
create_task_lem_example =
    create_task_lem "c" "n" "p" (pos 1 ∷ pos 2 ∷ []) (pos 5) (true ∷ false ∷ []) refl refl
