-- ===== src/Tasks.antt =====
-- The creation of a collection task, which links its devices one by one (`createTask` of
-- mes-backend/src/services/IotService.cc).
pub mod Links
mod Tests
use mes_cpp.Base.{
  ℕ, zero, suc, ◌-◌, Bool, true, false, ◌||◌, Option, none, some, List, [], ◌∷◌, ◌++◌, String, ◌==◌,
  if◌then◌else◌, ℤ, pos, length,
}
use text.Mathlib.Text.{◌==◌ as str_eq}

-- What the INSERT of the task gives: its number, or an error of the database.
pub data Inserted : Type 0 where
  task : ℤ → Inserted
  duplicate : Inserted
  database_error : String → Inserted

pub data Reply : Type 0 where
  created : ℤ → Reply
  refused : ℕ → String → Reply

-- A request that creates a task: the answers that it got, and the links that are awaited.
pub record Creation : Type 0 where
  pub task_id : ℤ
  pub remaining : ℕ
  pub replies : List Reply

-- `if (deviceIds.empty()) return onOk(...)`
abbrev pub if_empty : List ℤ → Reply → List Reply
if_empty [] r = r ∷ []
if_empty (d ∷ ds) r = []

-- `createTask` until the links' INSERT statements are sent.
unfoldable pub create_task : String → String → String → List ℤ → Inserted → Creation
create_task code name protocol devices answer =
    if str_eq code "" || str_eq name "" || str_eq protocol ""
    then (record {
      task_id = pos 0;
      remaining = 0;
      replies = refused 400 "task_code/task_name/protocol 必填" ∷ [];
    })
    else elim answer [
      | task id ↦ record {
        task_id = id;
        remaining = length devices;
        replies = if_empty devices (created id);
      }
      | duplicate ↦ record { task_id = pos 0; remaining = 0; replies = refused 409 "任务编码已存在" ∷ [] }
      | database_error what ↦ record {
        task_id = pos 0;
        remaining = 0;
        replies = refused 500 what ∷ [];
      }
    ]

-- One link's INSERT is answered: whether it succeeded.
unfoldable pub link_answered : Creation → Bool → Creation
link_answered s false = s
link_answered s true = record s {
  remaining = s.remaining - 1;
  replies = if s.remaining - 1 == 0 then s.replies ++ created s.task_id ∷ [] else s.replies;
}

unfoldable pub links_answered : Creation → List Bool → Creation
links_answered s [] = s
links_answered s (ok ∷ oks) = links_answered (link_answered s ok) oks
