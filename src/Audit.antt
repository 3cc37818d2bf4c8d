-- ===== src/Audit.antt =====
-- The audit log (mes-backend/src/middlewares/CrossCutting.cc). Texts are lists of bytes.
pub mod Mask
pub mod Module
pub mod Kept
mod Tests
use mes_cpp.Base.{
  ℕ, zero, suc, ◌+◌, ◌-◌, ◌/◌, Bool, true, false, Option, none, some, List, [], ◌∷◌, ◌++◌, String,
  ◌==◌, if◌then◌else◌, ◌&&◌, ◌||◌, not, ℤ, pos, take, drop, codes,
}
use mes_cpp.Audit.Mask.{JsonTrees, mask_sensitive_json}

-- `find('/', at)`, on what stands from `at` on
unfoldable pub find_slash : ℕ → List ℕ → Option ℕ
find_slash i [] = none
find_slash i (c ∷ cs) = let rest = find_slash (suc i) cs in if c == 47 then some i else rest

-- `p + 1`, where npos + 1 is 0
abbrev pub next : Option ℕ → ℕ
next none = 0
next (some p) = suc p

unfoldable pub find_next : Option ℕ → List ℕ → Option ℕ
find_next p path = find_slash (next p) (drop (next p) path)

-- `moduleOf`
unfoldable pub module_of : List ℕ → List ℕ
module_of path = elim (find_next (find_next (find_next (some 0) path) path) path) [
  | none ↦ codes "other"
  | some p3 ↦ elim (find_next (some p3) path) [
    | none ↦ drop (suc p3) path
    | some end ↦ take (end - p3 - 1) (drop (suc p3) path)
  ]
]

unfoldable pub bytes_eq : List ℕ → List ℕ → Bool
bytes_eq [] [] = true
bytes_eq [] (d ∷ ds) = false
bytes_eq (c ∷ cs) [] = false
bytes_eq (c ∷ cs) (d ∷ ds) = let rest = bytes_eq cs ds in if c == d then rest else false

-- `rfind(prefix, 0) == 0`
unfoldable pub has_prefix : List ℕ → List ℕ → Bool
has_prefix [] text = true
has_prefix (p ∷ ps) [] = false
has_prefix (p ∷ ps) (c ∷ cs) = let rest = has_prefix ps cs in if c == p then rest else false

unfoldable pub operation_of : List ℕ → List ℕ
operation_of method =
    if bytes_eq method (codes "GET")
    then codes "QUERY"
    else if bytes_eq method (codes "POST")
    then codes "CREATE"
    else if bytes_eq method (codes "PUT")
    then codes "UPDATE"
    else if bytes_eq method (codes "DELETE")
    then codes "DELETE"
    else method

unfoldable pub auditable : List ℕ → List ℕ → Bool
auditable path method =
    has_prefix (codes "/api/v1/") path
    && (not (bytes_eq method (codes "GET")) || has_prefix (codes "/api/v1/system/audit-logs") path)

-- What a request has when it is answered; `user` is its user's number and name, where it has one, and
-- `start` the time of its start in microseconds.
pub record Answered : Type 0 where
  pub path : List ℕ
  pub method : List ℕ
  pub query : List ℕ
  pub body : List ℕ
  pub ip : List ℕ
  pub user_agent : List ℕ
  pub user : Option (ℤ × List ℕ)
  pub start : Option ℕ
  pub status : Option ℕ

pub record AuditEntry : Type 0 where
  pub user_id : ℤ
  pub username : List ℕ
  pub section : List ℕ
  pub operation : List ℕ
  pub method : List ℕ
  pub url : List ℕ
  pub params : List ℕ
  pub response_code : ℕ
  pub ip : List ℕ
  pub user_agent : List ℕ
  pub duration_ms : ℕ

abbrev pub user_id_or : Option (ℤ × List ℕ) → ℤ
user_id_or none = pos 0
user_id_or (some (id, name)) = id

abbrev pub name_or : Option (ℤ × List ℕ) → List ℕ
name_or none = []
name_or (some (id, name)) = name

abbrev pub duration : ℕ → Option ℕ → ℕ
duration now none = 0
duration now (some start) = (now - start) / 1000

abbrev pub status_or : Option ℕ → ℕ
status_or none = 500
status_or (some code) = code

-- g_buffer, and the rows that were sent to the database
pub record AuditLog : Type 0 where
  pub buffer : List AuditEntry
  pub inserted : List AuditEntry

unfoldable pub enqueue : AuditEntry → AuditLog → AuditLog
enqueue e log = record log { buffer = log.buffer ++ e ∷ [] }

unfoldable pub flush : AuditLog → AuditLog
flush log = record log { buffer = []; inserted = log.inserted ++ log.buffer }

module _ (lib : JsonTrees) where
  -- The clock never runs back, so the duration is not below 0.
  unfoldable pub entry_of : ℕ → Answered → AuditEntry
  entry_of now r = record {
    user_id = user_id_or r.user;
    username = name_or r.user;
    section = module_of r.path;
    operation = operation_of r.method;
    method = r.method;
    url = take 512 r.path;
    params =
        if bytes_eq r.method (codes "GET")
        then take 2048 r.query
        else take 2048 (mask_sensitive_json lib r.body);
    response_code = status_or r.status;
    ip = r.ip;
    user_agent = take 512 r.user_agent;
    duration_ms = duration now r.start;
  }

  unfoldable pub record_audit : ℕ → Answered → AuditLog → AuditLog
  record_audit now r log = if auditable r.path r.method then enqueue (entry_of now r) log else log
