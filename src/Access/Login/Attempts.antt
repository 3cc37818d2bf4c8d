-- ===== src/Access/Login/Attempts.antt =====
-- The attempts of a run and the rows that they find (mes-backend/src/services/AuthService.cc).
use text.Mathlib.Text.{◌==◌ as str_eq}
use mes_cpp.Base.{◌≢◌, ◌⊎◌, false, ◌≡◌, none, some, List, [], ◌∷◌, arith, find_row}
use mes_cpp.Access.Login.{
  CryptoLibrary, User, Server, Attempt, refusal, Event, logs_in, finishes, step,
}

-- The row that an attempt finds by its name, neither deleted nor disabled nor locked.
pub record Finds (s : Server) (a : Attempt) (u : User) : Type 0 where
  pub found : find_row (λ (x : User). str_eq x.username a.username) s.users ≡ some u
  pub present : u.deleted ≡ false
  pub enabled : u.status ≢ 0
  pub unlocked : u.status ≢ 2

-- An event in which an attempt finds a row.
abbrev pub BeginsAt : Server → Event → Attempt → User → Type 0
BeginsAt s (logs_in now b) a u = (b ≡ a) × Finds s a u
BeginsAt s (finishes now n) a u = ⊥

pub refusal-Finds :
    (s : Server) (a : Attempt) (u : User)
    → find_row (λ (x : User). str_eq x.username a.username) s.users ≡ some u
    → refusal u ≡ none
    → Finds s a u
unfolding refusal
refusal-Finds s a u f r = record {
  found = f;
  present = ground (arith, r);
  enabled = λ h. ground (arith, r, h);
  unlocked = λ h. ground (arith, r, h);
}

module _ (lib : CryptoLibrary) where
  -- The same among the events of a run, in the table that the event finds.
  abbrev pub Began : Server → List Event → Attempt → User → Type 0
  Began s [] a u = ⊥
  Began s (e ∷ es) a u = BeginsAt s e a u ⊎ Began (step lib s e) es a u
