-- ===== src/Quality/Defects.antt =====
-- What a defect keeps through its life (mes-backend/src/services/QcService.cc).
use mes_cpp.Base.{
  ℕ, ◌≡◌, refl, ◌∙◌, inl, inr, true, none, some, List, [], ◌∷◌, arith, ℤ, pos, ◌≤ℤ◌, eq_of_parts,
  Bool-cases, All, Rows, Rows-refl, Rows-trans, Rows-All, update-Rows, ◌≢◌,
}
use mes_cpp.Quality.{
  Defect, Handling, valid_disposition, can_handle, handled, handle_defect, Call, run,
}

-- Its disposition is one of the five, and it has a user and a time exactly when it is handled.
pub record WellFormed (d : Defect) : Type 0 where
  pub low : pos 0 ≤ℤ d.disposition
  pub high : d.disposition ≤ℤ pos 4
  pub waits : d.disposition ≡ pos 0 → (d.disposition_by ≡ none) × (d.disposition_at ≡ none)
  pub signed :
      d.disposition ≢ pos 0
      → ((u : ℤ) × (d.disposition_by ≡ some u)) × ((t : ℕ) × (d.disposition_at ≡ some t))

-- The same defect later: once handled it does not change, and where it belongs never does.
pub record Later (a b : Defect) : Type 0 where
  pub same_id : b.id ≡ a.id
  pub same_inspection : b.inspection_id ≡ a.inspection_id
  pub final : a.disposition ≢ pos 0 → b ≡ a

-- The defects after, row for row.
abbrev pub History : List Defect → List Defect → Type 0
History = Rows WellFormed Later

Later-refl : (a : Defect) → Later a a
Later-refl a = record { same_id = refl; same_inspection = refl; final = λ h. refl }

not_zero-kept : (a b : Defect) → b ≡ a → a.disposition ≢ pos 0 → b.disposition ≢ pos 0
not_zero-kept a b e h k = h (cc (e, k))

Later-trans : (a b c : Defect) → Later a b → Later b c → Later a c
Later-trans a b c h k = record {
  same_id = k.same_id ∙ h.same_id;
  same_inspection = k.same_inspection ∙ h.same_inspection;
  final = λ n. k.final (not_zero-kept a b (h.final n) n) ∙ h.final n;
}

handled-Later :
    (now : ℕ) (id user : ℤ) (h : Handling) (d : Defect)
    → valid_disposition h.disposition ≡ true
    → can_handle id d ≡ true
    → WellFormed (handled now user h d) × Later d (handled now user h d)
handled-Later now id user h d v c =
    let zero : d.disposition ≡ pos 0 = ground (arith, eq_of_parts d.disposition (pos 0)) in
    (
      record {
        low = ground arith;
        high = ground arith;
        waits = λ e. absurd (ground (arith, e));
        signed = λ n. ((user, refl), (now, refl));
      },
      record { same_id = refl; same_inspection = refl; final = λ n. absurd (n zero) },
    )

handle_defect-History :
    (c : Call) (ds : List Defect)
    → All WellFormed ds
    → History ds (handle_defect c.now c.id c.handling c.user ds).0
unfolding handle_defect
handle_defect-History c ds h = elim (Bool-cases (valid_disposition c.handling.disposition)) [
  | inl v ↦ rw v (
      update-Rows WellFormed Later Later-refl (can_handle c.id) (handled c.now c.user c.handling)
        (λ d p _. handled-Later c.now c.id c.user c.handling d v p) ds h)
  | inr v ↦ rw v (Rows-refl WellFormed Later Later-refl ds h)
]

-- Through any calls of any users on well-formed defects, each stays well formed (its disposition is one of 0
-- to 4, and it has a user and a time exactly while it is not 0), keeps its number and its inspection, and
-- does not change any more once it is handled.
pub run-Disposed : (ds : List Defect) (cs : List Call) → All WellFormed ds → History ds (run ds cs)
unfolding run
run-Disposed ds [] h = Rows-refl WellFormed Later Later-refl ds h
run-Disposed ds (c ∷ cs) h =
    let next = (handle_defect c.now c.id c.handling c.user ds).0 in
    let first = handle_defect-History c ds h in
    Rows-trans WellFormed Later Later-trans ds next (run next cs) first
      (run-Disposed next cs (Rows-All WellFormed Later ds next first))
