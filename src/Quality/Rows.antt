-- ===== src/Quality/Rows.antt =====
-- The rows that a new inspection and its defects have, from the body (mes-backend/src/services/QcService.cc).
use text.Mathlib.Text.{◌==◌ as str_eq}
use text.Mathlib.TextEquality.{eq_iff}
use mes_cpp.Base.{
  ◌≢◌, ◌↔◌, All, eqb_ℤ, negsuc, ℕ, suc, ◌≡◌, refl, ◌⊎◌, inl, inr, false, Option, none, some, List,
  [], ◌∷◌, arith, ℤ, pos, ◌≤ℤ◌, ltb_ℤ, Bool-cases, any_row,
}
use mes_cpp.Quality.{
  Inspection, nullif_zero, Defect, DefectBody, InspectionBody, result_of, lacks_name, new_defect,
}

-- The defects of a body, from a number on.
unfoldable pub new_defects : ℕ → ℕ → ℤ → List DefectBody → List Defect
new_defects id inspection work_order [] = []
new_defects id inspection work_order (d ∷ ds) =
    new_defect id inspection work_order d ∷ new_defects (suc id) inspection work_order ds

-- The result of an inspection: the one given, or, where none is given, 2 with defects, 1 without defects in
-- a sample, and 0 without either.
pub data Result (b : InspectionBody) (r : ℤ) : Type 0 where
  given : b.result ≢ negsuc 0 → r ≡ b.result → Result b r
  with_defects : b.result ≡ negsuc 0 → pos 1 ≤ℤ b.defect_qty → r ≡ pos 2 → Result b r
  without_defects :
      b.result ≡ negsuc 0 → b.defect_qty ≤ℤ pos 0 → pos 1 ≤ℤ b.sample_qty → r ≡ pos 1 → Result b r
  without_sample :
      b.result ≡ negsuc 0 → b.defect_qty ≤ℤ pos 0 → b.sample_qty ≤ℤ pos 0 → r ≡ pos 0 → Result b r

pub result_of-Result : (b : InspectionBody) → Result b (result_of b)
unfolding result_of
result_of-Result b = elim (Bool-cases (eqb_ℤ b.result (negsuc 0))) [
  | inr e ↦ given (λ h. ground (arith, e, h)) (ground (arith, e))
  | inl e ↦ elim (Bool-cases (ltb_ℤ (pos 0) b.defect_qty)) [
    | inl d ↦ with_defects (ground (arith, e)) (ground (arith, d)) (ground (arith, e, d))
    | inr d ↦ elim (Bool-cases (ltb_ℤ (pos 0) b.sample_qty)) [
      | inl s ↦
          without_defects (ground (arith, e)) (ground (arith, d)) (ground (arith, s))
            (ground (arith, e, d, s))
      | inr s ↦
          without_sample (ground (arith, e)) (ground (arith, d)) (ground (arith, s))
            (ground (arith, e, d, s))
    ]
  ]
]

-- A link that is stored: 0 is stored as NULL.
abbrev pub Link : ℤ → Option ℤ → Type 0
Link z o = ((z ≡ pos 0) × (o ≡ none)) ⊎ ((z ≢ pos 0) × (o ≡ some z))

pub nullif_zero-Link : (z : ℤ) → Link z (nullif_zero z)
nullif_zero-Link z = elim (Bool-cases (eqb_ℤ z (pos 0))) [
  | inl e ↦ inl (ground (arith, e), rw e refl)
  | inr e ↦ inr ((λ h. ground (arith, e, h)), rw e refl)
]

-- The row of a new inspection.
pub record IsNew (b : InspectionBody) (id : ℕ) (i : Inspection) : Type 0 where
  pub key : i.id ≡ id
  pub order : Link b.work_order_id i.work_order_id
  pub kind : i.inspection_type ≡ b.inspection_type
  pub counts :
      (i.sample_qty ≡ b.sample_qty) × (i.pass_qty ≡ b.pass_qty) × (i.defect_qty ≡ b.defect_qty)
  pub result : Result b i.result

-- The row of a new defect: it is not handled yet.
pub record IsWaiting (b : InspectionBody) (inspection id : ℕ) (body : DefectBody) (d : Defect)
    : Type 0 where
  pub key : d.id ≡ pos id
  pub inspection_id : d.inspection_id ≡ inspection
  pub order : Link b.work_order_id d.work_order_id
  pub text :
      (d.defect_code ≡ body.defect_code)
      × (d.defect_name ≡ body.defect_name)
      × (d.root_cause ≡ body.root_cause)
  pub waits :
      (d.disposition ≡ pos 0)
      × (d.disposition_by ≡ none)
      × (d.disposition_at ≡ none)
      × (d.corrective_action ≡ none)

-- One row for each defect of the body, in their order, with keys from `id` on.
abbrev pub Waiting : InspectionBody → ℕ → ℕ → List DefectBody → List Defect → Type 0
Waiting b inspection id [] ds = ds ≡ []
Waiting b inspection id (x ∷ xs) [] = ⊥
Waiting b inspection id (x ∷ xs) (d ∷ ds) =
    IsWaiting b inspection id x d × Waiting b inspection (suc id) xs ds

pub new_defects-Waiting :
    (b : InspectionBody) (inspection id : ℕ) (xs : List DefectBody)
    → Waiting b inspection id xs (new_defects id inspection b.work_order_id xs)
unfolding new_defects
new_defects-Waiting b inspection id [] = refl
new_defects-Waiting b inspection id (x ∷ xs) = (
  record {
    key = refl;
    inspection_id = refl;
    order = nullif_zero-Link b.work_order_id;
    text = (refl, refl, refl);
    waits = (refl, refl, refl, refl);
  },
  new_defects-Waiting b inspection (suc id) xs,
)

pub named_iff :
    (ds : List DefectBody)
    → (any_row lacks_name ds ≡ false) ↔ All (λ d. (d.defect_code ≢ "") × (d.defect_name ≢ "")) ds
unfolding any_row
named_iff [] = (λ h. tt, λ h. refl)
named_iff (d ∷ ds) = elim (Bool-cases (str_eq d.defect_code "")) [
  | inl c ↦
      (λ h. absurd (ground (arith, c, h)), λ h. absurd (h.0.0 ((eq_iff d.defect_code "").0 c)))
  | inr c ↦ elim (Bool-cases (str_eq d.defect_name "")) [
    | inl n ↦
        (λ h. absurd (ground (arith, n, h)), λ h. absurd (h.0.1 ((eq_iff d.defect_name "").0 n)))
    | inr n ↦ (
      λ h. (
        (
          (λ e. ground (arith, c, (eq_iff d.defect_code "").1 e)),
          λ e. ground (arith, n, (eq_iff d.defect_name "").1 e),
        ),
        (named_iff ds).0 (ground (arith, c, n, h)),
      ),
      λ h. ground (arith, c, n, (named_iff ds).1 h.1),
    )
  ]
]

pub Result-unique : (b : InspectionBody) (r : ℤ) → Result b r → r ≡ result_of b
unfolding result_of
Result-unique b r (given n e) = ground (arith, n, e)
Result-unique b r (with_defects h d e) = ground (arith, h, d, e)
Result-unique b r (without_defects h d s e) = ground (arith, h, d, s, e)
Result-unique b r (without_sample h d s e) = ground (arith, h, d, s, e)
