-- ===== src/Quality/Inspections.antt =====
-- What a new inspection leaves in the tables, and the bounds of a page
-- (mes-backend/src/services/QcService.cc).
use mathlib.Core.List.{append_assoc, append-nil}
use mes_cpp.Base.{
  ◌≢◌, All, ℕ, suc, ◌≡◌, refl, sym, ◌∙◌, ◌⊎◌, inl, inr, ◌||◌, Option, none, some, List, [], ◌∷◌,
  ◌++◌, arith, ℤ, pos, ◌≤ℤ◌, ltb_ℤ, Bool-cases, any_row,
}
use mes_cpp.Quality.{
  Inspection, Defect, DefectBody, InspectionBody, Tables, CreateError, type_required, negative_qty,
  bad_result, defect_name_required, CreateReply, created, refused, result_of, lacks_name,
  new_defect, insert_defects, insert_inspection, check_inspection, create_checked,
  create_inspection, clamp_page,
}
use mes_cpp.Quality.Rows.{
  new_defects, Result, result_of-Result, nullif_zero-Link, IsNew, Waiting, new_defects-Waiting,
  named_iff, Result-unique,
}

-- Whatever page is asked for, the page that is read is 1 or later and has from 1 to 200 rows.
pub clamp_page-Bounded :
    (page page_size : ℤ)
    → (pos 1 ≤ℤ (clamp_page page page_size).0)
      × (pos 1 ≤ℤ (clamp_page page page_size).1)
      × ((clamp_page page page_size).1 ≤ℤ pos 200)
unfolding clamp_page
clamp_page-Bounded page page_size = (ground arith, ground arith, ground arith)

insert_defects_lem :
    (inspection : ℕ) (work_order : ℤ) (ds : List DefectBody) (t : Tables)
    → ((insert_defects inspection work_order ds t).defects
        ≡ t.defects ++ new_defects t.next_defect inspection work_order ds)
      × ((insert_defects inspection work_order ds t).inspections ≡ t.inspections)
unfolding insert_defects new_defects
insert_defects_lem inspection work_order [] t = (sym (append-nil t.defects), refl)
insert_defects_lem inspection work_order (d ∷ ds) t =
    let after = record t {
      defects = t.defects ++ new_defect t.next_defect inspection work_order d ∷ [];
      next_defect = suc t.next_defect;
    } in
    let rest = insert_defects_lem inspection work_order ds after in
    (
      rest.0
          ∙ append_assoc t.defects (new_defect t.next_defect inspection work_order d ∷ [])
              (new_defects (suc t.next_defect) inspection work_order ds),
      rest.1,
    )

pub record BodyIsValid (b : InspectionBody) : Type 0 where
  pub kind : (pos 1 ≤ℤ b.inspection_type) × (b.inspection_type ≤ℤ pos 4)
  pub counts : (pos 0 ≤ℤ b.sample_qty) × (pos 0 ≤ℤ b.pass_qty) × (pos 0 ≤ℤ b.defect_qty)
  pub result : (r : ℤ) × Result b r × (pos 0 ≤ℤ r) × (r ≤ℤ pos 3)
  pub named : All (λ d. (d.defect_code ≢ "") × (d.defect_name ≢ "")) b.defects

-- What the checks say.
data Checked (b : InspectionBody) : Option CreateError → Type 0 where
  passes : BodyIsValid b → Checked b none
  stops : (e : CreateError) → ¬ BodyIsValid b → Checked b (some e)

check_inspection-Checked : (b : InspectionBody) → Checked b (check_inspection b)
unfolding check_inspection
check_inspection-Checked b =
    let kinds = ltb_ℤ b.inspection_type (pos 1) || ltb_ℤ (pos 4) b.inspection_type in
    let counts =
      ltb_ℤ b.sample_qty (pos 0) || (ltb_ℤ b.pass_qty (pos 0) || ltb_ℤ b.defect_qty (pos 0)) in
    let results = ltb_ℤ (result_of b) (pos 0) || ltb_ℤ (pos 3) (result_of b) in
    elim (Bool-cases kinds) [
      | inl k ↦ rw k (stops type_required (λ v. ground (arith, k, v.kind.0, v.kind.1)))
      | inr k ↦ elim (Bool-cases counts) [
        | inl c ↦
            rw (k, c)
              (stops negative_qty (λ v. ground (arith, c, v.counts.0, v.counts.1, v.counts.2)))
        | inr c ↦ elim (Bool-cases results) [
          | inl r ↦
              rw (k, c, r)
                (stops bad_result (λ v.
                  ground (arith, r, v.result.2, v.result.3, Result-unique b v.result.0 v.result.1)))
          | inr r ↦ elim (Bool-cases (any_row lacks_name b.defects)) [
            | inl n ↦
                rw (k, c, r, n)
                  (stops defect_name_required (λ v. cc (n, (named_iff b.defects).1 v.named)))
            | inr n ↦
                rw (k, c, r, n)
                  (passes (record {
                    kind = (ground (arith, k), ground (arith, k));
                    counts = (ground (arith, c), ground (arith, c), ground (arith, c));
                    result =
                        (result_of b, result_of-Result b, ground (arith, r), ground (arith, r));
                    named = (named_iff b.defects).0 n;
                  }))
          ]
        ]
      ]
    ]

-- The row of the inspection and those of all defects of the body are at the ends of the tables.
pub record Accepted (b : InspectionBody) (t : Tables) (r : Tables × CreateReply) : Type 0 where
  pub valid : BodyIsValid b
  pub number : r.1 ≡ created t.next_inspection
  pub row : Inspection
  pub is_new : IsNew b t.next_inspection row
  pub inspections : r.0.inspections ≡ t.inspections ++ row ∷ []
  pub rows : List Defect
  pub waiting : Waiting b t.next_inspection t.next_defect b.defects rows
  pub defects : r.0.defects ≡ t.defects ++ rows

-- Nothing has changed.
pub record Rejected (b : InspectionBody) (t : Tables) (r : Tables × CreateReply) : Type 0 where
  pub invalid : ¬ BodyIsValid b
  pub error : CreateError
  pub unchanged : r ≡ (t, refused error)

create_checked-cases :
    (b : InspectionBody) (t : Tables) (o : Option CreateError)
    → Checked b o
    → Accepted b t (create_checked b t o) ⊎ Rejected b t (create_checked b t o)
unfolding create_checked
create_checked-cases b t none (passes v) =
    let inserted =
      insert_defects_lem t.next_inspection b.work_order_id b.defects (insert_inspection b t) in
    inl (record {
      valid = v;
      number = refl;
      row = _;
      is_new = record {
        key = refl;
        order = nullif_zero-Link b.work_order_id;
        kind = refl;
        counts = (refl, refl, refl);
        result = result_of-Result b;
      };
      inspections = inserted.1;
      rows = new_defects t.next_defect t.next_inspection b.work_order_id b.defects;
      waiting = new_defects-Waiting b t.next_inspection t.next_defect b.defects;
      defects = inserted.0;
    })
create_checked-cases b t (some e) (stops e' n) =
    inr (record { invalid = n; error = e; unchanged = refl })

-- Where the statement itself succeeds: a body with a type from 1 to 4, no negative quantity, a result from 0
-- to 3, and a code and a name for each defect is accepted. The result is the one given, or where none is
-- given 2 with defects, 1 without defects in a sample, and 0 without either. A row with the body's type,
-- quantities and order and with that result is appended to the inspections under the number that is
-- answered, and one row for each defect of the body, in their order, to the defects, each of that
-- inspection and not handled yet. Any other body is refused, and nothing changes.
pub create_inspection_lem :
    (b : InspectionBody) (t : Tables)
    → Accepted b t (create_inspection b t) ⊎ Rejected b t (create_inspection b t)
unfolding create_inspection
create_inspection_lem b t =
    create_checked-cases b t (check_inspection b) (check_inspection-Checked b)
