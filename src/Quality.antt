-- ===== src/Quality.antt =====
-- Inspections and their defects: mes-backend/src/utils/QcRules.hh and `clampPage`, `createInspection` and
-- `handleDefect` of mes-backend/src/services/QcService.cc.
pub mod Defects
pub mod Rows
pub mod Inspections
mod Tests
use text.Mathlib.Text.{◌==◌ as str_eq}
use mes_cpp.Base.{
  ℕ, suc, Bool, true, false, not, ◌&&◌, ◌||◌, Option, none, some, List, [], ◌∷◌, ◌++◌, String, ◌==◌,
  if◌then◌else◌, ℤ, pos, negsuc, leb_ℤ, ltb_ℤ, eqb_ℤ, any_row, update_rows, map,
}

-- 1 rework, 2 repair, 3 scrap, 4 concession
abbrev pub valid_disposition : ℤ → Bool
valid_disposition d = leb_ℤ (pos 1) d && leb_ℤ d (pos 4)

-- `clampPage`
unfoldable pub clamp_page : ℤ → ℤ → ℤ × ℤ
clamp_page page page_size = (
  if ltb_ℤ page (pos 1) then pos 1 else page,
  if ltb_ℤ page_size (pos 1) || ltb_ℤ (pos 200) page_size then pos 20 else page_size,
)

-- qc_defects; disposition 0 is not handled yet
pub record Defect : Type 0 where
  pub id : ℤ
  pub inspection_id : ℕ
  pub work_order_id : Option ℤ
  pub defect_code : String
  pub defect_name : String
  pub disposition : ℤ
  pub disposition_by : Option ℤ
  pub disposition_at : Option ℕ
  pub root_cause : Option String
  pub corrective_action : Option String

-- COALESCE(NULLIF($n, ''), column)
abbrev pub coalesce_text : String → Option String → Option String
coalesce_text text old = if str_eq text "" then old else some text

-- The body of `handleDefect`, with the defaults filled in.
pub record Handling : Type 0 where
  pub disposition : ℤ
  pub root_cause : String
  pub corrective_action : String

abbrev pub can_handle : ℤ → Defect → Bool
can_handle id d = eqb_ℤ d.id id && eqb_ℤ d.disposition (pos 0)

abbrev pub handled : ℕ → ℤ → Handling → Defect → Defect
handled now user h d = record d {
  disposition = h.disposition;
  disposition_by = some user;
  disposition_at = some now;
  root_cause = coalesce_text h.root_cause d.root_cause;
  corrective_action = coalesce_text h.corrective_action d.corrective_action;
}

-- The answers: 400, null for 404, or the disposition.
pub data HandleReply : Type 0 where
  bad_disposition not_waiting : HandleReply
  disposed : ℤ → HandleReply

unfoldable pub handle_defect : ℕ → ℤ → Handling → ℤ → List Defect → List Defect × HandleReply
handle_defect now id h user defects =
    if not (valid_disposition h.disposition) then (defects, bad_disposition) else (
      update_rows (can_handle id) (handled now user h) defects,
      if any_row (can_handle id) defects then disposed h.disposition else not_waiting,
    )

-- A call, with its time, the defect, the body and the user.
pub record Call : Type 0 where
  pub now : ℕ
  pub id : ℤ
  pub handling : Handling
  pub user : ℤ

unfoldable pub run : List Defect → List Call → List Defect
run defects [] = defects
run defects (c ∷ cs) = run (handle_defect c.now c.id c.handling c.user defects).0 cs

-- An element of `defects`, with the columns that are read again.
pub record DefectBody : Type 0 where
  pub defect_code : String
  pub defect_name : String
  pub root_cause : Option String

-- The body of `createInspection`, with the defaults filled in; `result` is -1 where it is not given.
pub record InspectionBody : Type 0 where
  pub inspection_type : ℤ
  pub sample_qty : ℤ
  pub pass_qty : ℤ
  pub defect_qty : ℤ
  pub result : ℤ
  pub work_order_id : ℤ
  pub defects : List DefectBody

-- qc_inspections
pub record Inspection : Type 0 where
  pub id : ℕ
  pub work_order_id : Option ℤ
  pub inspection_type : ℤ
  pub sample_qty : ℤ
  pub pass_qty : ℤ
  pub defect_qty : ℤ
  pub result : ℤ

-- The two tables with the sequences of their keys.
pub record Tables : Type 0 where
  pub inspections : List Inspection
  pub defects : List Defect
  pub next_inspection : ℕ
  pub next_defect : ℕ

pub data CreateError : Type 0 where
  type_required negative_qty bad_result defect_name_required : CreateError

pub data CreateReply : Type 0 where
  created : ℕ → CreateReply
  refused : CreateError → CreateReply

-- 0 to be inspected, 1 passed, 2 failed, 3 concession
unfoldable pub result_of : InspectionBody → ℤ
result_of b =
    if eqb_ℤ b.result (negsuc 0)
    then (if ltb_ℤ (pos 0) b.defect_qty
        then pos 2
        else (if ltb_ℤ (pos 0) b.sample_qty then pos 1 else pos 0))
    else b.result

abbrev pub lacks_name : DefectBody → Bool
lacks_name d = str_eq d.defect_code "" || str_eq d.defect_name ""

abbrev pub nullif_zero : ℤ → Option ℤ
nullif_zero z = if eqb_ℤ z (pos 0) then none else some z

abbrev pub new_defect : ℕ → ℕ → ℤ → DefectBody → Defect
new_defect id inspection work_order d = record {
  id = pos id;
  inspection_id = inspection;
  work_order_id = nullif_zero work_order;
  defect_code = d.defect_code;
  defect_name = d.defect_name;
  disposition = pos 0;
  disposition_by = none;
  disposition_at = none;
  root_cause = d.root_cause;
  corrective_action = none;
}

-- INSERT ... SELECT FROM jsonb_array_elements
unfoldable pub insert_defects : ℕ → ℤ → List DefectBody → Tables → Tables
insert_defects inspection work_order [] t = t
insert_defects inspection work_order (d ∷ ds) t =
    insert_defects inspection work_order ds (record t {
      defects = t.defects ++ new_defect t.next_defect inspection work_order d ∷ [];
      next_defect = suc t.next_defect;
    })

abbrev pub insert_inspection : InspectionBody → Tables → Tables
insert_inspection b t = record t {
  inspections =
      t.inspections
      ++ record {
        id = t.next_inspection;
        work_order_id = nullif_zero b.work_order_id;
        inspection_type = b.inspection_type;
        sample_qty = b.sample_qty;
        pass_qty = b.pass_qty;
        defect_qty = b.defect_qty;
        result = result_of b;
      }
        ∷ [];
  next_inspection = suc t.next_inspection;
}

-- The checks, in their order.
unfoldable pub check_inspection : InspectionBody → Option CreateError
check_inspection b =
    if ltb_ℤ b.inspection_type (pos 1) || ltb_ℤ (pos 4) b.inspection_type
    then some type_required
    else if ltb_ℤ b.sample_qty (pos 0) || (ltb_ℤ b.pass_qty (pos 0) || ltb_ℤ b.defect_qty (pos 0))
    then some negative_qty
    else if ltb_ℤ (result_of b) (pos 0) || ltb_ℤ (pos 3) (result_of b)
    then some bad_result
    else if any_row lacks_name b.defects
    then some defect_name_required
    else none

unfoldable pub create_checked : InspectionBody → Tables → Option CreateError → Tables × CreateReply
create_checked b t (some e) = (t, refused e)
create_checked b t none = (
  insert_defects t.next_inspection b.work_order_id b.defects (insert_inspection b t),
  created t.next_inspection,
)

-- The one statement with its three parts succeeds or fails as a whole; here it succeeds.
unfoldable pub create_inspection : InspectionBody → Tables → Tables × CreateReply
create_inspection b t = create_checked b t (check_inspection b)
