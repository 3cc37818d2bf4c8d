-- ===== src/Quality/Tests.antt =====
-- The theorems on inspections and defects at concrete rows.
use mes_cpp.Base.{◌≡◌, refl, ◌⊎◌, none, some, List, [], ◌∷◌, arith, ℤ, pos, negsuc, update_rows}
use mes_cpp.Quality.{
  Defect, Handling, Call, handle_defect, run, InspectionBody, Tables, create_inspection, result_of,
}
use mes_cpp.Quality.Defects.{WellFormed, History, run-Disposed}
use mes_cpp.Quality.Inspections.{Accepted, Rejected, create_inspection_lem}

abbrev defect : Defect
defect = record {
  id = pos 1;
  inspection_id = 1;
  work_order_id = none;
  defect_code = "D1";
  defect_name = "scratch";
  disposition = pos 0;
  disposition_by = none;
  disposition_at = none;
  root_cause = none;
  corrective_action = none;
}

defect-WellFormed : WellFormed defect
defect-WellFormed = record {
  low = omega arith;
  high = omega arith;
  waits = λ h. (refl, refl);
  signed = λ h. absurd (h refl);
}

abbrev handling : ℤ → Handling
handling d = record { disposition = d; root_cause = ""; corrective_action = "polish" }

abbrev calls : List Call
calls =
    record { now = 5; id = pos 1; handling = handling (pos 9); user = pos 7 }
    ∷ record { now = 6; id = pos 1; handling = handling (pos 2); user = pos 8 }
    ∷ record { now = 7; id = pos 1; handling = handling (pos 3); user = pos 9 }
    ∷ []

run-Disposed_example : History (defect ∷ []) (run (defect ∷ []) calls)
run-Disposed_example = run-Disposed (defect ∷ []) calls (defect-WellFormed, tt)

after_calls :
    run (defect ∷ []) calls
    ≡ record defect {
      disposition = pos 2;
      disposition_by = some (pos 8);
      disposition_at = some 6;
      corrective_action = some "polish";
    }
      ∷ []
unfolding run handle_defect update_rows
after_calls = refl

abbrev body : InspectionBody
body = record {
  inspection_type = pos 1;
  sample_qty = pos 10;
  pass_qty = pos 9;
  defect_qty = pos 1;
  result = negsuc 0;
  work_order_id = pos 3;
  defects = record { defect_code = "D1"; defect_name = "scratch"; root_cause = none } ∷ [];
}

abbrev tables : Tables
tables = record { inspections = []; defects = []; next_inspection = 1; next_defect = 1 }

create_inspection_lem_example :
    Accepted body tables (create_inspection body tables)
    ⊎ Rejected body tables (create_inspection body tables)
create_inspection_lem_example = create_inspection_lem body tables

found_result : result_of body ≡ pos 2
unfolding result_of
found_result = refl
