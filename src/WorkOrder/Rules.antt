-- ===== src/WorkOrder/Rules.antt =====
-- The rules on reported quantities (mes-backend/src/utils/ReportRules.hh).
use mes_cpp.Base.{
  ◌+◌, ◌<◌, ◌≡◌, Bool, ◌&&◌, ℕ, arith, ℤ, pos, ltb_ℤ, leb_ℤ, add_int, int_half, add_int-pos,
}

unfoldable pub valid_step : ℤ → Bool
valid_step step_seq = ltb_ℤ (pos 0) step_seq

unfoldable pub valid_qty : ℤ → ℤ → ℤ → Bool
valid_qty good defect scrap = leb_ℤ (pos 0) good && leb_ℤ (pos 0) defect && leb_ℤ (pos 0) scrap

-- The sum of three `int`s, with their wrap-around.
unfoldable pub total_delta : ℤ → ℤ → ℤ → ℤ
total_delta good defect scrap = add_int (add_int good defect) scrap

unfoldable pub over_report : ℤ → ℤ → ℤ → Bool
over_report completed_qty plan_qty delta = ltb_ℤ plan_qty (add_int completed_qty delta)

unfoldable pub reaches_plan : ℤ → ℤ → ℤ → Bool
reaches_plan completed_qty plan_qty delta = leb_ℤ plan_qty (add_int completed_qty delta)

pub total_delta-pos :
    (g d s : ℕ) → g + d + s < int_half → total_delta (pos g) (pos d) (pos s) ≡ pos (g + d + s)
unfolding total_delta
total_delta-pos g d s h = rw (add_int-pos g d (omega arith)) (add_int-pos (g + d) s h)
