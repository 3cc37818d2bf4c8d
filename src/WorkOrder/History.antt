-- ===== src/WorkOrder/History.antt =====
-- Any sequence of requests to mes-backend/src/services/WorkOrderService.cc.
pub mod Moves
pub mod NewSteps
pub mod Invariant
pub mod Runs
use mes_cpp.Base.{ℕ, List, [], ◌∷◌, String}
use mes_cpp.WorkOrder.Store.{Db, Env}
use mes_cpp.WorkOrder.Transit.{transit}
use mes_cpp.WorkOrder.Report.{ReportBody, report}
use mes_cpp.WorkOrder.Orders.{CreateBody, UpdateBody, create, update}

pub data Request : Type 0 where
  creates : CreateBody → Request
  updates : ℕ → UpdateBody → Request
  transits : ℕ → String → Request
  reports : ℕ → ReportBody → Request

-- The tables after one request.
unfoldable pub step : Db → Env × Request → Db
step db (env, creates body) = (create env body db).0
step db (env, updates id body) = (update env id body db).0
step db (env, transits id action) = (transit env id action db).0
step db (env, reports id body) = (report env id body db).0

unfoldable pub run : Db → List (Env × Request) → Db
run db [] = db
run db (r ∷ rs) = run (step db r) rs
