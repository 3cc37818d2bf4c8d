-- ===== src/WorkOrder.antt =====
-- Work orders: mes-backend/src/models/WorkOrderStateMachine.hh, utils/ReportRules.hh and
-- services/WorkOrderService.cc.
pub mod StateMachine
pub mod Rules
pub mod Store
pub mod Transit
pub mod Report
pub mod Orders
pub mod History
mod Tests
