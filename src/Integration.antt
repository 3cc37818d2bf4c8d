-- ===== src/Integration.antt =====
-- The calls to the ERP and the WMS: mes-backend/src/services/IntegrationService.cc and
-- mes-backend/src/utils/IntegRules.hh.
pub mod Urls
pub mod Call
pub mod Logs
pub mod Saga
pub mod Wms
pub mod ErpOrders
mod Tests
