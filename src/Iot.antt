-- ===== src/Iot.antt =====
-- The collector of device data: mes-iot/src/modbus, mes-iot/src/collector and mes-iot/src/cmd.
pub mod Modbus
pub mod Poller
pub mod Commands
pub mod Config
mod Tests
