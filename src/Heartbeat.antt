-- ===== src/Heartbeat.antt =====
-- heartbeat: the health of the system, the alerts about it and the recovery from failures.
pub mod Monitor
pub mod Alerts
pub mod Recovery
pub mod Service
pub mod Spacing
pub mod Limits
mod Tests
