-- ===== src/Pcf.antt =====
-- lib/pcf-service-consumer: the client of the PCF's policy authorization service.
pub mod Merge
pub mod Events
pub mod Notifications
pub mod Context
pub mod Client
pub mod Server
mod Examples
