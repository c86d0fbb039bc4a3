-- ===== src/Service.antt =====
-- packages/service/service-runtime/src: health, probe routes, the tick loop and graceful shutdown.
-- A clock reading is a count of milliseconds.
pub mod Health
pub mod Probe
pub mod TickLoop
pub mod Shutdown
