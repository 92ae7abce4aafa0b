-- ===== src/Health.antt =====
-- Shutdown and health checks (src/common/shutdown/, src/health/).
pub mod Service
pub mod Readiness
pub mod Shutdown
