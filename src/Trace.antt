-- ===== src/Trace.antt =====
-- The trace id of a request (src/common/trace/).
pub mod Resolve
pub mod Safe
