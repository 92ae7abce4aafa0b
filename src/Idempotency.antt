-- ===== src/Idempotency.antt =====
-- Idempotency keys (src/idempotency/).
pub mod Table
pub mod Interceptor
pub mod Requests
pub mod Invariant
pub mod Stages
pub mod Replay
pub mod Cleanup
pub mod Fingerprint
pub mod SameRequest
