-- ===== src/Outbox.antt =====
-- The transactional outbox (src/outbox).
pub mod Enqueue
pub mod Store
pub mod Relay
pub mod Ids
pub mod Rows
pub mod Drain
pub mod Stats
pub mod Queue
pub mod Backlog
pub mod Delivery
