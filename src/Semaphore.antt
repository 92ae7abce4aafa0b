-- ===== src/Semaphore.antt =====
-- The counting semaphore that bounds the work in flight (src/common/concurrency/semaphore.ts).
-- A promise that waits is named by its task.
pub mod Defs
pub mod Tasks
