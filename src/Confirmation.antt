-- ===== src/Confirmation.antt =====
-- What a booking sets in motion, from its transaction to the email: the outbox (src/outbox/), Kafka
-- (src/kafka/) and the consumer (src/notifications/).
pub mod Wire
pub mod Stream
pub mod Told
pub mod Emailed
