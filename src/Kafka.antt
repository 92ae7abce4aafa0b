-- ===== src/Kafka.antt =====
-- Publishing to Kafka (src/kafka/).
pub mod Topics
pub mod Grouping
pub mod Producer
pub mod Startup
