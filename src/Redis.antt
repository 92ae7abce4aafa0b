-- ===== src/Redis.antt =====
-- What the API keeps in Redis (src/redis/): the token buckets and the locks.
pub mod Bucket
pub mod Limit
pub mod Lock
pub mod Cache
pub mod CacheServes
pub mod CacheSystem
pub mod Staleness
