-- ===== src/Tests.antt =====
-- Runs at concrete inputs, and the theorems applied to them.
mod SampleDatabase
mod SampleKeys
mod RouteTests
mod IdempotencyTests
mod RedisTests
mod CacheTests
mod StaleTests
mod EventsTests
mod KafkaTests
mod FingerprintTests
mod ConfigTests
mod HealthTests
mod TraceTests
mod NotificationsTests
mod StartupTests
mod BookingTests
mod ConfirmationTests
mod SampleRow
mod SeatsTests
mod SampleOutbox
mod OutboxTests
mod SemaphoreTests
mod PlayerTests
mod MetricsTests
mod ListingTests
