-- ===== src/Lib.antt =====
-- Overbook sells seats for events over HTTP. A booking is one PostgreSQL transaction that takes seats
-- off the event, inserts the booking and inserts an outbox row; a relay publishes the outbox rows to
-- Kafka; a consumer sends a notification for each message. Around the booking stand an idempotency
-- interceptor and a rate limiter, which keep their state in PostgreSQL and in Redis.
--
-- Parts and files (paths from the root of the repository):
--
-- Base, Base/*: names of the library, Boolean tests, lists, numbers and texts.
-- Failure: exceptions as values; `Action S A` is a call that changes a state `S` and may throw.
-- Entities: the rows of src/events/entities, src/bookings/entities, src/outbox/entities.
-- Database: the statements that the services issue on PostgreSQL through TypeORM, as an interface with
--   their documented effect. Every statement may fail. A transaction commits all of its body or nothing.
-- Booking: src/bookings/bookings.service.ts. Booking/Decrement has decrementNaive, decrementPessimistic
--   and decrementOptimistic, Booking/Service has book, Booking/Integrity has integrity, Booking/Listing
--   findOne and listByEvent. Booking/Takes, Booking/Atomicity and Booking/Outcome are proofs.
-- Seats: the same decrements as statements of concurrent transactions on one event row, interleaved in
--   any order. Seats/Store is the row with its lock, Seats/System the step relation.
-- Outbox: src/outbox. Outbox/Enqueue has enqueue, Outbox/Relay has drainOnce, markFailed, schedule and
--   tick; Outbox/Store is the table, with FOR UPDATE SKIP LOCKED as its law of `claim`. Outbox/Stats
--   has stats (src/outbox/outbox.controller.ts), Outbox/Queue the abstract view of the table,
--   Outbox/Backlog the polls that follow at once; Outbox/Drain, Outbox/Delivery, Outbox/Ids
--   and Outbox/Rows are proofs.
-- Kafka: src/kafka. Kafka/Topics has publish and publishBatch; Kafka/Producer has ensureTopics,
--   onModuleInit, onApplicationShutdown and isConnected. The clients of kafkajs and the broker are
--   parameters. Kafka/Grouping and Kafka/Startup are proofs.
-- Events: src/events. Events/Service has create, findOne, findOneUncached and list; Events/Store is the
--   table. Events/Pages has a client that follows the cursor, Events/Reading the cached read.
-- Idempotency: src/idempotency. Idempotency/Interceptor has intercept, claim, complete and release,
--   Idempotency/Requests the concurrent requests with one key, Idempotency/Cleanup the cron job,
--   Idempotency/Fingerprint requestFingerprint and stableStringify.
-- Redis: src/redis/redis.service.ts. Redis/Bucket is the Lua script of the token bucket, Redis/Lock the
--   locks, Redis/Cache one call of getOrLoad (src/redis/cache.service.ts, src/redis/cache-ttl.ts) and
--   Redis/CacheSystem one entry that many callers load, write, delete and read; Redis/Limit,
--   Redis/CacheServes and Redis/Staleness are proofs.
-- RateLimit: src/ratelimit/rate-limit.guard.ts. RateLimit/Clients has the guard before many clients, each
--   with its bucket in Redis.
-- Notifications: src/notifications. Notifications/Service has handle, Notifications/Consumer has
--   onMessage with its retries and the DLQ, Notifications/RetryPolicy the backoff. Notifications/Once
--   is about many deliveries, Notifications/Startup has the start and the stop of the consumers.
-- Route: the route that books (src/bookings/bookings.controller.ts). Route/Pipeline has create behind the
--   guard, the interceptor and the pipes; Route/Claiming, Route/Outcome, Route/Keeping, Route/Retry and
--   Route/Effects are proofs.
-- Confirmation: from the transaction of a booking to its email. Confirmation/Wire has the message on its
--   way to the consumer, Confirmation/Stream many messages; Confirmation/Told and Confirmation/Emailed
--   are proofs.
-- Metrics: src/metrics/http-metrics.interceptor.ts.
-- Player: visualizations/shared/milestone-player.js. Player/Page has what is shown, Player/Controls the
--   buttons and the timer; Player/Intervals and Player/Playing are proofs.
-- Semaphore: src/common/concurrency/semaphore.ts, and the tasks that go through run.
-- Trace: src/common/trace. Trace/Resolve has resolveTraceId and the middleware.
-- Config: src/config/configuration.ts. Config/Parse has bool, int, float and lockStrategy,
--   Config/Settings the whole object.
-- Health: src/common/shutdown/lifecycle.service.ts and src/health. Health/Service has the indicators, live
--   and ready, Health/Shutdown the signal handlers of src/main.ts beside the listener that Nest sets for
--   its own signals, SIGHUP and SIGQUIT among them.
-- Tests: concrete databases and runs.
--
-- How parts meet: book calls enqueue inside its transaction, the relay hands batches to publishBatch,
-- onMessage calls handle, the cleanup job and the guard call the locks and the bucket of Redis, findOne of
-- the events goes through getOrLoad, and readiness asks the Kafka service and the lifecycle. The route runs
-- the guard, then the interceptor, then the pipes and book; the requests of Route come one after the other,
-- and those of Idempotency/Requests overlap.
--
-- Conventions. Times are milliseconds, numbers are natural; a subtraction is guarded where the source
-- guards it. Counters of metrics are effects in a trace where an outcome is told by them; log lines
-- and gauges are left out elsewhere. The optimistic loop runs on `maxRetries + 1` rounds, as in the source.
-- The wait for a retry runs on fuel, as many rounds as milliseconds are left, since each sleep is
-- at least one. The jitter `Math.random()` is a fraction `k / d` below one. Tokens of a bucket are
-- counted in thousandths, and its refill rate is whole; the rounding of floating-point numbers is not
-- modelled. The handler of an HTTP request, Kafka and the JSON functions are parameters.
--
-- A client of the pages runs on fuel, as many rounds as events are left; the polls of a backlog on
-- one round more than rows wait. A load of the cache is written within a bound on its duration, which is
-- a parameter, or not at all.
-- The headers of attempts and due times of a message are whole numbers, as the relay and the consumer
-- write them, or no numbers (NaN), and its payload is an object; Redis answers the callers of withLock.
-- The values of JSON hold whole numbers, and of a number only its text is used. `toLowerCase` is that
-- of ASCII, `int` reads whole numbers through a parameter that rounds them past 2 ^ 53.
--
-- Not modelled: the other routes of the controllers and the modules, which are wiring; the validation of
-- DTOs by class-validator; migrations; the declarations of the metrics, which belong to prom-client; the
-- exit of the process; the markup of the pages and the attribute aria-pressed of their buttons.
pub mod Base
pub mod Events
pub mod Failure
pub mod Idempotency
pub mod Entities
pub mod Database
pub mod Kafka
pub mod Metrics
pub mod Notifications
pub mod Trace
pub mod Config
pub mod Confirmation
pub mod Health
pub mod Route
pub mod Outbox
pub mod Player
pub mod RateLimit
pub mod Redis
pub mod Booking
pub mod Seats
pub mod Semaphore
pub mod Tests
