-- ===== src/Config/Settings.antt =====
-- `configuration` (src/config/configuration.ts). `process.env` is a function from names; `hostname()`
-- of node:os and the floating-point numbers are parameters.
use overbook.Base.{
  ℕ, ◌==◌, Bool, true, false, Option, none, some, String, List, [], ◌∷◌, map, if◌then◌else◌,
}
use overbook.Failure.{Result, ok, err}
use overbook.Booking.Types.{BookingLockStrategy}
use overbook.Trace.Resolve.{is_empty, trim}
use overbook.Config.Parse.{Doubles, ℤ, pos, bool, int, float, lock_strategy, or_fallback}
use Prim.Native.Char.{Char, code}

abbrev pub Environment : Type 0
Environment = String → Option String

-- `process.env.NAME || fallback`
abbrev pub or_if_empty : Option String → String → String
or_if_empty none fallback = fallback
or_if_empty (some s) fallback = if is_empty s then fallback else s

abbrev pub onto_first : Char → List String → List String
onto_first c [] = String.◌∷◌ c "" ∷ []
onto_first c (t ∷ ts) = String.◌∷◌ c t ∷ ts

-- `text.split(',')`: never empty
abbrev pub split_commas : String → List String
split_commas String.[] = "" ∷ []
split_commas (String.◌∷◌ c s) =
    let rest = split_commas s in if code c == 44 then "" ∷ rest else onto_first c rest

pub record AppSettings : Type 0 where
  pub node_env : String
  pub port : ℤ
  pub log_level : String
  pub instance_id : String
  pub shutdown_drain_ms : ℤ

pub record DatabaseSettings : Type 0 where
  pub host : String
  pub port : ℤ
  pub username : String
  pub password : String
  pub name : String
  pub pool_max : ℤ

pub record RedisSettings : Type 0 where
  pub host : String
  pub port : ℤ

pub record KafkaTopics : Type 0 where
  pub booking : String
  pub retry : String
  pub dlq : String

pub record KafkaSettings : Type 0 where
  pub brokers : List String
  pub client_id : String
  pub consumer_group : String
  pub topics : KafkaTopics
  pub consumer_enabled : Bool

pub record BookingSettings : Type 0 where
  pub lock_strategy : BookingLockStrategy
  pub optimistic_max_retries : ℤ

pub record CacheSettings : Type 0 where
  pub enabled : Bool
  pub ttl_seconds : ℤ
  pub ttl_jitter_seconds : ℤ
  pub stampede_protection : Bool
  pub lock_ttl_ms : ℤ
  pub stale_seconds : ℤ

pub record OutboxSettings : Type 0 where
  pub enabled : Bool
  pub relay_enabled : Bool
  pub poll_interval_ms : ℤ
  pub batch_size : ℤ
  pub max_attempts : ℤ
  pub direct_publish_mode : Bool
  pub crash_after_commit : Bool

pub record NotificationSettings (F : Type 0) : Type 0 where
  pub failure_rate : F
  pub max_attempts : ℤ
  pub retry_base_ms : ℤ
  pub retry_max_ms : ℤ
  pub concurrency : ℤ

pub record RateLimitSettings (F : Type 0) : Type 0 where
  pub enabled : Bool
  pub capacity : ℤ
  pub refill_per_second : F

pub record AppConfiguration (F : Type 0) : Type 0 where
  pub app : AppSettings
  pub database : DatabaseSettings
  pub redis : RedisSettings
  pub kafka : KafkaSettings
  pub booking : BookingSettings
  pub cache : CacheSettings
  pub outbox : OutboxSettings
  pub notifications : NotificationSettings F
  pub rate_limit : RateLimitSettings F

module _ (N : Doubles) (hostname : String) (env : Environment) where
  abbrev int_of : String → ℕ → ℤ
  int_of name fallback = int N (env name) (pos fallback)

  abbrev float_of : String → ℕ → N.F
  float_of name fallback = float N (env name) (N.of_int fallback)

  -- the object, its lock strategy read
  unfoldable pub with_strategy : BookingLockStrategy → AppConfiguration N.F
  with_strategy strategy = record {
    app = record {
      node_env = or_fallback (env "NODE_ENV") "development";
      port = int_of "PORT" 3000;
      log_level = or_fallback (env "LOG_LEVEL") "info";
      instance_id = or_if_empty (env "INSTANCE_ID") hostname;
      shutdown_drain_ms = int_of "SHUTDOWN_DRAIN_MS" 5000;
    };
    database = record {
      host = or_fallback (env "DB_HOST") "localhost";
      port = int_of "DB_PORT" 5432;
      username = or_fallback (env "DB_USERNAME") "overbook";
      password = or_fallback (env "DB_PASSWORD") "overbook";
      name = or_fallback (env "DB_NAME") "overbook";
      pool_max = int_of "DB_POOL_MAX" 10;
    };
    redis = record {
      host = or_fallback (env "REDIS_HOST") "localhost";
      port = int_of "REDIS_PORT" 6379;
    };
    kafka = record {
      brokers = map trim (split_commas (or_fallback (env "KAFKA_BROKERS") "localhost:9092"));
      client_id = or_fallback (env "KAFKA_CLIENT_ID") "overbook";
      consumer_group = or_fallback (env "KAFKA_CONSUMER_GROUP") "overbook-notifications";
      topics = record {
        booking = or_fallback (env "KAFKA_TOPIC_BOOKING") "booking.events";
        retry = or_fallback (env "KAFKA_TOPIC_RETRY") "booking.events.retry";
        dlq = or_fallback (env "KAFKA_TOPIC_DLQ") "booking.events.dlq";
      };
      consumer_enabled = bool (env "CONSUMER_ENABLED") true;
    };
    booking = record {
      lock_strategy = strategy;
      optimistic_max_retries = int_of "BOOKING_OPTIMISTIC_MAX_RETRIES" 5;
    };
    cache = record {
      enabled = bool (env "CACHE_ENABLED") true;
      ttl_seconds = int_of "CACHE_TTL_SECONDS" 30;
      ttl_jitter_seconds = int_of "CACHE_TTL_JITTER_SECONDS" 10;
      stampede_protection = bool (env "CACHE_STAMPEDE_PROTECTION") true;
      lock_ttl_ms = int_of "CACHE_LOCK_TTL_MS" 5000;
      stale_seconds = int_of "CACHE_STALE_SECONDS" 60;
    };
    outbox = record {
      enabled = bool (env "OUTBOX_ENABLED") true;
      relay_enabled = bool (env "OUTBOX_RELAY_ENABLED") true;
      poll_interval_ms = int_of "OUTBOX_POLL_INTERVAL_MS" 1000;
      batch_size = int_of "OUTBOX_BATCH_SIZE" 100;
      max_attempts = int_of "OUTBOX_MAX_ATTEMPTS" 10;
      direct_publish_mode = bool (env "DIRECT_PUBLISH_MODE") false;
      crash_after_commit = bool (env "FAULT_CRASH_AFTER_BOOKING_COMMIT") false;
    };
    notifications = record {
      failure_rate = float_of "NOTIFICATION_FAILURE_RATE" 0;
      max_attempts = int_of "NOTIFICATION_MAX_ATTEMPTS" 3;
      retry_base_ms = int_of "NOTIFICATION_RETRY_BASE_MS" 500;
      retry_max_ms = int_of "NOTIFICATION_RETRY_MAX_MS" 30000;
      concurrency = int_of "NOTIFICATION_CONCURRENCY" 10;
    };
    rate_limit = record {
      enabled = bool (env "RATE_LIMIT_ENABLED") true;
      capacity = int_of "RATE_LIMIT_CAPACITY" 20;
      refill_per_second = float_of "RATE_LIMIT_REFILL_PER_SECOND" 10;
    };
  }

  -- `lockStrategy` is the one call that may throw
  unfoldable pub configuration : Result (AppConfiguration N.F)
  unfolding with_strategy lock_strategy
  configuration = elim (lock_strategy (env "BOOKING_LOCK_STRATEGY")) [
    | ok strategy ↦ ok (with_strategy strategy)
    | err e ↦ err e
  ]
