-- ===== src/Health/Service.antt =====
-- The lifecycle (src/common/shutdown/lifecycle.service.ts), the indicators of Kafka and Redis and the
-- routes of the controller (src/health/). The clients behind them and the check of
-- @nestjs/terminus are parameters.
use overbook.Base.{
  ◌++◌, ℕ, ◌-◌, ◌/◌, ◌≡◌, Bool, true, false, String, List, [], ◌∷◌, All, str_eq, if◌then◌else◌,
}
use overbook.Failure.{Failure, unavailable, Result, ok, err}
use overbook.Kafka.Producer.{KafkaService, is_connected}

-- times in milliseconds
pub record LifecycleService : Type 0 where
  pub draining : Bool
  pub started_at : ℕ

abbrev pub is_draining : LifecycleService → Bool
is_draining lifecycle = lifecycle.draining

unfoldable pub uptime_seconds : ℕ → LifecycleService → ℕ
uptime_seconds now lifecycle = (now - lifecycle.started_at) / 1000

unfoldable pub begin_draining : LifecycleService → LifecycleService
begin_draining lifecycle =
    if lifecycle.draining then lifecycle else record lifecycle { draining = true }

pub data Indicator : Type 0 where
  up : String → Indicator
  down : String → String → Indicator

abbrev pub is_up : Indicator → Bool
is_up (up _) = true
is_up (down _ _) = false

-- `isHealthy` of src/health/kafka.health.ts
unfoldable pub kafka_is_healthy : String → KafkaService → Indicator
kafka_is_healthy key kafka =
    if is_connected kafka then up key else down key "producer not connected"

-- the client's answer to PING, or the message of the error it throws
pub data Reply : Type 0 where
  answered : String → Reply
  thrown : String → Reply

-- `ping` of src/redis/redis.service.ts under `isHealthy` of src/health/redis.health.ts
unfoldable pub redis_is_healthy : String → Reply → Indicator
redis_is_healthy key (answered text) =
    if str_eq text "PONG" then up key else down key "PING did not return PONG"
redis_is_healthy key (thrown message) = down key message

-- `HealthCheckService.check`: it answers with the report, and throws where an indicator is down.
pub record Terminus : Type 1 where
  pub Report : Type 0
  pub check : List Indicator → Result Report
  pub check_up :
      (is : List Indicator) → All (λ i. is_up i ≡ true) is → (r : Report) × (check is ≡ ok r)
  pub check_down :
      (before after : List Indicator) (key message : String)
      → (e : Failure) × (check (before ++ down key message ∷ after) ≡ err e)

-- `live`
unfoldable pub live : ℕ → LifecycleService → String × ℕ
unfolding uptime_seconds
live now lifecycle = ("ok", uptime_seconds now lifecycle)

abbrev pub refuses_traffic : Failure
refuses_traffic = unavailable "shutting down, remove this instance from the pool"

module _ (T : Terminus) where
  -- `ready`: `postgres` is what `pingCheck('postgres', { timeout: 2000 })` gives
  unfoldable pub ready : LifecycleService → Indicator → Reply → KafkaService → Result T.Report
  unfolding kafka_is_healthy redis_is_healthy
  ready lifecycle postgres redis kafka =
      if is_draining lifecycle
      then err refuses_traffic
      else T.check (postgres ∷ redis_is_healthy "redis" redis ∷ kafka_is_healthy "kafka" kafka ∷ [])
