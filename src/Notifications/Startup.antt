-- ===== src/Notifications/Startup.antt =====
-- The start and the stop of the consumers (src/notifications/notifications.consumer.ts). The consumer
-- groups of kafkajs, on a broker of type `B`, are a parameter.
use overbook.Base.{
  ℕ, Bool, true, false, Option, some, String, List, [], ◌∷◌, ◌++◌, str_append, if◌then◌else◌,
}
use overbook.Failure.{ok, err, Action, pure, ◌>>◌}
use overbook.Semaphore.Defs.{Semaphore, create}

-- `run` is told whether the messages are those of the retry topic.
pub record Groups (B : Type 0) : Type 0 where
  pub connect : String → Action B (Unit {0})
  pub subscribe : String → String → Action B (Unit {0})
  pub run : String → Bool → Action B (Unit {0})
  pub disconnect : String → Action B (Unit {0})

-- the part of the configuration that is read
pub record StartConfig : Type 0 where
  pub consumer_enabled : Bool
  pub concurrency : ℕ
  pub consumer_group : String
  pub booking_topic : String
  pub retry_topic : String

-- the fields of the class; a consumer is named by its group
pub record Consumers : Type 0 where
  pub consumers : List String
  pub semaphore : Option Semaphore
  pub stopping : Bool

module _ {B : Type 0} (G : Groups B) where
  abbrev pub Running : Type 0
  Running = Consumers × B

  abbrev pub on_broker : {A : Type 0} → Action B A → Action Running A
  on_broker m (s, b) = let (r, b') = m b in (r, (s, b'))

  -- `this.consumers.push(consumer)`
  abbrev pub push_consumer : String → Action Running (Unit {0})
  push_consumer group (s, b) = (ok tt, (record s { consumers = s.consumers ++ group ∷ [] }, b))

  -- `this.semaphore = new Semaphore(concurrency)`
  abbrev pub set_semaphore : ℕ → Action Running (Unit {0})
  set_semaphore concurrency (s, b) = elim (create concurrency) [
    | ok semaphore ↦ (ok tt, (record s { semaphore = some semaphore }, b))
    | err e ↦ (err e, (s, b))
  ]

  unfoldable pub start : String → String → Bool → Action Running (Unit {0})
  start group topic is_retry_topic = do
    on_broker (G.connect group)
    on_broker (G.subscribe group topic)
    on_broker (G.run group is_retry_topic)
    push_consumer group

  unfoldable pub on_application_bootstrap : StartConfig → Action Running (Unit {0})
  unfolding start create
  on_application_bootstrap c =
      if c.consumer_enabled
      then (do
        set_semaphore c.concurrency
        start c.consumer_group c.booking_topic false
        start (str_append c.consumer_group "-retry") c.retry_topic true)
      else pure tt

  -- Errors of the disconnections are dropped.
  abbrev pub disconnect_all : List String → B → B
  disconnect_all [] b = b
  disconnect_all (group ∷ groups) b = disconnect_all groups (G.disconnect group b).1

  unfoldable pub stop_consumers : Running → Running
  stop_consumers (s, b) = (record s { stopping = true }, disconnect_all s.consumers b)
