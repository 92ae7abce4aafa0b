-- ===== src/Kafka/Producer.antt =====
-- The life of the service (src/kafka/kafka.service.ts): `ensureTopics`, the producer's connection
-- and `isConnected`. The admin client, the producer and the broker behind them are a parameter.
use overbook.Base.{
  ◌≡◌, Bool, true, false, not, ◌||◌, String, List, [], ◌∷◌, All, filter, str_eq, if◌then◌else◌,
}
use overbook.Failure.{Result, ok, err, Action, pure, ◌>>=◌, ◌>>◌}

abbrev pub includes : String → List String → Bool
includes t [] = false
includes t (s ∷ ss) = str_eq s t || includes t ss

-- What the service calls of kafkajs, on a broker of type `B`. A broker has the topics that it
-- lists, those that it says it has created, and keeps what it has.
pub record Broker (B : Type 0) : Type 1 where
  pub admin_connect : Action B (Unit {0})
  pub list_topics : Action B (List String)
  pub create_topics : List String → Action B (Unit {0})
  pub admin_disconnect : Action B (Unit {0})
  pub producer_connect : Action B (Unit {0})
  pub producer_disconnect : Action B (Unit {0})
  pub HasTopic : String → B → Type 0
  pub listed :
      (b b' : B) (ts : List String)
      → list_topics b ≡ (ok ts, b')
      → (t : String) → includes t ts ≡ true
      → HasTopic t b'
  pub created :
      (b b' : B) (ts : List String) → create_topics ts b ≡ (ok tt, b') → All (λ t. HasTopic t b') ts
  pub create_keeps :
      (b : B) (ts : List String) (t : String) → HasTopic t b → HasTopic t (create_topics ts b).1
  pub disconnect_keeps : (b : B) (t : String) → HasTopic t b → HasTopic t (admin_disconnect b).1
  pub connect_keeps : (b : B) (t : String) → HasTopic t b → HasTopic t (producer_connect b).1

-- `Object.values(topics).filter((topic) => !existing.has(topic))`
abbrev pub missing_topics : List String → List String → List String
missing_topics topics existing = filter (λ t. not (includes t existing)) topics

pub record KafkaService : Type 0 where
  pub connected : Bool

abbrev pub is_connected : KafkaService → Bool
is_connected service = service.connected

module _ {B : Type 0} (K : Broker B) where
  -- `if (missing.length > 0)`
  unfoldable pub create_missing : List String → Action B (Unit {0})
  create_missing [] = pure tt
  create_missing (t ∷ ts) = K.create_topics (t ∷ ts)

  -- the body of the `try`
  unfoldable pub try_topics : List String → Action B (Unit {0})
  unfolding create_missing
  try_topics topics = do
    unit ← K.admin_connect
    existing ← K.list_topics
    create_missing (missing_topics topics existing)

  -- `try { m } catch { log }`
  abbrev pub quietly : Action B (Unit {0}) → Action B (Unit {0})
  quietly m b = (ok tt, (m b).1)

  -- The error is logged; the client is disconnected in either case, and an error of that is dropped.
  unfoldable pub ensure_topics : List String → Action B (Unit {0})
  unfolding try_topics create_missing
  ensure_topics topics = do unit ← quietly (try_topics topics); quietly K.admin_disconnect

  -- `this.connected = true` stands after the calls that may throw
  abbrev pub once_connected :
      KafkaService → Result (Unit {0}) × B → Result (Unit {0}) × KafkaService × B
  once_connected service (ok u, b) = (ok tt, record service { connected = true }, b)
  once_connected service (err e, b) = (err e, service, b)

  unfoldable pub on_module_init :
      List String → KafkaService → B → Result (Unit {0}) × KafkaService × B
  unfolding ensure_topics try_topics create_missing
  on_module_init topics service b =
      once_connected service ((ensure_topics topics >> K.producer_connect) b)

  unfoldable pub on_application_shutdown : KafkaService → B → KafkaService × B
  on_application_shutdown service b =
      if service.connected
      then (record service { connected = false }, (K.producer_disconnect b).1)
      else (service, b)
