-- ===== src/Notifications/Consumer.antt =====
-- `NotificationsConsumer` (src/notifications/notifications.consumer.ts): one message, within the permit
-- of the semaphore (Semaphore). `JSON.parse`, `Number` and `String` of a number are parameters.
use Prim.Native.String.{slice}
use overbook.Base.{
  ◌≡◌, ◌&&◌, ℕ, zero, suc, ◌+◌, ◌-◌, min, Bool, true, false, Option, none, some, String, List, [],
  ◌∷◌, leb, str_eq, str_append, if◌then◌else◌,
}
use mathlib.Core.Option.{get_or}
use overbook.Failure.{Failure, Result, ok, err, Action, pure, ◌>>=◌, ◌>>◌, catch}
use overbook.Kafka.Topics.{
  OutgoingMessage, TopicMessages, publish, Headers, header_message_id, header_event_type,
  header_trace_id, header_attempts, header_retry_at, header_original_topic, header_error,
}
use overbook.Outbox.Relay.{text_of}
use overbook.Notifications.RetryPolicy.{compute_backoff_ms, should_dead_letter}
use overbook.Notifications.Service.{ProcessedMessages, Notified, count, handle}

-- `notifications` and `kafka.topics` of the configuration
pub record ConsumerConfig : Type 0 where
  pub retry_topic : String
  pub dlq_topic : String
  pub max_attempts : ℕ
  pub retry_base_ms : ℕ
  pub retry_max_ms : ℕ

pub record KafkaMessage : Type 0 where
  pub topic : String
  pub offset : ℕ
  pub key : Option String
  pub value : Option String
  pub headers : Headers

-- What `Number` makes of a header: a whole number, or `none`, which is NaN.
abbrev pub HeaderNumber : Type 0
HeaderNumber = Option ℕ

-- `n + m`
abbrev pub plus : ℕ → HeaderNumber → HeaderNumber
plus n none = none
plus n (some m) = some (n + m)

-- the value of a message to the retry topic, or to the DLQ: raw, reason, attempts, deadLetteredAt
pub data Value (J : Type 0) : Type 0 where
  parsed : J → Value J
  dead : String → String → HeaderNumber → ℕ → Value J

-- What the consumer is given: the table, the producer, `JSON.parse` and `JSON.stringify`, `Number` and
-- `String` on numbers, and the booking that a payload names. A number and a payload survive the way
-- through their text. A payload is an object, and the headers of attempts and of the due time are whole
-- numbers, as the relay and the consumer write them, or no numbers at all: what the code does with a
-- fraction, a number below zero or the payload `null` is not modelled.
pub record Runtime (J : Type 0) : Type 1 where
  pub P : ProcessedMessages
  pub send : TopicMessages (Value J) → Result (Unit {0})
  pub parse : String → Option J
  pub stringify : J → String
  pub number : String → HeaderNumber
  pub show : ℕ → String
  pub booking_of : J → String
  pub parse-stringify : (j : J) → parse (stringify j) ≡ some j
  pub number-show : (n : ℕ) → number (show n) ≡ some n

-- `header(name)`
unfoldable pub header : String → Headers → Option String
header name [] = none
header name ((n, v) ∷ rest) =
    let later = header name rest in if str_eq n name then some v else later

-- `shouldDeadLetter`: NaN is not `>=` anything
abbrev pub is_spent : HeaderNumber → ℕ → Bool
is_spent none max_attempts = false
is_spent (some n) max_attempts = should_dead_letter n max_attempts

-- `waitUntilDue`: the time when it returns; `stopping` is asked at each time. A sleep takes as long as
-- it was asked to.
unfoldable pub wait_until_due : ℕ → (ℕ → Bool) → ℕ → ℕ → ℕ
wait_until_due zero stopping retry_at now = now
wait_until_due (suc fuel) stopping retry_at now =
    let rest = wait_until_due fuel stopping retry_at (now + min (retry_at - now) 3000) in
    if stopping now then now else if leb retry_at now then now else rest

module _ {J : Type 0} (E : Runtime J) (c : ConsumerConfig) where
  open E use {P, send, parse, number, show, booking_of}

  -- what was notified, and the messages that the broker took
  abbrev pub Consumed : Type 0
  Consumed = Notified P × List (OutgoingMessage (Value J))

  abbrev pub notifying : {A : Type 0} → Action (Notified P) A → Action Consumed A
  notifying m (n, sent) = let (r, n') = m n in (r, (n', sent))

  -- a message that the broker took, or refused
  abbrev pub taken_by : OutgoingMessage (Value J) → Result (Unit {0}) → Action Consumed (Unit {0})
  taken_by m (ok _) (n, sent) = (ok tt, (n, m ∷ sent))
  taken_by m (err e) (n, sent) = (err e, (n, sent))

  unfoldable pub publish_one : OutgoingMessage (Value J) → Action Consumed (Unit {0})
  publish_one m = taken_by m (publish send m)

  -- `String(n)`
  abbrev pub show_number : HeaderNumber → String
  show_number none = "NaN"
  show_number (some n) = show n

  -- `messageId`, `attempts` and `body` of `onMessage`
  unfoldable pub id_of : KafkaMessage → String
  id_of m =
      get_or (header header_message_id m.headers)
        (str_append m.topic (str_append "-" (show m.offset)))

  unfoldable pub attempts_of : KafkaMessage → HeaderNumber
  attempts_of m = number (get_or (header header_attempts m.headers) "0")

  unfoldable pub body_of : KafkaMessage → String
  body_of m = get_or m.value "{}"

  -- the message that `deadLetter` publishes
  unfoldable pub dead_message : KafkaMessage → HeaderNumber → String → ℕ → OutgoingMessage (Value J)
  dead_message m attempts reason now = record {
    topic = c.dlq_topic;
    key = get_or m.key "unknown";
    value = dead (body_of m) reason attempts now;
    headers =
        (header_original_topic, m.topic)
        ∷ (header_attempts, show_number attempts)
        ∷ (header_error, slice reason 0 500)
        ∷ [];
  }

  -- the message that `scheduleRetryOrDeadLetter` publishes
  unfoldable pub retry_message :
      KafkaMessage → J → HeaderNumber → Failure → ℕ → HeaderNumber → OutgoingMessage (Value J)
  retry_message m payload attempts error now backoff = record {
    topic = c.retry_topic;
    key = get_or m.key (id_of m);
    value = parsed payload;
    headers =
        (header_message_id, id_of m)
        ∷ (header_event_type, get_or (header header_event_type m.headers) "unknown")
        ∷ (header_trace_id, get_or (header header_trace_id m.headers) "")
        ∷ (header_attempts, show_number attempts)
        ∷ (header_retry_at, show_number (plus now backoff))
        ∷ (header_original_topic, m.topic)
        ∷ (header_error, slice (text_of error) 0 500)
        ∷ [];
  }

  unfoldable pub dead_letter : KafkaMessage → HeaderNumber → String → ℕ → Action Consumed (Unit {0})
  dead_letter m attempts reason now = do
    catch (publish_one (dead_message m attempts reason now)) (λ _. pure tt)
    notifying (count P "dead_lettered")

  -- `computeBackoffMs(attempts, ..)`: of NaN it makes NaN
  abbrev pub backoff_of : HeaderNumber → ℕ → ℕ → HeaderNumber
  backoff_of none k d = none
  backoff_of (some n) k d = some (compute_backoff_ms n c.retry_base_ms c.retry_max_ms k d)

  -- the draw of the jitter is `k / d`
  unfoldable pub schedule_retry :
      KafkaMessage → J → HeaderNumber → Failure → ℕ → ℕ → ℕ → Action Consumed (Unit {0})
  schedule_retry m payload attempts error now k d = do
    publish_one (retry_message m payload attempts error now (backoff_of attempts k d))
    notifying (count P "retried")

  unfoldable pub schedule_retry_or_dead_letter :
      KafkaMessage → J → ℕ → ℕ → ℕ → Failure → Action Consumed (Unit {0})
  schedule_retry_or_dead_letter m payload now k d error =
      let attempts = plus 1 (attempts_of m) in
      if is_spent attempts c.max_attempts
      then dead_letter m attempts (text_of error) now
      else schedule_retry m payload attempts error now k d

  -- `onMessage`, from JSON.parse on
  unfoldable pub process : KafkaMessage → Bool → ℕ → ℕ → ℕ → Option J → Action Consumed (Unit {0})
  process m fails now k d none = dead_letter m (attempts_of m) "payload is not valid JSON" now
  process m fails now k d (some payload) =
      catch
        (notifying (
            handle P fails (id_of m) (get_or (header header_event_type m.headers) "unknown")
              (booking_of payload))
          >>= λ _. pure tt)
        (schedule_retry_or_dead_letter m payload now k d)

  -- the wait for a due time, which never ends for one that is NaN: `none`
  abbrev pub waited : (ℕ → Bool) → HeaderNumber → ℕ → Option ℕ
  waited stopping none now = none
  waited stopping (some retry_at) now = some (wait_until_due (retry_at - now) stopping retry_at now)

  -- the time when a message is due, and has been waited for
  unfoldable pub due : KafkaMessage → Bool → (ℕ → Bool) → ℕ → Option ℕ
  due m false stopping now = some now
  due m true stopping now =
      waited stopping (number (get_or (header header_retry_at m.headers) "0")) now

  -- `onMessage` once the wait is over; one that never ends is left when the consumer stops
  abbrev pub after_wait :
      KafkaMessage → Bool → (ℕ → Bool) → Bool → ℕ → ℕ → Option ℕ → Action Consumed (Unit {0})
  after_wait m is_retry stopping fails k d none s = (ok tt, s)
  after_wait m is_retry stopping fails k d (some later) s =
      let done = process m fails later k d (parse (body_of m)) s in
      if is_retry && stopping later then (ok tt, s) else done

  unfoldable pub on_message :
      KafkaMessage → Bool → (ℕ → Bool) → Bool → ℕ → ℕ → ℕ → Action Consumed (Unit {0})
  on_message m is_retry stopping fails now k d s =
      let done = after_wait m is_retry stopping fails k d (due m is_retry stopping now) s in
      if stopping now then (ok tt, s) else done
