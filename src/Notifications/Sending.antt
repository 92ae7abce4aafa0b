-- ===== src/Notifications/Sending.antt =====
-- What the consumer publishes when the broker takes it, and when it refuses
-- (src/notifications/notifications.consumer.ts).
use overbook.Base.{ℕ, ◌≡◌, Bool, some, String, List, ◌∷◌, arith}
use overbook.Failure.{Failure, Result, ok, err}
use overbook.Kafka.Topics.{OutgoingMessage, publish}
use mathlib.Core.Option.{get_or}
use overbook.Kafka.Topics.{header_event_type}
use overbook.Notifications.Service.{Counted, result, Handled, Notified, handle}
use overbook.Notifications.Consumer.{
  HeaderNumber, backoff_of, Runtime, ConsumerConfig, KafkaMessage, Value, header, publish_one,
  id_of, dead_message, retry_message, dead_letter, schedule_retry, schedule_retry_or_dead_letter,
  process,
}

module _ {J : Type 0} (E : Runtime J) (c : ConsumerConfig) where
  open E use {P, send, parse, number, show, booking_of}

  abbrev pub handling : KafkaMessage → Bool → J → Notified P → Result Handled × Notified P
  handling m fails payload =
      handle P fails (id_of E c m) (get_or (header header_event_type m.headers) "unknown")
        (booking_of payload)

  pub dead_letter-taken :
      (m : KafkaMessage) (attempts : HeaderNumber) (reason : String) (now : ℕ) (db : E.P.Db)
      (t : List Counted) (sent : List (OutgoingMessage (Value J)))
      → let dlq = dead_message E c m attempts reason now in
        publish send dlq ≡ ok tt
        → dead_letter E c m attempts reason now ((db, t), sent)
          ≡ (ok tt, ((db, result "dead_lettered" ∷ t), dlq ∷ sent))
  unfolding dead_letter publish_one
  dead_letter-taken m attempts reason now db t sent h = ground arith

  pub dead_letter-refused :
      (m : KafkaMessage) (attempts : HeaderNumber) (reason : String) (now : ℕ) (db : E.P.Db)
      (t : List Counted) (sent : List (OutgoingMessage (Value J))) (x : Failure)
      → let dlq = dead_message E c m attempts reason now in
        publish send dlq ≡ err x
        → dead_letter E c m attempts reason now ((db, t), sent)
          ≡ (ok tt, ((db, result "dead_lettered" ∷ t), sent))
  unfolding dead_letter publish_one
  dead_letter-refused m attempts reason now db t sent x h = ground arith

  pub process-handled :
      (m : KafkaMessage) (fails : Bool) (now k d : ℕ) (payload : J) (n n' : Notified P)
      (sent : List (OutgoingMessage (Value J))) (h : Handled)
      → handling m fails payload n ≡ (ok h, n')
      → process E c m fails now k d (some payload) (n, sent) ≡ (ok tt, (n', sent))
  unfolding process
  process-handled m fails now k d payload n n' sent h e = ground arith

  pub process-failed :
      (m : KafkaMessage) (fails : Bool) (now k d : ℕ) (payload : J) (n n' : Notified P)
      (sent : List (OutgoingMessage (Value J))) (x : Failure)
      → handling m fails payload n ≡ (err x, n')
      → process E c m fails now k d (some payload) (n, sent)
        ≡ schedule_retry_or_dead_letter E c m payload now k d x (n', sent)
  unfolding process
  process-failed m fails now k d payload n n' sent x e = ground arith

  pub schedule_retry-taken :
      (m : KafkaMessage) (payload : J) (attempts : HeaderNumber) (now k d : ℕ) (x : Failure)
      (db : E.P.Db) (t : List Counted) (sent : List (OutgoingMessage (Value J)))
      → let retry = retry_message E c m payload attempts x now (backoff_of E c attempts k d) in
        publish send retry ≡ ok tt
        → schedule_retry E c m payload attempts x now k d ((db, t), sent)
          ≡ (ok tt, ((db, result "retried" ∷ t), retry ∷ sent))
  unfolding schedule_retry publish_one
  schedule_retry-taken m payload attempts now k d x db t sent e = ground arith

  pub schedule_retry-refused :
      (m : KafkaMessage) (payload : J) (attempts : HeaderNumber) (now k d : ℕ) (x y : Failure)
      (db : E.P.Db) (t : List Counted) (sent : List (OutgoingMessage (Value J)))
      → let retry = retry_message E c m payload attempts x now (backoff_of E c attempts k d) in
        publish send retry ≡ err y
        → schedule_retry E c m payload attempts x now k d ((db, t), sent) ≡ (err y, ((db, t), sent))
  unfolding schedule_retry publish_one
  schedule_retry-refused m payload attempts now k d x y db t sent e = ground arith
