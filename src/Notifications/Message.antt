-- ===== src/Notifications/Message.antt =====
-- What `onMessage` does with a message while the consumer is not stopped.
use overbook.Base.{refl, some, ap, subst, sym, ℕ, ◌-◌, ◌≤◌, ◌≡◌, true, false, Bool, arith}
use mathlib.Core.Option.{get_or}
use overbook.Kafka.Topics.{header_retry_at}
use overbook.Notifications.Consumer.{
  Runtime, ConsumerConfig, KafkaMessage, header, Consumed, wait_until_due, waited, due, after_wait,
  on_message,
}
use overbook.Notifications.Fate.{wait_lem, IsFate, process_lem}

module _ {J : Type 0} (E : Runtime J) (c : ConsumerConfig) where
  open E use {P, send, parse, number, show, booking_of}

  -- While the consumer is not stopped, no message is dropped, where the time that a retry is due at is a
  -- number; its attempts may be none. Each message is notified or a duplicate; or `handle` failed, it has
  -- attempts left or no number of them, and the next one goes to the retry topic with its count, or
  -- else `onMessage` throws; or `handle` failed with the attempts spent, or it is no JSON, and it is
  -- offered to the DLQ with its count and the reason. Rows and emails are those that `handle` leaves. A
  -- message of the retry topic is not handled before it is due.
  pub on_message_lem :
      (m : KafkaMessage) (is_retry fails : Bool) (retry_at now k d : ℕ) (s : Consumed E c)
      → number (get_or (header header_retry_at m.headers) "0") ≡ some retry_at
      → (at : ℕ) × (due E c m is_retry (λ _. false) now ≡ some at)
        × IsFate E c m fails at k d s (on_message E c m is_retry (λ _. false) fails now k d s)
        × (is_retry ≡ true → retry_at ≤ at)
  unfolding on_message due
  on_message_lem m true fails retry_at now k d s is =
      let at = wait_until_due (retry_at - now) (λ _. false) retry_at now in
      let waits : due E c m true (λ _. false) now ≡ some at =
        ap (λ r. waited E c (λ _. false) r now) is in
      (
        at,
        waits,
        subst (λ r. IsFate E c m fails at k d s (after_wait E c m true (λ _. false) fails k d r s))
            (sym waits) (process_lem E c m fails at k d s),
        λ _. omega (arith, wait_lem (retry_at - now) retry_at now (omega arith)),
      )
  on_message_lem m false fails retry_at now k d s is =
      (now, refl, process_lem E c m fails now k d s, λ h. absurd (cc h))
