-- ===== src/Confirmation/Stream.antt =====
-- What one message leaves of the table and of the emails (src/notifications/notifications.consumer.ts).
use overbook.Base.{
  ℕ, ◌≡◌, refl, sym, ap, subst, inl, inr, Bool, none, some, String, List, [], ◌∷◌, Bool-cases,
}
use overbook.Failure.{Failure, Result-cases}
use overbook.Kafka.Topics.{publish}
use overbook.Outbox.Relay.{text_of}
use overbook.Notifications.Service.{Notified}
use overbook.Notifications.Consumer.{
  HeaderNumber, plus, is_spent, backoff_of, Runtime, ConsumerConfig, KafkaMessage, Consumed,
  body_of, attempts_of, dead_message, retry_message, dead_letter, schedule_retry,
  schedule_retry_or_dead_letter, process,
}
use overbook.Notifications.Sending.{
  handling, process-handled, process-failed, dead_letter-taken, dead_letter-refused,
  schedule_retry-taken, schedule_retry-refused,
}
use overbook.Notifications.Once.{emails}

-- a message, and what its delivery meets
pub record Incoming : Type 0 where
  pub message : KafkaMessage
  pub fails : Bool
  pub now : ℕ
  pub k : ℕ
  pub d : ℕ

module _ {J : Type 0} (E : Runtime J) (c : ConsumerConfig) where
  open E use {P, send, parse}

  abbrev pub consume : Incoming → Consumed E c → Consumed E c
  consume i s = (process E c i.message i.fails i.now i.k i.d (parse (body_of E c i.message)) s).1

  -- one message after the other; one that is thrown back comes again
  unfoldable pub consume_all : List Incoming → Consumed E c → Consumed E c
  consume_all [] s = s
  consume_all (i ∷ rest) s = consume_all rest (consume i s)

  -- The same rows and the same emails.
  abbrev pub Same : Notified P → Notified P → Type 0
  Same n n' = (n'.0 ≡ n.0) × ((id : String) → emails id n'.1 ≡ emails id n.1)

  dead_letter-Same :
      (m : KafkaMessage) (attempts : HeaderNumber) (reason : String) (now : ℕ) (s : Consumed E c)
      → Same s.0 (dead_letter E c m attempts reason now s).1.0
  unfolding emails
  dead_letter-Same m attempts reason now ((db, t), sent) =
      elim (Result-cases (publish send (dead_message E c m attempts reason now))) [
        | inl (tt, e) ↦
            rw (dead_letter-taken E c m attempts reason now db t sent e) (refl, λ id. refl)
        | inr (x, e) ↦
            rw (dead_letter-refused E c m attempts reason now db t sent x e) (refl, λ id. refl)
      ]

  schedule_retry-Same :
      (m : KafkaMessage) (payload : J) (attempts : HeaderNumber) (now k d : ℕ) (x : Failure)
      (s : Consumed E c)
      → Same s.0 (schedule_retry E c m payload attempts x now k d s).1.0
  unfolding emails
  schedule_retry-Same m payload attempts now k d x ((db, t), sent) =
      let retry = retry_message E c m payload attempts x now (backoff_of E c attempts k d) in
      elim (Result-cases (publish send retry)) [
        | inl (tt, e) ↦
            rw (schedule_retry-taken E c m payload attempts now k d x db t sent e)
              (refl, λ id. refl)
        | inr (y, e) ↦
            rw (schedule_retry-refused E c m payload attempts now k d x y db t sent e)
              (refl, λ id. refl)
      ]

  schedule_retry_or_dead_letter-Same :
      (m : KafkaMessage) (payload : J) (now k d : ℕ) (x : Failure) (s : Consumed E c)
      → Same s.0 (schedule_retry_or_dead_letter E c m payload now k d x s).1.0
  unfolding schedule_retry_or_dead_letter
  schedule_retry_or_dead_letter-Same m payload now k d x s =
      elim (Bool-cases (is_spent (plus 1 (attempts_of E c m)) c.max_attempts)) [
        | inl spent ↦ rw spent (dead_letter-Same m (plus 1 (attempts_of E c m)) (text_of x) now s)
        | inr more ↦
            rw more (schedule_retry-Same m payload (plus 1 (attempts_of E c m)) now k d x s)
      ]

  -- A message that parses is handled; what is published besides leaves the rows and the emails alone.
  pub consume-handled :
      (i : Incoming) (payload : J) (s : Consumed E c)
      → parse (body_of E c i.message) ≡ some payload
      → Same (handling E c i.message i.fails payload s.0).1 (consume i s).0
  consume-handled i payload (n, sent) e =
      let n' = (handling E c i.message i.fails payload n).1 in
      subst (λ o. Same n' (process E c i.message i.fails i.now i.k i.d o (n, sent)).1.0) (sym e)
        (elim (Result-cases (handling E c i.message i.fails payload n).0) [
          | inl (h, fine) ↦
              rw
                (process-handled E c i.message i.fails i.now i.k i.d payload n n' sent h
                  (ap (λ r. (r, n')) fine))
                (refl, λ id. refl)
          | inr (x, threw) ↦
              rw
                (process-failed E c i.message i.fails i.now i.k i.d payload n n' sent x
                  (ap (λ r. (r, n')) threw))
                (schedule_retry_or_dead_letter-Same i.message payload i.now i.k i.d x (n', sent))
        ])

  -- A message that does not parse leaves the rows and the emails alone.
  pub consume-garbage :
      (i : Incoming) (s : Consumed E c)
      → parse (body_of E c i.message) ≡ none
      → Same s.0 (consume i s).0
  unfolding process
  consume-garbage i s e =
      subst (λ o. Same s.0 (process E c i.message i.fails i.now i.k i.d o s).1.0) (sym e)
        (dead_letter-Same i.message (attempts_of E c i.message) "payload is not valid JSON" i.now s)
