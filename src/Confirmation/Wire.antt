-- ===== src/Confirmation/Wire.antt =====
-- The message of an outbox row, on its way from the relay (src/outbox/outbox.relay.ts) through
-- `publishBatch` (src/kafka/kafka.service.ts) to the consumer.
use overbook.Base.{◌≡◌, refl, sym, ap, subst, ◌∙◌, inl, inr, ℕ, true, some, String, List, ◌∷◌}
use overbook.Failure.{Result, ok, err}
use overbook.Entities.{BookingPayload, OutboxMessageEntity}
use overbook.Database.{Database}
use overbook.Kafka.Topics.{TopicMessages, header_event_type}
use overbook.Booking.Types.{Config, CreateBookingDto, Context, Effect, BookingResponseDto, from}
use overbook.Booking.Service.{book, booking_confirmed, uses_outbox}
use overbook.Booking.Atomicity.{OutboxGrows}
use overbook.Booking.Outcome.{book_atomic}
use overbook.Outbox.Relay.{message_of}
use overbook.Notifications.Consumer.{
  Runtime, ConsumerConfig, KafkaMessage, header, id_of, attempts_of, body_of,
}

module _ {J : Type 0} (E : Runtime J) (c : ConsumerConfig) (encode : BookingPayload → J) where
  -- the message as the broker hands it on, of any offset; `encode` is the JSON of a payload
  unfoldable pub delivered : OutboxMessageEntity → ℕ → KafkaMessage
  delivered row offset =
      let item = message_of row in
      record {
        topic = item.topic;
        offset = offset;
        key = some item.key;
        value = some (E.stringify (encode item.value));
        headers = item.headers;
      }

  -- The consumer reads what the row says: its id, its type, no attempts and its booking.
  abbrev pub IsRead : OutboxMessageEntity → KafkaMessage → Type 0
  IsRead row m =
      (id_of E c m ≡ row.id)
      × (attempts_of E c m ≡ some 0)
      × (header header_event_type m.headers ≡ some row.event_type)
      × ((j : J) × (E.parse (body_of E c m) ≡ some j) × (E.booking_of j ≡ row.payload.booking_id))

  pub delivered-IsRead :
      (row : OutboxMessageEntity) (offset : ℕ)
      → E.number "0" ≡ some 0
      → ((p : BookingPayload) → E.booking_of (encode p) ≡ p.booking_id)
      → IsRead row (delivered row offset)
  unfolding delivered message_of id_of attempts_of body_of header
  delivered-IsRead row offset zero reads = (
    refl,
    zero,
    refl,
    (encode row.payload, E.parse-stringify (encode row.payload), reads row.payload),
  )

  module _ (D : Database) (send : TopicMessages BookingPayload → Result (Unit {0}))
      (config : Config) where
    -- A booking that was answered is announced: with the outbox on, the commit has written one row
    -- more, and its message, whenever it is delivered, tells the consumer of this booking. The
    -- hypotheses are that Number reads '0' and that the payload's JSON names the booking.
    pub booking_announced :
        (id : String) (dto : CreateBookingDto) (context : Context) (db db' : D.Db)
        (t t' : List Effect) (answer : BookingResponseDto) (offset : ℕ)
        → E.number "0" ≡ some 0
        → ((p : BookingPayload) → E.booking_of (encode p) ≡ p.booking_id)
        → uses_outbox config ≡ true
        → book D send config id dto context (db, t) ≡ (ok answer, (db', t'))
        → (row : OutboxMessageEntity) × (D.outbox db' ≡ row ∷ D.outbox db)
          × (row.event_type ≡ booking_confirmed)
          × (row.payload.booking_id ≡ answer.id)
          × IsRead row (delivered row offset)
    unfolding from
    booking_announced id dto context db db' t t' answer offset zero reads on ran =
        elim (book_atomic D send config id dto context db t) [
          | inr (x, undone) ↦
              let clash : ok answer ≡ err x = sym (ap (λ r. r.0) ran) ∙ ap (λ r. r.0) undone in
              absurd (cc clash)
          | inl (k, db₁, t₁, written, inr (x, naive, threw, _)) ↦
              let clash : ok answer ≡ err x = sym (ap (λ r. r.0) ran) ∙ ap (λ r. r.0) threw in
              absurd (cc clash)
          | inl (k, db₁, t₁, (e, _, _, _, _, _, _, _, grows), inl (answered, _)) ↦
              let (row, is, (_, type, _, _, payload, _, _)) =
                subst (λ b. OutboxGrows D config b id context k.booking k.event_name db db₁) on
                  grows in
              let told : ok (from k.booking k.seats_remaining config.lock_strategy) ≡ ok answer =
                sym (ap (λ r. r.0) answered) ∙ ap (λ r. r.0) ran in
              let same : from k.booking k.seats_remaining config.lock_strategy ≡ answer = cc told in
              let left : db₁ ≡ db' = sym (ap (λ r. r.1.0) answered) ∙ ap (λ r. r.1.0) ran in
              (
                row,
                ap D.outbox (sym left) ∙ is,
                type,
                ap (λ p. p.booking_id) payload ∙ ap (λ a. a.id) same,
                delivered-IsRead row offset zero reads,
              )
        ]
