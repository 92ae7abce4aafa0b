-- ===== src/Booking/Service.antt =====
-- `BookingsService.book`.
use overbook.Base.{
  ℕ, Bool, true, false, not, ◌&&◌, Option, String, List, [], ◌∷◌, ltb, if◌then◌else◌, str_append,
}
use mathlib.Core.Option.{get_or}
use overbook.Failure.{
  Failure, Result, ok, err, Action, is_conflict, pure, throw, ◌>>=◌, ◌>>◌, catch,
}
use overbook.Entities.{BookingEntity, BookingPayload, BookingStatus}
use overbook.Database.{Database, NewBooking}
use overbook.Kafka.Topics.{
  OutgoingMessage, TopicMessages, publish, header_message_id, header_event_type, header_trace_id,
}
use overbook.Outbox.Enqueue.{EnqueueOutboxInput, enqueue}
use overbook.Booking.Types.{
  BookingLockStrategy, Config, CreateBookingDto, Context, BookingResponseDto, from, Outcome,
  sold_out, error, Effect, lock_timer_ended, booking_counted, oversold_counted, cache_deleted,
  crash_scheduled, sent, lost,
}
use overbook.Booking.Decrement.{decrement}
use overbook.Booking.Integrity.{integrity}

abbrev pub booking_confirmed : String
booking_confirmed = "booking.confirmed"

abbrev pub event_cache_key : String → String
event_cache_key id = str_append "cache:event:" id

-- what the transaction hands back
pub record Booked : Type 0 where
  pub booking : BookingEntity
  pub seats_remaining : ℕ
  pub event_name : String

-- what `create` is given for the booking row
abbrev pub new_booking : String → CreateBookingDto → Context → NewBooking
new_booking event_id dto context = record {
  event_id = event_id;
  user_id = dto.user_id;
  quantity = dto.quantity;
  status = BookingStatus.confirmed;
  idempotency_key = context.idempotency_key;
}

abbrev pub payload_of : BookingEntity → String → String → Option String → BookingPayload
payload_of booking event_id event_name trace_id = record {
  booking_id = booking.id;
  event_id = event_id;
  user_id = booking.user_id;
  quantity = booking.quantity;
  event_name = event_name;
  booked_at = booking.created_at;
  trace_id = trace_id;
}

-- what `enqueue` is given
abbrev pub outbox_input : Config → String → Context → BookingEntity → String → EnqueueOutboxInput
outbox_input c event_id context booking event_name = record {
  aggregate_type = "booking";
  aggregate_id = booking.id;
  event_type = booking_confirmed;
  topic = c.booking_topic;
  message_key = event_id;
  payload = payload_of booking event_id event_name context.trace_id;
}

-- the message of the dual write
abbrev pub direct_message :
    Config → BookingEntity → String → Option String → OutgoingMessage BookingPayload
direct_message c booking event_name trace_id = record {
  topic = c.booking_topic;
  key = booking.event_id;
  value = payload_of booking booking.event_id event_name trace_id;
  headers =
      (header_message_id, booking.id)
      ∷ (header_event_type, booking_confirmed)
      ∷ (header_trace_id, get_or trace_id "")
      ∷ [];
}

abbrev pub uses_outbox : Config → Bool
uses_outbox c = c.outbox_enabled && not c.direct_publish_mode

abbrev pub is_naive : BookingLockStrategy → Bool
is_naive BookingLockStrategy.none = true
is_naive _ = false

-- `error instanceof ConflictException ? 'sold_out' : 'error'`
abbrev pub outcome_of : Failure → Outcome
outcome_of e = if is_conflict e then sold_out else error

module _ (D : Database) (c : Config) where
  open D use {Db, save_booking, transaction}

  -- the outbox row, if the event is not published directly
  unfoldable pub enqueue_confirmation :
      String → Context → BookingEntity → String → Action Db (Unit {0})
  enqueue_confirmation event_id context booking event_name =
      if uses_outbox c
      then (do message ← enqueue D (outbox_input c event_id context booking event_name); pure tt)
      else pure tt

  -- the body of the transaction
  unfoldable pub booking_transaction : String → CreateBookingDto → Context → Action Db Booked
  booking_transaction event_id dto context = do
    result ← decrement D c.lock_strategy c.optimistic_max_retries event_id dto.quantity
    booking ← save_booking (new_booking event_id dto context)
    enqueue_confirmation event_id context booking result.event_name
    pure (record {
      booking = booking;
      seats_remaining = result.seats_remaining;
      event_name = result.event_name;
    })

-- The database and what has been done outside it, the latest first.
abbrev pub World : Database → Type 0
World D = D.Db × List Effect

module _ (D : Database) where
  abbrev pub in_db : {A : Type 0} → Action D.Db A → Action (World D) A
  in_db m (db, trace) = let (r, db') = m db in (r, (db', trace))

  abbrev pub do_effect : Effect → Action (World D) (Unit {0})
  do_effect e (db, trace) = (ok tt, (db, e ∷ trace))

  unfoldable pub record_oversold_if_any : String → Action (World D) (Unit {0})
  record_oversold_if_any event_id = do
    report ← in_db (integrity D event_id)
    if ltb 0 report.oversold_by then do_effect (oversold_counted event_id) else pure tt

module _ (D : Database) (send : TopicMessages BookingPayload → Result (Unit {0})) (c : Config) where
  -- a failed publish is logged, and the event is lost
  unfoldable pub publish_directly :
      BookingEntity → String → Option String → Action (World D) (Unit {0})
  publish_directly booking event_name trace_id =
      let message = direct_message c booking event_name trace_id in
      elim (publish send message) [
        | ok _ ↦ do_effect D (sent message)
        | err _ ↦ do_effect D (lost booking.id)
      ]

  -- what follows the commit
  unfoldable pub after_commit : String → Context → Booked → Action (World D) BookingResponseDto
  after_commit event_id context booked = do
    do_effect D (lock_timer_ended c.lock_strategy)
    do_effect D (booking_counted Outcome.confirmed c.lock_strategy)
    do_effect D (cache_deleted (event_cache_key event_id))
    if is_naive c.lock_strategy then record_oversold_if_any D event_id else pure tt
    if c.crash_after_commit then do_effect D crash_scheduled else pure tt
    if c.direct_publish_mode
        then publish_directly booked.booking booked.event_name context.trace_id
        else pure tt
    pure (from booked.booking booked.seats_remaining c.lock_strategy)

  -- the `catch` block
  unfoldable pub count_failure : Failure → Action (World D) BookingResponseDto
  count_failure e = do
    do_effect D (lock_timer_ended c.lock_strategy)
    do_effect D (booking_counted (outcome_of e) c.lock_strategy)
    throw e

  unfoldable pub book : String → CreateBookingDto → Context → Action (World D) BookingResponseDto
  book event_id dto context =
      catch
        (in_db D (D.transaction Booked (booking_transaction D c event_id dto context))
          >>= after_commit event_id context)
        count_failure
