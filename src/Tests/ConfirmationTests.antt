-- ===== src/Tests/ConfirmationTests.antt =====
-- A booking of two seats, and its message, which is delivered three times.
use overbook.Base.{
  ap, ℕ, suc, ◌-◌, ◌≡◌, refl, true, false, some, none, String, List, [], ◌∷◌, ◌++◌, arith,
}
use Prim.Native.String.{count}
use overbook.Failure.{Result, ok}
use overbook.Entities.{BookingPayload, OutboxMessageEntity, confirmed, pending}
use overbook.Booking.Types.{BookingResponseDto, Effect, optimistic, from}
use overbook.Booking.Service.{book, booking_confirmed}
use overbook.Booking.Service
use overbook.Booking.Decrement
use overbook.Outbox.Enqueue
use overbook.Notifications.Consumer.{Runtime}
use overbook.Notifications.Once.{emails}
use overbook.Confirmation.Wire.{delivered, IsRead, booking_announced}
use overbook.Confirmation.Stream.{Incoming, consume_all}
use overbook.Confirmation.Emailed.{accepted, emailed_once}
use overbook.Tests.SampleDatabase.{Tables, sample}
use overbook.Tests.BookingTests.{tables, dto, context, deliver_all}
use overbook.Tests.BookingTests
use overbook.Tests.NotificationsTests.{
  processed, processed-IsResponsive, config, marks, count-marks,
}

-- the JSON of a payload is the id of its booking, and a number n is written with n + 1 characters
abbrev runtime : Runtime String
runtime = record {
  P = processed;
  send = λ _. ok tt;
  parse = λ s. some s;
  stringify = λ s. s;
  number = λ s. some (count s - 1);
  show = λ n. marks (suc n);
  booking_of = λ s. s;
  parse-stringify = λ s. refl;
  number-show = λ n. let same = count-marks (suc n) in ap some (omega (arith, same));
}

abbrev encode : BookingPayload → String
encode p = p.booking_id

abbrev after_booking : Result BookingResponseDto × (Tables × List Effect)
after_booking =
    book sample deliver_all (BookingTests.config optimistic) "e1" (dto 2) context (tables, [])

abbrev answer : BookingResponseDto
answer = record {
  id = "booking-1";
  event_id = "e1";
  user_id = "user-42";
  quantity = 2;
  status = confirmed;
  seats_remaining = 1;
  lock_strategy = optimistic;
  created_at = 500;
}

answered : after_booking ≡ (ok answer, after_booking.1)
unfolding book Service.booking_transaction Decrement.decrement Decrement.decrement_optimistic
    Decrement.optimistic_rounds Service.enqueue_confirmation Enqueue.enqueue Service.after_commit
    from
answered = refl

booking_announced_example :
    (row : OutboxMessageEntity) × (after_booking.1.0.outbox ≡ row ∷ [])
    × (row.event_type ≡ booking_confirmed)
    × (row.payload.booking_id ≡ "booking-1")
    × IsRead runtime config encode row (delivered runtime config encode row 5)
booking_announced_example =
    booking_announced runtime config encode sample deliver_all (BookingTests.config optimistic) "e1"
      (dto 2) context tables after_booking.1.0 [] after_booking.1.1 answer 5 refl (λ p. refl) refl
      answered

abbrev row : OutboxMessageEntity
row = record {
  id = "message-1";
  aggregate_type = "booking";
  aggregate_id = "booking-1";
  event_type = "booking.confirmed";
  topic = "booking.events";
  message_key = "e1";
  payload = record {
    booking_id = "booking-1";
    event_id = "e1";
    user_id = "user-42";
    quantity = 2;
    event_name = "Arena";
    booked_at = 500;
    trace_id = none;
  };
  status = pending;
  attempts = 0;
  available_at = 500;
  published_at = none;
  last_error = none;
  created_at = 500;
}

abbrev refused : ℕ → Incoming
refused offset = record {
  message = delivered runtime config encode row offset;
  fails = true;
  now = 600;
  k = 1;
  d = 2;
}

emailed_once_example :
    emails "message-1"
      (consume_all runtime config
        ((refused 1 ∷ []) ++ (accepted runtime config encode row 2 700 1 2 ∷ refused 3 ∷ []))
        ((λ _. false, []), [])).0.1
    ≡ 1
unfolding emails
emailed_once_example =
    emailed_once runtime config encode row 2 700 1 2 (refused 1 ∷ []) (refused 3 ∷ [])
      ((λ _. false, []), []) processed-IsResponsive refl refl
