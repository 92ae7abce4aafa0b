-- ===== src/Tests/BookingTests.antt =====
-- One event with three seats, and two ways to run a booking of two of them.
use overbook.Base.{ℕ, ◌≡◌, refl, ◌⊎◌, some, none, true, false, [], if◌then◌else◌, str_eq}
use overbook.Failure.{Result, ok, err, conflict}
use overbook.Entities.{EventEntity, BookingPayload}
use overbook.Kafka.Topics.{TopicMessages}
use overbook.Booking.Types.{
  BookingLockStrategy, pessimistic, optimistic, Config, CreateBookingDto, Context,
}
use overbook.Booking.Service
use overbook.Booking.Decrement
use overbook.Booking.Service.{book}
use overbook.Booking.Outcome.{Committed, RolledBack, book_atomic}
use overbook.Tests.SampleDatabase.{Tables, sample}

abbrev pub arena : EventEntity
arena = record {
  id = "e1";
  name = "Arena";
  venue = "Hanoi";
  total_seats = 3;
  available_seats = 3;
  price_cents = 25000;
  starts_at = 900;
  version = 0;
  created_at = 100;
  updated_at = 100;
}

abbrev pub tables : Tables
tables = record {
  events = λ id. if str_eq id "e1" then some arena else none;
  bookings = [];
  outbox = [];
  clock = 500;
}

abbrev pub config : BookingLockStrategy → Config
config strategy = record {
  lock_strategy = strategy;
  optimistic_max_retries = 5;
  outbox_enabled = true;
  direct_publish_mode = false;
  crash_after_commit = false;
  booking_topic = "booking.events";
}

abbrev pub dto : ℕ → CreateBookingDto
dto n = record { user_id = "user-42"; quantity = n }

abbrev pub context : Context
context = record { trace_id = some "t1"; idempotency_key = none }

abbrev pub deliver_all : TopicMessages BookingPayload → Result (Unit {0})
deliver_all batch = ok tt

book_sold_out :
    (book sample deliver_all (config pessimistic) "e1" (dto 4) context (tables, [])).0
    ≡ err (conflict "Sold out")
unfolding book Service.booking_transaction Decrement.decrement Decrement.decrement_pessimistic
    Service.count_failure
book_sold_out = refl

book_atomic_example :
    Committed sample deliver_all
      (config optimistic)
      "e1"
      (dto 2)
      context
      tables
      []
      (book sample deliver_all (config optimistic) "e1" (dto 2) context (tables, []))
    ⊎ RolledBack sample deliver_all
        (config optimistic)
        tables
        []
        (book sample deliver_all (config optimistic) "e1" (dto 2) context (tables, []))
book_atomic_example =
    book_atomic sample deliver_all (config optimistic) "e1" (dto 2) context tables []
