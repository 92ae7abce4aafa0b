-- ===== src/Tests/RouteTests.antt =====
-- One event with three seats, and a client that books two of them twice under one key.
use overbook.Base.{ℕ, zero, suc, ◌≡◌, refl, true, false, some, none, String, List, [], ◌∷◌}
use overbook.Failure.{Result, ok}
use overbook.Booking.Types.{BookingResponseDto, from, pessimistic}
use overbook.Entities.{confirmed}
use overbook.Booking.Service
use overbook.Booking.Decrement
use overbook.Redis.Bucket.{TokenBucketResult}
use overbook.Idempotency.Interceptor.{Answer}
use overbook.Idempotency.Interceptor
use overbook.Idempotency.Fingerprint.{Value}
use overbook.RateLimit
use overbook.Trace.Resolve
use overbook.Outbox.Enqueue
use overbook.Route.Pipeline.{Services, PostRequest, Server, key_of, post_booking}
use overbook.Route.Pipeline
use overbook.Route.Keeping.{serve_all}
use overbook.Route.Retry.{Repeats, booked_once}
use overbook.Route.Effects.{Effects, post_booking_lem}
use overbook.Tests.SampleDatabase.{sample}
use overbook.Tests.SampleKeys.{keys_of}
use overbook.Tests.FingerprintTests.{canon, body, other, reordered}
use overbook.Tests.BookingTests.{tables, config, deliver_all}

-- a bucket for all clients, which is never refilled
abbrev take : String → ℕ → ℕ → ℕ → Result TokenBucketResult × ℕ
take key capacity refill zero =
    (ok (record { allowed = false; remaining = 0; retry_after_ms = 100 }), zero)
take key capacity refill (suc n) =
    (ok (record { allowed = true; remaining = n; retry_after_ms = 0 }), n)

abbrev services : Services
services = record {
  D = sample;
  T = keys_of BookingResponseDto;
  Redis = ℕ;
  consume = take;
  send = deliver_all;
  canon = canon;
  pipes = λ _. ok ("e1", record { user_id = "u1"; quantity = 2 });
  config = config pessimistic;
  limits = record { enabled = true; capacity = none; refill_per_second = none };
}

abbrev server : ℕ → Server services
server tokens = record { redis = tokens; keys = λ _. none; world = (tables, []) }

abbrev request : String → Value → PostRequest
request key v = record {
  client = record { user_id = some "u1"; forwarded = none; ip = none };
  key = some key;
  method = "POST";
  url = "/events/e1/bookings";
  route = "/events/:eventId/bookings";
  body = v;
  trace_id = some "t1";
}

abbrev booked : Answer BookingResponseDto
booked = record {
  status = 201;
  body = some (record {
    id = "booking-1";
    event_id = "e1";
    user_id = "u1";
    quantity = 2;
    status = confirmed;
    seats_remaining = 1;
    lock_strategy = pessimistic;
    created_at = 500;
  });
  replayed = false;
}

first_answer : (post_booking services (request " k1 " body) (server 9)).0 ≡ ok booked
unfolding post_booking Pipeline.guard Pipeline.admitted RateLimit.can_activate RateLimit.fail_open
    RateLimit.decide key_of Resolve.trim Interceptor.claim Interceptor.insert_claim
    Interceptor.after_handler Service.book Service.booking_transaction Decrement.decrement
    Decrement.decrement_pessimistic Service.enqueue_confirmation Enqueue.enqueue
    Service.after_commit Interceptor.complete from
first_answer = refl

-- Another client books under its own key, and the first one tries again.
abbrev between : List PostRequest
between = request "k2" body ∷ request "k1" body ∷ []

abbrev after_them : Server services
after_them = serve_all services between (post_booking services (request " k1 " body) (server 9)).1

first_key : key_of (some " k1 ") ≡ some "k1"
unfolding key_of Resolve.trim
first_key = refl

retry_key : key_of (some "k1") ≡ some "k1"
unfolding key_of Resolve.trim
retry_key = refl

booked_once_example :
    Repeats services 201 booked.body after_them
      (post_booking services (request "k1" other) after_them)
booked_once_example =
    booked_once services (request " k1 " body) (request "k1" other) between (server 9) "k1" booked
      first_key retry_key refl refl reordered first_answer

post_booking_lem_example :
    Effects services
      (request "k1" body)
      (server 9)
      (post_booking services (request "k1" body) (server 9))
post_booking_lem_example = post_booking_lem services (request "k1" body) (server 9)
