-- ===== src/Route/Pipeline.antt =====
-- POST events/:eventId/bookings (`create` of src/bookings/bookings.controller.ts) as Nest runs it: the
-- guard, then the interceptor, then the pipes and the handler. The pipes (ParseUUIDPipe and the
-- validation of the DTO) are a parameter.
use overbook.Base.{ℕ, true, Option, none, some, String, str_append, if◌then◌else◌}
use mathlib.Core.Option.{map as option_map}
use overbook.Failure.{Result, ok, err, Action, pure, ◌>>=◌}
use overbook.Entities.{BookingPayload}
use overbook.Database.{Database}
use overbook.Kafka.Topics.{TopicMessages}
use overbook.Booking.Types.{Config, CreateBookingDto, BookingResponseDto}
use overbook.Booking.Service.{World, book}
use overbook.Idempotency.Table.{KeyTable}
use overbook.Idempotency.Interceptor.{Claim, proceed, replay, Answer, claim, after_handler, unkeyed}
use overbook.Idempotency.Fingerprint.{Canon, Value, request_fingerprint}
use overbook.RateLimit.{
  RateLimitOptions, RateLimitConfig, Client, first_of, bucket_key, can_activate,
}
use overbook.Redis.Bucket.{TokenBucketResult}
use overbook.Trace.Resolve.{trim, or_undefined}

-- what is read of a request; `route` is `request.route?.path ?? request.path`
pub record PostRequest : Type 0 where
  pub client : Client
  pub key : Option String
  pub method : String
  pub url : String
  pub route : String
  pub body : Value
  pub trace_id : Option String

-- What the route stands on. `consume` is consumeToken on the state of Redis.
pub record Services : Type 1 where
  pub D : Database
  pub T : KeyTable BookingResponseDto
  pub Redis : Type 0
  pub consume : String → ℕ → ℕ → Action Redis TokenBucketResult
  pub send : TopicMessages BookingPayload → Result (Unit {0})
  pub canon : Canon
  pub pipes : PostRequest → Result (String × CreateBookingDto)
  pub config : Config
  pub limits : RateLimitConfig

-- `@RateLimit({ bucket: 'booking' })`
abbrev pub booking_limit : RateLimitOptions
booking_limit = record { bucket = "booking"; capacity = none; refill_per_second = none }

-- `header?.trim()`
abbrev pub trimmed : Option String → Option String
trimmed = option_map trim

-- `const key = request.header(IDEMPOTENCY_HEADER)?.trim(); if (!key)`
unfoldable pub key_of : Option String → Option String
key_of none = none
key_of (some s) = or_undefined (trim s)

module _ (V : Services) where
  open V use {D, T, config, limits}

  pub record Server : Type 0 where
    pub redis : V.Redis
    pub keys : T.Db
    pub world : World D

  -- the buckets once the guard has asked the limiter, or has not
  abbrev pub asked : PostRequest → V.Redis → V.Redis
  asked req redis =
      if limits.enabled
      then (V.consume (bucket_key booking_limit req.client) (first_of none limits.capacity 20)
          (first_of none limits.refill_per_second 10) redis).1
      else redis

  -- `@UseGuards(RateLimitGuard)`: the guard answers `true` or throws
  unfoldable pub guard : PostRequest → V.Redis → Result (Unit {0})
  guard req redis =
      elim (can_activate limits (some booking_limit) req.client
        (λ key capacity refill. (V.consume key capacity refill redis).0)).0 [
          | ok _ ↦ ok tt
          | err e ↦ err e
        ]

  -- `create`
  unfoldable pub create :
      String
      → CreateBookingDto
      → Option String
      → Option String
      → Action (World D) BookingResponseDto
  create event_id dto trace_id key =
      book D V.send config event_id dto
        (record { trace_id = trace_id; idempotency_key = trimmed key })

  -- `next.handle()`: the pipes, and `create` with the status of a POST
  unfoldable pub handle : PostRequest → Action (World D) (ℕ × Option BookingResponseDto)
  unfolding create
  handle req w = elim (V.pipes req) [
    | err e ↦ (err e, w)
    | ok (event_id, dto) ↦ (create event_id dto req.trace_id req.key >>= λ r. pure (201, some r)) w
  ]

  -- the interceptor around the handler, once the claim is made
  unfoldable pub served :
      String
      → PostRequest
      → World D
      → Result (Claim BookingResponseDto) × T.Db
      → Result (Answer BookingResponseDto) × (T.Db × World D)
  unfolding handle create
  served key req w (err e, keys) = (err e, (keys, w))
  served key req w (ok (replay status body), keys) =
      (ok (record { status = status; body = body; replayed = true }), (keys, w))
  served key req w (ok proceed, keys) =
      let (r, w') = handle req w in
      let (answer, keys') = after_handler T key r keys in (answer, (keys', w'))

  -- `@UseInterceptors(IdempotencyInterceptor)`
  unfoldable pub intercepted :
      Option String → PostRequest → Action (T.Db × World D) (Answer BookingResponseDto)
  unfolding served handle create
  intercepted none req (keys, w) = let (r, w') = handle req w in ((unkeyed T r keys).0, (keys, w'))
  intercepted (some key) req (keys, w) = served key req w (
      claim T key (str_append req.method (str_append " " req.route))
        (request_fingerprint V.canon req.method req.url req.body) keys)

  abbrev pub with_state :
      V.Redis
      → Result (Answer BookingResponseDto) × (T.Db × World D)
      → Result (Answer BookingResponseDto) × Server
  with_state redis (r, (keys, w)) = (r, record { redis = redis; keys = keys; world = w })

  -- what follows the guard
  unfoldable pub admitted :
      Result (Unit {0}) → PostRequest → Action Server (Answer BookingResponseDto)
  unfolding intercepted served handle create
  admitted (err e) req s = (err e, record s { redis = asked req s.redis })
  admitted (ok _) req s =
      with_state (asked req s.redis) (intercepted (key_of req.key) req (s.keys, s.world))

  unfoldable pub post_booking : PostRequest → Action Server (Answer BookingResponseDto)
  unfolding guard admitted intercepted served handle create
  post_booking req s = admitted (guard req s.redis) req s
