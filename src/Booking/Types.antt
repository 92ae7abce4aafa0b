-- ===== src/Booking/Types.antt =====
-- What a booking is asked with, what it answers, and the settings that it reads
-- (src/bookings/dto, src/config/configuration.ts, src/kafka).
use overbook.Base.{ℕ, Bool, Option, String}
use overbook.Entities.{BookingEntity, BookingPayload, BookingStatus}
use overbook.Kafka.Topics.{OutgoingMessage}

pub data BookingLockStrategy : Type 0 where
  none pessimistic optimistic : BookingLockStrategy

-- the part of `configuration()` that the service reads
pub record Config : Type 0 where
  pub lock_strategy : BookingLockStrategy
  pub optimistic_max_retries : ℕ
  pub outbox_enabled : Bool
  pub direct_publish_mode : Bool
  pub crash_after_commit : Bool
  pub booking_topic : String

pub record CreateBookingDto : Type 0 where
  pub user_id : String
  pub quantity : ℕ

pub record Context : Type 0 where
  pub trace_id : Option String
  pub idempotency_key : Option String

pub record BookingResponseDto : Type 0 where
  pub id : String
  pub event_id : String
  pub user_id : String
  pub quantity : ℕ
  pub status : BookingStatus
  pub seats_remaining : ℕ
  pub lock_strategy : BookingLockStrategy
  pub created_at : ℕ

-- `BookingResponseDto.from`
unfoldable pub from : BookingEntity → ℕ → BookingLockStrategy → BookingResponseDto
from booking remaining strategy = record {
  id = booking.id;
  event_id = booking.event_id;
  user_id = booking.user_id;
  quantity = booking.quantity;
  status = booking.status;
  seats_remaining = remaining;
  lock_strategy = strategy;
  created_at = booking.created_at;
}

-- the `result` label of `bookings_total`
pub data Outcome : Type 0 where
  confirmed sold_out error : Outcome

-- What a request does outside the database, in order: metrics, the cache, the broker, the process.
pub data Effect : Type 0 where
  lock_timer_ended : BookingLockStrategy → Effect
  booking_counted : Outcome → BookingLockStrategy → Effect
  oversold_counted : String → Effect
  cache_deleted : String → Effect
  crash_scheduled : Effect
  sent : OutgoingMessage BookingPayload → Effect
  lost : String → Effect
