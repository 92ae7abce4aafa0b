-- ===== src/Entities.antt =====
-- The rows that the services store (src/bookings/entities, src/events/entities, src/outbox/entities)
-- and the payload of a confirmation. An instant is its number of milliseconds; a Date and its ISO
-- text are the same instant here. Seats, prices and versions are never negative in the code.
use overbook.Base.{
  ℕ, ◌+◌, Bool, true, false, ◌&&◌, if◌then◌else◌, str_eq, Option, String, List, [], ◌∷◌,
}

pub record EventEntity : Type 0 where
  pub id : String
  pub name : String
  pub venue : String
  pub total_seats : ℕ
  pub available_seats : ℕ
  pub price_cents : ℕ
  pub starts_at : ℕ
  pub version : ℕ
  pub created_at : ℕ
  pub updated_at : ℕ

pub data BookingStatus : Type 0 where
  confirmed cancelled : BookingStatus

pub record BookingEntity : Type 0 where
  pub id : String
  pub event_id : String
  pub user_id : String
  pub quantity : ℕ
  pub status : BookingStatus
  pub idempotency_key : Option String
  pub created_at : ℕ
  pub updated_at : ℕ

-- the payload of `booking.confirmed`, with the trace id that the outbox row carries
pub record BookingPayload : Type 0 where
  pub booking_id : String
  pub event_id : String
  pub user_id : String
  pub quantity : ℕ
  pub event_name : String
  pub booked_at : ℕ
  pub trace_id : Option String

pub data OutboxStatus : Type 0 where
  pending published failed : OutboxStatus

pub record OutboxMessageEntity : Type 0 where
  pub id : String
  pub aggregate_type : String
  pub aggregate_id : String
  pub event_type : String
  pub topic : String
  pub message_key : String
  pub payload : BookingPayload
  pub status : OutboxStatus
  pub attempts : ℕ
  pub available_at : ℕ
  pub published_at : Option ℕ
  pub last_error : Option String
  pub created_at : ℕ

abbrev pub is_confirmed : BookingStatus → Bool
is_confirmed confirmed = true
is_confirmed cancelled = false

-- SUM(quantity) over the rows of one event whose status is `confirmed`.
unfoldable pub confirmed_seats : String → List BookingEntity → ℕ
confirmed_seats event [] = 0
confirmed_seats event (b ∷ bs) =
    if str_eq b.event_id event && is_confirmed b.status
    then b.quantity + confirmed_seats event bs
    else confirmed_seats event bs
