-- ===== src/Booking/Integrity.antt =====
-- The integrity report: the counter column against the sum of the bookings table.
use overbook.Base.{ℕ, ◌+◌, ◌-◌, Bool, not, String, ◌==◌}
use overbook.Failure.{not_found, Action, pure, ◌>>=◌, or_throw}
use overbook.Entities.{EventEntity}
use overbook.Database.{Database}

pub record SeatIntegrityDto : Type 0 where
  pub event_id : String
  pub total_seats : ℕ
  pub available_seats : ℕ
  pub confirmed_seats : ℕ
  pub oversold_by : ℕ
  pub counter_drift : Bool

-- `Math.max(0, a - b)` is the truncated difference; `available !== total - confirmed` is written
-- as a sum, since the difference is negative when an event is oversold.
abbrev pub report_of : String → EventEntity → ℕ → SeatIntegrityDto
report_of id event sum = record {
  event_id = id;
  total_seats = event.total_seats;
  available_seats = event.available_seats;
  confirmed_seats = sum;
  oversold_by = sum - event.total_seats;
  counter_drift = not (event.available_seats + sum == event.total_seats);
}

module _ (D : Database) where
  open D use {Db, find_event, sum_confirmed}

  unfoldable pub integrity : String → Action Db SeatIntegrityDto
  integrity id = do
    found ← find_event id
    event ← or_throw found (not_found "Event" id)
    sum ← sum_confirmed id
    pure (report_of id event sum)
