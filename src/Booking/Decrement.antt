-- ===== src/Booking/Decrement.antt =====
-- The three ways to take seats off the counter.
use overbook.Base.{ℕ, zero, suc, ◌+◌, ◌-◌, Bool, true, ◌&&◌, String, ltb, leb, ◌==◌, if◌then◌else◌}
use overbook.Failure.{
  Failure, not_found, conflict, Action, pure, throw, ◌>>=◌, ◌>>◌, throw_if, or_throw,
}
use overbook.Entities.{EventEntity}
use overbook.Database.{Database}
use overbook.Booking.Types.{BookingLockStrategy, pessimistic, optimistic}

pub record Decrement : Type 0 where
  pub seats_remaining : ℕ
  pub event_name : String

abbrev pub sold_out_error : Failure
sold_out_error = conflict "Sold out"

abbrev pub contention_error : Failure
contention_error = conflict "Too much contention on this event, please retry"

-- The new columns of each UPDATE.
abbrev pub write_seats : ℕ → EventEntity → EventEntity
write_seats remaining e = record e { available_seats = remaining }

abbrev pub write_seats_and_bump : ℕ → EventEntity → EventEntity
write_seats_and_bump remaining e = record e { available_seats = remaining; version = e.version + 1 }

-- `available_seats - quantity`, `version + 1`
abbrev pub subtract_and_bump : ℕ → EventEntity → EventEntity
subtract_and_bump quantity e = record e {
  available_seats = e.available_seats - quantity;
  version = e.version + 1;
}

-- `version = :version AND available_seats >= :quantity`
abbrev pub unchanged_since : EventEntity → ℕ → EventEntity → Bool
unchanged_since seen quantity e = e.version == seen.version && leb quantity e.available_seats

abbrev pub any_row : EventEntity → Bool
any_row e = true

module _ (D : Database) where
  open D use {Db, find_event, find_event_for_update, update_event}

  unfoldable pub decrement_naive : String → ℕ → Action Db Decrement
  decrement_naive event_id quantity = do
    found ← find_event event_id
    event ← or_throw found (not_found "Event" event_id)
    throw_if (ltb event.available_seats quantity) sold_out_error
    let remaining = event.available_seats - quantity
    affected ← update_event event_id any_row (write_seats remaining)
    pure (record { seats_remaining = remaining; event_name = event.name })

  unfoldable pub decrement_pessimistic : String → ℕ → Action Db Decrement
  decrement_pessimistic event_id quantity = do
    found ← find_event_for_update event_id
    event ← or_throw found (not_found "Event" event_id)
    throw_if (ltb event.available_seats quantity) sold_out_error
    let remaining = event.available_seats - quantity
    affected ← update_event event_id any_row (write_seats_and_bump remaining)
    pure (record { seats_remaining = remaining; event_name = event.name })

  -- `for (attempt = 0; attempt <= maxRetries; attempt++)`, by the number of rounds left
  unfoldable pub optimistic_rounds : ℕ → String → ℕ → Action Db Decrement
  optimistic_rounds zero event_id quantity = throw contention_error
  optimistic_rounds (suc rounds) event_id quantity =
      let again = optimistic_rounds rounds event_id quantity in
      do
        found ← find_event event_id
        event ← or_throw found (not_found "Event" event_id)
        throw_if (ltb event.available_seats quantity) sold_out_error
        affected ←
            update_event event_id (unchanged_since event quantity) (subtract_and_bump quantity)
        let left = event.available_seats - quantity
        let taken = pure (record { seats_remaining = left; event_name = event.name })
        if affected == 1 then taken else again

  unfoldable pub decrement_optimistic : ℕ → String → ℕ → Action Db Decrement
  unfolding optimistic_rounds
  decrement_optimistic max_retries = optimistic_rounds (max_retries + 1)

  -- the conditional in the body of the transaction
  unfoldable pub decrement : BookingLockStrategy → ℕ → String → ℕ → Action Db Decrement
  decrement pessimistic max_retries = decrement_pessimistic
  decrement optimistic max_retries = decrement_optimistic max_retries
  decrement BookingLockStrategy.none max_retries = decrement_naive
