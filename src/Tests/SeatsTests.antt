-- ===== src/Tests/SeatsTests.antt =====
-- Three seats, and requests that want two each.
use overbook.Base.{ℕ, zero, suc, ◌+◌, ◌≤◌, ◌<◌, ◌≡◌, refl, arith, some, inl, inr, Bool-cases}
use overbook.Booking.Types.{BookingLockStrategy, pessimistic, optimistic}
use overbook.Seats.System.{
  Request, System, Reach, here, next, pick, locked_read, plain_read, pessimistic_write,
  insert_booking, commits,
}
use overbook.Seats.Safety.{Safe, never_oversold, cas_lost_to_commit}
use overbook.Seats.Oversell.{IsResponsive, naive_oversells}
use overbook.Tests.SampleRow.{sample_row}
use overbook.Tests.BookingTests.{arena}

-- Request 0 locks, the others compare and set.
abbrev mixed : ℕ → Request
mixed zero = record { strategy = pessimistic; quantity = 2; max_retries = 5 }
mixed (suc i) = record { strategy = optimistic; quantity = 2; max_retries = 5 }

mixed-Safe : Safe mixed
mixed-Safe zero = λ e. cc
mixed-Safe (suc i) = λ e. cc

-- Request 1 reads, and request 0 locks the row and writes it.
abbrev written : (a : System sample_row) × Reach sample_row mixed arena a
written = (
  _,
  next (next (next here (pick 1 (plain_read (λ e. cc)))) (pick 0 (locked_read refl refl)))
      (pick 0 (pessimistic_write refl (omega arith) refl)),
)

-- Then it inserts its booking and commits.
abbrev raced : (a : System sample_row) × Reach sample_row mixed arena a
raced = (_, next (next written.1 (pick 0 insert_booking)) (pick 0 commits))

never_oversold_example :
    (raced.0.sold ≤ 3) × (raced.0.store.committed.available_seats + raced.0.sold ≡ 3)
never_oversold_example = never_oversold sample_row mixed arena mixed-Safe raced.1

cas_lost_to_commit_example : 0 < raced.0.store.committed.version
cas_lost_to_commit_example =
    cas_lost_to_commit sample_row mixed arena mixed-Safe raced.1 1 5 arena raced.0.store refl refl
      (omega arith) refl

-- Both requests take the broken way.
abbrev naive : ℕ → Request
naive i = record { strategy = BookingLockStrategy.none; quantity = 2; max_retries = 5 }

sample_row-IsResponsive : IsResponsive sample_row
sample_row-IsResponsive i test put s free = elim (Bool-cases (test s.committed)) [
  | inl hit ↦ (1, record s { owner = some i; pending = put s.committed }, ground arith)
  | inr miss ↦ (0, s, ground arith)
]

naive_oversells_example :
    (a : System sample_row) × Reach sample_row naive arena a
    × (a.sold ≡ 4)
    × (a.store.committed.available_seats + 2 ≡ 3)
naive_oversells_example =
    naive_oversells sample_row naive arena sample_row-IsResponsive refl refl (omega arith)
      (omega arith)
