-- ===== src/Seats/System.antt =====
-- The requests for one event. Each runs the transaction of `book` a statement at a time; between two
-- statements of one request, any others may run theirs.
use overbook.Base.{ℕ, zero, suc, ◌+◌, ◌-◌, ◌≤◌, ◌<◌, ◌≡◌, ◌≢◌, some, ◌==◌, if◌then◌else◌}
use overbook.Entities.{EventEntity}
use overbook.Booking.Types.{BookingLockStrategy, pessimistic, optimistic}
use overbook.Booking.Decrement.{
  any_row, write_seats, write_seats_and_bump, unchanged_since, subtract_and_bump,
}
use overbook.Seats.Store.{RowStore}

pub record Request : Type 0 where
  pub strategy : BookingLockStrategy
  pub quantity : ℕ
  pub max_retries : ℕ

-- Where a request stands in its transaction. The number is that of the rounds that the optimistic
-- loop has left.
pub data Pc : Type 0 where
  begun : ℕ → Pc
  seen : ℕ → EventEntity → Pc
  taken : Pc
  booked : Pc
  done : Pc
  refused : Pc

abbrev pub update_pc : (ℕ → Pc) → ℕ → Pc → ℕ → Pc
update_pc pc i p j = if j == i then p else pc j

module _ (R : RowStore) where
  open R use {St, read, lock, update, commit, rollback}

  -- `sold` is the sum of the committed bookings of the event.
  pub record System : Type 0 where
    pub store : St
    pub sold : ℕ
    pub pc : ℕ → Pc

  -- One statement of transaction `i`, which books for `r`: the store, the sum and the place in the
  -- transaction, before and after.
  pub data Move (r : Request) (i : ℕ) (s : St) (sold : ℕ) : Pc → St → ℕ → Pc → Type 0 where
    -- findOne
    plain_read :
        {n : ℕ}
        → r.strategy ≢ pessimistic
        → Move r i s sold (begun (suc n)) s sold (seen n (read i s))
    -- findOne with the lock mode `pessimistic_write`
    locked_read :
        {n : ℕ} {row : EventEntity} {s' : St}
        → r.strategy ≡ pessimistic
        → lock i s ≡ some (row, s')
        → Move r i s sold (begun (suc n)) s' sold (seen n row)
    -- the loop of the optimistic strategy is over: too much contention
    out_of_rounds : Move r i s sold (begun zero) (rollback i s) sold refused
    -- ConflictException('Sold out')
    too_few :
        {n : ℕ} {row : EventEntity}
        → row.available_seats < r.quantity
        → Move r i s sold (seen n row) (rollback i s) sold refused
    naive_write :
        {n k : ℕ} {row : EventEntity} {s' : St}
        → r.strategy ≡ BookingLockStrategy.none
        → r.quantity ≤ row.available_seats
        → update i any_row (write_seats (row.available_seats - r.quantity)) s ≡ some (k, s')
        → Move r i s sold (seen n row) s' sold taken
    pessimistic_write :
        {n k : ℕ} {row : EventEntity} {s' : St}
        → r.strategy ≡ pessimistic
        → r.quantity ≤ row.available_seats
        → update i any_row (write_seats_and_bump (row.available_seats - r.quantity)) s
          ≡ some (k, s')
        → Move r i s sold (seen n row) s' sold taken
    -- the compare-and-set affected one row, or it lost and the loop goes round
    cas_won :
        {n : ℕ} {row : EventEntity} {s' : St}
        → r.strategy ≡ optimistic
        → r.quantity ≤ row.available_seats
        → update i (unchanged_since row r.quantity) (subtract_and_bump r.quantity) s ≡ some (1, s')
        → Move r i s sold (seen n row) s' sold taken
    cas_lost :
        {n : ℕ} {row : EventEntity} {s' : St}
        → r.strategy ≡ optimistic
        → r.quantity ≤ row.available_seats
        → update i (unchanged_since row r.quantity) (subtract_and_bump r.quantity) s ≡ some (0, s')
        → Move r i s sold (seen n row) s' sold (begun n)
    -- INSERT of the booking, seen by nobody before the commit
    insert_booking : Move r i s sold taken s sold booked
    commits : Move r i s sold booked (commit i s) (sold + r.quantity) done
    -- a statement fails, and the transaction is rolled back
    fails : {p : Pc} → p ≢ done → p ≢ refused → Move r i s sold p (rollback i s) sold refused

  pub data Step (requests : ℕ → Request) (a : System) : System → Type 0 where
    pick :
        (i : ℕ) {s' : St} {sold' : ℕ} {p' : Pc}
        → Move (requests i) i a.store a.sold (a.pc i) s' sold' p'
        → Step requests a (record { store = s'; sold = sold'; pc = update_pc a.pc i p' })

  abbrev pub start : (ℕ → Request) → EventEntity → System
  start requests event = record {
    store = R.init event;
    sold = 0;
    pc = λ i. begun ((requests i).max_retries + 1);
  }

  pub data Reach (requests : ℕ → Request) (event : EventEntity) : System → Type 0 where
    here : Reach requests event (start requests event)
    next : {a b : System} → Reach requests event a → Step requests a b → Reach requests event b
