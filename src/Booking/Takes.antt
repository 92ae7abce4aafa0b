-- ===== src/Booking/Takes.antt =====
-- What each strategy does to the counter when no other transaction comes between its statements.
use native.Mathlib.Numerals.{add-one}
use overbook.Base.{
  ℕ, suc, ◌+◌, ◌-◌, ◌≤◌, ◌<◌, ◌≡◌, refl, ◌≢◌, ◌⊎◌, inl, inr, Option, none, some, String, arith,
  Option-cases,
}
use overbook.Failure.{Failure, not_found, failed, Result, ok, err}
use overbook.Entities.{EventEntity}
use overbook.Database.{Database, Fails, Reads}
use overbook.Booking.Types.{BookingLockStrategy, pessimistic, optimistic}
use overbook.Booking.Decrement.{
  Decrement, sold_out_error, decrement_naive, decrement_pessimistic, optimistic_rounds,
  decrement_optimistic, decrement, write_seats, any_row, write_seats_and_bump, unchanged_since,
  subtract_and_bump,
}

abbrev decremented : EventEntity → ℕ → Decrement
decremented e q = record { seats_remaining = e.available_seats - q; event_name = e.name }

-- Only the naive write leaves the version alone.
abbrev pub version_bump : BookingLockStrategy → ℕ
version_bump BookingLockStrategy.none = 0
version_bump _ = 1

module _ (D : Database) where
  open D use {Db, event, bookings, outbox, now}

  -- The row with `quantity` seats fewer, and its version raised by `bump`.
  abbrev pub taken_row : ℕ → ℕ → Db → EventEntity → EventEntity
  taken_row bump quantity db e = record e {
    available_seats = e.available_seats - quantity;
    version = e.version + bump;
    updated_at = now db;
  }

  -- Why a decrement is refused.
  abbrev pub Refused : String → ℕ → Db → Failure → Type 0
  Refused id quantity db x =
      ((x ≡ not_found "Event" id) × (event id db ≡ none))
      ⊎ ((x ≡ sold_out_error)
          × ((e : EventEntity) × (event id db ≡ some e) × (e.available_seats < quantity)))
      ⊎ ((msg : String) × (x ≡ failed msg))

  -- The outcome of a decrement: the seats were there and are gone from this row alone, or it threw
  -- for one of three reasons and the tables are as before.
  abbrev pub Takes : ℕ → String → ℕ → Db → Result Decrement × Db → Type 0
  Takes bump id quantity db r =
      ((d : Decrement) × (db' : Db) × (e : EventEntity) × (r ≡ (ok d, db'))
        × (event id db ≡ some e)
        × (quantity ≤ e.available_seats)
        × (d.seats_remaining + quantity ≡ e.available_seats)
        × (d.event_name ≡ e.name)
        × (event id db' ≡ some (taken_row bump quantity db e))
        × ((other : String) → other ≢ id → event other db' ≡ event other db)
        × (bookings db' ≡ bookings db)
        × (outbox db' ≡ outbox db))
      ⊎ ((x : Failure) × (r ≡ (err x, db)) × Refused id quantity db x)

  -- What a read of the event leads to.
  abbrev ReadCase : String → ℕ → Db → Result (Option EventEntity) × Db → Type 0
  ReadCase id q db r =
      Fails r db
      ⊎ ((r ≡ (ok none, db)) × (event id db ≡ none))
      ⊎ ((e : EventEntity) × (r ≡ (ok (some e), db))
          × (event id db ≡ some e)
          × ((e.available_seats < q) ⊎ (q ≤ e.available_seats)))

  read_cases :
      (id : String) (q : ℕ) (db : Db) (r : Result (Option EventEntity) × Db)
      → Reads r (event id db) db
      → ReadCase id q db r
  read_cases id q db r (inr fails) = inl fails
  read_cases id q db r (inl h) = elim (Option-cases (event id db)) [
    | inl n ↦ inr (inl (ground arith, n))
    | inr (e, s) ↦ inr (inr (e, ground arith, s, omega arith))
  ]

  naive-Takes : (id : String) (q : ℕ) (db : Db) → Takes 0 id q db (decrement_naive D id q db)
  unfolding decrement_naive
  naive-Takes id q db = elim (read_cases id q db _ (D.find_event_law id db)) [
    | inl (msg, h) ↦ inr (failed msg, ground arith, inr (inr (msg, refl)))
    | inr (inl (h, n)) ↦ inr (not_found "Event" id, ground arith, inl (refl, n))
    | inr (inr (e, h, s, inl short)) ↦
        inr (sold_out_error, ground arith, inr (inl (refl, (e, s, short))))
    | inr (inr (e, h, s, inr enough)) ↦
        elim (D.update_event_hit id any_row (write_seats (e.available_seats - q)) db e s refl
          refl) [
            | inr (msg, u) ↦ inr (failed msg, ground arith, inr (inr (msg, refl)))
            | inl (db', u, row, others, bs, os) ↦ inl (
              decremented e q,
              db',
              e,
              ground arith,
              s,
              enough,
              omega arith,
              refl,
              ground arith,
              others,
              bs,
              os,
            )
          ]
  ]

  pessimistic-Takes :
      (id : String) (q : ℕ) (db : Db) → Takes 1 id q db (decrement_pessimistic D id q db)
  unfolding decrement_pessimistic
  pessimistic-Takes id q db = elim (read_cases id q db _ (D.find_event_for_update_law id db)) [
    | inl (msg, h) ↦ inr (failed msg, ground arith, inr (inr (msg, refl)))
    | inr (inl (h, n)) ↦ inr (not_found "Event" id, ground arith, inl (refl, n))
    | inr (inr (e, h, s, inl short)) ↦
        inr (sold_out_error, ground arith, inr (inl (refl, (e, s, short))))
    | inr (inr (e, h, s, inr enough)) ↦
        elim (D.update_event_hit id any_row (write_seats_and_bump (e.available_seats - q)) db e s
          refl refl) [
            | inr (msg, u) ↦ inr (failed msg, ground arith, inr (inr (msg, refl)))
            | inl (db', u, row, others, bs, os) ↦ inl (
              decremented e q,
              db',
              e,
              ground arith,
              s,
              enough,
              omega arith,
              refl,
              ground arith,
              others,
              bs,
              os,
            )
          ]
  ]

  optimistic-Takes :
      (rounds : ℕ) (id : String) (q : ℕ) (db : Db)
      → Takes 1 id q db (optimistic_rounds D (suc rounds) id q db)
  unfolding optimistic_rounds
  optimistic-Takes rounds id q db = elim (read_cases id q db _ (D.find_event_law id db)) [
    | inl (msg, h) ↦ inr (failed msg, ground arith, inr (inr (msg, refl)))
    | inr (inl (h, n)) ↦ inr (not_found "Event" id, ground arith, inl (refl, n))
    | inr (inr (e, h, s, inl short)) ↦
        inr (sold_out_error, ground arith, inr (inl (refl, (e, s, short))))
    | inr (inr (e, h, s, inr enough)) ↦
        elim (D.update_event_hit id (unchanged_since e q) (subtract_and_bump q) db e s
          (ground arith) refl) [
            | inr (msg, u) ↦ inr (failed msg, ground arith, inr (inr (msg, refl)))
            | inl (db', u, row, others, bs, os) ↦ inl (
              decremented e q,
              db',
              e,
              ground arith,
              s,
              enough,
              omega arith,
              refl,
              ground arith,
              others,
              bs,
              os,
            )
          ]
  ]

  -- Under every strategy a decrement takes exactly the seats that it was asked for, from the one row.
  pub decrement-Takes :
      (strategy : BookingLockStrategy) (max_retries : ℕ) (id : String) (q : ℕ) (db : Db)
      → Takes (version_bump strategy) id q db (decrement D strategy max_retries id q db)
  unfolding decrement decrement_optimistic
  decrement-Takes BookingLockStrategy.none max_retries id q db = naive-Takes id q db
  decrement-Takes pessimistic max_retries id q db = pessimistic-Takes id q db
  decrement-Takes optimistic max_retries id q db = rw add-one (optimistic-Takes max_retries id q db)
