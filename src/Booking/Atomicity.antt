-- ===== src/Booking/Atomicity.antt =====
-- The transaction of `book`: the seats, the booking row and the outbox row.
use overbook.Base.{
  ◌+◌, ◌≤◌, ◌≡◌, refl, ◌≢◌, ap, ◌∙◌, ◌⊎◌, inl, inr, Bool, true, false, some, String, ◌∷◌, arith,
  Bool-cases,
}
use overbook.Failure.{Failure, failed, ok, err}
use overbook.Entities.{BookingEntity, EventEntity, OutboxMessageEntity, pending}
use overbook.Database.{Database, BookingOf}
use overbook.Outbox.Enqueue.{enqueue, create_message}
use overbook.Booking.Types.{Config, CreateBookingDto, Context}
use overbook.Booking.Service.{
  Booked, booking_confirmed, new_booking, payload_of, outbox_input, uses_outbox,
  enqueue_confirmation, booking_transaction,
}
use overbook.Booking.Takes.{taken_row, version_bump, decrement-Takes}

-- The outbox row that tells the world of a booking.
abbrev pub Announces :
    Config → String → Context → BookingEntity → String → OutboxMessageEntity → Type 0
Announces c event_id context booking event_name m =
    (m.aggregate_id ≡ booking.id)
    × (m.event_type ≡ booking_confirmed)
    × (m.topic ≡ c.booking_topic)
    × (m.message_key ≡ event_id)
    × (m.payload ≡ payload_of booking event_id event_name context.trace_id)
    × (m.status ≡ pending)
    × (m.attempts ≡ 0)

module _ (D : Database) (c : Config) where
  open D use {Db, event, bookings, outbox}

  -- With the outbox on there is one row more, and it announces the booking.
  abbrev pub OutboxGrows : Bool → String → Context → BookingEntity → String → Db → Db → Type 0
  OutboxGrows true event_id context booking event_name db db' =
      (m : OutboxMessageEntity) × (outbox db' ≡ m ∷ outbox db)
      × Announces c event_id context booking event_name m
  OutboxGrows false event_id context booking event_name db db' = outbox db' ≡ outbox db

  -- Everything that a booking writes, at once.
  abbrev pub Written : String → CreateBookingDto → Context → Db → Booked → Db → Type 0
  Written id dto context db k db' =
      (e : EventEntity) × (event id db ≡ some e)
      × (dto.quantity ≤ e.available_seats)
      × (k.seats_remaining + dto.quantity ≡ e.available_seats)
      × (event id db' ≡ some (taken_row D (version_bump c.lock_strategy) dto.quantity db e))
      × ((other : String) → other ≢ id → event other db' ≡ event other db)
      × (bookings db' ≡ k.booking ∷ bookings db)
      × BookingOf (new_booking id dto context) k.booking
      × OutboxGrows (uses_outbox c) id context k.booking k.event_name db db'

  -- The step that writes the outbox row leaves the other tables alone.
  enqueue_confirmation_lem :
      (id : String) (context : Context) (b : BookingEntity) (name : String) (db : Db)
      → ((db' : Db) × (enqueue_confirmation D c id context b name db ≡ (ok tt, db'))
          × ((other : String) → event other db' ≡ event other db)
          × (bookings db' ≡ bookings db)
          × OutboxGrows (uses_outbox c) id context b name db db')
        ⊎ ((x : Failure) × (db' : Db) × (enqueue_confirmation D c id context b name db
              ≡ (err x, db')))
  unfolding enqueue_confirmation enqueue create_message
  enqueue_confirmation_lem id context b name db = elim (Bool-cases (uses_outbox c)) [
    | inr off ↦ inl (db, ground arith, λ _. refl, refl, rw off refl)
    | inl on ↦
        elim (D.save_message_law (create_message D (outbox_input c id context b name) db) db) [
          | inr (msg, h) ↦ inr (failed msg, db, ground arith)
          | inl (db', m, h, of, os, es, bs) ↦
              inl (
                db',
                ground arith,
                es,
                bs,
                rw on (m, os, (of.1, of.2, of.3, of.4, of.5, of.6, of.7)),
              )
        ]
  ]

  OutboxGrows-earlier :
      (on : Bool) (id : String) (context : Context) (b : BookingEntity) (name : String)
      (db db₂ db₃ : Db)
      → outbox db₂ ≡ outbox db
      → OutboxGrows on id context b name db₂ db₃
      → OutboxGrows on id context b name db db₃
  OutboxGrows-earlier true id context b name db db₂ db₃ e (m, h, a) = (m, h ∙ ap (λ l. m ∷ l) e, a)
  OutboxGrows-earlier false id context b name db db₂ db₃ e h = h ∙ e

  -- The body of the transaction writes everything, or throws.
  pub booking_transaction_lem :
      (id : String) (dto : CreateBookingDto) (context : Context) (db : Db)
      → ((k : Booked) × (db' : Db) × (booking_transaction D c id dto context db ≡ (ok k, db'))
          × Written id dto context db k db')
        ⊎ ((x : Failure) × (db' : Db) × (booking_transaction D c id dto context db ≡ (err x, db')))
  unfolding booking_transaction
  booking_transaction_lem id dto context db =
      elim (decrement-Takes D c.lock_strategy c.optimistic_max_retries id dto.quantity db) [
        | inr (x, h, why) ↦ inr (x, db, ground arith)
        | inl (d, db₁, e, h, s, enough, left, named, row₁, others₁, bs₁, os₁) ↦
            elim (D.save_booking_law (new_booking id dto context) db₁) [
              | inr (msg, h₂) ↦ inr (failed msg, db₁, ground arith)
              | inl (db₂, b, h₂, of, bs₂, es₂, os₂) ↦
                  elim (enqueue_confirmation_lem id context b d.event_name db₂) [
                    | inr (x, db₃, h₃) ↦ inr (x, db₃, ground arith)
                    | inl (db₃, h₃, es₃, bs₃, grows) ↦ inl (
                      record {
                        booking = b;
                        seats_remaining = d.seats_remaining;
                        event_name = d.event_name;
                      },
                      db₃,
                      ground arith,
                      (
                        e,
                        s,
                        enough,
                        left,
                        es₃ id ∙ es₂ id ∙ row₁,
                        λ other ne. es₃ other ∙ es₂ other ∙ others₁ other ne,
                        bs₃ ∙ bs₂ ∙ ap (λ l. b ∷ l) bs₁,
                        of,
                        OutboxGrows-earlier _ id context b d.event_name db db₂ db₃ (os₂ ∙ os₁)
                            grows,
                      ),
                    )
                  ]
            ]
      ]
