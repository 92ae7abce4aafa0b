-- ===== src/Database.antt =====
-- What the services rely on of PostgreSQL and TypeORM, as an interface: the statements that
-- bookings.service.ts and outbox.service.ts issue, the tables as an observer sees them, and the
-- documented effect of each statement. A statement may always fail, and then changes nothing.
use overbook.Base.{ℕ, ◌≡◌, ◌≢◌, ◌⊎◌, Bool, true, false, Option, some, String, List, ◌∷◌}
use overbook.Failure.{Failure, failed, Result, ok, err, Action}
use overbook.Entities.{
  EventEntity, BookingEntity, BookingStatus, confirmed_seats, OutboxMessageEntity, OutboxStatus,
  BookingPayload,
}

-- what `repository.create` is given for a booking
pub record NewBooking : Type 0 where
  pub event_id : String
  pub user_id : String
  pub quantity : ℕ
  pub status : BookingStatus
  pub idempotency_key : Option String

-- what `repository.create` is given for an outbox row
pub record NewMessage : Type 0 where
  pub aggregate_type : String
  pub aggregate_id : String
  pub event_type : String
  pub topic : String
  pub message_key : String
  pub payload : BookingPayload
  pub status : OutboxStatus
  pub attempts : ℕ
  pub available_at : ℕ

-- The statement threw, and the tables are as before.
abbrev pub Fails : {S A : Type 0} → Result A × S → S → Type 0
Fails r s = (msg : String) × (r ≡ (err (failed msg), s))

-- The statement returned `a`, or failed; the tables are as before.
abbrev pub Reads : {S A : Type 0} → Result A × S → A → S → Type 0
Reads r a s = (r ≡ (ok a, s)) ⊎ Fails r s

-- The row holds what the code asked for.
abbrev pub BookingOf : NewBooking → BookingEntity → Type 0
BookingOf n b =
    (b.event_id ≡ n.event_id)
    × (b.user_id ≡ n.user_id)
    × (b.quantity ≡ n.quantity)
    × (b.status ≡ n.status)
    × (b.idempotency_key ≡ n.idempotency_key)

abbrev pub MessageOf : NewMessage → OutboxMessageEntity → Type 0
MessageOf n m =
    (m.aggregate_type ≡ n.aggregate_type)
    × (m.aggregate_id ≡ n.aggregate_id)
    × (m.event_type ≡ n.event_type)
    × (m.topic ≡ n.topic)
    × (m.message_key ≡ n.message_key)
    × (m.payload ≡ n.payload)
    × (m.status ≡ n.status)
    × (m.attempts ≡ n.attempts)
    × (m.available_at ≡ n.available_at)

pub record Database : Type 1 where
  -- the tables
  pub Db : Type 0
  pub event : String → Db → Option EventEntity
  pub bookings : Db → List BookingEntity
  pub outbox : Db → List OutboxMessageEntity
  -- `new Date()` in the process, and the timestamp that an UPDATE puts into `updated_at`
  pub now : Db → ℕ
  -- the statements
  pub find_event : String → Action Db (Option EventEntity)
  pub find_event_for_update : String → Action Db (Option EventEntity)
  pub update_event : String → (EventEntity → Bool) → (EventEntity → EventEntity) → Action Db ℕ
  pub save_booking : NewBooking → Action Db BookingEntity
  pub save_message : NewMessage → Action Db OutboxMessageEntity
  pub sum_confirmed : String → Action Db ℕ
  pub transaction : (A : Type 0) → Action Db A → Action Db A
  -- a read returns the row
  pub find_event_law : (id : String) (db : Db) → Reads (find_event id db) (event id db) db
  pub find_event_for_update_law :
      (id : String) (db : Db) → Reads (find_event_for_update id db) (event id db) db
  -- COALESCE(SUM(..), 0) adds up the table
  pub sum_confirmed_law :
      (id : String) (db : Db) → Reads (sum_confirmed id db) (confirmed_seats id (bookings db)) db
  -- UPDATE .. WHERE id = .. AND test: no row, or the one row with its new columns
  pub update_event_miss :
      (id : String) (test : EventEntity → Bool) (put : EventEntity → EventEntity) (db : Db)
      → ((e : EventEntity) → event id db ≡ some e → test e ≡ false)
      → Reads (update_event id test put db) 0 db
  pub update_event_hit :
      (id : String) (test : EventEntity → Bool) (put : EventEntity → EventEntity) (db : Db)
      (e : EventEntity)
      → event id db ≡ some e
      → test e ≡ true
      → (put e).id ≡ e.id
      → ((db' : Db) × (update_event id test put db ≡ (ok 1, db'))
          × (event id db' ≡ some (let e' = put e in record e' { updated_at = now db }))
          × ((other : String) → other ≢ id → event other db' ≡ event other db)
          × (bookings db' ≡ bookings db)
          × (outbox db' ≡ outbox db))
        ⊎ Fails (update_event id test put db) db
  -- INSERT adds one row to its table
  pub save_booking_law :
      (n : NewBooking) (db : Db)
      → ((db' : Db) × (b : BookingEntity) × (save_booking n db ≡ (ok b, db'))
          × BookingOf n b
          × (bookings db' ≡ b ∷ bookings db)
          × ((id : String) → event id db' ≡ event id db)
          × (outbox db' ≡ outbox db))
        ⊎ Fails (save_booking n db) db
  pub save_message_law :
      (n : NewMessage) (db : Db)
      → ((db' : Db) × (m : OutboxMessageEntity) × (save_message n db ≡ (ok m, db'))
          × MessageOf n m
          × (outbox db' ≡ m ∷ outbox db)
          × ((id : String) → event id db' ≡ event id db)
          × (bookings db' ≡ bookings db))
        ⊎ Fails (save_message n db) db
  -- a transaction commits what its body did, or leaves no trace; it may fail to begin or to commit
  pub transaction_ok :
      (A : Type 0) (body : Action Db A) (db db' : Db) (a : A)
      → body db ≡ (ok a, db')
      → (transaction A body db ≡ (ok a, db')) ⊎ Fails (transaction A body db) db
  pub transaction_err :
      (A : Type 0) (body : Action Db A) (db db' : Db) (e : Failure)
      → body db ≡ (err e, db')
      → (transaction A body db ≡ (err e, db)) ⊎ Fails (transaction A body db) db
