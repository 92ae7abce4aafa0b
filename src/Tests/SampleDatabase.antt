-- ===== src/Tests/SampleDatabase.antt =====
-- A database in memory that meets the interface: statements never fail, except that a booking of no
-- seats breaks the CHECK of the bookings table.
use overbook.Base.{
  ℕ, ◌≡◌, refl, ◌≢◌, ◌⊎◌, inl, inr, Bool, true, false, Option, none, some, String, List, ◌∷◌, arith,
  ltb, Bool-cases, Option-cases, if◌then◌else◌, str_eq, str_eq_iff,
}
use overbook.Failure.{Failure, failed, ok, err, Action}
use overbook.Entities.{EventEntity, BookingEntity, OutboxMessageEntity, confirmed_seats}
use overbook.Database.{Database, NewBooking, NewMessage, Reads, Fails, BookingOf}

pub record Tables : Type 0 where
  pub events : String → Option EventEntity
  pub bookings : List BookingEntity
  pub outbox : List OutboxMessageEntity
  pub clock : ℕ

abbrev pub put_row : Tables → String → EventEntity → Tables
put_row t id e = record t { events = λ j. if str_eq j id then some e else t.events j }

abbrev pub update_rows :
    String → (EventEntity → Bool) → (EventEntity → EventEntity) → Action Tables ℕ
update_rows id test put t = elim (t.events id) [
  | none ↦ (ok 0, t)
  | some e ↦
      if test e
      then (ok 1, put_row t id (let e' = put e in record e' { updated_at = t.clock }))
      else (ok 0, t)
]

abbrev pub booking_row : NewBooking → Tables → BookingEntity
booking_row n t = record {
  id = "booking-1";
  event_id = n.event_id;
  user_id = n.user_id;
  quantity = n.quantity;
  status = n.status;
  idempotency_key = n.idempotency_key;
  created_at = t.clock;
  updated_at = t.clock;
}

abbrev pub insert_booking : NewBooking → Action Tables BookingEntity
insert_booking n t =
    if ltb 0 n.quantity
    then (ok (booking_row n t), record t { bookings = booking_row n t ∷ t.bookings })
    else (err (failed "chk_bookings_quantity_positive"), t)

abbrev pub insert_message : NewMessage → Action Tables OutboxMessageEntity
insert_message n t =
    let m : OutboxMessageEntity = record {
      id = "message-1";
      aggregate_type = n.aggregate_type;
      aggregate_id = n.aggregate_id;
      event_type = n.event_type;
      topic = n.topic;
      message_key = n.message_key;
      payload = n.payload;
      status = n.status;
      attempts = n.attempts;
      available_at = n.available_at;
      published_at = none;
      last_error = none;
      created_at = t.clock;
    } in
    (ok m, record t { outbox = m ∷ t.outbox })

abbrev pub run_transaction : (A : Type 0) → Action Tables A → Action Tables A
run_transaction A body t = elim (body t).0 [ ok a ↦ body t | err e ↦ (err e, t) ]

pub update_rows_miss :
    (id : String) (test : EventEntity → Bool) (put : EventEntity → EventEntity) (t : Tables)
    → ((e : EventEntity) → t.events id ≡ some e → test e ≡ false)
    → Reads (update_rows id test put t) 0 t
update_rows_miss id test put t h = elim (Option-cases (t.events id)) [
  | inl n ↦ inl (ground arith)
  | inr (e, s) ↦ inl (ground (arith, h e s))
]

pub update_rows_hit :
    (id : String) (test : EventEntity → Bool) (put : EventEntity → EventEntity) (t : Tables)
    (e : EventEntity)
    → t.events id ≡ some e
    → test e ≡ true
    → (t' : Tables) × (update_rows id test put t ≡ (ok 1, t'))
      × (t'.events id ≡ some (let e' = put e in record e' { updated_at = t.clock }))
      × ((other : String) → other ≢ id → t'.events other ≡ t.events other)
      × (t'.bookings ≡ t.bookings)
      × (t'.outbox ≡ t.outbox)
update_rows_hit id test put t e s h = (
  put_row t id (let e' = put e in record e' { updated_at = t.clock }),
  ground arith,
  ground (arith, str_eq_iff id id),
  λ other ne. ground (arith, str_eq_iff other id),
  refl,
  refl,
)

pub insert_booking_lem :
    (n : NewBooking) (t : Tables)
    → ((t' : Tables) × (b : BookingEntity) × (insert_booking n t ≡ (ok b, t'))
        × BookingOf n b
        × (t'.bookings ≡ b ∷ t.bookings)
        × ((id : String) → t'.events id ≡ t.events id)
        × (t'.outbox ≡ t.outbox))
      ⊎ Fails (insert_booking n t) t
insert_booking_lem n t = elim (Bool-cases (ltb 0 n.quantity)) [
  | inl positive ↦ inl (
    record t { bookings = booking_row n t ∷ t.bookings },
    booking_row n t,
    ground arith,
    (refl, refl, refl, refl, refl),
    refl,
    λ _. refl,
    refl,
  )
  | inr empty ↦ inr ("chk_bookings_quantity_positive", ground arith)
]

pub run_transaction_ok :
    (A : Type 0) (body : Action Tables A) (t t' : Tables) (a : A)
    → body t ≡ (ok a, t')
    → run_transaction A body t ≡ (ok a, t')
run_transaction_ok A body t t' a h = ground arith

pub run_transaction_err :
    (A : Type 0) (body : Action Tables A) (t t' : Tables) (e : Failure)
    → body t ≡ (err e, t')
    → run_transaction A body t ≡ (err e, t)
run_transaction_err A body t t' e h = ground arith

abbrev pub sample : Database
sample = record {
  Db = Tables;
  event = λ id t. t.events id;
  bookings = λ t. t.bookings;
  outbox = λ t. t.outbox;
  now = λ t. t.clock;
  find_event = λ id t. (ok (t.events id), t);
  find_event_for_update = λ id t. (ok (t.events id), t);
  update_event = update_rows;
  save_booking = insert_booking;
  save_message = insert_message;
  sum_confirmed = λ id t. (ok (confirmed_seats id t.bookings), t);
  transaction = run_transaction;
  find_event_law = λ id t. inl refl;
  find_event_for_update_law = λ id t. inl refl;
  sum_confirmed_law = λ id t. inl refl;
  update_event_miss = update_rows_miss;
  update_event_hit = λ id test put t e s h _. inl (update_rows_hit id test put t e s h);
  save_booking_law = insert_booking_lem;
  save_message_law = λ n t.
      inl
        (_, _, refl, (refl, refl, refl, refl, refl, refl, refl, refl, refl), refl, λ _. refl, refl);
  transaction_ok = λ A body t t' a h. inl (run_transaction_ok A body t t' a h);
  transaction_err = λ A body t t' e h. inl (run_transaction_err A body t t' e h);
}
