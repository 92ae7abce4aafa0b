-- ===== src/Booking/Outcome.antt =====
-- `book` as a whole: the transaction, what follows its commit, and the `catch` block.
use overbook.Base.{
  ℕ, suc, ◌+◌, ◌≡◌, refl, ◌∙◌, ◌⊎◌, inl, inr, Bool, true, false, Option, some, String, List, [],
  ◌∷◌, arith, ltb, Bool-cases, Option-cases, if◌then◌else◌, if◌then◌else◌,
}
use overbook.Failure.{Failure, not_found, failed, Result, ok, err, Result-cases, Action, pure}
use overbook.Entities.{BookingPayload, BookingEntity, EventEntity, confirmed_seats}
use overbook.Database.{Database}
use overbook.Kafka.Topics.{TopicMessages, publish}
use overbook.Booking.Types.{
  Config, CreateBookingDto, Context, BookingResponseDto, from, Outcome, Effect, lock_timer_ended,
  booking_counted, cache_deleted, oversold_counted, crash_scheduled, sent, lost,
}
use overbook.Booking.Integrity.{integrity, report_of}
use overbook.Booking.Service.{
  Booked, is_naive, event_cache_key, outcome_of, direct_message, booking_transaction,
  record_oversold_if_any, publish_directly, after_commit, World, do_effect, count_failure, book,
}
use overbook.Booking.Atomicity.{Written, booking_transaction_lem}

-- How often `bookings_total` was raised.
pub times_counted : List Effect → ℕ
times_counted [] = 0
times_counted (booking_counted _ _ ∷ t) = suc (times_counted t)
times_counted (_ ∷ t) = times_counted t

module _ (D : Database) where
  open D use {Db}

  -- The report reads; it throws if the event is gone or a statement fails.
  pub integrity_lem :
      (id : String) (db : Db)
      → ((e : EventEntity) × (D.event id db ≡ some e)
          × (integrity D id db ≡ (ok (report_of id e (confirmed_seats id (D.bookings db))), db)))
        ⊎ ((x : Failure) × (integrity D id db ≡ (err x, db)))
  unfolding integrity
  integrity_lem id db = elim (D.find_event_law id db) [
    | inr (msg, h) ↦ inr (failed msg, ground arith)
    | inl h ↦ elim (Option-cases (D.event id db)) [
      | inl n ↦ inr (not_found "Event" id, ground arith)
      | inr (e, s) ↦ elim (D.sum_confirmed_law id db) [
        | inr (msg, h₂) ↦ inr (failed msg, ground arith)
        | inl h₂ ↦ inl (e, s, ground arith)
      ]
    ]
  ]

  -- Counting an oversold event leaves the database alone and counts no booking.
  record_oversold_lem :
      (id : String) (db : Db) (t : List Effect)
      → ((t' : List Effect) × (record_oversold_if_any D id (db, t) ≡ (ok tt, (db, t')))
          × (times_counted t' ≡ times_counted t))
        ⊎ ((x : Failure) × (record_oversold_if_any D id (db, t) ≡ (err x, (db, t))))
  unfolding record_oversold_if_any times_counted
  record_oversold_lem id db t = elim (integrity_lem id db) [
    | inr (x, h) ↦ inr (x, ground arith)
    | inl (e, s, h) ↦
        elim (Bool-cases
          (ltb 0 (report_of id e (confirmed_seats id (D.bookings db))).oversold_by)) [
            | inl over ↦ inl (oversold_counted id ∷ t, ground arith, refl)
            | inr fine ↦ inl (t, ground arith, refl)
          ]
  ]

-- The action leaves the database alone and counts no booking.
abbrev Quiet : (D : Database) → Action (World D) (Unit {0}) → Type 0
Quiet D m =
    (db : D.Db) (t : List Effect)
    → (t' : List Effect) × (m (db, t) ≡ (ok tt, (db, t'))) × (times_counted t' ≡ times_counted t)

Quiet-if :
    (D : Database) (b : Bool) (m : Action (World D) (Unit {0}))
    → Quiet D m
    → Quiet D (if b then m else pure tt)
Quiet-if D true m q = q
Quiet-if D false m q = λ db t. (t, refl, refl)

module _ (D : Database) (send : TopicMessages BookingPayload → Result (Unit {0})) (c : Config) where
  open D use {Db}

  -- The dual write counts no booking, whatever the broker answers.
  publish_directly_lem :
      (b : BookingEntity) (name : String) (trace_id : Option String) (db : Db) (t : List Effect)
      → (t' : List Effect) × (publish_directly D send c b name trace_id (db, t) ≡ (ok tt, (db, t')))
        × (times_counted t' ≡ times_counted t)
  unfolding publish_directly times_counted
  publish_directly_lem b name trace_id db t =
      elim (Result-cases (publish send (direct_message c b name trace_id))) [
        | inl (u, e) ↦ (sent (direct_message c b name trace_id) ∷ t, ground arith, refl)
        | inr (x, e) ↦ (lost b.id ∷ t, ground arith, refl)
      ]

  -- What follows the commit leaves the database alone. It counts the booking once, and returns the
  -- response; only under the naive strategy it may throw, in the oversell check.
  abbrev AfterCommit :
      Booked → Db → List Effect → Result BookingResponseDto × (Db × List Effect) → Type 0
  AfterCommit k db t r =
      ((t' : List Effect) × (r ≡ (ok (from k.booking k.seats_remaining c.lock_strategy), (db, t')))
        × (times_counted t' ≡ times_counted t + 1))
      ⊎ ((x : Failure) × (t' : List Effect) × (is_naive c.lock_strategy ≡ true)
          × (r ≡ (err x, (db, t')))
          × (times_counted t' ≡ times_counted t + 1))

  after_commit_lem :
      (id : String) (context : Context) (k : Booked) (db : Db) (t : List Effect)
      → AfterCommit k db t (after_commit D send c id context k (db, t))
  unfolding after_commit times_counted
  after_commit_lem id context k db t =
      let t₀ : List Effect =
        cache_deleted (event_cache_key id)
        ∷ booking_counted Outcome.confirmed c.lock_strategy
        ∷ lock_timer_ended c.lock_strategy
        ∷ t in
      let crash =
        Quiet-if D c.crash_after_commit (do_effect D crash_scheduled)
          (λ db t. (crash_scheduled ∷ t, refl, refl)) in
      let direct =
        Quiet-if D c.direct_publish_mode
          (publish_directly D send c k.booking k.event_name context.trace_id)
          (publish_directly_lem k.booking k.event_name context.trace_id) in
      elim (Bool-cases (is_naive c.lock_strategy)) [
        | inr safe ↦
            let (t₁, h₁, e₁) = crash db t₀ in
            let (t₂, h₂, e₂) = direct db t₁ in inl (t₂, ground arith, omega (arith, e₂ ∙ e₁))
        | inl naive ↦ elim (record_oversold_lem D id db t₀) [
          | inr (x, h) ↦ inr (x, t₀, naive, ground arith, omega arith)
          | inl (t₁, h₁, e₁) ↦
              let (t₂, h₂, e₂) = crash db t₁ in
              let (t₃, h₃, e₃) = direct db t₂ in inl (t₃, ground arith, omega (arith, e₃ ∙ e₂ ∙ e₁))
        ]
      ]

  -- A request that throws before its commit leaves the tables as they were, and is counted once.
  abbrev pub RolledBack : Db → List Effect → Result BookingResponseDto × (Db × List Effect) → Type 0
  RolledBack db t r =
      (x : Failure) × (r ≡ (
        err x,
        (db, booking_counted (outcome_of x) c.lock_strategy ∷ lock_timer_ended c.lock_strategy ∷ t),
      ))

  -- A request that commits has written the seats, the booking and its outbox row. It answers with
  -- them and is counted once; under the naive strategy it may also throw after the commit, when the
  -- oversell check fails, and is then counted twice.
  abbrev pub Committed :
      String
      → CreateBookingDto
      → Context
      → Db
      → List Effect
      → Result BookingResponseDto × (Db × List Effect)
      → Type 0
  Committed id dto context db t r =
      (k : Booked) × (db' : Db) × (t' : List Effect) × Written D c id dto context db k db'
      × (((r ≡ (ok (from k.booking k.seats_remaining c.lock_strategy), (db', t')))
            × (times_counted t' ≡ times_counted t + 1))
          ⊎ ((x : Failure) × (is_naive c.lock_strategy ≡ true)
              × (r ≡ (err x, (db', t')))
              × (times_counted t' ≡ times_counted t + 2)))

  -- `book` is all or nothing: every outcome has written everything or nothing.
  pub book_atomic :
      (id : String) (dto : CreateBookingDto) (context : Context) (db : Db) (t : List Effect)
      → Committed id dto context db t (book D send c id dto context (db, t))
        ⊎ RolledBack db t (book D send c id dto context (db, t))
  unfolding book count_failure times_counted
  book_atomic id dto context db t = elim (booking_transaction_lem D c id dto context db) [
    | inr (x, db', h) ↦
        elim (D.transaction_err Booked (booking_transaction D c id dto context) db db' x h) [
          | inl undone ↦ inr (x, ground arith)
          | inr (msg, gone) ↦ inr (failed msg, ground arith)
        ]
    | inl (k, db', h, written) ↦
        elim (D.transaction_ok Booked (booking_transaction D c id dto context) db db' k h) [
          | inr (msg, gone) ↦ inr (failed msg, ground arith)
          | inl done ↦ elim (after_commit_lem id context k db' t) [
            | inl (t', e, n) ↦ inl (k, db', t', written, inl (ground arith, n))
            | inr (x, t', naive, e, n) ↦ inl (
              k,
              db',
              booking_counted (outcome_of x) c.lock_strategy
                  ∷ lock_timer_ended c.lock_strategy
                  ∷ t',
              written,
              inr (x, naive, ground arith, omega (arith, n)),
            )
          ]
        ]
  ]
