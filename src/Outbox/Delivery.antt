-- ===== src/Outbox/Delivery.antt =====
-- The relay (src/outbox/outbox.relay.ts) over a whole poll and a whole tick.
use overbook.Base.{
  ℕ, ◌≡◌, refl, sym, ap, ◌∙◌, ◌⊎◌, inl, inr, true, false, some, String, List, [], ◌∷◌, All, ◌≢◌,
  ◌||◌, arith, str_eq, str_eq_iff, if◌then◌else◌, Bool-cases,
}
use overbook.Failure.{Failure, Result}
use overbook.Entities.{BookingPayload, OutboxMessageEntity, OutboxStatus}
use overbook.Kafka.Topics.{TopicMessages}
use overbook.Outbox.Store.{OutboxStore, has_id}
use overbook.Outbox.Relay.{Settings, failed_row, ids_of, Relay, schedule, tick}
use overbook.Outbox.Drain.{after_failures, claimed, drain_once_lem}

-- the primary key
abbrev pub DistinctIds : List OutboxMessageEntity → Type 0
DistinctIds [] = Unit {0}
DistinctIds (m ∷ ms) = All (λ k. k.id ≢ m.id) ms × DistinctIds ms

-- The row `m` after one round of `mark_failed`.
abbrev step : ℕ → Failure → ℕ → OutboxMessageEntity → OutboxMessageEntity → OutboxMessageEntity
step max x date row m = if str_eq m.id row.id then failed_row max date x row m else m

published-step :
    (max : ℕ) (x : Failure) (date : ℕ) (row m : OutboxMessageEntity)
    → (step max x date row m).status ≡ OutboxStatus.published
    → step max x date row m ≡ m
unfolding failed_row
published-step max x date row m h = ground arith

pub published-after_failures :
    (max : ℕ) (x : Failure) (dated : List (ℕ × OutboxMessageEntity)) (m : OutboxMessageEntity)
    → (after_failures max x dated m).status ≡ OutboxStatus.published
    → after_failures max x dated m ≡ m
unfolding after_failures
published-after_failures max x [] m h = refl
published-after_failures max x ((date, row) ∷ rest) m h =
    let m' = step max x date row m in
    let same = published-after_failures max x rest m' h in
    same ∙ published-step max x date row m (ap (λ r. r.status) (sym same) ∙ h)

-- A row whose id is not in the batch is as before.
pub after_failures-others :
    (max : ℕ) (x : Failure) (dated : List (ℕ × OutboxMessageEntity)) (m : OutboxMessageEntity)
    → has_id (ids_of (claimed dated)) m ≡ false
    → after_failures max x dated m ≡ m
unfolding after_failures
after_failures-others max x [] m h = refl
after_failures-others max x ((date, row) ∷ rest) m h =
    ground (arith, after_failures-others max x rest m)

has_id_cong :
    (ids : List String) (m n : OutboxMessageEntity) → m.id ≡ n.id → has_id ids m ≡ has_id ids n
has_id_cong [] m n e = refl
has_id_cong (id ∷ ids) m n e = ground (arith, has_id_cong ids m n e)

failed_id :
    (max date : ℕ) (x : Failure) (row m : OutboxMessageEntity)
    → (failed_row max date x row m).id ≡ m.id
unfolding failed_row
failed_id max date x row m = refl

lacks_id :
    (l : List OutboxMessageEntity) (m : OutboxMessageEntity)
    → All (λ k. k.id ≢ m.id) l
    → has_id (ids_of l) m ≡ false
lacks_id [] m h = refl
lacks_id (k ∷ l) m (h, hs) = ground (arith, lacks_id l m hs, str_eq_iff m.id k.id)

-- A row of the batch is failed once, at some instant.
pub after_failures-once :
    (max : ℕ) (x : Failure) (dated : List (ℕ × OutboxMessageEntity)) (m : OutboxMessageEntity)
    → DistinctIds (claimed dated)
    → All (λ k. k.id ≡ m.id → k ≡ m) (claimed dated)
    → has_id (ids_of (claimed dated)) m ≡ true
    → (date : ℕ) × (after_failures max x dated m ≡ failed_row max date x m m)
unfolding after_failures
after_failures-once max x [] m distinct same here = absurd (cc here)
after_failures-once max x ((date, row) ∷ rest) m (new, distinct) (one, same) here =
    elim (Bool-cases (str_eq m.id row.id)) [
      | inr other ↦
          let (d, e) =
            after_failures-once max x rest m distinct same
              (sym (ap (λ b. b || has_id (ids_of (claimed rest)) m) other) ∙ here) in
          (
            d,
            ap (λ b. after_failures max x rest (if b then failed_row max date x row m else m)) other
                ∙ e,
          )
      | inl this ↦
          let ids : m.id ≡ row.id = (str_eq_iff m.id row.id).0 this in
          let is : row ≡ m = one (sym ids) in
          let done = failed_row max date x row m in
          let gone : has_id (ids_of (claimed rest)) done ≡ false =
            has_id_cong (ids_of (claimed rest)) done row (failed_id max date x row m ∙ ids)
            ∙ lacks_id (claimed rest) row new in
          (
            date,
            ap (λ b. after_failures max x rest (if b then done else m)) this
                ∙ after_failures-others max x rest done gone
                ∙ ap (λ k. failed_row max date x k m) is,
          )
    ]

module _ (S : OutboxStore) (send : TopicMessages BookingPayload → Result (Unit {0}))
    (c : Settings) where
  open S use {rows, now}

  -- A tick always sets the timer again, at once or after the poll interval, also when the poll threw;
  -- once the relay is stopped it never does.
  tick_rearms :
      (r : Relay S send c)
      → r.running ≡ false
      → (r.stopped ≡ false
          → ((tick S send c r).timer ≡ some 0)
            ⊎ ((tick S send c r).timer ≡ some c.poll_interval_ms))
        × (r.stopped ≡ true → (tick S send c r).timer ≡ r.timer)
        × ((tick S send c r).running ≡ false)
  unfolding tick schedule
  tick_rearms r idle = elim (drain_once_lem S send c r idle) [
    | inl (n, r', e, _, idle', stopped, timer) ↦
        (λ on. ground arith, λ off. ground arith, ground arith)
    | inr (x, r', e, _, idle', stopped, timer) ↦
        (λ on. ground arith, λ off. ground arith, ground arith)
  ]
