-- ===== src/Outbox/Rows.antt =====
-- What a poll of the relay writes into each row of the table (src/outbox/outbox.relay.ts).
use Prim.Native.String.{slice}
use overbook.Base.{
  ℕ, ◌+◌, ◌*◌, ◌^◌, ◌≡◌, ◌⊎◌, min, true, false, none, some, List, [], ◌∷◌, map, leb, if◌then◌else◌,
}
use overbook.Failure.{Failure, Result, ok, err}
use overbook.Entities.{BookingPayload, OutboxMessageEntity, OutboxStatus}
use overbook.Kafka.Topics.{TopicMessages, publish_batch}
use overbook.Outbox.Store.{OutboxStore, has_id}
use overbook.Outbox.Relay.{Settings, text_of, message_of, ids_of, Relay}

-- row by row
abbrev pub Each :
    (OutboxMessageEntity → OutboxMessageEntity → Type 0)
    → List OutboxMessageEntity
    → List OutboxMessageEntity
    → Type 0
Each R [] [] = Unit {0}
Each R [] (w ∷ ws) = ⊥
Each R (v ∷ vs) [] = ⊥
Each R (v ∷ vs) (w ∷ ws) = R v w × Each R vs ws

-- The row `m'` is `m` with the columns of a published one where it is in the batch, and else as it was.
abbrev pub IsDelivered :
    List OutboxMessageEntity → ℕ → OutboxMessageEntity → OutboxMessageEntity → Type 0
IsDelivered ready date m m' =
    ((has_id (ids_of ready) m ≡ false) × (m' ≡ m))
    ⊎ ((has_id (ids_of ready) m ≡ true)
        × (m' ≡ record m {
          status = OutboxStatus.published;
          published_at = some date;
          last_error = none;
        }))

-- A row of the batch has one attempt more, is due later the more attempts it has, by a minute at most,
-- keeps the error, and is given up once its attempts reach the maximum; the others are as before.
abbrev pub IsPostponed :
    ℕ → Failure → List OutboxMessageEntity → OutboxMessageEntity → OutboxMessageEntity → Type 0
IsPostponed max x ready m m' =
    ((has_id (ids_of ready) m ≡ false) × (m' ≡ m))
    ⊎ ((has_id (ids_of ready) m ≡ true)
        × ((date : ℕ) × (m' ≡ record m {
          attempts = m.attempts + 1;
          status = if leb max (m.attempts + 1) then OutboxStatus.failed else OutboxStatus.pending;
          available_at = date + min (2 ^ (m.attempts + 1) * 250) 60000;
          last_error = some (slice (text_of x) 0 1000);
        })))

module _ (S : OutboxStore) (send : TopicMessages BookingPayload → Result (Unit {0}))
    (c : Settings) where
  open S use {Db, rows, now, is_locked}

  -- What a poll leaves of the table `l`, with `ready` the rows that it claimed.
  abbrev pub Leaves :
      List OutboxMessageEntity
      → ℕ
      → List OutboxMessageEntity
      → Result ℕ
      → List OutboxMessageEntity
      → Type 0
  Leaves ready date l r l' =
      ((publish_batch send (map message_of ready) ≡ ok tt) × Each (IsDelivered ready date) l l')
      ⊎ (((x : Failure) × (publish_batch send (map message_of ready) ≡ err x)
            × (r ≡ ok 0)
            × Each (IsPostponed c.max_attempts x ready) l l')
          ⊎ ((l' ≡ l) × (((ready ≡ []) × (r ≡ ok 0)) ⊎ ((x : Failure) × (r ≡ err x)))))
