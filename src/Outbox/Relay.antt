-- ===== src/Outbox/Relay.antt =====
-- `OutboxRelay` (src/outbox/outbox.relay.ts).
use Prim.Native.String.{slice}
use overbook.Base.{
  ℕ, ◌+◌, ◌*◌, ◌^◌, min, Bool, true, false, Option, none, some, String, List, [], ◌∷◌, map, ltb,
  leb, str_eq, str_append, length, if◌then◌else◌,
}
use mathlib.Core.Option.{get_or}
use overbook.Failure.{
  Failure, not_found, conflict, unprocessable, too_many_requests, unavailable, failed, Result, ok,
  err, Action, pure, ◌>>=◌, ◌>>◌,
}
use overbook.Entities.{BookingPayload, OutboxMessageEntity, OutboxStatus}
use overbook.Kafka.Topics.{
  OutgoingMessage, TopicMessages, publish_batch, header_message_id, header_event_type,
  header_trace_id, header_attempts,
}
use overbook.Outbox.Store.{OutboxStore, has_id}

pub record Settings : Type 0 where
  pub poll_interval_ms : ℕ
  pub batch_size : ℕ
  pub max_attempts : ℕ

pub data RelayEffect : Type 0 where
  published_counted : String → RelayEffect
  failure_counted : String → RelayEffect
  pending_gauge : ℕ → RelayEffect
  duration_observed : RelayEffect

-- the message of one row
unfoldable pub message_of : OutboxMessageEntity → OutgoingMessage BookingPayload
message_of row = record {
  topic = row.topic;
  key = row.message_key;
  value = row.payload;
  headers =
      (header_message_id, row.id)
      ∷ (header_event_type, row.event_type)
      ∷ (header_trace_id, get_or row.payload.trace_id "")
      ∷ (header_attempts, "0")
      ∷ [];
}

-- `min(2 ** attempts * 250, 60_000)`
unfoldable pub backoff_ms : ℕ → ℕ
backoff_ms attempts = min (2 ^ attempts * 250) 60000

-- `error.message`
abbrev pub text_of : Failure → String
text_of (not_found kind id) = str_append kind (str_append " " (str_append id " not found"))
text_of (conflict msg) = msg
text_of (unprocessable msg) = msg
text_of (too_many_requests ms) = "Rate limit exceeded"
text_of (unavailable msg) = msg
text_of (failed msg) = msg

-- The new columns of a row whose batch was not published; `row` is the row as it was claimed.
unfoldable pub failed_row :
    ℕ → ℕ → Failure → OutboxMessageEntity → OutboxMessageEntity → OutboxMessageEntity
failed_row max_attempts date error row m = record m {
  attempts = row.attempts + 1;
  status =
      if leb max_attempts (row.attempts + 1) then OutboxStatus.failed else OutboxStatus.pending;
  available_at = date + backoff_ms (row.attempts + 1);
  last_error = some (slice (text_of error) 0 1000);
}

-- The new columns of a row that was published.
unfoldable pub published_row : ℕ → OutboxMessageEntity → OutboxMessageEntity
published_row now m = record m {
  status = OutboxStatus.published;
  published_at = some now;
  last_error = none;
}

abbrev pub ids_of : List OutboxMessageEntity → List String
ids_of = map (λ m. m.id)

module _ (S : OutboxStore) (send : TopicMessages BookingPayload → Result (Unit {0}))
    (c : Settings) where
  open S use {Db, now, date_now, claim, update_messages, count_pending, transaction}

  abbrev pub State : Type 0
  State = Db × List RelayEffect

  abbrev pub in_db : {A : Type 0} → Action Db A → Action State A
  in_db m (db, t) = let (r, db') = m db in (r, (db', t))

  abbrev pub do_effect : RelayEffect → Action State (Unit {0})
  do_effect e (db, t) = (ok tt, (db, e ∷ t))

  unfoldable pub refresh_pending_gauge : Action State (Unit {0})
  refresh_pending_gauge = do pending ← in_db count_pending; do_effect (pending_gauge pending)

  -- the UPDATE for one row of the batch
  unfoldable pub fail_one : Failure → OutboxMessageEntity → Action Db (Unit {0})
  fail_one error row db =
      update_messages (λ m. str_eq m.id row.id) (failed_row c.max_attempts (date_now db) error row)
        db

  unfoldable pub mark_failed : Failure → List OutboxMessageEntity → Action State (Unit {0})
  mark_failed error [] = pure tt
  mark_failed error (row ∷ rows) =
      let rest = mark_failed error rows in
      do do_effect (failure_counted row.topic); in_db (fail_one error row); rest

  -- `for (const row of rows) outboxPublishedTotal.inc(..)`
  abbrev pub counted : List OutboxMessageEntity → List RelayEffect → List RelayEffect
  counted [] t = t
  counted (row ∷ rows) t = counted rows (published_counted row.topic ∷ t)

  abbrev pub count_published : List OutboxMessageEntity → Action State (Unit {0})
  count_published rows (db, t) = (ok tt, (db, counted rows t))

  unfoldable pub mark_published : List OutboxMessageEntity → Action Db (Unit {0})
  mark_published rows db = update_messages (has_id (ids_of rows)) (published_row (now db)) db

  -- what follows the answer of the broker
  unfoldable pub settle : List OutboxMessageEntity → Result (Unit {0}) → Action State ℕ
  settle rows (err error) = do mark_failed error rows; pure 0
  settle rows (ok _) = do
    in_db (mark_published rows)
    count_published rows
    refresh_pending_gauge
    pure (length rows)

  unfoldable pub publish_rows : List OutboxMessageEntity → Action State ℕ
  publish_rows [] = do refresh_pending_gauge; pure 0
  publish_rows (row ∷ rows) = settle (row ∷ rows) (publish_batch send (map message_of (row ∷ rows)))

  -- the body of the transaction
  unfoldable pub drain_body : Action State ℕ
  drain_body = do rows ← in_db (claim c.batch_size); publish_rows rows

  pub record Relay : Type 0 where
    pub running : Bool
    pub stopped : Bool
    pub timer : Option ℕ
    pub db : Db
    pub trace : List RelayEffect

  -- the `finally` block
  abbrev pub finished : Relay → State → Relay
  finished r (db, t) = record r { running = false; db = db; trace = duration_observed ∷ t }

  unfoldable pub drain_once : Action Relay ℕ
  drain_once r =
      let (result, state) = transaction (List RelayEffect) ℕ drain_body (r.db, r.trace) in
      if r.running then (ok 0, r) else (result, finished r state)

  unfoldable pub schedule : ℕ → Relay → Relay
  schedule delay r = if r.stopped then r else record r { timer = some delay }

  unfoldable pub tick : Relay → Relay
  tick r =
      let (result, r') = drain_once r in
      elim result [
        | ok published ↦ schedule (if ltb 0 published then 0 else c.poll_interval_ms) r'
        | err _ ↦ schedule c.poll_interval_ms r'
      ]

  unfoldable pub on_application_shutdown : Relay → Relay
  on_application_shutdown r = record r { stopped = true; timer = none }
