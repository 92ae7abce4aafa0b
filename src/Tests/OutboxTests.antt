-- ===== src/Tests/OutboxTests.antt =====
-- Two pending rows, and a broker that refuses everything.
use overbook.Base.{
  str_eq_iff, List, ◌≡◌, ◌≢◌, refl, inl, inr, false, none, some, arith, String, [], ◌∷◌, map,
}
use overbook.Failure.{Failure, Result, ok, err, failed, Result-cases}
use overbook.Entities.{BookingPayload, OutboxMessageEntity, OutboxStatus}
use overbook.Kafka.Topics.{TopicMessages, publish_batch}
use overbook.Outbox.Relay.{
  State, settle, mark_published, refresh_pending_gauge, publish_rows, drain_body, Settings, Relay,
  message_of, drain_once, tick,
}
use overbook.Outbox.Drain.{batch}
use overbook.Outbox.Backlog.{drain_backlog, drain_backlog_lem}
use overbook.Outbox.Delivery.{DistinctIds}
use overbook.Outbox.Stats.{StatusRow, by_status, with_status, Groups}
use overbook.Outbox.Queue.{entry, Moves, Pointwise, IsAcked, drain_once-Moves}
use overbook.Tests.SampleOutbox.{Table, sample_outbox}

abbrev message : String → OutboxMessageEntity
message id = record {
  id = id;
  aggregate_type = "booking";
  aggregate_id = "b1";
  event_type = "booking.confirmed";
  topic = "booking.events";
  message_key = "e1";
  payload = record {
    booking_id = "b1";
    event_id = "e1";
    user_id = "user-42";
    quantity = 2;
    event_name = "Arena";
    booked_at = 100;
    trace_id = none;
  };
  status = OutboxStatus.pending;
  attempts = 9;
  available_at = 100;
  published_at = none;
  last_error = none;
  created_at = 100;
}

abbrev refuse : TopicMessages BookingPayload → Result (Unit {0})
refuse b = err (failed "broker down")

abbrev settings : Settings
settings = record { poll_interval_ms = 1000; batch_size = 100; max_attempts = 10 }

abbrev relay : Relay sample_outbox refuse settings
relay = record {
  running = false;
  stopped = false;
  timer = none;
  db = record { messages = message "m1" ∷ message "m2" ∷ []; clock = 500 };
  trace = [];
}

abbrev old_row : OutboxMessageEntity
old_row = record (message "m9") { status = OutboxStatus.published }

abbrev counted_rows : List StatusRow
counted_rows =
    record { status = OutboxStatus.pending; count = 1; oldest = 0 }
    ∷ record { status = OutboxStatus.published; count = 2; oldest = 0 }
    ∷ []

abbrev counted_table : Table
counted_table = record { messages = old_row ∷ message "m1" ∷ old_row ∷ []; clock = 5 }

grouped_table : Groups (sample_outbox.rows counted_table) counted_rows
grouped_table = record { counted = (refl, (refl, tt)); complete = complete }
  where
    complete :
        (s : OutboxStatus)
        → by_status s counted_rows ≡ none
        → with_status s (sample_outbox.rows counted_table) ≡ []
    complete OutboxStatus.pending h = cc h
    complete OutboxStatus.published h = cc h
    complete OutboxStatus.failed h = refl

abbrev moved : Relay sample_outbox refuse settings
moved = (drain_once sample_outbox refuse settings relay).1

relay_DistinctIds : DistinctIds relay.db.messages
relay_DistinctIds = ((λ e. cc ((str_eq_iff "m2" "m1").1 e), tt), (tt, tt))

drain_once_example :
    Pointwise
      (Moves (IsAcked sample_outbox refuse settings (batch sample_outbox refuse settings relay.db)))
      (map entry relay.db.messages)
      (map entry moved.db.messages)
drain_once_example = drain_once-Moves sample_outbox refuse settings relay relay_DistinctIds

abbrev accept : TopicMessages BookingPayload → Result (Unit {0})
accept b = ok tt

abbrev small : Settings
small = record { poll_interval_ms = 1000; batch_size = 1; max_attempts = 10 }

abbrev backlog : Relay sample_outbox accept small
backlog = record {
  running = false;
  stopped = false;
  timer = none;
  db = record { messages = message "m1" ∷ message "m2" ∷ []; clock = 500 };
  trace = [];
}

taken : (l : List OutboxMessageEntity) → publish_batch accept (map message_of l) ≡ ok tt
unfolding publish_batch
taken [] = refl
taken (m ∷ l) = refl

settled_ok :
    (l : List OutboxMessageEntity) (s : State sample_outbox accept small) (x : Failure)
    → (publish_rows sample_outbox accept small l s).0 ≢ err x
unfolding publish_rows settle mark_published refresh_pending_gauge publish_batch
settled_ok [] (db, t) x h = cc h
settled_ok (m ∷ l) (db, t) x h = cc h

works :
    (q : Relay sample_outbox accept small) (x : Failure)
    → (drain_once sample_outbox accept small q).0 ≢ err x
unfolding drain_once drain_body
works q x h = elim (Result-cases (drain_body sample_outbox accept small (q.db, q.trace)).0) [
  | inl (n, fine) ↦ ground (arith, fine, h)
  | inr (y, threw) ↦ absurd (settled_ok _ _ y threw)
]

drain_backlog_example :
    (last : Relay sample_outbox accept small) × (drain_backlog sample_outbox accept small 3 backlog
      ≡ some (tick sample_outbox accept small last))
    × ((tick sample_outbox accept small last).timer ≡ some 1000)
    × (batch sample_outbox accept small last.db ≡ [])
drain_backlog_example =
    drain_backlog_lem sample_outbox accept small 0 3 backlog refl (omega arith) taken works refl
      refl (omega arith)
