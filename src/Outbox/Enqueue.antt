-- ===== src/Outbox/Enqueue.antt =====
-- `OutboxService.enqueue` (src/outbox/outbox.service.ts): the row goes through the caller's manager,
-- so it belongs to the caller's transaction.
use overbook.Base.{String}
use overbook.Failure.{Action}
use overbook.Entities.{BookingPayload, OutboxMessageEntity, pending}
use overbook.Database.{Database, NewMessage}

pub record EnqueueOutboxInput : Type 0 where
  pub aggregate_type : String
  pub aggregate_id : String
  pub event_type : String
  pub topic : String
  pub message_key : String
  pub payload : BookingPayload

module _ (D : Database) where
  open D use {Db, save_message, now}

  -- what `repository.create` is given
  unfoldable pub create_message : EnqueueOutboxInput → Db → NewMessage
  create_message input db = record {
    aggregate_type = input.aggregate_type;
    aggregate_id = input.aggregate_id;
    event_type = input.event_type;
    topic = input.topic;
    message_key = input.message_key;
    payload = input.payload;
    status = pending;
    attempts = 0;
    available_at = now db;
  }

  unfoldable pub enqueue : EnqueueOutboxInput → Action Db OutboxMessageEntity
  unfolding create_message
  enqueue input db = save_message (create_message input db) db
