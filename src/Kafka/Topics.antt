-- ===== src/Kafka/Topics.antt =====
-- `OutgoingMessage`, and `publishBatch`: messages are grouped by topic before they are sent.
use overbook.Base.{String, List, [], ◌∷◌, ◌++◌, str_eq, if◌then◌else◌}
use overbook.Failure.{Result, ok}

abbrev pub header_message_id : String
header_message_id = "message-id"

abbrev pub header_event_type : String
header_event_type = "event-type"

abbrev pub header_trace_id : String
header_trace_id = "trace-id"

abbrev pub header_attempts : String
header_attempts = "attempts"

abbrev pub header_retry_at : String
header_retry_at = "retry-at"

abbrev pub header_original_topic : String
header_original_topic = "original-topic"

abbrev pub header_error : String
header_error = "error"

abbrev pub Headers : Type 0
Headers = List (String × String)

pub record OutgoingMessage (V : Type 0) : Type 0 where
  pub topic : String
  pub key : String
  pub value : V
  pub headers : Headers

-- `byTopic`: a Map keeps its keys in the order of insertion
abbrev pub TopicMessages : Type 0 → Type 0
TopicMessages V = List (String × List (OutgoingMessage V))

module _ {V : Type 0} where
  -- one round of the loop: push to the bucket of the topic, or open a new one at the end
  unfoldable pub add_to_topic : OutgoingMessage V → TopicMessages V → TopicMessages V
  add_to_topic m [] = (m.topic, m ∷ []) ∷ []
  add_to_topic m ((topic, bucket) ∷ rest) =
      if str_eq topic m.topic
      then (topic, bucket ++ m ∷ []) ∷ rest
      else (topic, bucket) ∷ add_to_topic m rest

  unfoldable pub group_from : TopicMessages V → List (OutgoingMessage V) → TopicMessages V
  group_from groups [] = groups
  group_from groups (m ∷ ms) = group_from (add_to_topic m groups) ms

  unfoldable pub group_by_topic : List (OutgoingMessage V) → TopicMessages V
  unfolding group_from add_to_topic
  group_by_topic = group_from []

  -- An empty batch sends nothing. `send` is `producer.sendBatch`.
  unfoldable pub publish_batch :
      (TopicMessages V → Result (Unit {0})) → List (OutgoingMessage V) → Result (Unit {0})
  publish_batch send [] = ok tt
  publish_batch send (m ∷ ms) = send (group_by_topic (m ∷ ms))

  unfoldable pub publish :
      (TopicMessages V → Result (Unit {0})) → OutgoingMessage V → Result (Unit {0})
  publish send m = publish_batch send (m ∷ [])
