-- ===== src/Tests/NotificationsTests.antt =====
-- A message that fails, and one that is delivered.
use overbook.Base.{
  ℕ, zero, suc, ◌∙◌, ◌+◌, ◌≤◌, ◌≡◌, ◌≢◌, refl, ap, inl, inr, Bool, true, false, some, String, List,
  [], ◌∷◌, str_eq, str_eq_iff, if◌then◌else◌, Bool-cases,
}
use Prim.Native.String.{count}
use text.Mathlib.TextLemmas.{length-cons}
use overbook.Failure.{Result, ok}
use overbook.Kafka.Topics.{TopicMessages, header_message_id, header_attempts}
use overbook.Notifications.Service.{ProcessedMessages}
use overbook.Notifications.Consumer.{
  ConsumerConfig, Runtime, KafkaMessage, Value, Consumed, due, on_message, header,
}
use overbook.Notifications.Fate.{IsFate}
use overbook.Notifications.Once.{Arrival, emails, handle_all, one_email, IsResponsive}
use overbook.Notifications.Message.{on_message_lem}

abbrev claim_row : String → (String → Bool) → Bool → Result (List String) × (String → Bool)
claim_row id rows true = (ok [], rows)
claim_row id rows false = (ok (id ∷ []), λ other. if str_eq other id then true else rows other)

abbrev set-same :
    (id : String) (b : Bool) (rows : String → Bool) → (if str_eq id id then b else rows id) ≡ b
set-same id b rows = rw ((str_eq_iff id id).1 refl) refl

abbrev set-other :
    (id other : String) (b : Bool) (rows : String → Bool)
    → other ≢ id
    → (if str_eq other id then b else rows other) ≡ rows other
set-other id other b rows ne = elim (Bool-cases (str_eq other id)) [
  | inl same ↦ absurd (ne ((str_eq_iff other id).0 same))
  | inr different ↦ rw different refl
]

abbrev pub processed : ProcessedMessages
processed = record {
  Db = String → Bool;
  claimed = λ id rows. rows id;
  insert_or_ignore = λ id type rows. claim_row id rows (rows id);
  delete_message = λ id rows. (ok tt, λ other. if str_eq other id then false else rows other);
  insert_new = λ id type rows free. inl (
    λ other. if str_eq other id then true else rows other,
    ap (claim_row id rows) free,
    set-same id true rows,
    λ other ne. set-other id other true rows ne,
  );
  insert_taken = λ id type rows held. inl (ap (claim_row id rows) held);
  delete_message_law = λ id rows. inl (
    λ other. if str_eq other id then false else rows other,
    refl,
    set-same id false rows,
    λ other ne. set-other id other false rows ne,
  );
}

abbrev accept : TopicMessages (Value ℕ) → Result (Unit {0})
accept _ = ok tt

abbrev pub config : ConsumerConfig
config = record {
  retry_topic = "booking.events.retry";
  dlq_topic = "booking.events.dlq";
  max_attempts = 3;
  retry_base_ms = 500;
  retry_max_ms = 30000;
}

-- numbers as so many marks
abbrev pub marks : ℕ → String
marks zero = ""
marks (suc n) = String.◌∷◌ "1" (marks n)

pub count-marks : (n : ℕ) → count (marks n) ≡ n
count-marks zero = refl
count-marks (suc n) = length-cons "1" (marks n) ∙ ap suc (count-marks n)

abbrev booking_any : ℕ → String
booking_any _ = "b"

abbrev runtime : Runtime ℕ
runtime = record {
  P = processed;
  send = accept;
  parse = λ s. some (count s);
  stringify = marks;
  number = λ s. some (count s);
  show = marks;
  booking_of = booking_any;
  parse-stringify = λ n. ap some (count-marks n);
  number-show = λ n. ap some (count-marks n);
}

abbrev message : KafkaMessage
message = record {
  topic = "booking.events";
  offset = 4;
  key = some "e";
  value = some "7";
  headers = (header_message_id, "m") ∷ (header_attempts, "") ∷ [];
}

abbrev fresh : Consumed runtime config
fresh = ((λ _. false, []), [])

on_message_example :
    (at : ℕ) × (due runtime config message true (λ _. false) 10 ≡ some at)
    × IsFate runtime config message true at 1 2 fresh
        (on_message runtime config message true (λ _. false) true 10 1 2 fresh)
    × (true ≡ true → 1 ≤ at)
unfolding header
on_message_example = on_message_lem runtime config message true true 1 10 1 2 fresh refl

abbrev arrivals : List Arrival
arrivals =
    record { fails = true; id = "m"; event_type = "t"; booking = "b" }
    ∷ record { fails = false; id = "m"; event_type = "t"; booking = "b" }
    ∷ record { fails = false; id = "m"; event_type = "t"; booking = "b" }
    ∷ []

one_email_example :
    emails "m" (handle_all processed arrivals (λ _. false, [])).1 ≤ emails "m" [] + 1
one_email_example = one_email processed "m" arrivals (λ _. false) []

pub processed-IsResponsive : IsResponsive processed
processed-IsResponsive = (
  λ id type db. elim (Bool-cases (db id)) [
    | inl held ↦ ([], db, ap (claim_row id db) held)
    | inr free ↦ (id ∷ [], _, ap (claim_row id db) free)
  ],
  λ id db. (_, refl),
)
