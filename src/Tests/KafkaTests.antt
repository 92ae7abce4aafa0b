-- ===== src/Tests/KafkaTests.antt =====
-- Runs of src/kafka/ on a broker whose state is the list of its topics.
use overbook.Base.{
  ℕ, ◌≡◌, ◌↔◌, refl, sym, ap, subst, ◌∙◌, inl, inr, Bool, true, false, ◌||◌, String, List, [], ◌∷◌,
  ◌++◌, All, filter, str_eq, str_eq_iff, Bool-cases,
}
use overbook.Failure.{ok, err}
use overbook.Kafka.Topics.{OutgoingMessage, group_by_topic}
use overbook.Kafka.Producer.{
  Broker, KafkaService, includes, is_connected, missing_topics, on_module_init, create_missing,
}
use overbook.Kafka.Grouping.{bucket, is_for, IsDistinct, IsSorted, group_by_topic_lem}
use overbook.Kafka.Startup.{Present, on_module_init_lem}

abbrev message : String → ℕ → OutgoingMessage ℕ
message t n = record { topic = t; key = "k"; value = n; headers = [] }

abbrev sent : List (OutgoingMessage ℕ)
sent = message "a" 1 ∷ message "b" 2 ∷ message "a" 3 ∷ []

grouped :
    group_by_topic sent ≡ ("a", message "a" 1 ∷ message "a" 3 ∷ []) ∷ ("b", message "b" 2 ∷ []) ∷ []
unfolding group_by_topic
grouped = refl

group_by_topic_example :
    IsDistinct (group_by_topic sent)
    × IsSorted (group_by_topic sent)
    × ((topic : String) → bucket topic (group_by_topic sent) ≡ filter (is_for topic) sent)
group_by_topic_example = group_by_topic_lem sent

abbrev HasTopic : String → List String → Type 0
HasTopic t ts = includes t ts ≡ true

or_right : (a b : Bool) → b ≡ true → (a || b) ≡ true
or_right true b h = refl
or_right false b h = h

pub includes_more :
    (t : String) (xs ys : List String) → includes t ys ≡ true → includes t (xs ++ ys) ≡ true
includes_more t [] ys h = h
includes_more t (x ∷ xs) ys h =
    or_right (str_eq x t) (includes t (xs ++ ys)) (includes_more t xs ys h)

includes_front : (t : String) (xs : List String) → includes t (t ∷ xs) ≡ true
includes_front t xs = rw ((str_eq_iff t t).1 refl) refl

pub includes_all :
    (xs zs : List String)
    → ((t : String) → includes t xs ≡ true → includes t zs ≡ true)
    → All (λ t. HasTopic t zs) xs
includes_all [] zs h = tt
includes_all (x ∷ xs) zs h = (
  h x (includes_front x xs),
  includes_all xs zs (λ t e. h t (or_right (str_eq x t) (includes t xs) e)),
)

pub includes_left :
    (t : String) (xs ys : List String) → includes t xs ≡ true → includes t (xs ++ ys) ≡ true
includes_left t (x ∷ xs) ys h = elim (Bool-cases (str_eq x t)) [
  | inl same ↦ rw same refl
  | inr other ↦ rw other (includes_left t xs ys (sym (ap (λ b. b || includes t xs) other) ∙ h))
]
includes_left t [] ys h = cc h

abbrev pub broker : Broker (List String)
broker = record {
  admin_connect = λ b. (ok tt, b);
  list_topics = λ b. (ok b, b);
  create_topics = λ ts b. (ok tt, ts ++ b);
  admin_disconnect = λ b. (ok tt, b);
  producer_connect = λ b. (ok tt, b);
  producer_disconnect = λ b. (ok tt, b);
  HasTopic = HasTopic;
  listed = λ b b' ts e t h.
      subst (λ x. includes t x ≡ true) (ap (λ r. r.1) e)
        (subst (λ r. elim r [ ok x ↦ includes t x ≡ true | err x ↦ Unit ]) (sym (ap (λ r. r.0) e))
          h);
  created = λ b b' ts e.
      subst (λ r. All (λ t. HasTopic t r.1) ts) e
        (includes_all ts (ts ++ b) (λ t. includes_left t ts b));
  create_keeps = λ b ts t h. includes_more t ts b h;
  disconnect_keeps = λ b t h. h;
  connect_keeps = λ b t h. h;
}

abbrev off : KafkaService
off = record { connected = false }

started :
    on_module_init broker ("x" ∷ "y" ∷ []) off ("y" ∷ [])
    ≡ (ok tt, record { connected = true }, "x" ∷ "y" ∷ [])
unfolding on_module_init
started = refl

created_x :
    create_missing broker (missing_topics ("x" ∷ "y" ∷ []) ("y" ∷ [])) ("y" ∷ [])
    ≡ (ok tt, "x" ∷ "y" ∷ [])
unfolding create_missing
created_x = refl

on_module_init_example :
    (((on_module_init broker ("x" ∷ "y" ∷ []) off ("y" ∷ [])).0 ≡ ok tt)
      ↔ (is_connected (on_module_init broker ("x" ∷ "y" ∷ []) off ("y" ∷ [])).1 ≡ true))
    × Present broker ("x" ∷ "y" ∷ []) (on_module_init broker ("x" ∷ "y" ∷ []) off ("y" ∷ [])).2
on_module_init_example =
    on_module_init_lem broker ("x" ∷ "y" ∷ []) ("y" ∷ []) off ("y" ∷ []) ("y" ∷ []) ("y" ∷ [])
      ("x" ∷ "y" ∷ []) refl refl refl created_x
