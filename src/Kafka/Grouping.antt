-- ===== src/Kafka/Grouping.antt =====
-- The grouping of `publishBatch` (src/kafka/kafka.service.ts) against the messages of one topic.
use overbook.Base.{
  ◌≡◌, ◌≢◌, refl, sym, ap, ◌∙◌, inl, inr, Bool, true, false, String, List, [], ◌∷◌, ◌++◌, All,
  filter, str_eq, str_eq_iff, if◌then◌else◌, arith, Bool-cases,
}
use mathlib.Core.List.{append_assoc, append-nil}
use overbook.Kafka.Topics.{OutgoingMessage, TopicMessages, add_to_topic, group_from, group_by_topic}

trade :
    (t u topic : String) {b : Bool} → str_eq t u ≡ true → str_eq t topic ≡ b → str_eq u topic ≡ b
trade t u topic same h = sym (ap (λ x. str_eq x topic) ((str_eq_iff t u).0 same)) ∙ h

only_one :
    (t u topic : String) → str_eq t u ≡ false → str_eq t topic ≡ true → str_eq u topic ≡ false
only_one t u topic different here = elim (Bool-cases (str_eq u topic)) [
  | inl both ↦
      let t_is = (str_eq_iff t topic).0 here in
      let u_is = (str_eq_iff u topic).0 both in
      let equal = (str_eq_iff t u).1 (t_is ∙ sym u_is) in cc (equal, different)
  | inr h ↦ h
]

module _ {V : Type 0} where
  -- the messages under a topic
  abbrev pub bucket : String → TopicMessages V → List (OutgoingMessage V)
  bucket topic [] = []
  bucket topic ((t, messages) ∷ rest) = if str_eq t topic then messages else bucket topic rest

  abbrev pub is_for : String → OutgoingMessage V → Bool
  is_for topic m = str_eq m.topic topic

  -- No topic stands twice.
  abbrev pub IsDistinct : TopicMessages V → Type 0
  IsDistinct [] = Unit {0}
  IsDistinct ((t, messages) ∷ rest) = All (λ r. r.0 ≢ t) rest × IsDistinct rest

  -- Every message stands under its own topic.
  abbrev pub IsSorted : TopicMessages V → Type 0
  IsSorted [] = Unit {0}
  IsSorted ((t, messages) ∷ rest) = All (λ m. m.topic ≡ t) messages × IsSorted rest

  bucket-add_to_topic :
      (topic : String) (m : OutgoingMessage V) (groups : TopicMessages V)
      → bucket topic (add_to_topic m groups)
        ≡ bucket topic groups ++ (if is_for topic m then m ∷ [] else [])
  unfolding add_to_topic
  bucket-add_to_topic topic m [] = ground (arith)
  bucket-add_to_topic topic m ((t, messages) ∷ rest) = elim (Bool-cases (str_eq t m.topic)) [
    | inl same ↦ elim (Bool-cases (str_eq t topic)) [
      | inl here ↦ rw (same, here, trade t m.topic topic same here) refl
      | inr other ↦
          rw (same, other, trade t m.topic topic same other) (sym (append-nil (bucket topic rest)))
    ]
    | inr different ↦ elim (Bool-cases (str_eq t topic)) [
      | inl here ↦
          rw (different, here, only_one t m.topic topic different here) (sym (append-nil messages))
      | inr other ↦ rw (different, other) (bucket-add_to_topic topic m rest)
    ]
  ]

  lacks-add_to_topic :
      (t : String) (m : OutgoingMessage V) (groups : TopicMessages V)
      → m.topic ≢ t
      → All (λ r. r.0 ≢ t) groups
      → All (λ r. r.0 ≢ t) (add_to_topic m groups)
  unfolding add_to_topic
  lacks-add_to_topic t m [] ne h = (ne, tt)
  lacks-add_to_topic t m ((u, messages) ∷ rest) ne (h, hs) = elim (Bool-cases (str_eq u m.topic)) [
    | inl same ↦ rw same (h, hs)
    | inr different ↦ rw different (h, lacks-add_to_topic t m rest ne hs)
  ]

  add_to_topic-IsDistinct :
      (m : OutgoingMessage V) (groups : TopicMessages V)
      → IsDistinct groups
      → IsDistinct (add_to_topic m groups)
  unfolding add_to_topic
  add_to_topic-IsDistinct m [] h = (tt, tt)
  add_to_topic-IsDistinct m ((t, messages) ∷ rest) (h, hs) = elim (Bool-cases (str_eq t m.topic)) [
    | inl same ↦ rw same (h, hs)
    | inr different ↦ rw different (
      lacks-add_to_topic t m rest (λ e. cc ((str_eq_iff t m.topic).1 (sym e), different)) h,
      add_to_topic-IsDistinct m rest hs,
    )
  ]

  All-append :
      (P : OutgoingMessage V → Type 0) (ms : List (OutgoingMessage V)) (m : OutgoingMessage V)
      → All P ms
      → P m
      → All P (ms ++ m ∷ [])
  All-append P [] m hs h = (h, tt)
  All-append P (x ∷ ms) m (hx, hs) h = (hx, All-append P ms m hs h)

  into-IsSorted :
      (m : OutgoingMessage V) (groups : TopicMessages V)
      → IsSorted groups
      → IsSorted (add_to_topic m groups)
  unfolding add_to_topic
  into-IsSorted m [] h = ((refl, tt), tt)
  into-IsSorted m ((t, messages) ∷ rest) (h, hs) = elim (Bool-cases (str_eq t m.topic)) [
    | inl same ↦
        rw same
          (All-append (λ n. n.topic ≡ t) messages m h (sym ((str_eq_iff t m.topic).0 same)), hs)
    | inr different ↦ rw different (h, into-IsSorted m rest hs)
  ]

  regroup :
      (b : Bool) (xs : List (OutgoingMessage V)) (m : OutgoingMessage V)
      (rest : List (OutgoingMessage V))
      → (xs ++ (if b then m ∷ [] else [])) ++ rest ≡ xs ++ (if b then m ∷ rest else rest)
  regroup true xs m rest = append_assoc xs (m ∷ []) rest
  regroup false xs m rest = ap (λ l. l ++ rest) (append-nil xs)

  group_from_lem :
      (groups : TopicMessages V) (ms : List (OutgoingMessage V))
      → IsDistinct groups
      → IsSorted groups
      → IsDistinct (group_from groups ms)
        × IsSorted (group_from groups ms)
        × ((topic : String)
            → bucket topic (group_from groups ms) ≡ bucket topic groups ++ filter (is_for topic) ms)
  unfolding group_from
  group_from_lem groups [] d s = (d, s, λ topic. sym (append-nil (bucket topic groups)))
  group_from_lem groups (m ∷ ms) d s =
      let rest =
        group_from_lem (add_to_topic m groups) ms (add_to_topic-IsDistinct m groups d)
          (into-IsSorted m groups s) in
      (
        rest.0,
        rest.1,
        λ topic.
            rest.2 topic
            ∙ ap (λ l. l ++ filter (is_for topic) ms) (bucket-add_to_topic topic m groups)
            ∙ regroup (is_for topic m) (bucket topic groups) m (filter (is_for topic) ms),
      )

  -- The topics stand once each, hold messages of their own, and of each the messages of the batch
  -- that name it, in the batch's order.
  pub group_by_topic_lem :
      (ms : List (OutgoingMessage V))
      → IsDistinct (group_by_topic ms)
        × IsSorted (group_by_topic ms)
        × ((topic : String) → bucket topic (group_by_topic ms) ≡ filter (is_for topic) ms)
  unfolding group_by_topic
  group_by_topic_lem ms = group_from_lem [] ms tt tt
