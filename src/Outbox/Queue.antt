-- ===== src/Outbox/Queue.antt =====
-- The outbox as a queue of entries that wait, are delivered or are given up, and the polls of the
-- relay (src/outbox/outbox.relay.ts) on it. What the queue forgets: attempts, due times, errors.
use overbook.Base.{
  ℕ, ◌≡◌, ◌≢◌, refl, sym, ap, ◌∙◌, ◌⊎◌, inl, inr, Bool, true, false, not, ◌&&◌, ◌||◌, String, List,
  [], ◌∷◌, map, All, filter, take, zero, suc, leb, str_eq, str_eq_iff, if◌then◌else◌, arith,
  Bool-cases,
}
use overbook.Failure.{Failure, Result, ok}
use overbook.Entities.{BookingPayload, OutboxMessageEntity, OutboxStatus}
use overbook.Kafka.Topics.{TopicMessages, publish_batch}
use overbook.Outbox.Store.{OutboxStore, is_pending, has_id}
use overbook.Outbox.Relay.{
  Settings, message_of, failed_row, published_row, ids_of, Relay, drain_once,
}
use overbook.Outbox.Drain.{after_failures, Settled, batch, drain_once_lem, drain_once_busy}
use overbook.Outbox.Delivery.{DistinctIds, after_failures-others, published-after_failures}

pub record Entry : Type 0 where
  pub id : String
  pub topic : String
  pub key : String
  pub payload : BookingPayload
  pub state : OutboxStatus

abbrev pub entry : OutboxMessageEntity → Entry
entry m = record {
  id = m.id;
  topic = m.topic;
  key = m.message_key;
  payload = m.payload;
  state = m.status;
}

-- What may become of an entry: it stays, or it was waiting and only its state is another, which is
-- `published` only if it was `acked`.
abbrev pub Moves : (Entry → Type 0) → Entry → Entry → Type 0
Moves acked v w =
    (w ≡ v)
    ⊎ ((v.state ≡ OutboxStatus.pending)
        × (w ≡ record v { state = w.state })
        × ((w.state ≡ OutboxStatus.published) → acked v))

-- element by element
abbrev pub Pointwise : (Entry → Entry → Type 0) → List Entry → List Entry → Type 0
Pointwise R [] [] = Unit {0}
Pointwise R [] (w ∷ ws) = ⊥
Pointwise R (v ∷ vs) [] = ⊥
Pointwise R (v ∷ vs) (w ∷ ws) = R v w × Pointwise R vs ws

abbrev pub IsListed : String → List String → Type 0
IsListed id [] = ⊥
IsListed id (first ∷ rest) = (id ≡ first) ⊎ IsListed id rest

listed : (ids : List String) (m : OutboxMessageEntity) → has_id ids m ≡ true → IsListed m.id ids
listed [] m h = absurd (cc h)
listed (id ∷ ids) m h = elim (Bool-cases (str_eq m.id id)) [
  | inl here ↦ inl ((str_eq_iff m.id id).0 here)
  | inr later ↦ inr (listed ids m (sym (ap (λ b. b || has_id ids m) later) ∙ h))
]

has_id-take :
    (n : ℕ) (l : List OutboxMessageEntity) (m : OutboxMessageEntity)
    → has_id (ids_of (take n l)) m ≡ true
    → has_id (ids_of l) m ≡ true
has_id-take zero l m h = cc h
has_id-take (suc n) [] m h = h
has_id-take (suc n) (k ∷ l) m h = elim (Bool-cases (str_eq m.id k.id)) [
  | inl same ↦ rw same refl
  | inr other ↦
      rw other (has_id-take n l m (ap (λ b. b || has_id (ids_of (take n l)) m) (sym other) ∙ h))
]

lacks_id :
    (test : OutboxMessageEntity → Bool) (l : List OutboxMessageEntity) (m : OutboxMessageEntity)
    → All (λ k. k.id ≢ m.id) l
    → has_id (ids_of (filter test l)) m ≡ false
lacks_id test [] m h = refl
lacks_id test (k ∷ l) m (h, hs) = ground (arith, lacks_id test l m hs, str_eq_iff m.id k.id)

-- A row of the table whose id is in the batch meets the batch's condition.
abbrev Tested :
    (OutboxMessageEntity → Bool) → List OutboxMessageEntity → OutboxMessageEntity → Type 0
Tested test picked m = has_id (ids_of picked) m ≡ true → test m ≡ true

Tested-more :
    (test : OutboxMessageEntity → Bool) (m : OutboxMessageEntity)
    (picked l : List OutboxMessageEntity)
    → All (λ k. k.id ≢ m.id) l
    → All (Tested test picked) l
    → All (Tested test (if test m then m ∷ picked else picked)) l
Tested-more test m picked [] h t = tt
Tested-more test m picked (k ∷ l) (h, hs) (t, ts) =
    (one (test m), Tested-more test m picked l hs ts)
  where
    one : (b : Bool) → Tested test (if b then m ∷ picked else picked) k
    one false = t
    one true = λ has. elim (Bool-cases (str_eq k.id m.id)) [
      | inl same ↦ absurd (h ((str_eq_iff k.id m.id).0 same))
      | inr other ↦ t (sym (ap (λ b. b || has_id (ids_of picked) k) other) ∙ has)
    ]

tested :
    (test : OutboxMessageEntity → Bool) (l : List OutboxMessageEntity)
    → DistinctIds l
    → All (Tested test (filter test l)) l
tested test [] d = tt
tested test (m ∷ l) (new, d) =
    (first (test m) refl, Tested-more test m (filter test l) l new (tested test l d))
  where
    first : (b : Bool) → test m ≡ b → Tested test (if b then m ∷ filter test l else filter test l) m
    first true e = λ _. e
    first false e = λ has. cc (lacks_id test l m new, has)

pointwise :
    (acked : Entry → Type 0) (f : OutboxMessageEntity → OutboxMessageEntity)
    (l : List OutboxMessageEntity)
    → All (λ m. Moves acked (entry m) (entry (f m))) l
    → Pointwise (Moves acked) (map entry l) (map entry (map f l))
pointwise acked f [] h = tt
pointwise acked f (m ∷ l) (h, hs) = (h, pointwise acked f l hs)

pending_only : (s : OutboxStatus) → is_pending s ≡ true → s ≡ OutboxStatus.pending
pending_only OutboxStatus.pending h = refl
pending_only OutboxStatus.published h = cc h
pending_only OutboxStatus.failed h = cc h

first_of_both : (a b : Bool) → (a && b) ≡ true → a ≡ true
first_of_both true b h = refl
first_of_both false b h = cc h

-- Failing a row changes neither what it says nor whom it is for.
same_entry :
    (max : ℕ) (x : Failure) (dated : List (ℕ × OutboxMessageEntity)) (m : OutboxMessageEntity)
    → entry (after_failures max x dated m)
      ≡ record (entry m) { state = (after_failures max x dated m).status }
unfolding after_failures failed_row
same_entry max x [] m = refl
same_entry max x ((date, row) ∷ rest) m = elim (Bool-cases (str_eq m.id row.id)) [
  | inl same ↦ rw (after_failures, same) (same_entry max x rest (failed_row max date x row m))
  | inr other ↦ rw (after_failures, other) (same_entry max x rest m)
]

all_map :
    (P Q : OutboxMessageEntity → Type 0)
    → ((m : OutboxMessageEntity) → P m → Q m)
    → (l : List OutboxMessageEntity) → All P l
    → All Q l
all_map P Q f [] h = tt
all_map P Q f (m ∷ l) (h, hs) = (f m h, all_map P Q f l hs)

module _ (S : OutboxStore) (send : TopicMessages BookingPayload → Result (Unit {0}))
    (c : Settings) where
  open S use {Db, rows, now, is_locked}

  -- The broker took the batch, and a message with the id of the entry is in it.
  abbrev pub IsAcked : List OutboxMessageEntity → Entry → Type 0
  IsAcked ready v =
      (publish_batch send (map message_of ready) ≡ ok tt) × IsListed v.id (ids_of ready)

  abbrev Picked : List OutboxMessageEntity → OutboxMessageEntity → Type 0
  Picked ready m = has_id (ids_of ready) m ≡ true → m.status ≡ OutboxStatus.pending

  Picked-pending : (db : Db) → DistinctIds (rows db) → All (Picked (batch S send c db)) (rows db)
  Picked-pending db d =
      let test : OutboxMessageEntity → Bool =
        λ m. is_pending m.status && leb m.available_at (now db) && not (is_locked db m) in
      all_map (Tested test (filter test (rows db))) (Picked (batch S send c db))
        (λ m t has. pending_only m.status (
          first_of_both _ _
            (first_of_both _ _ (t (has_id-take c.batch_size (filter test (rows db)) m has)))))
        (rows db) (tested test (rows db) d)

  stays :
      (acked : Entry → Type 0) (l : List OutboxMessageEntity)
      → Pointwise (Moves acked) (map entry l) (map entry l)
  stays acked [] = tt
  stays acked (m ∷ l) = (inl refl, stays acked l)

  settled :
      (ready l l' : List OutboxMessageEntity) (date n : ℕ)
      → All (Picked ready) l
      → Settled S send c ready date l n l'
      → Pointwise (Moves (IsAcked ready)) (map entry l) (map entry l')
  unfolding published_row
  settled ready l l' date n picked (inl (acked, _, e)) = rw e (
      pointwise _ (λ m. if has_id (ids_of ready) m then published_row date m else m) l
        (all_map (Picked ready) _ delivered l picked))
    where
      delivered :
          (m : OutboxMessageEntity)
          → Picked ready m
          → Moves
              (IsAcked ready)
              (entry m)
              (entry (if has_id (ids_of ready) m then published_row date m else m))
      delivered m p = elim (Bool-cases (has_id (ids_of ready) m)) [
        | inl here ↦ rw here (inr (p here, refl, λ _. (acked, listed (ids_of ready) m here)))
        | inr elsewhere ↦ rw elsewhere (inl refl)
      ]
  settled ready l l' date n picked (inr (inl (x, dated, _, _, same, e))) = rw e (
      pointwise _ (after_failures c.max_attempts x dated) l
        (all_map (Picked ready) _ postponed l picked))
    where
      postponed :
          (m : OutboxMessageEntity)
          → Picked ready m
          → Moves (IsAcked ready) (entry m) (entry (after_failures c.max_attempts x dated m))
      postponed m p = elim (Bool-cases (has_id (ids_of ready) m)) [
        | inl here ↦ inr (
          p here,
          same_entry c.max_attempts x dated m,
          λ h.
              cc (
                p here,
                ap (λ r. r.status) (published-after_failures c.max_attempts x dated m h),
                h,
              ),
        )
        | inr elsewhere ↦ inl (
            ap entry (
              after_failures-others c.max_attempts x dated m
                (ap (λ r. has_id (ids_of r) m) same ∙ elsewhere)))
      ]
  settled ready l l' date n picked (inr (inr (_, _, e))) = rw e (stays _ l)

  -- A poll moves the entries of the queue, whatever the database and the broker answer: none is
  -- lost, made up, reordered or rewritten, an entry that is delivered or given up stays so, and one
  -- is delivered only if it was in the batch and the broker took that. Ids are distinct.
  pub drain_once-Moves :
      (r : Relay S send c)
      → DistinctIds (rows r.db)
      → Pointwise
          (Moves (IsAcked (batch S send c r.db)))
          (map entry (rows r.db))
          (map entry (rows (drain_once S send c r).1.db))
  drain_once-Moves r d = elim (Bool-cases r.running) [
    | inl busy ↦ rw (drain_once_busy S send c r busy) (stays _ (rows r.db))
    | inr idle ↦ elim (drain_once_lem S send c r idle) [
      | inl (n, r', e, done, _, _, _) ↦ rw e (
          settled (batch S send c r.db) (rows r.db) (rows r'.db) (now r.db) n
            (Picked-pending r.db d) done)
      | inr (x, r', e, same, _, _, _) ↦ rw (e, same) (stays _ (rows r.db))
    ]
  ]
