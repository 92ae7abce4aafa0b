-- ===== src/Outbox/Drain.antt =====
-- What one poll of the relay does to the table.
use overbook.Base.{
  filter, ℕ, ◌≡◌, refl, sym, subst, ap, ◌∙◌, ◌⊎◌, inl, inr, true, false, not, ◌&&◌, List, [], ◌∷◌,
  map, arith, leb, str_eq, take, length, if◌then◌else◌,
}
use overbook.Failure.{Failure, failed, Result, ok, err}
use overbook.Entities.{BookingPayload, OutboxMessageEntity}
use overbook.Kafka.Topics.{TopicMessages, publish_batch}
use overbook.Outbox.Store.{OutboxStore, is_pending, has_id, update_where}
use overbook.Outbox.Relay.{
  Settings, RelayEffect, failure_counted, pending_gauge, finished, message_of, failed_row,
  published_row, ids_of, refresh_pending_gauge, fail_one, mark_failed, counted, mark_published,
  settle, publish_rows, drain_body, Relay, State, drain_once,
}

-- The row `m` of the table after `mark_failed` has gone over the batch, each row of which is failed at
-- its own instant.
unfoldable pub after_failures :
    ℕ → Failure → List (ℕ × OutboxMessageEntity) → OutboxMessageEntity → OutboxMessageEntity
after_failures max error [] m = m
after_failures max error ((date, row) ∷ rest) m =
    after_failures max error rest
      (if str_eq m.id row.id then failed_row max date error row m else m)

abbrev pub claimed : List (ℕ × OutboxMessageEntity) → List OutboxMessageEntity
claimed = map (λ p. p.1)

map-map :
    {A : Type 0} (f g h : A → A)
    → ((a : A) → g (f a) ≡ h a)
    → (l : List A) → map g (map f l) ≡ map h l
map-map f g h e [] = refl
map-map f g h e (x ∷ xs) = cc (e x, map-map f g h e xs)

pub map-id : {A : Type 0} (l : List A) → map (λ (a : A). a) l ≡ l
map-id [] = refl
map-id (x ∷ xs) = cc (map-id xs)

module _ (S : OutboxStore) (send : TopicMessages BookingPayload → Result (Unit {0}))
    (c : Settings) where
  open S use {Db, rows, is_locked, now, date_now}

  -- The oldest rows that are pending, due and held by no other relay, a batch of them at most.
  abbrev pub batch : Db → List OutboxMessageEntity
  batch db = take c.batch_size (
      filter (λ m. is_pending m.status && leb m.available_at (now db) && not (is_locked db m))
        (rows db))

  mark_failed_lem :
      (error : Failure) (l : List OutboxMessageEntity) (db : Db) (t : List RelayEffect)
      → ((db' : Db) × (t' : List RelayEffect) × (dated : List (ℕ × OutboxMessageEntity))
          × (mark_failed S send c error l (db, t) ≡ (ok tt, (db', t')))
          × (claimed dated ≡ l)
          × (rows db' ≡ map (after_failures c.max_attempts error dated) (rows db)))
        ⊎ ((x : Failure) × (db' : Db) × (t' : List RelayEffect) × (mark_failed S send c error l
                (db, t)
              ≡ (err x, (db', t'))))
  unfolding mark_failed fail_one after_failures
  mark_failed_lem error [] db t = inl (db, t, [], refl, refl, sym (map-id (rows db)))
  mark_failed_lem error (row ∷ l) db t =
      let put = failed_row c.max_attempts (date_now db) error row in
      elim (S.update_messages_law (λ m. str_eq m.id row.id) put db) [
        | inr (msg, h) ↦ inr (failed msg, db, failure_counted row.topic ∷ t, ground arith)
        | inl (db₁, h, now_rows) ↦
            elim (mark_failed_lem error l db₁ (failure_counted row.topic ∷ t)) [
              | inr (x, db', t', h') ↦ inr (x, db', t', ground arith)
              | inl (db', t', dated, h', same, rest) ↦ inl (
                db',
                t',
                (date_now db, row) ∷ dated,
                ground arith,
                ap (λ r. row ∷ r) same,
                rest
                    ∙ ap (map (after_failures c.max_attempts error dated)) now_rows
                    ∙ map-map _ _ (after_failures c.max_attempts error ((date_now db, row) ∷ dated))
                        (λ m. refl) (rows db),
              )
            ]
      ]

  refresh_lem :
      (db : Db) (t : List RelayEffect)
      → ((t' : List RelayEffect) × (refresh_pending_gauge S send c (db, t) ≡ (ok tt, (db, t'))))
        ⊎ ((x : Failure) × (refresh_pending_gauge S send c (db, t) ≡ (err x, (db, t))))
  unfolding refresh_pending_gauge
  refresh_lem db t = elim (S.count_pending_law db) [
    | inl h ↦
        inl (pending_gauge (length (filter (λ m. is_pending m.status) (rows db))) ∷ t, ground arith)
    | inr (msg, h) ↦ inr (failed msg, ground arith)
  ]

  -- What a poll did to the table `l`, with `ready` the rows that it claimed at the instant `date`: it
  -- published them all and marked them; or the broker refused and each was postponed; or there were
  -- none.
  abbrev pub Settled :
      List OutboxMessageEntity
      → ℕ
      → List OutboxMessageEntity
      → ℕ
      → List OutboxMessageEntity
      → Type 0
  Settled ready date l n l' =
      ((publish_batch send (map message_of ready) ≡ ok tt)
        × (n ≡ length ready)
        × (l' ≡ update_where (has_id (ids_of ready)) (published_row date) l))
      ⊎ ((x : Failure) × (dated : List (ℕ × OutboxMessageEntity)) × (publish_batch send
              (map message_of ready)
            ≡ err x)
          × (n ≡ 0)
          × (claimed dated ≡ ready)
          × (l' ≡ map (after_failures c.max_attempts x dated) l))
      ⊎ ((ready ≡ []) × (n ≡ 0) × (l' ≡ l))

  abbrev Returns : Db → List OutboxMessageEntity → Result ℕ × State S send c → Type 0
  Returns db ready r =
      ((n : ℕ) × (db' : Db) × (t' : List RelayEffect) × (r ≡ (ok n, (db', t')))
        × Settled ready (now db) (rows db) n (rows db'))
      ⊎ ((x : Failure) × (db' : Db) × (t' : List RelayEffect) × (r ≡ (err x, (db', t'))))

  settle_lem :
      (row : OutboxMessageEntity) (l : List OutboxMessageEntity) (db : Db) (t : List RelayEffect)
      (r : Result (Unit {0}))
      → publish_batch send (map message_of (row ∷ l)) ≡ r
      → Returns db (row ∷ l) (settle S send c (row ∷ l) r (db, t))
  unfolding settle mark_published
  settle_lem row l db t (err x) e = elim (mark_failed_lem x (row ∷ l) db t) [
    | inr (y, db', t', h) ↦ inr (y, db', t', ground arith)
    | inl (db', t', dated, h, same, table) ↦
        inl (0, db', t', ground arith, inr (inl (x, dated, e, refl, same, table)))
  ]
  settle_lem row l db t (ok u) e =
      elim (S.update_messages_law (has_id (ids_of (row ∷ l))) (published_row (now db)) db) [
        | inr (msg, h) ↦ inr (failed msg, db, t, ground arith)
        | inl (db', h, table) ↦ elim (refresh_lem db' (counted S send c (row ∷ l) t)) [
          | inr (x, h') ↦ inr (x, db', counted S send c (row ∷ l) t, ground arith)
          | inl (t', h') ↦ inl (length (row ∷ l), db', t', ground arith, inl (e, refl, table))
        ]
      ]

  publish_rows_lem :
      (l : List OutboxMessageEntity) (db : Db) (t : List RelayEffect)
      → Returns db l (publish_rows S send c l (db, t))
  unfolding publish_rows
  publish_rows_lem [] db t = elim (refresh_lem db t) [
    | inr (x, h) ↦ inr (x, db, t, ground arith)
    | inl (t', h) ↦ inl (0, db, t', ground arith, inr (inr (refl, refl, refl)))
  ]
  publish_rows_lem (row ∷ l) db t = settle_lem row l db t _ refl

  drain_body_lem :
      (db : Db) (t : List RelayEffect) → Returns db (batch db) (drain_body S send c (db, t))
  unfolding drain_body
  drain_body_lem db t = elim (S.claim_law c.batch_size db) [
    | inr (msg, h) ↦ inr (failed msg, db, t, ground arith)
    | inl h ↦
        let same : drain_body S send c (db, t) ≡ publish_rows S send c (batch db) (db, t) =
          ground arith in
        subst (Returns db (batch db)) (sym same) (publish_rows_lem (batch db) db t)
  ]

  -- A poll that finds no other poll running settles one batch, or throws and leaves the table alone.
  -- Either way it is no longer running afterwards, and the timer is not touched.
  pub drain_once_lem :
      (r : Relay S send c)
      → r.running ≡ false
      → ((n : ℕ) × (r' : Relay S send c) × (drain_once S send c r ≡ (ok n, r'))
          × Settled (batch r.db) (now r.db) (rows r.db) n (rows r'.db)
          × (r'.running ≡ false)
          × (r'.stopped ≡ r.stopped)
          × (r'.timer ≡ r.timer))
        ⊎ ((x : Failure) × (r' : Relay S send c) × (drain_once S send c r ≡ (err x, r'))
            × (r'.db ≡ r.db)
            × (r'.running ≡ false)
            × (r'.stopped ≡ r.stopped)
            × (r'.timer ≡ r.timer))
  unfolding drain_once
  drain_once_lem r idle =
      let body = drain_body S send c in
      elim (drain_body_lem r.db r.trace) [
        | inr (x, db', t', h) ↦
            let (y, t'', e) = S.transaction_err (List RelayEffect) ℕ body r.db db' r.trace t' x h in
            inr (y, finished S send c r (r.db, t''), ground arith, refl, refl, refl, refl)
        | inl (n, db', t', h, settled) ↦
            elim (S.transaction_ok (List RelayEffect) ℕ body r.db db' r.trace t' n h) [
              | inl e ↦
                  inl (n, finished S send c r (db', t'), ground arith, settled, refl, refl, refl)
              | inr (y, t'', e) ↦
                  inr (y, finished S send c r (r.db, t''), ground arith, refl, refl, refl, refl)
            ]
      ]

  -- A poll that finds another one running does nothing.
  pub drain_once_busy : (r : Relay S send c) → r.running ≡ true → drain_once S send c r ≡ (ok 0, r)
  unfolding drain_once
  drain_once_busy r busy = ground arith
