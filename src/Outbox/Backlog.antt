-- ===== src/Outbox/Backlog.antt =====
-- Polls in a row: `tick` polls again at once while rows went out (src/outbox/outbox.relay.ts).
use overbook.Base.{
  ℕ, zero, suc, ◌+◌, ◌≤◌, ◌<◌, ◌≡◌, ◌≢◌, refl, sym, ap, subst, ◌∙◌, ◌⊎◌, inl, inr, Bool, true,
  false, not, ◌&&◌, ◌||◌, ◌==◌, Option, none, some, List, [], ◌∷◌, map, filter, take, length, ltb,
  leb, str_eq_iff, arith, Bool-cases, if◌then◌else◌,
}
use overbook.Failure.{Failure, Result, ok, err}
use overbook.Entities.{BookingPayload, OutboxMessageEntity}
use overbook.Kafka.Topics.{TopicMessages, publish_batch}
use overbook.Outbox.Store.{OutboxStore, is_pending, has_id, update_where}
use overbook.Outbox.Relay.{
  Settings, message_of, published_row, ids_of, Relay, drain_once, schedule, tick,
}
use overbook.Outbox.Drain.{batch, Settled, drain_once_lem}

abbrev pub pending_rows : List OutboxMessageEntity → ℕ
pending_rows l = length (filter (λ m. is_pending m.status) l)

fewer :
    (p : OutboxMessageEntity → Bool) (date : ℕ) (l : List OutboxMessageEntity)
    → pending_rows (update_where p (published_row date) l) ≤ pending_rows l
unfolding published_row
fewer p date [] = omega arith
fewer p date (m ∷ l) = ground (arith, fewer p date l)

-- A row that waits and is published is one row less that waits.
one_less :
    (p test : OutboxMessageEntity → Bool) (date : ℕ) (l rest : List OutboxMessageEntity)
    (m : OutboxMessageEntity)
    → ((k : OutboxMessageEntity) → test k ≡ true → is_pending k.status ≡ true)
    → filter test l ≡ m ∷ rest
    → p m ≡ true
    → pending_rows (update_where p (published_row date) l) + 1 ≤ pending_rows l
unfolding published_row
one_less p test date [] rest m waits found picked = absurd (cc found)
one_less p test date (k ∷ l) rest m waits found picked = elim (Bool-cases (test k)) [
  | inl here ↦
      let first : k ∷ filter test l ≡ m ∷ rest =
        sym (ap (λ b. if b then k ∷ filter test l else filter test l) here) ∙ found in
      let same : k ≡ m = cc first in
      let picked' : p k ≡ true = subst (λ k. p k ≡ true) (sym same) picked in
      let pending' = waits k here in ground (arith, fewer p date l, picked', pending')
  | inr later ↦
      let found' : filter test l ≡ m ∷ rest =
        sym (ap (λ b. if b then k ∷ filter test l else filter test l) later) ∙ found in
      let rest' = one_less p test date l rest m waits found' picked in ground (arith, rest')
]

module _ (S : OutboxStore) (send : TopicMessages BookingPayload → Result (Unit {0}))
    (c : Settings) where
  open S use {Db, rows, now, is_locked}

  -- a timer that fires without a wait
  abbrev pub is_due_now : Option ℕ → Bool
  is_due_now none = false
  is_due_now (some delay) = delay == 0

  -- The timers that fire one after the other, each with its `tick`, while the next is set without a
  -- wait; `none`: out of fuel.
  unfoldable pub drain_backlog : ℕ → Relay S send c → Option (Relay S send c)
  drain_backlog zero r = none
  drain_backlog (suc fuel) r =
      let r' = tick S send c r in
      let rest = drain_backlog fuel r' in if is_due_now r'.timer then rest else some r'

  -- the condition of the claim
  abbrev is_due : Db → OutboxMessageEntity → Bool
  is_due db m = is_pending m.status && leb m.available_at (now db) && not (is_locked db m)

  is_due-pending :
      (db : Db) (m : OutboxMessageEntity) → is_due db m ≡ true → is_pending m.status ≡ true
  is_due-pending db m h = ground arith

  -- A batch that was published leaves fewer rows that wait.
  published_less :
      (n : ℕ) (db : Db) (ready : List OutboxMessageEntity)
      → c.batch_size ≡ suc n
      → filter (is_due db) (rows db) ≡ ready
      → (batch S send c db ≡ [])
        ⊎ ((k : ℕ) × (length (batch S send c db) ≡ suc k)
            × (pending_rows (
                  update_where
                    (has_id (ids_of (batch S send c db)))
                    (published_row (now db))
                    (rows db))
                < pending_rows (rows db)))
  published_less n db [] size is =
      inl (ap (λ k. take k (filter (is_due db) (rows db))) size ∙ ap (take (suc n)) is)
  published_less n db (m ∷ rest) size is =
      let batched : batch S send c db ≡ m ∷ take n rest =
        ap (λ k. take k (filter (is_due db) (rows db))) size ∙ ap (take (suc n)) is in
      let first : has_id (ids_of (m ∷ take n rest)) m ≡ true =
        ap (λ b. b || has_id (ids_of (take n rest)) m) ((str_eq_iff m.id m.id).1 refl) in
      let picked : has_id (ids_of (batch S send c db)) m ≡ true =
        ap (λ l. has_id (ids_of l) m) batched ∙ first in
      let less =
        one_less (has_id (ids_of (batch S send c db))) (is_due db) (now db) (rows db) rest m
          (is_due-pending db) is picked in
      inr (length (take n rest), ap length batched, omega (arith, less))

  -- What one poll does to the backlog, when the broker takes the batch: there was nothing due, or rows
  -- went out and fewer wait.
  poll_lem :
      (b n : ℕ) (r r' : Relay S send c)
      → c.batch_size ≡ suc b
      → ((l : List OutboxMessageEntity) → publish_batch send (map message_of l) ≡ ok tt)
      → Settled S send c (batch S send c r.db) (now r.db) (rows r.db) n (rows r'.db)
      → ((n ≡ 0) × (batch S send c r.db ≡ []))
        ⊎ ((k : ℕ) × (n ≡ suc k) × (pending_rows (rows r'.db) < pending_rows (rows r.db)))
  poll_lem b n r r' size takes (inr (inr (none_due, zero', _))) = inl (zero', none_due)
  poll_lem b n r r' size takes (inr (inl (x, dated, refused, _, _, _))) =
      let clash : ok tt ≡ err x = sym (takes (batch S send c r.db)) ∙ refused in absurd (cc clash)
  poll_lem b n r r' size takes (inl (taken, count, table)) =
      elim (published_less b r.db (filter (is_due r.db) (rows r.db)) size refl) [
        | inl none_due ↦ inl (count ∙ ap length none_due, none_due)
        | inr (k, some_out, less) ↦
            (inr (k, count ∙ some_out, omega (arith, less, ap pending_rows table)))
      ]

  -- `tick` after a poll that returned
  tick_lem :
      (n : ℕ) (r r' : Relay S send c)
      → drain_once S send c r ≡ (ok n, r')
      → r'.stopped ≡ false
      → tick S send c r ≡ record r' { timer = some (if ltb 0 n then 0 else c.poll_interval_ms) }
  unfolding tick schedule
  tick_lem n r r' ran on = ground arith

  drain_backlog-tick :
      (fuel delay : ℕ) (r r' : Relay S send c)
      → tick S send c r ≡ record r' { timer = some delay }
      → drain_backlog (suc fuel) r ≡ (
          if delay == 0
          then drain_backlog fuel (record r' { timer = some delay })
          else some (record r' { timer = some delay }))
  unfolding drain_backlog
  drain_backlog-tick fuel delay r r' e =
      ap (λ q. if is_due_now q.timer then drain_backlog fuel q else some q) e

  drain_backlog-stops :
      (fuel : ℕ) (r r' : Relay S send c)
      → 0 < c.poll_interval_ms
      → tick S send c r ≡ record r' { timer = some (if ltb 0 0 then 0 else c.poll_interval_ms) }
      → (drain_backlog (suc fuel) r ≡ some (tick S send c r))
        × ((tick S send c r).timer ≡ some c.poll_interval_ms)
  drain_backlog-stops fuel r r' waits e =
      let later : (c.poll_interval_ms == 0) ≡ false = ground (arith, waits) in
      (
        drain_backlog-tick fuel c.poll_interval_ms r r' e
            ∙ ap
                (λ b.
                  if b
                  then drain_backlog fuel (record r' { timer = some c.poll_interval_ms })
                  else some (record r' { timer = some c.poll_interval_ms }))
                later
            ∙ ap some (sym e),
        ap (λ q. q.timer) e,
      )

  -- The backlog is drained: from a relay that is not stopped, while the broker takes every batch, no poll
  -- throws and nobody else writes to the table between the polls, `tick` sets the timer without a wait
  -- at most as often as rows wait, so that n rows take at most n + 1 polls; the last of them finds no
  -- row that is due and free, and sets the timer to the poll interval.
  pub drain_backlog_lem :
      (b fuel : ℕ) (r : Relay S send c)
      → c.batch_size ≡ suc b
      → 0 < c.poll_interval_ms
      → ((l : List OutboxMessageEntity) → publish_batch send (map message_of l) ≡ ok tt)
      → ((q : Relay S send c) (x : Failure) → (drain_once S send c q).0 ≢ err x)
      → r.running ≡ false
      → r.stopped ≡ false
      → pending_rows (rows r.db) < fuel
      → (last : Relay S send c) × (drain_backlog fuel r ≡ some (tick S send c last))
        × ((tick S send c last).timer ≡ some c.poll_interval_ms)
        × (batch S send c last.db ≡ [])
  drain_backlog_lem b zero r size waits takes works idle on enough = absurd (omega (arith, enough))
  drain_backlog_lem b (suc fuel) r size waits takes works idle on enough =
      elim (drain_once_lem S send c r idle) [
        | inr (x, r', ran, _, _, _, _) ↦ absurd (works r x (ap (λ o. o.0) ran))
        | inl (n, r', ran, settled, idle', on', _) ↦ elim (poll_lem b n r r' size takes settled) [
          | inl (none_out, none_due) ↦
              let stop = tick_lem 0 r r' (ran ∙ ap (λ k. (ok k, r')) none_out) (on' ∙ on) in
              let (ends, armed) = drain_backlog-stops fuel r r' waits stop in
              (r, ends, armed, none_due)
          | inr (k, some_out, less) ↦
              let more =
                tick_lem (suc k) r r' (ran ∙ ap (λ k. (ok k, r')) some_out) (on' ∙ on)
                ∙ ap (λ b. record r' { timer = some (if b then 0 else c.poll_interval_ms) })
                    (positive k) in
              let (last, drained, armed, none_due) =
                drain_backlog_lem b fuel (record r' { timer = some 0 }) size waits takes works idle'
                  (on' ∙ on) (omega (arith, less, enough)) in
              (last, drain_backlog-tick fuel 0 r r' more ∙ drained, armed, none_due)
        ]
      ]
    where
      positive : (k : ℕ) → ltb 0 (suc k) ≡ true
      positive k = ground arith
