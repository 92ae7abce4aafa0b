-- ===== src/Outbox/Store.antt =====
-- What the relay relies on of PostgreSQL and TypeORM: the statements of outbox.relay.ts on the table
-- `outbox_messages`, and the documented effect of each. A statement may fail, and changes nothing.
use overbook.Base.{
  ℕ, ◌≡◌, ◌⊎◌, Bool, true, false, not, ◌&&◌, ◌||◌, String, List, [], ◌∷◌, map, filter, leb, str_eq,
  take, length, if◌then◌else◌,
}
use overbook.Failure.{Failure, ok, err, Action}
use overbook.Entities.{OutboxMessageEntity, OutboxStatus, pending}
use overbook.Database.{Reads, Fails}

abbrev pub is_pending : OutboxStatus → Bool
is_pending pending = true
is_pending _ = false

-- `whereInIds`
abbrev pub has_id : List String → OutboxMessageEntity → Bool
has_id [] m = false
has_id (id ∷ ids) m = str_eq m.id id || has_id ids m

-- UPDATE .. SET put WHERE test
abbrev pub update_where :
    (OutboxMessageEntity → Bool)
    → (OutboxMessageEntity → OutboxMessageEntity)
    → List OutboxMessageEntity
    → List OutboxMessageEntity
update_where test put = map (λ m. if test m then put m else m)

pub record OutboxStore : Type 1 where
  pub Db : Type 0
  -- the table, oldest first, and the rows that another relay holds
  pub rows : Db → List OutboxMessageEntity
  pub is_locked : Db → OutboxMessageEntity → Bool
  -- now() in the database, and Date.now() in the process
  pub now : Db → ℕ
  pub date_now : Db → ℕ
  pub claim : ℕ → Action Db (List OutboxMessageEntity)
  pub update_messages :
      (OutboxMessageEntity → Bool)
      → (OutboxMessageEntity → OutboxMessageEntity)
      → Action Db (Unit {0})
  pub count_pending : Action Db ℕ
  -- the transaction carries the state `T` of the process, which no rollback undoes
  pub transaction : (T A : Type 0) → Action (Db × T) A → Action (Db × T) A
  -- SELECT .. WHERE pending AND due ORDER BY created_at LIMIT n FOR UPDATE SKIP LOCKED
  pub claim_law :
      (limit : ℕ) (db : Db)
      → Reads
          (claim limit db)
          (take limit (
            filter
              (λ m. is_pending m.status && leb m.available_at (now db) && not (is_locked db m))
              (rows db)))
          db
  pub update_messages_law :
      (test : OutboxMessageEntity → Bool) (put : OutboxMessageEntity → OutboxMessageEntity)
      (db : Db)
      → ((db' : Db) × (update_messages test put db ≡ (ok tt, db'))
          × (rows db' ≡ update_where test put (rows db)))
        ⊎ Fails (update_messages test put db) db
  pub count_pending_law :
      (db : Db) → Reads (count_pending db) (length (filter (λ m. is_pending m.status) (rows db))) db
  pub transaction_ok :
      (T A : Type 0) (body : Action (Db × T) A) (db db' : Db) (t t' : T) (a : A)
      → body (db, t) ≡ (ok a, (db', t'))
      → (transaction T A body (db, t) ≡ (ok a, (db', t')))
        ⊎ ((x : Failure) × (t'' : T) × (transaction T A body (db, t) ≡ (err x, (db, t''))))
  pub transaction_err :
      (T A : Type 0) (body : Action (Db × T) A) (db db' : Db) (t t' : T) (e : Failure)
      → body (db, t) ≡ (err e, (db', t'))
      → (x : Failure) × (t'' : T) × (transaction T A body (db, t) ≡ (err x, (db, t'')))
