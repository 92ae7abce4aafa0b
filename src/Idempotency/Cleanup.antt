-- ===== src/Idempotency/Cleanup.antt =====
-- `IdempotencyCleanupJob` (src/idempotency/idempotency-cleanup.job.ts).
use overbook.Base.{ℕ, ◌≡◌, ◌⊎◌, inl, inr, ◌∙◌, ap, Option, some, String, Option-cases}
use overbook.Failure.{Action}
use overbook.Idempotency.Table.{KeyTable, unexpired}
use overbook.Redis.Lock.{Lease, live_lease, with_lock, with_lock-held, with_lock-free}

abbrev pub lock_ttl_ms : ℕ
lock_ttl_ms = 60000

module _ {B : Type 0} (T : KeyTable B) where
  open T use {Db, row, now, delete_expired}

  -- the DELETE of the expired rows
  unfoldable pub delete_old : Action Db ℕ
  delete_old db = delete_expired (now db) db

  -- one tick of the cron, which ends at `later`; `token` is its randomUUID
  unfoldable pub sweep_expired_keys : ℕ → ℕ → ℕ → Action (Option Lease × Db) (Option ℕ)
  sweep_expired_keys start later token = with_lock start later lock_ttl_ms token delete_old

  -- A tick leaves every row, or deletes exactly the rows that expired before it; and leaves all rows
  -- while another replica holds the lock.
  pub sweep_expired_keys_lem :
      (start later token : ℕ) (lock : Option Lease) (db : Db)
      → let db' = (sweep_expired_keys start later token (lock, db)).1.1 in
        (((key : String) → row key db' ≡ row key db)
          ⊎ ((key : String) → row key db' ≡ unexpired (now db) (row key db)))
        × ((l : Lease) → live_lease start lock ≡ some l → db' ≡ db)
  unfolding sweep_expired_keys delete_old
  sweep_expired_keys_lem start later token lock db = elim (Option-cases (live_lease start lock)) [
    | inr (l, held) ↦
        let same = with_lock-held start later lock_ttl_ms token delete_old lock db l held in
        (inl (λ key. ap (row key) same), λ _ _. same)
    | inl free ↦
        let run = with_lock-free start later lock_ttl_ms token delete_old lock db free in
        (
          elim (T.delete_expired_law (now db) db) [
            | inl (db', n, done, swept) ↦
                inr (λ key. ap (row key) (run ∙ ap (λ q. q.1) done) ∙ swept key)
            | inr (msg, h) ↦ inl (λ key. ap (row key) (run ∙ ap (λ q. q.1) h))
          ],
          λ l h. cc,
        )
  ]
