-- ===== src/Route/Claiming.antt =====
-- The claim of a key and the end of a request (src/idempotency/idempotency.interceptor.ts), to the row
-- of any key.
use overbook.Base.{
  ◌≡◌, refl, ◌⊎◌, inl, inr, ℕ, false, Option, none, some, String, arith, Option-cases,
}
use overbook.Failure.{Failure, failed, ok, err}
use overbook.Idempotency.Table.{IdempotencyKeyEntity, KeyTable, Inserted, Others, map_row}
use overbook.Idempotency.Interceptor.{
  proceed, expiry, judge, completed_row, insert_claim, claim_existing, claim, complete, release,
  after_handler,
}

module _ {B : Type 0} (T : KeyTable B) where
  open T use {Db, row, now}

  -- The claim inserts the row of a key that has none; it judges the row that is there; or it fails.
  pub claim_lem :
      (key endpoint hash : String) (db : Db)
      → ((row key db ≡ none)
          × ((db' : Db) × (e : IdempotencyKeyEntity B) × (claim T key endpoint hash db
                ≡ (ok proceed, db'))
              × Inserted key endpoint hash (expiry (now db)) e
              × (row key db' ≡ some e)
              × Others row key db db'))
        ⊎ ((e : IdempotencyKeyEntity B) × (row key db ≡ some e)
            × (claim T key endpoint hash db ≡ (judge hash (some e), db)))
        ⊎ ((x : Failure) × (claim T key endpoint hash db ≡ (err x, db)))
  unfolding claim insert_claim claim_existing
  claim_lem key endpoint hash db = elim (Option-cases (row key db)) [
    | inl n ↦ elim (T.insert_new key endpoint hash (expiry (now db)) db n) [
      | inr (msg, h) ↦ inr (inr (failed msg, ground arith))
      | inl (db', e, h, is, r, o) ↦ inl (n, (db', e, ground arith, is, r, o))
    ]
    | inr (e, s) ↦ elim (T.insert_taken key endpoint hash (expiry (now db)) db e s) [
      | inr (msg, h) ↦ inr (inr (failed msg, ground arith))
      | inl h ↦ elim (T.find_one_law key db) [
        | inr (msg, h') ↦ inr (inr (failed msg, ground arith))
        | inl h' ↦ inr (inl (e, s, ground arith))
      ]
    ]
  ]

  -- The answer of the handler is passed on; the row of the key has it, or stays as it is.
  pub after_handler_lem :
      (key : String) (status : ℕ) (body : Option B) (db : Db)
      → (db' : Db) × (after_handler T key (ok (status, body)) db
          ≡ (ok (record { status = status; body = body; replayed = false }), db'))
        × Others row key db db'
        × ((row key db' ≡ map_row (completed_row status body) (row key db))
            ⊎ (row key db' ≡ row key db))
  unfolding after_handler complete
  after_handler_lem key status body db =
      elim (T.update_key_law key (completed_row status body) db) [
        | inl (db', h, r, o) ↦ (db', ground arith, o, inl r)
        | inr (msg, h) ↦ (db, ground arith, λ other ne. refl, inr refl)
      ]

  -- A failure of the handler is passed on; the row of the key goes, or stays as it is.
  pub after_failure_lem :
      (key : String) (e : Failure) (db : Db)
      → (db' : Db) × (after_handler T key (err e) db ≡ (err e, db'))
        × Others row key db db'
        × ((row key db' ≡ none) ⊎ (row key db' ≡ row key db))
  unfolding after_handler release
  after_failure_lem key e db = elim (T.delete_key_law key db) [
    | inl (db', h, r, o) ↦ (db', ground arith, o, inl r)
    | inr (msg, h) ↦ (db, ground arith, λ other ne. refl, inr refl)
  ]
