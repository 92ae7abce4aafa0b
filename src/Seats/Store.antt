-- ===== src/Seats/Store.antt =====
-- What the transactions rely on of PostgreSQL at READ COMMITTED, for one row of `events`: a plain
-- read sees the committed row and never waits; FOR UPDATE and UPDATE take the row lock, wait for
-- another holder (`none`: not yet), and keep it until the transaction ends; an UPDATE tests its
-- WHERE clause on the row as it is once the lock is free.
use overbook.Base.{ℕ, ◌≡◌, ◌≢◌, ◌⊎◌, Bool, true, false, Option, none, some}
use overbook.Entities.{EventEntity}

-- The columns that an UPDATE wrote; `updated_at` is the database's.
abbrev pub SameSeats : EventEntity → EventEntity → Type 0
SameSeats a b = (a.available_seats ≡ b.available_seats) × (a.version ≡ b.version)

pub record RowStore : Type 1 where
  pub St : Type 0
  pub init : EventEntity → St
  -- the row that the other transactions see, the transaction that holds the lock, and its row
  pub committed : St → EventEntity
  pub owner : St → Option ℕ
  pub pending : St → EventEntity
  -- the statements of transaction `i`
  pub read : ℕ → St → EventEntity
  pub lock : ℕ → St → Option (EventEntity × St)
  pub update : ℕ → (EventEntity → Bool) → (EventEntity → EventEntity) → St → Option (ℕ × St)
  pub commit : ℕ → St → St
  pub rollback : ℕ → St → St
  pub init_law : (e : EventEntity) → (committed (init e) ≡ e) × (owner (init e) ≡ none)
  pub read_law : (i : ℕ) (s : St) → owner s ≢ some i → read i s ≡ committed s
  pub lock_law :
      (i : ℕ) (s s' : St) (row : EventEntity)
      → owner s ≢ some i
      → lock i s ≡ some (row, s')
      → (owner s ≡ none)
        × (owner s' ≡ some i)
        × (committed s' ≡ committed s)
        × (pending s' ≡ committed s)
        × (row ≡ committed s)
  -- a second statement on a row that the transaction holds already
  pub update_held :
      (i : ℕ) (test : EventEntity → Bool) (put : EventEntity → EventEntity) (s s' : St) (n : ℕ)
      → owner s ≡ some i
      → test (pending s) ≡ true
      → update i test put s ≡ some (n, s')
      → (n ≡ 1)
        × (owner s' ≡ some i)
        × (committed s' ≡ committed s)
        × SameSeats (pending s') (put (pending s))
  -- the first: it gets through only when nobody holds the row
  pub update_free :
      (i : ℕ) (test : EventEntity → Bool) (put : EventEntity → EventEntity) (s s' : St) (n : ℕ)
      → owner s ≢ some i
      → update i test put s ≡ some (n, s')
      → (owner s ≡ none)
        × (committed s' ≡ committed s)
        × (((test (committed s) ≡ true)
              × (n ≡ 1)
              × (owner s' ≡ some i)
              × SameSeats (pending s') (put (committed s)))
            ⊎ ((test (committed s) ≡ false) × (n ≡ 0) × (owner s' ≡ none)))
  pub commit_law :
      (i : ℕ) (s : St)
      → owner s ≡ some i
      → (committed (commit i s) ≡ pending s) × (owner (commit i s) ≡ none)
  pub rollback_held :
      (i : ℕ) (s : St)
      → owner s ≡ some i
      → (committed (rollback i s) ≡ committed s) × (owner (rollback i s) ≡ none)
  pub rollback_free :
      (i : ℕ) (s : St)
      → owner s ≢ some i
      → (committed (rollback i s) ≡ committed s)
        × (owner (rollback i s) ≡ owner s)
        × (pending (rollback i s) ≡ pending s)
