-- ===== src/Idempotency/Table.antt =====
-- The table `idempotency_keys` (src/idempotency/entities/idempotency-key.entity.ts), and the statements
-- on it, as an interface. A statement may always fail, and then changes nothing.
use overbook.Base.{ℕ, ◌≡◌, ◌≢◌, ◌⊎◌, Option, none, some, String, List, [], ◌∷◌, ltb, if◌then◌else◌}
use overbook.Failure.{ok, Action}
use overbook.Database.{Fails, Reads}

pub data IdempotencyStatus : Type 0 where
  in_progress : IdempotencyStatus
  completed : IdempotencyStatus

-- `B` is the type of a JSON body; `none` is null.
pub record IdempotencyKeyEntity (B : Type 0) : Type 0 where
  pub key : String
  pub endpoint : String
  pub request_hash : String
  pub status : IdempotencyStatus
  pub response_status : Option ℕ
  pub response_body : Option B
  pub created_at : ℕ
  pub expires_at : ℕ

abbrev pub Inserted : {B : Type 0} → String → String → String → ℕ → IdempotencyKeyEntity B → Type 0
Inserted key endpoint hash expires e =
    (e.key ≡ key)
    × (e.endpoint ≡ endpoint)
    × (e.request_hash ≡ hash)
    × (e.status ≡ in_progress)
    × (e.response_status ≡ none)
    × (e.response_body ≡ none)
    × (e.expires_at ≡ expires)

-- Every other row is as before.
abbrev pub Others : {Db E : Type 0} → (String → Db → Option E) → String → Db → Db → Type 0
Others row key db db' = (other : String) → other ≢ key → row other db' ≡ row other db

abbrev pub map_row : {E : Type 0} → (E → E) → Option E → Option E
map_row f none = none
map_row f (some e) = some (f e)

-- what is left of a row when the expired ones are deleted
abbrev pub unexpired :
    {B : Type 0} → ℕ → Option (IdempotencyKeyEntity B) → Option (IdempotencyKeyEntity B)
unexpired now none = none
unexpired now (some e) = if ltb e.expires_at now then none else some e

pub record KeyTable (B : Type 0) : Type 1 where
  pub Db : Type 0
  pub row : String → Db → Option (IdempotencyKeyEntity B)
  pub now : Db → ℕ
  -- INSERT .. ON CONFLICT DO NOTHING RETURNING key
  pub insert_or_ignore : String → String → String → ℕ → Action Db (List String)
  pub find_one : String → Action Db (Option (IdempotencyKeyEntity B))
  pub update_key : String → (IdempotencyKeyEntity B → IdempotencyKeyEntity B) → Action Db (Unit {0})
  pub delete_key : String → Action Db (Unit {0})
  -- DELETE .. WHERE expires_at < date
  pub delete_expired : ℕ → Action Db ℕ
  pub insert_new :
      (key endpoint hash : String) (expires : ℕ) (db : Db)
      → row key db ≡ none
      → ((db' : Db) × (e : IdempotencyKeyEntity B) × (insert_or_ignore key endpoint hash expires db
            ≡ (ok (key ∷ []), db'))
          × Inserted key endpoint hash expires e
          × (row key db' ≡ some e)
          × Others row key db db')
        ⊎ Fails (insert_or_ignore key endpoint hash expires db) db
  pub insert_taken :
      (key endpoint hash : String) (expires : ℕ) (db : Db) (e : IdempotencyKeyEntity B)
      → row key db ≡ some e
      → Reads (insert_or_ignore key endpoint hash expires db) [] db
  pub find_one_law : (key : String) (db : Db) → Reads (find_one key db) (row key db) db
  pub update_key_law :
      (key : String) (put : IdempotencyKeyEntity B → IdempotencyKeyEntity B) (db : Db)
      → ((db' : Db) × (update_key key put db ≡ (ok tt, db'))
          × (row key db' ≡ map_row put (row key db))
          × Others row key db db')
        ⊎ Fails (update_key key put db) db
  pub delete_key_law :
      (key : String) (db : Db)
      → ((db' : Db) × (delete_key key db ≡ (ok tt, db'))
          × (row key db' ≡ none)
          × Others row key db db')
        ⊎ Fails (delete_key key db) db
  pub delete_expired_law :
      (date : ℕ) (db : Db)
      → ((db' : Db) × (n : ℕ) × (delete_expired date db ≡ (ok n, db'))
          × ((key : String) → row key db' ≡ unexpired date (row key db)))
        ⊎ Fails (delete_expired date db) db
