-- ===== src/Events/Store.antt =====
-- What events.service.ts relies on of PostgreSQL and TypeORM: its statements on the table `events`. A
-- statement may fail, and then changes nothing.
use overbook.Base.{
  ℕ, ◌≡◌, ◌⊎◌, Bool, true, false, Option, none, some, String, List, [], ◌∷◌, take, All, filter,
}
use overbook.Failure.{ok, Action}
use overbook.Entities.{EventEntity}
use overbook.Database.{Reads, Fails}

-- what `repository.create` is given for an event
pub record NewEvent : Type 0 where
  pub name : String
  pub venue : String
  pub total_seats : ℕ
  pub available_seats : ℕ
  pub price_cents : ℕ
  pub starts_at : ℕ

abbrev pub EventOf : NewEvent → EventEntity → Type 0
EventOf n e =
    (e.name ≡ n.name)
    × (e.venue ≡ n.venue)
    × (e.total_seats ≡ n.total_seats)
    × (e.available_seats ≡ n.available_seats)
    × (e.price_cents ≡ n.price_cents)
    × (e.starts_at ≡ n.starts_at)

-- `event.id > cursor`, or no condition; `after` is the order of PostgreSQL on ids
abbrev pub beyond : (String → String → Bool) → Option String → EventEntity → Bool
beyond after none e = true
beyond after (some cursor) e = after e.id cursor

-- Each row comes before all that follow it.
abbrev pub IsAscending : (String → String → Bool) → List EventEntity → Type 0
IsAscending after [] = Unit {0}
IsAscending after (e ∷ es) = All (λ f. after f.id e.id ≡ true) es × IsAscending after es

pub record EventStore : Type 1 where
  pub Db : Type 0
  pub after : String → String → Bool
  pub after_asym : (a b : String) → after a b ≡ true → after b a ≡ false
  -- the table, ORDER BY id ASC
  pub rows : Db → List EventEntity
  pub ascending : (db : Db) → IsAscending after (rows db)
  pub event : String → Db → Option EventEntity
  pub find_one : String → Action Db (Option EventEntity)
  -- SELECT .. WHERE id > cursor ORDER BY id ASC LIMIT n
  pub find_page : Option String → ℕ → Action Db (List EventEntity)
  pub save : NewEvent → Action Db EventEntity
  pub find_one_law : (id : String) (db : Db) → Reads (find_one id db) (event id db) db
  pub find_page_law :
      (cursor : Option String) (n : ℕ) (db : Db)
      → Reads (find_page cursor n db) (take n (filter (beyond after cursor) (rows db))) db
  pub save_law :
      (n : NewEvent) (db : Db)
      → ((db' : Db) × (e : EventEntity) × (save n db ≡ (ok e, db'))
          × EventOf n e
          × (event e.id db' ≡ some e))
        ⊎ Fails (save n db) db
