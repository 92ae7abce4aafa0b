-- ===== src/Idempotency/Requests.antt =====
-- Concurrent requests with one key. Each runs a statement at a time; between two statements of one
-- request, any others may run theirs. The row of the key is not swept meanwhile.
use overbook.Base.{ℕ, ◌≡◌, Option, none, String, List, [], ◌∷◌, ◌==◌, if◌then◌else◌}
use overbook.Failure.{Failure, Result, ok, err}
use overbook.Idempotency.Table.{KeyTable}
use overbook.Idempotency.Interceptor.{
  Claim, proceed, replay, insert_claim, claim_existing, complete, release,
}

-- Where a request stands in `intercept`.
pub data Stage (B : Type 0) : Type 0 where
  arrived : Stage B
  -- the INSERT returned no row
  taken : Stage B
  -- the handler runs
  handling : Stage B
  -- the handler returned, or threw
  storing : ℕ → Option B → Stage B
  releasing : Failure → Stage B
  answered : ℕ → Option B → Stage B
  replayed : ℕ → Option B → Stage B
  refused : Failure → Stage B
  withdrawn : Failure → Stage B

module _ {B : Type 0} where
  abbrev pub update_stage : (ℕ → Stage B) → ℕ → Stage B → ℕ → Stage B
  update_stage stage i p j = if j == i then p else stage j

  unfoldable pub after_insert : Result (List String) → Stage B
  after_insert (ok (_ ∷ _)) = handling
  after_insert (ok []) = taken
  after_insert (err e) = refused e

  unfoldable pub stage_of : Result (Claim B) → Stage B
  stage_of (ok proceed) = handling
  stage_of (ok (replay status body)) = replayed status body
  stage_of (err e) = refused e

module _ {B : Type 0} (T : KeyTable B) (key : String) (endpoint fingerprint : ℕ → String) where
  open T use {Db}

  pub record World : Type 0 where
    pub db : Db
    pub stage : ℕ → Stage B

  -- one statement of request `i`: the tables and the stage, before and after
  pub data Advance (i : ℕ) (db : Db) : Stage B → Db → Stage B → Type 0 where
    inserts :
        Advance i db arrived
          (insert_claim T key (endpoint i) (fingerprint i) db).1
          (after_insert (insert_claim T key (endpoint i) (fingerprint i) db).0)
    reads :
        Advance i db taken
          (claim_existing T key (fingerprint i) db).1
          (stage_of (claim_existing T key (fingerprint i) db).0)
    handled : (status : ℕ) (body : Option B) → Advance i db handling db (storing status body)
    threw : (e : Failure) → Advance i db handling db (releasing e)
    stores :
        {status : ℕ} {body : Option B}
        → Advance i db
            (storing status body)
            (complete T key status body db).1
            (answered status body)
    releases : {e : Failure} → Advance i db (releasing e) (release T key db).1 (withdrawn e)

  pub data Step (w : World) : World → Type 0 where
    pick :
        (i : ℕ) {db' : Db} {p' : Stage B}
        → Advance i w.db (w.stage i) db' p'
        → Step w (record { db = db'; stage = update_stage w.stage i p' })

  -- from a table without a row of the key
  pub data Reach : World → Type 0 where
    here : {db : Db} → T.row key db ≡ none → Reach (record { db = db; stage = λ _. arrived })
    next : {v w : World} → Reach v → Step v w → Reach w
