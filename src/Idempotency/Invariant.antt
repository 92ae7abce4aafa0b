-- ===== src/Idempotency/Invariant.antt =====
-- What the row of the key says of the requests, statement by statement.
use overbook.Base.{
  subst, ℕ, ◌≡◌, ◌≢◌, refl, sym, ◌∙◌, ap, ◌⊎◌, inl, inr, Option, none, some, String, str_eq,
  str_eq_iff, arith, Bool-cases,
}
use overbook.Failure.{Failure, ok, err}
use overbook.Idempotency.Table.{in_progress, completed, IdempotencyKeyEntity, KeyTable, map_row}
use overbook.Idempotency.Interceptor.{
  expiry, stored_response, judge, completed_row, insert_claim, claim_existing, complete,
}
use overbook.Idempotency.Requests.{
  Stage, arrived, taken, handling, storing, releasing, answered, replayed, refused, withdrawn,
  after_insert, stage_of, Advance, inserts, reads, handled, threw, stores, releases,
}

-- No handler of this request threw.
abbrev pub IsCalm : {B : Type 0} → Stage B → Type 0
IsCalm (releasing _) = ⊥
IsCalm (withdrawn _) = ⊥
IsCalm _ = Unit {0}

-- The handler was called for this request.
abbrev pub IsServed : {B : Type 0} → Stage B → Type 0
IsServed handling = Unit {0}
IsServed (storing _ _) = Unit {0}
IsServed (answered _ _) = Unit {0}
IsServed (releasing _) = Unit {0}
IsServed (withdrawn _) = Unit {0}
IsServed _ = ⊥

-- The request has not met a row of the key.
abbrev pub IsFresh : {B : Type 0} → Stage B → Type 0
IsFresh arrived = Unit {0}
IsFresh (refused _) = Unit {0}
IsFresh _ = ⊥

module _ {B : Type 0} where
  -- The row holds this response.
  abbrev pub Holds : ℕ → Option B → IdempotencyKeyEntity B → Type 0
  Holds s b e = (e.status ≡ completed) × (e.response_status ≡ some s) × (e.response_body ≡ b)

  -- The request that was served, and the row.
  abbrev pub Served : IdempotencyKeyEntity B → Stage B → Type 0
  Served e handling = e.status ≡ in_progress
  Served e (storing _ _) = e.status ≡ in_progress
  Served e (answered s b) = (e.status ≡ in_progress) ⊎ Holds s b e
  Served e _ = ⊥

  -- Another request: a replay gives the answer of the one served, to the same fingerprint.
  abbrev pub Guest : Stage B → String → String → Stage B → Type 0
  Guest served hash own arrived = Unit {0}
  Guest served hash own taken = Unit {0}
  Guest served hash own (refused _) = Unit {0}
  Guest served hash own (replayed s b) = (served ≡ answered s b) × (own ≡ hash)
  Guest served hash own _ = ⊥

  response-Guest :
      (served : Stage B) (hash : String) (e : IdempotencyKeyEntity B)
      → Served e served
      → Guest served hash hash
          (stage_of (stored_response e.status e.response_status e.response_body))
  unfolding stored_response stage_of
  response-Guest handling hash e h = rw h tt
  response-Guest (storing _ _) hash e h = rw h tt
  response-Guest (answered s b) hash e (inl h) = rw h tt
  response-Guest (answered s b) hash e (inr (c, r, same)) =
      rw (c, r) (ap (answered s) (sym same), refl)
  response-Guest arrived hash e h = absurd h
  response-Guest taken hash e h = absurd h
  response-Guest (releasing _) hash e h = absurd h
  response-Guest (replayed _ _) hash e h = absurd h
  response-Guest (refused _) hash e h = absurd h
  response-Guest (withdrawn _) hash e h = absurd h

  judge-Guest :
      (served : Stage B) (hash own : String) (e : IdempotencyKeyEntity B)
      → e.request_hash ≡ hash
      → Served e served
      → Guest served hash own (stage_of (judge own (some e)))
  unfolding judge stage_of
  judge-Guest served hash own e same h = elim (Bool-cases (str_eq e.request_hash own)) [
    | inl equal ↦ rw equal (
        subst
          (λ t.
            Guest served hash t
              (stage_of (stored_response e.status e.response_status e.response_body)))
          (sym same ∙ (str_eq_iff e.request_hash own).0 equal) (response-Guest served hash e h))
    | inr different ↦ rw different tt
  ]

  module _ (T : KeyTable B) (key : String) (endpoint fingerprint : ℕ → String) where
    open T use {Db, row}

    existing-read :
        (hash : String) (db : Db)
        → (claim_existing T key hash db ≡ (judge hash (row key db), db))
          ⊎ ((x : Failure) × (claim_existing T key hash db ≡ (err x, db)))
    unfolding claim_existing
    existing-read hash db = elim (T.find_one_law key db) [
      | inl done ↦ inl (ground arith)
      | inr (msg, h) ↦ inr (Failure.failed msg, ground arith)
    ]

    complete-written :
        (s : ℕ) (b : Option B) (db : Db)
        → ((db' : Db) × (complete T key s b db ≡ (ok tt, db'))
            × (row key db' ≡ map_row (completed_row s b) (row key db)))
          ⊎ (complete T key s b db ≡ (ok tt, db))
    unfolding complete
    complete-written s b db = elim (T.update_key_law key (completed_row s b) db) [
      | inl (db', done, put, _) ↦ inl (db', ground arith, put)
      | inr (msg, failed) ↦ inr (ground arith)
    ]

    -- A statement of a request that is not the one served leaves the row as it is.
    pub other_step :
        {i : ℕ} {db db' : Db} {p p' : Stage B} (served : Stage B) (hash : String)
        (e : IdempotencyKeyEntity B)
        → Advance T key endpoint fingerprint i db p db' p'
        → row key db ≡ some e
        → e.request_hash ≡ hash
        → Served e served
        → Guest served hash (fingerprint i) p
        → (row key db' ≡ some e) × Guest served hash (fingerprint i) p'
    unfolding insert_claim after_insert stage_of
    other_step {i} {db} served hash e inserts r same h g =
        elim (T.insert_taken key (endpoint i) (fingerprint i) (expiry (T.now db)) db e r) [
          | inl done ↦ rw done (r, tt)
          | inr (_, failed) ↦ rw failed (r, tt)
        ]
    other_step {i} {db} served hash e reads r same h g = elim (existing-read (fingerprint i) db) [
      | inl done ↦ rw (done, r) (refl, judge-Guest served hash (fingerprint i) e same h)
      | inr (x, failed) ↦ rw failed (r, tt)
    ]
    other_step served hash e (handled _ _) r same h g = absurd g
    other_step served hash e (threw _) r same h g = absurd g
    other_step served hash e stores r same h g = absurd g
    other_step served hash e releases r same h g = absurd g

    -- A statement of the request that is served keeps the row, and its fingerprint.
    pub own_step :
        {i : ℕ} {db db' : Db} {p p' : Stage B} (e : IdempotencyKeyEntity B)
        → Advance T key endpoint fingerprint i db p db' p'
        → IsCalm p'
        → row key db ≡ some e
        → Served e p
        → ((s : ℕ) (b : Option B) → p ≢ answered s b)
          × ((e' : IdempotencyKeyEntity B) × (row key db' ≡ some e')
              × (e'.request_hash ≡ e.request_hash)
              × Served e' p')
    unfolding completed_row
    own_step e inserts calm r h = absurd h
    own_step e reads calm r h = absurd h
    own_step e (handled s b) calm r h = (λ _ _ x. cc, (e, r, refl, h))
    own_step e (threw _) calm r h = absurd calm
    own_step {i} {db} e (stores {status = s} {body = b}) calm r h = (
      λ _ _ x. cc,
      elim (complete-written s b db) [
        | inl (db', done, put) ↦ rw done (
          completed_row s b e,
          put ∙ ap (map_row (completed_row s b)) r,
          refl,
          inr (refl, refl, refl),
        )
        | inr done ↦ rw done (e, r, refl, inl h)
      ],
    )
    own_step e releases calm r h = absurd h

    -- The first claim.
    pub first_step :
        {i : ℕ} {db db' : Db} {p p' : Stage B}
        → Advance T key endpoint fingerprint i db p db' p'
        → row key db ≡ none
        → IsFresh p
        → ((row key db' ≡ none) × IsFresh p')
          ⊎ ((e : IdempotencyKeyEntity B) × (row key db' ≡ some e)
              × (e.request_hash ≡ fingerprint i)
              × (p' ≡ handling)
              × Served e p')
    unfolding insert_claim after_insert
    first_step {i} {db} inserts r h =
        elim (T.insert_new key (endpoint i) (fingerprint i) (expiry (T.now db)) db r) [
          | inl (db', e, done, (_, _, hash, st, _, _, _), found, _) ↦
              rw done (inr (e, found, hash, refl, st))
          | inr (_, failed) ↦ rw failed (inl (r, tt))
        ]
    first_step reads r h = absurd h
    first_step (handled _ _) r h = absurd h
    first_step (threw _) r h = absurd h
    first_step stores r h = absurd h
    first_step releases r h = absurd h
