-- ===== src/Events/Reading.antt =====
-- `findOne` through the cache against `findOneUncached` (src/events/events.service.ts).
use overbook.Base.{
  ℕ, ◌≡◌, ◌⊎◌, inl, inr, Bool, Option, none, some, String, arith, ap, ◌∙◌, Option-cases,
}
use overbook.Failure.{Failure, failed, Result, ok, err}
use overbook.Entities.{EventEntity}
use overbook.Redis.Cache.{CacheEnvelope, CacheConfig, get_or_load}
use overbook.Redis.CacheServes.{IsRead, get_or_load_lem}
use overbook.Events.Store.{EventStore}
use overbook.Events.Service.{
  EventResponseDto, from, dto_of, event_not_found, load_event, find_one_uncached, find_one,
}

-- what a client is told of a row
abbrev pub present : String → Option EventEntity → Result EventResponseDto
present id none = err (event_not_found id)
present id (some e) = ok (from e)

abbrev Cached : Type 0
Cached = CacheEnvelope (Option EventResponseDto)

module _ (S : EventStore) where
  open S use {Db, event}

  -- The row is told, or the query failed.
  abbrev pub IsTold : String → Db → Result EventResponseDto → Type 0
  IsTold id db r =
      (r ≡ present id (event id db))
      ⊎ ((msg : String) × (S.find_one id db ≡ (err (failed msg), db)) × (r ≡ err (failed msg)))

  loaded_event :
      (id : String) (db : Db)
      → (load_event S id db ≡ (ok (dto_of (event id db)), db))
        ⊎ ((msg : String) × (S.find_one id db ≡ (err (failed msg), db))
            × (load_event S id db ≡ (err (failed msg), db)))
  unfolding load_event
  loaded_event id db = elim (S.find_one_law id db) [
    | inl done ↦ inl (ground arith)
    | inr (msg, h) ↦ inr (msg, h, ground arith)
  ]

  uncached-IsTold : (id : String) (db : Db) → IsTold id db (find_one_uncached S id db).0
  unfolding find_one_uncached
  uncached-IsTold id db = elim (S.find_one_law id db) [
    | inl done ↦ elim (Option-cases (event id db)) [
      | inl missing ↦ inl (ground arith)
      | inr (e, found) ↦ inl (ground arith)
    ]
    | inr (msg, h) ↦ inr (msg, h, ground arith)
  ]

  module _ (c : CacheConfig) (entry : Option Cached) (won : Result Bool) (read : ℕ → Option Cached)
      (now k d : ℕ) (id : String) (db : Db) where
    find_one-answer :
        (o : Option EventEntity)
        → (get_or_load c (load_event S id db).0 entry won read now k d).0 ≡ ok (dto_of o)
        → find_one S c entry won read now k d id db ≡ present id o
    unfolding find_one
    find_one-answer none h = ground arith
    find_one-answer (some e) h = ground arith

    find_one-failed :
        (x : Failure)
        → (get_or_load c (load_event S id db).0 entry won read now k d).0 ≡ err x
        → find_one S c entry won read now k d id db ≡ err x
    unfolding find_one
    find_one-failed x h = ground arith

    -- While the entries that are read are those of the row as it is, or of its absence, the cached
    -- read and the uncached one tell the same: the row, or that there is none; or the query failed.
    -- Only when no entry was found and acquireLock threw does the cached read throw that instead.
    pub find_one_lem :
        ((e : Cached) → IsRead c (load_event S id db).0 entry read e → e.v ≡ dto_of (event id db))
        → (IsTold id db (find_one S c entry won read now k d id db)
            ⊎ ((x : Failure) × (won ≡ err x)
                × (entry ≡ none)
                × (find_one S c entry won read now k d id db ≡ err x)))
          × IsTold id db (find_one_uncached S id db).0
    find_one_lem truthful = (
      elim ((get_or_load_lem c (load_event S id db).0 entry won read now k d).0) [
        | inl (inl (same, _)) ↦ elim (loaded_event id db) [
          | inl done ↦ inl (inl (find_one-answer (event id db) (same ∙ ap (λ r. r.0) done)))
          | inr (msg, h, lost) ↦
              inl (inr (msg, h, find_one-failed (failed msg) (same ∙ ap (λ r. r.0) lost)))
        ]
        | inl (inr (e, seen, same, _)) ↦
            inl (inl (find_one-answer (event id db) (same ∙ ap ok (truthful e seen))))
        | inr (x, threw, missing, _, _, is, _) ↦ inr (x, threw, missing, find_one-failed x is)
      ],
      uncached-IsTold id db,
    )
