-- ===== src/Tests/StaleTests.antt =====
-- A load that a booking overtakes: it reads the row, the booking commits and deletes the entry, and the
-- load is written after that.
use overbook.Base.{ℕ, ◌+◌, ◌<◌, ◌≡◌, ◌⊎◌, refl, false, some, none, [], ◌∷◌, arith}
use overbook.Failure.{Failure, ok, err}
use overbook.Redis.Cache.{CacheEnvelope, get_or_load, write_entry, ttl_with_jitter}
use overbook.Redis.CacheSystem.{
  Shared, read_entry, set_entry, write, invalidate, commits, reads_row, writes, invalidates, Reach,
  start, next, Had,
}
use overbook.Redis.Staleness.{kept_for, reading, get_or_load_age}
use overbook.Tests.CacheTests.{cache}

abbrev loading : Shared ℕ
loading = record { now = 100; row = 3; entry = none; loads = record { value = 3; at = 100 } ∷ [] }

abbrev booked : Shared ℕ
booked = invalidate ℕ (record loading { row = 7 })

abbrev late : Shared ℕ
late = write ℕ cache 1 2 (record { value = 3; at = 100 }) [] booked

abbrev overtaken : Reach ℕ cache 1000 late
unfolding invalidate
overtaken =
    next (next (next (next (start 100 3) reads_row) (commits 7)) invalidates)
      (writes [] [] (record { value = 3; at = 100 }) 1 2 refl (omega arith) (omega arith))

abbrev stale : CacheEnvelope ℕ
stale = record { v = 3; fresh_until = 35100 }

still_read : reading cache 1000 late ≡ some stale
unfolding read_entry set_entry write write_entry ttl_with_jitter invalidate
still_read = refl

get_or_load_age_example :
    let r =
      (get_or_load cache
        (ok 7)
        (reading cache 1000 late)
        (ok false)
        (λ _. reading cache 1000 late)
        200
        1
        2).0 in
    (r ≡ ok 7)
    ⊎ (((n : ℕ) × (t : ℕ) × (v : ℕ) × (r ≡ ok v)
          × Had ℕ cache 1000 t v late overtaken
          × (late.now < t + 1000 + kept_for cache))
        ⊎ ((x : Failure) × (ok false ≡ err x) × (reading cache 1000 late ≡ none) × (r ≡ err x)))
get_or_load_age_example =
    get_or_load_age cache 1000 (λ _. late) (λ _. overtaken) (ok 7) (ok false) 200 1 2
