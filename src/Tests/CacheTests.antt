-- ===== src/Tests/CacheTests.antt =====
-- A stale entry, which is served while it is refreshed.
use overbook.Base.{refl, ◌⊎◌, false, [], ◌∷◌, ℕ, ◌≡◌, true, false, some, none, Option}
use overbook.Failure.{ok}
use overbook.Redis.Cache.{
  ttl_with_jitter, CacheEnvelope, CacheConfig, get_or_load, refresh_in_background, write_entry,
  loaded, written, lock_released,
}
use overbook.Redis.CacheServes.{IsAnswer, IsRead, HasThrown, get_or_load_lem}

abbrev pub cache : CacheConfig
cache = record {
  enabled = true;
  stampede_protection = true;
  lock_ttl_ms = 5000;
  ttl_seconds = 30;
  ttl_jitter_seconds = 10;
  stale_seconds = 60;
}

abbrev old : CacheEnvelope ℕ
old = record { v = 3; fresh_until = 100 }

abbrev no_entry : ℕ → Option (CacheEnvelope ℕ)
no_entry _ = none

get_or_load_example :
    let o = get_or_load cache (ok 7) (some old) (ok false) no_entry 200 1 2 in
    (IsAnswer (ok 7) (IsRead cache (ok 7) (some old) no_entry) o
      ⊎ HasThrown cache (ok 7) (some old) (ok false) o)
    × ((e : CacheEnvelope ℕ) → true ≡ true → true ≡ true → some old ≡ some e → o.0 ≡ ok e.v)
get_or_load_example = get_or_load_lem cache (ok 7) (some old) (ok false) no_entry 200 1 2

refresh_writes :
    refresh_in_background {T = ℕ} cache (ok 7) (ok true) 200 1 2
    ≡ loaded ∷ written (record { v = 7; fresh_until = 35200 }) 95 ∷ lock_released ∷ []
unfolding refresh_in_background write_entry ttl_with_jitter
refresh_writes = refl
