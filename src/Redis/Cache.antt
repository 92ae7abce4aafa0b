-- ===== src/Redis/Cache.antt =====
-- `CacheService` (src/redis/cache.service.ts) and `ttlWithJitter` (src/redis/cache-ttl.ts): what one
-- call does with the answers of Redis, of the lock and of the loader. A read that fails answers null.
use overbook.Base.{
  ℕ, zero, suc, ◌+◌, ◌*◌, ◌/◌, min, max, Bool, true, false, Option, none, some, List, [], ◌∷◌, ltb,
  if◌then◌else◌,
}
use overbook.Failure.{Result, ok, err}
use overbook.Redis.Bucket.{ceil_div}

-- `Math.random()` is `k / d`
unfoldable pub ttl_with_jitter : ℕ → ℕ → ℕ → ℕ → ℕ
ttl_with_jitter base zero k d = max 1 base
ttl_with_jitter base (suc jitter) k d = max 1 (base + k * (suc jitter + 1) / d)

pub record CacheEnvelope (T : Type 0) : Type 0 where
  pub v : T
  pub fresh_until : ℕ

-- `cache` of the configuration
pub record CacheConfig : Type 0 where
  pub enabled : Bool
  pub stampede_protection : Bool
  pub lock_ttl_ms : ℕ
  pub ttl_seconds : ℕ
  pub ttl_jitter_seconds : ℕ
  pub stale_seconds : ℕ

pub data CacheResult : Type 0 where
  disabled : CacheResult
  hit : CacheResult
  stale : CacheResult
  miss : CacheResult
  single_flight_wait : CacheResult

pub data CacheEffect (T : Type 0) : Type 0 where
  counted : CacheResult → CacheEffect T
  loaded : CacheEffect T
  -- the envelope, and for how many seconds Redis keeps it
  written : CacheEnvelope T → ℕ → CacheEffect T
  refresh_started : CacheEffect T
  lock_released : CacheEffect T

module _ {T : Type 0} (c : CacheConfig) (load : Result T) where
  -- `write`, at the time `now`
  unfoldable pub write_entry : ℕ → ℕ → ℕ → T → CacheEffect T
  write_entry now k d value =
      let fresh = ttl_with_jitter c.ttl_seconds c.ttl_jitter_seconds k d in
      written (record { v = value; fresh_until = now + fresh * 1000 }) (fresh + c.stale_seconds)

  -- load, and write what was loaded; `rest` follows in every case
  unfoldable pub load_and_write : ℕ → ℕ → ℕ → List (CacheEffect T) → Result T × List (CacheEffect T)
  load_and_write now k d rest = elim load [
    | ok value ↦ (ok value, loaded ∷ write_entry now k d value ∷ rest)
    | err e ↦ (err e, loaded ∷ rest)
  ]

  -- `withLock` around a load and a write; an error of them or of `acquireLock` is logged
  unfoldable pub refresh_in_background : Result Bool → ℕ → ℕ → ℕ → List (CacheEffect T)
  unfolding load_and_write write_entry
  refresh_in_background (ok true) now k d = (load_and_write now k d (lock_released ∷ [])).1
  refresh_in_background (ok false) now k d = []
  refresh_in_background (err e) now k d = []

  -- the loop of a loser: one read each 20 ms until the deadline, then a load of its own
  unfoldable pub poll : ℕ → (ℕ → Option (CacheEnvelope T)) → Result T × List (CacheEffect T)
  poll zero read = (load, loaded ∷ [])
  poll (suc rounds) read =
      let rest = poll rounds read in elim (read rounds) [ some e ↦ (ok e.v, []) | none ↦ rest ]

  -- nothing catches an error of `acquireLock`
  unfoldable pub single_flight :
      Result Bool → (ℕ → Option (CacheEnvelope T)) → ℕ → ℕ → ℕ → Result T × List (CacheEffect T)
  single_flight (err e) read now k d = (err e, [])
  single_flight (ok true) read now k d = load_and_write now k d (lock_released ∷ [])
  single_flight (ok false) read now k d =
      let (r, effects) = poll (ceil_div (min c.lock_ttl_ms 2000) 20) read in
      (r, counted single_flight_wait ∷ effects)

  -- the end of `getOrLoad`: no entry can be served
  unfoldable pub load_missing :
      Result Bool → (ℕ → Option (CacheEnvelope T)) → ℕ → ℕ → ℕ → Result T × List (CacheEffect T)
  load_missing won read now k d =
      if c.stampede_protection then single_flight won read now k d else load_and_write now k d []

  abbrev pub after :
      CacheEffect T → Result T × List (CacheEffect T) → Result T × List (CacheEffect T)
  after e (r, effects) = (r, e ∷ effects)

  unfoldable pub serve_entry :
      Option (CacheEnvelope T)
      → Result Bool
      → (ℕ → Option (CacheEnvelope T))
      → ℕ
      → ℕ
      → ℕ
      → Result T × List (CacheEffect T)
  serve_entry none won read now k d = after (counted miss) (load_missing won read now k d)
  serve_entry (some e) won read now k d =
      if ltb now e.fresh_until
      then (ok e.v, counted hit ∷ [])
      else (if c.stampede_protection
          then (ok e.v, counted stale ∷ refresh_started ∷ [])
          else after (counted stale) (load_missing won read now k d))

  -- `entry` is what the first read answers, `won` what `acquireLock` answers (whether the lock was won)
  -- or throws, `read` what the later reads of a loser answer
  unfoldable pub get_or_load :
      Option (CacheEnvelope T)
      → Result Bool
      → (ℕ → Option (CacheEnvelope T))
      → ℕ
      → ℕ
      → ℕ
      → Result T × List (CacheEffect T)
  get_or_load entry won read now k d =
      if c.enabled
      then serve_entry entry won read now k d
      else (load, counted disabled ∷ loaded ∷ [])
