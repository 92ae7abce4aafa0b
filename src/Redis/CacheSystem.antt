-- ===== src/Redis/CacheSystem.antt =====
-- One entry of the cache (src/redis/cache.service.ts) that callers on several replicas read, write and
-- delete, beside the row that their loads read.
use overbook.Base.{
  ℕ, ◌+◌, ◌*◌, ◌≤◌, ◌<◌, ◌≡◌, Option, none, some, List, [], ◌∷◌, ◌++◌, ltb, if◌then◌else◌,
}
use overbook.Failure.{ok}
use overbook.Redis.Cache.{
  CacheEnvelope, CacheConfig, CacheEffect, counted, loaded, written, refresh_started, lock_released,
  write_entry,
}

module _ (T : Type 0) where
  -- what Redis holds, until the time it forgets it
  pub record Stored : Type 0 where
    pub envelope : CacheEnvelope T
    pub expires_at : ℕ

  -- what `load` answered, and when it read the row
  pub record Loaded : Type 0 where
    pub value : T
    pub at : ℕ

  -- `loads` are those that were answered and not written yet
  pub record Shared : Type 0 where
    pub now : ℕ
    pub row : T
    pub entry : Option Stored
    pub loads : List Loaded

  -- GET: Redis answers no entry whose time has come
  unfoldable pub read_entry : ℕ → Option Stored → Option (CacheEnvelope T)
  read_entry now none = none
  read_entry now (some e) = if ltb now e.expires_at then some e.envelope else none

  -- the SET ... EX that an effect of the cache asks for
  unfoldable pub set_entry : ℕ → CacheEffect T → Option Stored → Option Stored
  set_entry now (written e ttl) entry =
      some (record { envelope = e; expires_at = now + ttl * 1000 })
  set_entry now (counted _) entry = entry
  set_entry now loaded entry = entry
  set_entry now refresh_started entry = entry
  set_entry now lock_released entry = entry

  abbrev pub load_row : Shared → Shared
  load_row s = record s { loads = record { value = s.row; at = s.now } ∷ s.loads }

  -- `write` of what was loaded, with the jitter `k / d`
  unfoldable pub write : CacheConfig → ℕ → ℕ → Loaded → List (Loaded) → Shared → Shared
  unfolding write_entry
  write c k d x rest s = record s {
    entry = set_entry s.now (write_entry c (ok x.value) s.now k d x.value) s.entry;
    loads = rest;
  }

  -- `invalidate`: DEL
  unfoldable pub invalidate : Shared → Shared
  invalidate s = record s { entry = none }

  module _ (c : CacheConfig) (longest : ℕ) where
    -- One thing that happens. A load is written no later than `longest` milliseconds after it read the
    -- row, or not at all; `d` is what the random number is a part of.
    pub data Step (s : Shared) : Shared → Type 0 where
      passes : (ms : ℕ) → Step s (record s { now = s.now + ms })
      commits : (row : T) → Step s (record s { row = row })
      reads_row : Step s (load_row s)
      writes :
          (before after : List (Loaded)) (x : Loaded) (k d : ℕ)
          → s.loads ≡ before ++ (x ∷ after)
          → s.now ≤ x.at + longest
          → k < d
          → Step s (write c k d x (before ++ after) s)
      gives_up :
          (before after : List (Loaded)) (x : Loaded)
          → s.loads ≡ before ++ (x ∷ after)
          → Step s (record s { loads = before ++ after })
      invalidates : Step s (invalidate s)

    pub data Reach : Shared → Type 0 where
      start :
          (now : ℕ) (row : T) → Reach (record { now = now; row = row; entry = none; loads = [] })
      next : {s s' : Shared} → Reach s → Step s s' → Reach s'

    -- At the time `t` of the run the row was `v`.
    pub data Had (t : ℕ) (v : T) : (s : Shared) → Reach s → Type 0 where
      now_has : {s : Shared} (r : Reach s) → s.now ≡ t → s.row ≡ v → Had t v s r
      before_had :
          {s s' : Shared} {r : Reach s} (step : Step s s') → Had t v s r → Had t v s' (next r step)
