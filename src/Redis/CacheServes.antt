-- ===== src/Redis/CacheServes.antt =====
-- Where the answer of the cache comes from.
use overbook.Base.{
  ℕ, zero, suc, ◌+◌, ◌≤◌, ◌<◌, ◌≡◌, ◌⊎◌, inl, inr, refl, sym, subst, ap, min, max, Bool, true,
  false, Option, none, some, List, [], ◌∷◌, ltb, if◌then◌else◌, arith, part_lt, Option-cases,
  Bool-cases,
}
use overbook.Failure.{Failure, Result-cases, Result, ok, err}
use overbook.Redis.Bucket.{ceil_div}
use overbook.Redis.Cache.{
  ttl_with_jitter, CacheEnvelope, CacheConfig, CacheEffect, counted, miss, loaded, written,
  refresh_started, lock_released, write_entry, load_and_write, poll, single_flight, load_missing,
  serve_entry, get_or_load,
}

-- A lifetime is at least a second and the base, and at most the base and the jitter, or a second.
pub ttl_with_jitter_lem :
    (base jitter k d : ℕ)
    → k < d
    → (base ≤ ttl_with_jitter base jitter k d)
      × (1 ≤ ttl_with_jitter base jitter k d)
      × (ttl_with_jitter base jitter k d ≤ max 1 (base + jitter))
unfolding ttl_with_jitter
ttl_with_jitter_lem base zero k d h = (omega arith, omega arith, omega arith)
ttl_with_jitter_lem base (suc jitter) k d h =
    let below = part_lt k d (suc jitter + 1) h (omega arith) in
    (omega arith, omega arith, omega (arith, below))

module _ {T : Type 0} where
  -- how often the loader was called
  abbrev pub loads : List (CacheEffect T) → ℕ
  loads [] = 0
  loads (loaded ∷ effects) = 1 + loads effects
  loads (counted _ ∷ effects) = loads effects
  loads (written _ _ ∷ effects) = loads effects
  loads (refresh_started ∷ effects) = loads effects
  loads (lock_released ∷ effects) = loads effects

  -- The answer is the loader's, called once; or that of an entry, without a call.
  abbrev pub IsAnswer :
      Result T → (CacheEnvelope T → Type 0) → Result T × List (CacheEffect T) → Type 0
  IsAnswer load Seen (r, effects) =
      ((r ≡ load) × (loads effects ≡ 1))
      ⊎ ((e : CacheEnvelope T) × Seen e × (r ≡ ok e.v) × (loads effects ≡ 0))

module _ {T : Type 0} (c : CacheConfig) (load : Result T) where
  poll-IsAnswer :
      (rounds : ℕ) (read : ℕ → Option (CacheEnvelope T))
      → IsAnswer load (λ e. (n : ℕ) × (read n ≡ some e)) (poll c load rounds read)
  unfolding poll
  poll-IsAnswer zero read = inl (refl, refl)
  poll-IsAnswer (suc rounds) read = elim (Option-cases (read rounds)) [
    | inl none_yet ↦ rw (poll, none_yet) (poll-IsAnswer rounds read)
    | inr (e, found) ↦ rw (poll, found) (inr (e, (rounds, found), refl, refl))
  ]

  load_and_write-IsAnswer :
      (Seen : CacheEnvelope T → Type 0) (now k d : ℕ) (rest : List (CacheEffect T))
      → loads rest ≡ 0
      → IsAnswer load Seen (load_and_write c load now k d rest)
  unfolding load_and_write write_entry
  load_and_write-IsAnswer Seen now k d rest h = elim (Result-cases load) [
    | inl (value, e) ↦ rw (load_and_write, e) (inl (refl, ap (λ n. 1 + n) h))
    | inr (x, e) ↦ rw (load_and_write, e) (inl (refl, ap (λ n. 1 + n) h))
  ]

  -- an entry that was read first, or by the loop
  abbrev pub IsRead :
      Option (CacheEnvelope T) → (ℕ → Option (CacheEnvelope T)) → CacheEnvelope T → Type 0
  IsRead entry read e = (entry ≡ some e) ⊎ ((n : ℕ) × (read n ≡ some e))

  flight-IsAnswer :
      (entry : Option (CacheEnvelope T)) (won : Bool) (read : ℕ → Option (CacheEnvelope T))
      (now k d : ℕ)
      → IsAnswer load (IsRead entry read) (single_flight c load (ok won) read now k d)
  unfolding single_flight
  flight-IsAnswer entry true read now k d =
      load_and_write-IsAnswer (IsRead entry read) now k d (lock_released ∷ []) refl
  flight-IsAnswer entry false read now k d =
      elim (poll-IsAnswer (ceil_div (min c.lock_ttl_ms 2000) 20) read) [
        | inl (same, once) ↦ inl (same, once)
        | inr (e, found, same, never) ↦ inr (e, inr found, same, never)
      ]

  either-IsAnswer :
      (Seen : CacheEnvelope T → Type 0) (b : Bool) (x y : Result T × List (CacheEffect T))
      → (b ≡ true → IsAnswer load Seen x)
      → (b ≡ false → IsAnswer load Seen y)
      → IsAnswer load Seen (if b then x else y)
  either-IsAnswer Seen true x y h k = h refl
  either-IsAnswer Seen false x y h k = k refl

  missing-IsAnswer :
      (entry : Option (CacheEnvelope T)) (won : Bool) (read : ℕ → Option (CacheEnvelope T))
      (now k d : ℕ)
      → IsAnswer load (IsRead entry read) (load_missing c load (ok won) read now k d)
  unfolding load_missing
  missing-IsAnswer entry won read now k d =
      either-IsAnswer (IsRead entry read) c.stampede_protection _ _
        (λ _. flight-IsAnswer entry won read now k d)
        (λ _. load_and_write-IsAnswer (IsRead entry read) now k d [] refl)

  -- Without protection the lock is not asked for.
  unprotected-IsAnswer :
      (entry : Option (CacheEnvelope T)) (won : Result Bool) (read : ℕ → Option (CacheEnvelope T))
      (now k d : ℕ)
      → c.stampede_protection ≡ false
      → IsAnswer load (IsRead entry read) (load_missing c load won read now k d)
  unfolding load_missing
  unprotected-IsAnswer entry won read now k d open_door =
      either-IsAnswer (IsRead entry read) c.stampede_protection _ _ (λ on. absurd cc)
        (λ _. load_and_write-IsAnswer (IsRead entry read) now k d [] refl)

  found-IsAnswer :
      (e : CacheEnvelope T) (won : Result Bool) (read : ℕ → Option (CacheEnvelope T)) (now k d : ℕ)
      → IsAnswer load (IsRead (some e) read) (get_or_load c load (some e) won read now k d)
  unfolding get_or_load serve_entry
  found-IsAnswer e won read now k d =
      let hit = inr (e, inl refl, refl, refl) in
      either-IsAnswer (IsRead (some e) read) c.enabled _ _
        (λ _.
          either-IsAnswer (IsRead (some e) read) (ltb now e.fresh_until) _ _ (λ _. hit)
            (λ _.
              either-IsAnswer (IsRead (some e) read) c.stampede_protection _ _ (λ _. hit)
                (unprotected-IsAnswer (some e) won read now k d)))
        (λ _. inl (refl, refl))

  -- `acquireLock` threw: what it threw is thrown, and nothing was loaded.
  abbrev pub HasThrown :
      Option (CacheEnvelope T) → Result Bool → Result T × List (CacheEffect T) → Type 0
  HasThrown entry won (r, effects) =
      (x : Failure) × (won ≡ err x)
      × (entry ≡ none)
      × (c.enabled ≡ true)
      × (c.stampede_protection ≡ true)
      × (r ≡ err x)
      × (loads effects ≡ 0)

  threw_lem :
      (x : Failure) (read : ℕ → Option (CacheEnvelope T)) (now k d : ℕ)
      → c.enabled ≡ true
      → c.stampede_protection ≡ true
      → get_or_load c load none (err x) read now k d ≡ (err x, counted miss ∷ [])
  unfolding get_or_load serve_entry load_missing single_flight
  threw_lem x read now k d on protect = rw (get_or_load, on, protect) refl

  answer_lem :
      (entry : Option (CacheEnvelope T)) (won : Result Bool) (read : ℕ → Option (CacheEnvelope T))
      (now k d : ℕ)
      → let o = get_or_load c load entry won read now k d in
        IsAnswer load (IsRead entry read) o ⊎ HasThrown entry won o
  unfolding get_or_load serve_entry
  answer_lem (some e) won read now k d = inl (found-IsAnswer e won read now k d)
  answer_lem none (ok won) read now k d = inl (
      either-IsAnswer (IsRead none read) c.enabled _ _ (λ _. missing-IsAnswer none won read now k d)
        (λ _. inl (refl, refl)))
  answer_lem none (err x) read now k d = elim (Bool-cases c.enabled) [
    | inl on ↦ elim (Bool-cases c.stampede_protection) [
      | inl protect ↦
          let is = threw_lem x read now k d on protect in
          inr (x, refl, refl, on, protect, ap (λ o. o.0) is, ap (λ o. loads o.1) is)
      | inr open_door ↦ inl (
          either-IsAnswer (IsRead none read) c.enabled _ _
            (λ _. unprotected-IsAnswer none (err x) read now k d open_door) (λ _. inl (refl, refl)))
    ]
    | inr off ↦
        inl (
          either-IsAnswer (IsRead none read) c.enabled _ _ (λ on. absurd cc)
            (λ _. inl (refl, refl)))
  ]

  served_first :
      (value : Result T) (enabled fresh protection : Bool)
      (x y z off : Result T × List (CacheEffect T))
      → enabled ≡ true
      → protection ≡ true
      → x.0 ≡ value
      → y.0 ≡ value
      → (if enabled then (if fresh then x else (if protection then y else z)) else off).0 ≡ value
  served_first value true true protection x y z off h k a b = a
  served_first value true false true x y z off h k a b = b
  served_first value true false false x y z off h k a b = absurd cc
  served_first value false fresh protection x y z off h k a b = absurd cc

  -- The answer of `getOrLoad` is that of the loader, which it called once, or that of an entry that it
  -- read, and then it did not wait for the loader; or, under stampede protection and with no entry
  -- found, `acquireLock` threw, and so does `getOrLoad`, without a load. Under stampede protection an
  -- entry that the first read found is always served, whatever the lock does.
  pub get_or_load_lem :
      (entry : Option (CacheEnvelope T)) (won : Result Bool) (read : ℕ → Option (CacheEnvelope T))
      (now k d : ℕ)
      → let o = get_or_load c load entry won read now k d in
        (IsAnswer load (IsRead entry read) o ⊎ HasThrown entry won o)
        × ((e : CacheEnvelope T)
            → c.enabled ≡ true
            → c.stampede_protection ≡ true
            → entry ≡ some e
            → o.0 ≡ ok e.v)
  unfolding get_or_load serve_entry
  get_or_load_lem entry won read now k d = (
    answer_lem entry won read now k d,
    λ e on protect found.
        subst (λ o. (get_or_load c load o won read now k d).0 ≡ ok e.v) (sym found)
          (served_first (ok e.v) c.enabled (ltb now e.fresh_until) c.stampede_protection _ _ _ _ on
            protect refl refl),
  )
