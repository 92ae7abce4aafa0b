-- ===== src/Redis/Lock.antt =====
-- `acquireLock`, `releaseLock` with RELEASE_LOCK_LUA, and `withLock` (src/redis/redis.service.ts), for
-- one key. A token is a number here: randomUUID never gives the same one twice. Redis answers: what a
-- caller does when SET throws is in Redis/Cache.
use overbook.Base.{
  ℕ, ◌+◌, ◌<◌, ◌≡◌, ◌≢◌, inl, inr, refl, subst, Option, none, some, leb, ◌==◌, if◌then◌else◌, arith,
  Bool-cases,
}
use overbook.Failure.{ok, err, Action}

-- the value of the key, and when Redis drops it
pub record Lease : Type 0 where
  pub token : ℕ
  pub expires_at : ℕ

unfoldable pub live_lease : ℕ → Option Lease → Option Lease
live_lease now none = none
live_lease now (some l) = if leb l.expires_at now then none else some l

-- SET key token PX ttl NX: the token if it was set
unfoldable pub acquire_lock : ℕ → ℕ → ℕ → Option Lease → Option ℕ × Option Lease
acquire_lock now ttl token lock = elim (live_lease now lock) [
  | none ↦ (some token, some (record { token = token; expires_at = now + ttl }))
  | some l ↦ (none, some l)
]

unfoldable pub release_lock : ℕ → ℕ → Option Lease → Option Lease
release_lock now token lock = elim (live_lease now lock) [
  | none ↦ none
  | some l ↦ if l.token == token then none else some l
]

-- `withLock`, where `fn` ends at `later`
unfoldable pub with_lock :
    {S A : Type 0} → ℕ → ℕ → ℕ → ℕ → Action S A → Action (Option Lease × S) (Option A)
with_lock now later ttl token fn (lock, s) =
    let (won, lock') = acquire_lock now ttl token lock in
    let (r, s') = fn s in
    elim won [
      | none ↦ (ok none, (lock', s))
      | some t ↦ (elim r [ ok a ↦ ok (some a) | err e ↦ err e ], (release_lock later t lock', s'))
    ]

pub with_lock-held :
    {S A : Type 0} (now later ttl token : ℕ) (fn : Action S A) (lock : Option Lease) (s : S)
    (l : Lease)
    → live_lease now lock ≡ some l
    → (with_lock now later ttl token fn (lock, s)).1.1 ≡ s
unfolding with_lock acquire_lock
with_lock-held now later ttl token fn lock s l h = rw (with_lock, h) refl

pub with_lock-free :
    {S A : Type 0} (now later ttl token : ℕ) (fn : Action S A) (lock : Option Lease) (s : S)
    → live_lease now lock ≡ none
    → (with_lock now later ttl token fn (lock, s)).1.1 ≡ (fn s).1
unfolding with_lock acquire_lock
with_lock-free now later ttl token fn lock s h = rw (with_lock, h) refl

-- Callers of `withLock` with tokens of their own, and the clock.
pub record Callers : Type 0 where
  pub now : ℕ
  pub lock : Option Lease
  -- until when a caller that won the lock has its lease
  pub lease : ℕ → Option ℕ

abbrev pub update_lease : (ℕ → Option ℕ) → ℕ → Option ℕ → ℕ → Option ℕ
update_lease lease i t j = if j == i then t else lease j

pub data LockStep (ttl : ℕ) (c : Callers) : Callers → Type 0 where
  passes : (ms : ℕ) → LockStep ttl c (record c { now = c.now + ms })
  acquires :
      (i : ℕ) {lock : Option Lease}
      → acquire_lock c.now ttl i c.lock ≡ (some i, lock)
      → LockStep ttl c
          (record c { lock = lock; lease = update_lease c.lease i (some (c.now + ttl)) })
  loses :
      (i : ℕ) {lock : Option Lease}
      → acquire_lock c.now ttl i c.lock ≡ (none, lock)
      → LockStep ttl c (record c { lock = lock })
  releases :
      (i : ℕ)
      → LockStep ttl c
          (record c { lock = release_lock c.now i c.lock; lease = update_lease c.lease i none })

pub data LockReach (ttl : ℕ) : Callers → Type 0 where
  here : (now : ℕ) → LockReach ttl (record { now = now; lock = none; lease = λ _. none })
  next : {c d : Callers} → LockReach ttl c → LockStep ttl c d → LockReach ttl d

-- A lease that has not run out is the one in Redis.
abbrev Inv : Callers → Type 0
Inv c =
    (i t : ℕ)
    → c.lease i ≡ some t
    → c.now < t
    → c.lock ≡ some (record { token = i; expires_at = t })

acquired :
    (now ttl i : ℕ) (lock lock' : Option Lease)
    → acquire_lock now ttl i lock ≡ (some i, lock')
    → (live_lease now lock ≡ none) × (lock' ≡ some (record { token = i; expires_at = now + ttl }))
unfolding acquire_lock
acquired now ttl i lock lock' h = ground arith

lost :
    (now ttl i : ℕ) (l : Lease) (lock' : Option Lease)
    → now < l.expires_at
    → acquire_lock now ttl i (some l) ≡ (none, lock')
    → lock' ≡ some l
unfolding acquire_lock live_lease
lost now ttl i l lock' alive h = ground arith

released :
    (now i : ℕ) (l : Lease)
    → now < l.expires_at
    → l.token ≢ i
    → release_lock now i (some l) ≡ some l
unfolding release_lock live_lease
released now i l alive ne = ground arith

alive-live : (now : ℕ) (l : Lease) → now < l.expires_at → live_lease now (some l) ≡ some l
unfolding live_lease
alive-live now l h = ground arith

-- The one with an unexpired lease: no other wins the lock.
acquired-alive :
    (now ttl i : ℕ) (l : Lease) (lock' : Option Lease)
    → now < l.expires_at
    → acquire_lock now ttl i (some l) ≡ (some i, lock')
    → ⊥
acquired-alive now ttl i l lock' alive h =
    let free = (acquired now ttl i (some l) lock' h).0 in let held = alive-live now l alive in cc

Step-Inv : {ttl : ℕ} {c d : Callers} → LockStep ttl c d → Inv c → Inv d
Step-Inv (passes ms) inv i t h later = inv i t h (omega (arith, later))
Step-Inv {ttl} {c} (acquires k {lock = lock'} e) inv i t h later = elim (Bool-cases (i == k)) [
  | inl same ↦ let new = (acquired c.now ttl k c.lock lock' e).1 in ground (arith, new)
  | inr other ↦
      let old = inv i t (ground (arith, other, h)) later in
      absurd (
        acquired-alive c.now ttl k _ lock' later
          (subst (λ l. acquire_lock c.now ttl k l ≡ (some k, lock')) old e))
]
Step-Inv {ttl} {c} (loses k {lock = lock'} e) inv i t h later =
    lost c.now ttl k _ lock' later
      (subst (λ l. acquire_lock c.now ttl k l ≡ (none, lock')) (inv i t h later) e)
Step-Inv {ttl} {c} (releases k) inv i t h later = elim (Bool-cases (i == k)) [
  | inl same ↦ ground (arith, same, h)
  | inr other ↦
      let old = inv i t (ground (arith, other, h)) later in
      rw old (released c.now k _ later (ground (arith, other)))
]

Reach-Inv : {ttl : ℕ} {c : Callers} → LockReach ttl c → Inv c
Reach-Inv (here now) i t h later = ground (arith, h)
Reach-Inv (next r st) i t h later = Step-Inv st (Reach-Inv r) i t h later

-- However callers of `withLock` acquire and release while time passes, at most one of them has a
-- lease that has not run out.
pub one_lease :
    {ttl : ℕ} {c : Callers}
    → LockReach ttl c
    → (i j t u : ℕ) → c.lease i ≡ some t
    → c.now < t
    → c.lease j ≡ some u
    → c.now < u
    → i ≡ j
one_lease r i j t u hi ti hj tj =
    let a = Reach-Inv r i t hi ti in let b = Reach-Inv r j u hj tj in ground (arith, a, b)
