-- ===== src/Semaphore/Tasks.antt =====
-- Tasks that go through `run`: acquire, work, release. A task releases only what it holds.
use overbook.Base.{
  refl, ℕ, zero, suc, sym, ◌∙◌, map, ◌+◌, ◌≤◌, ◌<◌, ◌≡◌, ap, ◌⊎◌, Option, none, some, List, [], ◌∷◌,
  ◌++◌, arith, length, length-append, if◌then◌else◌,
}
use mathlib.Core.List.{append_assoc, append-nil}
use overbook.Failure.{ok}
use overbook.Semaphore.Defs.{Semaphore, create, in_flight, queued, acquire, release}

-- The tasks at work, and those whose work is over.
pub record World : Type 0 where
  pub semaphore : Semaphore
  pub working : List ℕ

-- the first half of `run`: the task works once it holds a permit
unfoldable pub arrive : ℕ → World → World
arrive task w =
    let (s, granted) = acquire task w.semaphore in
    record { semaphore = s; working = if granted then task ∷ w.working else w.working }

-- a waiter that was handed the permit works in place of the one that finished
abbrev pub resume : Option ℕ → List ℕ → List ℕ
resume none working = working
resume (some task) working = task ∷ working

-- `finally { this.release() }`, for the task that works between `before` and `after`
unfoldable pub finish : List ℕ → List ℕ → Semaphore → World
finish before after s =
    let (s', woken) = release s in
    record { semaphore = s'; working = resume woken (before ++ after) }

pub data Step : World → World → Type 0 where
  arrives : {w : World} (task : ℕ) → Step w (arrive task w)
  finishes :
      {w : World} (before after : List ℕ) (task : ℕ)
      → w.working ≡ before ++ (task ∷ after)
      → Step w (finish before after w.semaphore)

pub data Reach (s : Semaphore) : World → Type 0 where
  here : Reach s (record { semaphore = s; working = [] })
  next : {v w : World} → Reach s v → Step v w → Reach s w

-- Every permit is free or held by one working task, and nobody waits while a permit is free.
pub record IsValid (permits : ℕ) (w : World) : Type 0 where
  pub fixed : w.semaphore.permits ≡ permits
  pub balanced : w.semaphore.available + length w.working ≡ permits
  pub busy : (w.semaphore.waiters ≡ []) ⊎ (w.semaphore.available ≡ 0)

arrive-IsValid :
    (permits task : ℕ) (w : World) → IsValid permits w → IsValid permits (arrive task w)
unfolding arrive acquire
arrive-IsValid permits task w v = ground arith

finish-IsValid :
    (permits task : ℕ) (before after : List ℕ) (w : World)
    → w.working ≡ before ++ (task ∷ after)
    → IsValid permits w
    → IsValid permits (finish before after w.semaphore)
unfolding finish release
finish-IsValid permits task before after w e v =
    ground (arith, ap length e, length-append before (task ∷ after), length-append before after)

pub Step-IsValid : {permits : ℕ} {v w : World} → Step v w → IsValid permits v → IsValid permits w
Step-IsValid {permits} (arrives {w = w} task) h = arrive-IsValid permits task w h
Step-IsValid {permits} (finishes {w = w} before after task e) h =
    finish-IsValid permits task before after w e h

create-IsValid :
    (permits : ℕ) (s : Semaphore)
    → create permits ≡ ok s
    → IsValid permits (record { semaphore = s; working = [] })
unfolding create
create-IsValid permits s e = ground arith

pub Reach-IsValid :
    {permits : ℕ} {s : Semaphore} {w : World}
    → create permits ≡ ok s
    → Reach s w
    → IsValid permits w
Reach-IsValid {permits} {s} e here = create-IsValid permits s e
Reach-IsValid e (next r st) = Step-IsValid st (Reach-IsValid e r)

-- However tasks come and go, no more of them work at once than there are permits, `inFlight` is their
-- number, and a task waits only while all permits are held.
pub work_bounded :
    {permits : ℕ} {s : Semaphore} {w : World}
    → create permits ≡ ok s
    → Reach s w
    → (length w.working ≤ permits)
      × (in_flight w.semaphore ≡ length w.working)
      × (0 < queued w.semaphore → length w.working ≡ permits)
unfolding in_flight queued
work_bounded {permits} {s} {w} e r =
    let v = Reach-IsValid e r in
    (
      omega (arith, v.balanced),
      omega (arith, v.balanced, v.fixed),
      λ h. ground (arith, v.busy, v.balanced),
    )

-- the semaphore once tasks have asked for a permit, one after the other
abbrev pub acquire_all : List ℕ → Semaphore → Semaphore
acquire_all [] s = s
acquire_all (t ∷ ts) s = acquire_all ts (acquire t s).0

-- what so many releases wake, one after the other
abbrev pub woken : ℕ → Semaphore → List (Option ℕ)
woken zero s = []
woken (suc n) s = (release s).1 ∷ woken n (release s).0

acquire_all_lem :
    (ts : List ℕ) (s : Semaphore)
    → s.available ≡ 0
    → acquire_all ts s ≡ record s { waiters = s.waiters ++ ts }
unfolding acquire
acquire_all_lem [] s none_free = ap (λ l. record s { waiters = l }) (sym (append-nil s.waiters))
acquire_all_lem (t ∷ ts) s none_free =
    let waits : (acquire t s).0 ≡ record s { waiters = s.waiters ++ t ∷ [] } = ground arith in
    ap (acquire_all ts) waits
    ∙ acquire_all_lem ts (record s { waiters = s.waiters ++ t ∷ [] }) none_free
    ∙ ap (λ l. record s { waiters = l }) (append_assoc s.waiters (t ∷ []) ts)

woken_lem :
    (ts : List ℕ) (s : Semaphore) → woken (length ts) (record s { waiters = ts }) ≡ map some ts
unfolding release
woken_lem [] s = refl
woken_lem (t ∷ ts) s = ap (λ l. some t ∷ l) (woken_lem ts s)

-- Tasks that ask while no permit is free work in the order in which they asked, after those that wait
-- already: so many releases wake exactly them, each once and in that order.
pub release_fifo :
    (s : Semaphore) (tasks : List ℕ)
    → s.available ≡ 0
    → woken (length (s.waiters ++ tasks)) (acquire_all tasks s) ≡ map some (s.waiters ++ tasks)
release_fifo s tasks none_free =
    ap (woken (length (s.waiters ++ tasks))) (acquire_all_lem tasks s none_free)
    ∙ woken_lem (s.waiters ++ tasks) s
