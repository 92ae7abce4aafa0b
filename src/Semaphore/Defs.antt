-- ===== src/Semaphore/Defs.antt =====
-- `class Semaphore`.
use overbook.Base.{
  ℕ, ◌+◌, ◌-◌, Option, none, some, List, [], ◌∷◌, ◌++◌, Bool, true, false, ltb, length,
  if◌then◌else◌,
}
use overbook.Failure.{Result, ok, err, failed}

-- `waiters` has the oldest first.
pub record Semaphore : Type 0 where
  pub permits : ℕ
  pub available : ℕ
  pub waiters : List ℕ

-- the constructor
unfoldable pub create : ℕ → Result Semaphore
create permits =
    if ltb permits 1
    then err (failed "Semaphore needs at least one permit")
    else ok (record { permits = permits; available = permits; waiters = [] })

unfoldable pub in_flight : Semaphore → ℕ
in_flight s = s.permits - s.available

unfoldable pub queued : Semaphore → ℕ
queued s = length s.waiters

-- The task gets a permit at once (`true`), or waits at the end of the queue.
unfoldable pub acquire : ℕ → Semaphore → Semaphore × Bool
acquire task s =
    if ltb 0 s.available
    then (record s { available = s.available - 1 }, true)
    else (record s { waiters = s.waiters ++ task ∷ [] }, false)

-- The permit goes to the oldest waiter, whose task is returned, or back to `available`.
unfoldable pub release : Semaphore → Semaphore × Option ℕ
release s = elim s.waiters [
  | next ∷ rest ↦ (record s { waiters = rest }, some next)
  | [] ↦
      if ltb s.available s.permits
      then (record s { available = s.available + 1 }, none)
      else (s, none)
]
