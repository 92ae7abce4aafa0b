-- ===== src/Tests/SemaphoreTests.antt =====
-- Two permits and three tasks.
use overbook.Base.{◌≤◌, ◌<◌, ◌≡◌, refl, some, [], ◌∷◌, length}
use overbook.Failure.{ok}
use overbook.Semaphore.Defs.{Semaphore, create, in_flight, queued}
use overbook.Semaphore.Tasks.{
  World, here, next, arrives, arrive, acquire_all, woken, work_bounded, release_fifo,
}

abbrev two : Semaphore
two = record { permits = 2; available = 2; waiters = [] }

abbrev three_tasks : World
three_tasks = arrive 3 (arrive 2 (arrive 1 (record { semaphore = two; working = [] })))

create-two : create 2 ≡ ok two
unfolding create
create-two = refl

work_bounded_example :
    (length three_tasks.working ≤ 2)
    × (in_flight three_tasks.semaphore ≡ length three_tasks.working)
    × (0 < queued three_tasks.semaphore → length three_tasks.working ≡ 2)
work_bounded_example =
    work_bounded create-two (next (next (next here (arrives 1)) (arrives 2)) (arrives 3))

abbrev full : Semaphore
full = record { permits = 2; available = 0; waiters = 3 ∷ 4 ∷ [] }

release_fifo_example :
    woken 4 (acquire_all (5 ∷ 6 ∷ []) full) ≡ some 3 ∷ some 4 ∷ some 5 ∷ some 6 ∷ []
release_fifo_example = release_fifo full (5 ∷ 6 ∷ []) refl
