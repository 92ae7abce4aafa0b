-- ===== src/Tests/IdempotencyTests.antt =====
-- Two clicks with one key: the first is served, the second gets its answer.
use overbook.Base.{ℕ, zero, suc, ◌==◌, ◌≡◌, ◌⊎◌, refl, false, none, some, String, arith}
use overbook.Idempotency.Table.{unexpired}
use overbook.Idempotency.Interceptor.{
  insert_claim, claim_existing, complete, judge, stored_response, completed_row,
}
use overbook.Idempotency.Requests.{
  answered, after_insert, stage_of, World, Reach, here, next, pick, inserts, reads, handled, stores,
}
use overbook.Idempotency.Replay.{AllCalm, handled_once, replay_same}
use overbook.Idempotency.Cleanup.{sweep_expired_keys, sweep_expired_keys_lem}
use overbook.Redis.Lock.{Lease, live_lease}
use overbook.Tests.SampleKeys.{sample_keys}

abbrev same : ℕ → String
same _ = "POST /events/1/bookings"

abbrev Clicks : Type 0
Clicks = World sample_keys "k" same same

abbrev clicked : (w : Clicks) × Reach sample_keys "k" same same w
unfolding insert_claim claim_existing complete judge stored_response completed_row after_insert
    stage_of
clicked = (
  _,
  next
      (next
        (next (next (next (here {db = λ _. none} refl) (pick 0 inserts)) (pick 1 inserts))
          (pick 0 (handled 201 (some 7))))
        (pick 0 stores))
      (pick 1 reads),
)

clicked-AllCalm : AllCalm sample_keys "k" same same clicked.0
unfolding clicked
clicked-AllCalm zero = tt
clicked-AllCalm (suc zero) = tt
clicked-AllCalm (suc (suc i)) =
    let first : (suc (suc i) == 0) ≡ false = ground arith in
    let second : (suc (suc i) == 1) ≡ false = ground arith in rw (first, second) tt

handled_once_example : ◌≡◌ {A = ℕ} 0 0
unfolding clicked
handled_once_example = handled_once sample_keys "k" same same clicked.1 clicked-AllCalm 0 0 tt tt

replay_same_example : (o : ℕ) × (clicked.0.stage o ≡ answered 201 (some 7)) × (same 1 ≡ same o)
unfolding clicked
replay_same_example =
    replay_same sample_keys "k" same same clicked.1 clicked-AllCalm 1 201 (some 7) refl

abbrev held : Lease
held = record { token = 3; expires_at = 60000 }

sweep_expired_keys_example :
    let db' = (sweep_expired_keys sample_keys 1 2 4 (some held, clicked.0.db)).1.1 in
    (((key : String) → db' key ≡ clicked.0.db key)
      ⊎ ((key : String) → db' key ≡ unexpired 5 (clicked.0.db key)))
    × ((l : Lease) → live_lease 1 (some held) ≡ some l → db' ≡ clicked.0.db)
sweep_expired_keys_example = sweep_expired_keys_lem sample_keys 1 2 4 (some held) clicked.0.db
