-- ===== src/Notifications/RetryPolicy.antt =====
-- src/notifications/retry-policy.ts. `Math.random()` is `k / d` with `k` below `d`.
use overbook.Base.{ℕ, ◌-◌, ◌*◌, ◌/◌, ◌^◌, ◌≤◌, ◌<◌, Bool, min, leb, arith, part_le}

unfoldable pub compute_backoff_ms : ℕ → ℕ → ℕ → ℕ → ℕ → ℕ
compute_backoff_ms attempt base_ms max_ms k d =
    let exponential = min max_ms (base_ms * 2 ^ (attempt - 1)) in k * exponential / d

unfoldable pub should_dead_letter : ℕ → ℕ → Bool
should_dead_letter attempts max_attempts = leb max_attempts attempts

-- A retry waits no longer than the bound, nor than the doubled base.
compute_backoff_ms_lem :
    (attempt base_ms max_ms k d : ℕ)
    → k < d
    → (compute_backoff_ms attempt base_ms max_ms k d ≤ max_ms)
      × (compute_backoff_ms attempt base_ms max_ms k d ≤ base_ms * 2 ^ (attempt - 1))
unfolding compute_backoff_ms
compute_backoff_ms_lem attempt base_ms max_ms k d h =
    let part = part_le k d (min max_ms (base_ms * 2 ^ (attempt - 1))) h in
    (omega (arith, part), omega (arith, part))
