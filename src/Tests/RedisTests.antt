-- ===== src/Tests/RedisTests.antt =====
-- A bucket of two tokens, a lock, and the guard over them.
use overbook.Base.{ℕ, ◌+◌, ◌-◌, ◌*◌, ◌≤◌, ◌≡◌, refl, true, none, some, List, [], ◌∷◌, arith}
use overbook.Redis.Bucket.{Bucket, ceil_div, live, refilled, idle_ms, take_tokens, consume_token}
use overbook.Redis.Limit.{Calls, granted, rate_bound}
use overbook.RateLimit.Clients.{Request, passed, passed_bound}
use overbook.Redis.Lock.{
  live_lease, acquire_lock, Callers, LockReach, here, next, acquires, passes, loses, one_lease,
}
use overbook.RateLimit.{RateLimitOptions, RateLimitConfig, Client, bucket_key, first_of}

abbrev calls : Calls
calls = (1000, 1) ∷ (1000, 1) ∷ (1000, 1) ∷ (1500, 2) ∷ []

granted-calls : granted 2 10 none calls ≡ 4
unfolding granted consume_token take_tokens refilled live idle_ms ceil_div
granted-calls = refl

-- what earlier calls have left
abbrev used : Bucket
used = record { millitokens = 1500; ts = 900; expires_at = 2100 }

rate_bound_example : granted 2 10 (some used) calls * 1000 ≤ 2 * 1000 + (1500 - 1000) * 10
rate_bound_example =
    rate_bound 2 10 (some used) 1000 calls (omega arith)
      (omega arith, (omega arith, (omega arith, (omega arith, tt))))

-- Caller 0 wins the lock, caller 1 does not.
abbrev contended : (c : Callers) × LockReach 100 c
unfolding acquire_lock live_lease
contended = (_, next (next (next (here 5) (acquires 0 refl)) (passes 7)) (loses 1 refl))

one_lease_example : ◌≡◌ {A = ℕ} 0 0
unfolding contended
one_lease_example = one_lease contended.1 0 0 105 105 refl (omega arith) refl (omega arith)

abbrev options : RateLimitOptions
options = record { bucket = "bookings"; capacity = some 2; refill_per_second = none }

abbrev config : RateLimitConfig
config = record { enabled = true; capacity = some 20; refill_per_second = some 10 }

abbrev client : Client
client = record { user_id = some "u"; forwarded = none; ip = some "10.0.0.1" }

-- two clients in turn
abbrev other_client : Client
other_client = record { user_id = none; forwarded = some "10.0.0.1"; ip = none }

abbrev requests : List Request
requests =
    record { at = 100; client = client }
    ∷ record { at = 100; client = other_client }
    ∷ record { at = 150; client = client }
    ∷ record { at = 400; client = client }
    ∷ []

passed_bound_example :
    passed config options (bucket_key options client) (λ _. some used) requests * 1000
    ≤ 2 * 1000 + (400 - 100) * 10
unfolding first_of
passed_bound_example =
    passed_bound config options (bucket_key options client) (λ _. some used) 100 requests refl
      (omega arith) (omega arith, (omega arith, (omega arith, (omega arith, tt))))
