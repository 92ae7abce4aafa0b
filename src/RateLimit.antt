-- ===== src/RateLimit.antt =====
-- `RateLimitGuard` (src/ratelimit/rate-limit.guard.ts).
pub mod Clients
use overbook.Base.{
  ℕ, ◌*◌, ◌≤◌, ◌≡◌, max, Bool, true, false, Option, none, some, String, List, [], ◌∷◌, ◌↔◌, inl,
  inr, refl, str_append, str_eq, if◌then◌else◌, arith, Bool-cases,
}
use mathlib.Core.Option.{get_or}
use overbook.Failure.{Failure, too_many_requests, Result, ok, err}
use overbook.Redis.Bucket.{TokenBucketResult, ceil_div}

-- the options of the decorator
pub record RateLimitOptions : Type 0 where
  pub bucket : String
  pub capacity : Option ℕ
  pub refill_per_second : Option ℕ

-- `rateLimit` of the configuration
pub record RateLimitConfig : Type 0 where
  pub enabled : Bool
  pub capacity : Option ℕ
  pub refill_per_second : Option ℕ

-- what the guard reads of a request: `body.userId`, the first entry of `x-forwarded-for`, the address
pub record Client : Type 0 where
  pub user_id : Option String
  pub forwarded : Option String
  pub ip : Option String

pub data Note : Type 0 where
  limit_header : ℕ → Note
  remaining_header : ℕ → Note
  retry_after_header : ℕ → Note
  decision_counted : String → Note

-- the address of a client
unfoldable pub address : Option String → Option String → String
address (some forwarded) ip = forwarded
address none ip = get_or ip "unknown"

unfoldable pub identify : Client → String
identify c = elim c.user_id [
  | none ↦ str_append "ip:" (address c.forwarded c.ip)
  | some id ↦
      if str_eq id "" then str_append "ip:" (address c.forwarded c.ip) else str_append "user:" id
]

unfoldable pub bucket_key : RateLimitOptions → Client → String
bucket_key o c = str_append "ratelimit:" (str_append o.bucket (str_append ":" (identify c)))

-- `a ?? b ?? c`
unfoldable pub first_of : Option ℕ → Option ℕ → ℕ → ℕ
first_of (some a) b c = a
first_of none (some b) c = b
first_of none none c = c

unfoldable pub retry_after_seconds : ℕ → ℕ
retry_after_seconds ms = max 1 (ceil_div ms 1000)

-- `canActivate` once the limiter has answered
unfoldable pub decide : ℕ → TokenBucketResult → Result Bool × List Note
decide capacity d =
    if d.allowed
    then (
      ok true,
      limit_header capacity ∷ remaining_header d.remaining ∷ decision_counted "allowed" ∷ [],
    )
    else (
      err (too_many_requests d.retry_after_ms),
      limit_header capacity
          ∷ remaining_header d.remaining
          ∷ retry_after_header (retry_after_seconds d.retry_after_ms)
          ∷ decision_counted "blocked"
          ∷ [],
    )

-- a limiter that is down lets the request pass
unfoldable pub fail_open : ℕ → Result TokenBucketResult → Result Bool × List Note
fail_open capacity (ok d) = decide capacity d
fail_open capacity (err _) = (ok true, [])

-- `canActivate`, with `consume` for `redis.consumeToken`
unfoldable pub can_activate :
    RateLimitConfig
    → Option RateLimitOptions
    → Client
    → (String → ℕ → ℕ → Result TokenBucketResult)
    → Result Bool × List Note
can_activate config none client consume = (ok true, [])
can_activate config (some o) client consume =
    let capacity = first_of o.capacity config.capacity 20 in
    let refill = first_of o.refill_per_second config.refill_per_second 10 in
    if config.enabled
    then fail_open capacity (consume (bucket_key o client) capacity refill)
    else (ok true, [])

fail_open_lem :
    (capacity : ℕ) (r : Result TokenBucketResult) (x : Failure)
    → ((fail_open capacity r).0 ≡ err x) ↔ (
        (d : TokenBucketResult) × (r ≡ ok d)
        × (d.allowed ≡ false)
        × (x ≡ too_many_requests d.retry_after_ms))
unfolding fail_open decide
fail_open_lem capacity (ok d) x = (λ h. (d, refl, ground arith, ground arith), λ h. ground (arith))
fail_open_lem capacity (err e) x = (λ h. ground arith, λ h. ground arith)

-- A request is refused exactly when the guard is enabled, the route has a limit, and the limiter
-- answered that the request is over it; the refusal carries the wait that the limiter named.
can_activate_lem :
    (config : RateLimitConfig) (o : RateLimitOptions) (client : Client)
    (consume : String → ℕ → ℕ → Result TokenBucketResult) (x : Failure)
    → ((can_activate config (some o) client consume).0 ≡ err x) ↔ (
        (config.enabled ≡ true)
        × ((d : TokenBucketResult) × (consume
                (bucket_key o client)
                (first_of o.capacity config.capacity 20)
                (first_of o.refill_per_second config.refill_per_second 10)
              ≡ ok d)
            × (d.allowed ≡ false)
            × (x ≡ too_many_requests d.retry_after_ms)))
unfolding can_activate
can_activate_lem config o client consume x = elim (Bool-cases config.enabled) [
  | inl on ↦ rw on (let (a, b) = fail_open_lem _ _ x in (λ h. (refl, a h), λ h. b h.1))
  | inr off ↦ rw off (λ h. ground arith, λ h. ground arith)
]

-- The seconds of `Retry-After` cover the wait that the limiter named, and are at least one.
retry_after_seconds_lem :
    (ms : ℕ) → (ms ≤ retry_after_seconds ms * 1000) × (1 ≤ retry_after_seconds ms)
unfolding retry_after_seconds ceil_div
retry_after_seconds_lem ms = (omega arith, omega arith)
