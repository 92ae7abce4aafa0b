-- ===== src/Redis/Bucket.antt =====
-- TOKEN_BUCKET_LUA and `consumeToken` (src/redis/redis.service.ts). Tokens are counted in thousandths:
-- times are whole milliseconds and `refill` is whole tokens per second, so `elapsed / 1000 * refill`
-- tokens are exactly `elapsed * refill` thousandths. Lua counts in doubles and rounds: a call that comes
-- just when it was told to may find a hair less than a token. That is not modelled.
use overbook.Base.{
  ℕ, ◌+◌, ◌-◌, ◌*◌, ◌/◌, min, Bool, true, false, Option, none, some, leb, if◌then◌else◌,
}

-- the hash of one key, and when Redis drops it
pub record Bucket : Type 0 where
  pub millitokens : ℕ
  pub ts : ℕ
  pub expires_at : ℕ

pub record TokenBucketResult : Type 0 where
  pub allowed : Bool
  pub remaining : ℕ
  pub retry_after_ms : ℕ

-- `math.ceil(a / b)`
unfoldable pub ceil_div : ℕ → ℕ → ℕ
ceil_div a b = (a + (b - 1)) / b

-- HMGET: nil once the key has expired
unfoldable pub live : ℕ → Option Bucket → Option Bucket
live now none = none
live now (some b) = if leb b.expires_at now then none else some b

-- the tokens at `now`, in thousandths
unfoldable pub refilled : ℕ → ℕ → ℕ → Option Bucket → ℕ
refilled capacity refill now none = min (capacity * 1000) (capacity * 1000 + (now - now) * refill)
refilled capacity refill now (some b) =
    min (capacity * 1000) (b.millitokens + (now - b.ts) * refill)

-- PEXPIRE
unfoldable pub idle_ms : ℕ → ℕ → ℕ
idle_ms capacity refill = ceil_div (capacity * 1000) refill + 1000

-- the end of the script, from the tokens on
unfoldable pub take_tokens : ℕ → ℕ → ℕ → ℕ → ℕ → TokenBucketResult × Bucket
take_tokens capacity refill now cost tokens =
    let expires = now + idle_ms capacity refill in
    let left = tokens - cost * 1000 in
    if leb (cost * 1000) tokens
    then (
      record { allowed = true; remaining = left / 1000; retry_after_ms = 0 },
      record { millitokens = left; ts = now; expires_at = expires },
    )
    else (
      record {
        allowed = false;
        remaining = tokens / 1000;
        retry_after_ms = ceil_div (cost * 1000 - tokens) refill;
      },
      record { millitokens = tokens; ts = now; expires_at = expires },
    )

unfoldable pub consume_token : ℕ → ℕ → ℕ → ℕ → Option Bucket → TokenBucketResult × Bucket
consume_token capacity refill cost now bucket =
    take_tokens capacity refill now cost (refilled capacity refill now (live now bucket))
