-- ===== src/Redis/Limit.antt =====
-- The token bucket over many calls, with one clock that does not go back.
use overbook.Base.{
  times_le, ℕ, ◌+◌, ◌-◌, ◌*◌, ◌≤◌, ◌<◌, ◌≡◌, ◌∙◌, inl, inr, sym, ap, subst, Option, none, some,
  List, [], ◌∷◌, leb, if◌then◌else◌, arith, Bool-cases,
}
use overbook.Redis.Bucket.{Bucket, ceil_div, live, refilled, idle_ms, take_tokens, consume_token}

-- The calls of one key, each with its time and its cost.
abbrev pub Calls : Type 0
Calls = List (ℕ × ℕ)

-- The times do not go back, and start at `from`.
abbrev pub InOrder : ℕ → Calls → Type 0
InOrder from [] = Unit {0}
InOrder from ((now, cost) ∷ calls) = (from ≤ now) × InOrder now calls

abbrev pub last_time : ℕ → Calls → ℕ
last_time from [] = from
last_time from ((now, cost) ∷ calls) = last_time now calls

module _ (capacity refill : ℕ) where
  -- the tokens granted to a sequence of calls
  unfoldable pub granted : Option Bucket → Calls → ℕ
  granted bucket [] = 0
  granted bucket ((now, cost) ∷ calls) =
      let (r, bucket') = consume_token capacity refill cost now bucket in
      let rest = granted (some bucket') calls in if r.allowed then cost + rest else rest

  -- one call: what is granted is paid for, and no bucket holds more than its capacity
  take_tokens_lem :
      (now cost tokens : ℕ)
      → let r = take_tokens capacity refill now cost tokens in
        ((if r.0.allowed then cost else 0) * 1000 + r.1.millitokens ≡ tokens) × (r.1.ts ≡ now)
  unfolding take_tokens
  take_tokens_lem now cost tokens = ground arith

  ceil_div_lem : (a b : ℕ) → 0 < b → a ≤ ceil_div a b * b
  unfolding ceil_div
  ceil_div_lem a b pos = omega arith

  -- What a call with its expiry set `idle_ms` ahead leaves.
  abbrev pub IsKept : Bucket → Type 0
  IsKept b = b.expires_at ≡ b.ts + idle_ms capacity refill

  take_tokens-IsKept :
      (now cost tokens : ℕ) → IsKept (take_tokens capacity refill now cost tokens).1
  unfolding take_tokens
  take_tokens-IsKept now cost tokens = ground arith

  times_span : (a b c r : ℕ) → a ≤ b → b ≤ c → (b - a) * r + (c - b) * r ≡ (c - a) * r
  times_span a b c r h k =
      let whole : (b - a) + (c - b) ≡ c - a = omega arith in
      let split : ((b - a) + (c - b)) * r ≡ (b - a) * r + (c - b) * r = omega arith in
      sym split ∙ ap (λ n. n * r) whole

  refilled_le_capacity :
      (now : ℕ) (bucket : Option Bucket) → refilled capacity refill now bucket ≤ capacity * 1000
  unfolding refilled
  refilled_le_capacity now none = omega arith
  refilled_le_capacity now (some b) = omega arith

  -- An expired bucket would have been full again.
  refilled_le :
      (now : ℕ) (b : Bucket)
      → 0 < refill
      → IsKept b
      → b.ts ≤ now
      → refilled capacity refill now (live now (some b)) ≤ b.millitokens + (now - b.ts) * refill
  unfolding refilled live idle_ms
  refilled_le now b pos kept after = elim (Bool-cases (leb b.expires_at now)) [
    | inl expired ↦
        let full = ceil_div_lem (capacity * 1000) refill pos in
        let waited : ceil_div (capacity * 1000) refill ≤ now - b.ts = ground (arith, kept) in
        let more : ceil_div (capacity * 1000) refill * refill ≤ (now - b.ts) * refill =
          times_le _ _ refill waited in
        rw expired (omega (arith, full, more))
    | inr alive ↦ rw alive (omega arith)
  ]

  granted_le :
      (b : Bucket) (calls : Calls)
      → 0 < refill
      → IsKept b
      → InOrder b.ts calls
      → (b.ts ≤ last_time b.ts calls)
        × (granted (some b) calls * 1000 ≤ b.millitokens + (last_time b.ts calls - b.ts) * refill)
  unfolding granted consume_token
  granted_le b [] pos kept order = (omega arith, omega arith)
  granted_le b ((now, cost) ∷ calls) pos kept order =
      let tokens = refilled capacity refill now (live now (some b)) in
      let b' = (take_tokens capacity refill now cost tokens).1 in
      let (paid, at) = take_tokens_lem now cost tokens in
      let after =
        granted_le b' calls pos (take_tokens-IsKept now cost tokens)
          (subst (λ t. InOrder t calls) (sym at) order.1) in
      let (later, rest) =
        subst
          (λ t.
            (t ≤ last_time t calls)
            × (granted (some b') calls * 1000 ≤ b'.millitokens + (last_time t calls - t) * refill))
          at after in
      let before = refilled_le now b pos kept order.0 in
      let span = times_span b.ts now (last_time now calls) refill order.0 later in
      (omega (arith, later, order.0), ground (arith, paid, rest, before, span))

  -- The clock is one that does not go back, and tokens are counted exactly. Whatever bucket the earlier
  -- calls of a key have left, the calls from then on are granted no more than the capacity and what
  -- is refilled up to the last of them, whatever their times and costs.
  pub rate_bound :
      (bucket : Option Bucket) (from : ℕ) (calls : Calls)
      → 0 < refill
      → InOrder from calls
      → granted bucket calls * 1000 ≤ capacity * 1000 + (last_time from calls - from) * refill
  unfolding granted consume_token
  rate_bound bucket from [] pos order = omega arith
  rate_bound bucket from ((now, cost) ∷ calls) pos order =
      let tokens = refilled capacity refill now (live now bucket) in
      let b = (take_tokens capacity refill now cost tokens).1 in
      let (paid, at) = take_tokens_lem now cost tokens in
      let full = refilled_le_capacity now (live now bucket) in
      let after =
        granted_le b calls pos (take_tokens-IsKept now cost tokens)
          (subst (λ t. InOrder t calls) (sym at) order.1) in
      let (later, rest) =
        subst
          (λ t.
            (t ≤ last_time t calls)
            × (granted (some b) calls * 1000 ≤ b.millitokens + (last_time t calls - t) * refill))
          at after in
      let span =
        times_le (last_time now calls - now) (last_time now calls - from) refill
          (omega (arith, order.0)) in
      ground (arith, paid, rest, full, span)
