-- ===== src/RateLimit/Clients.antt =====
-- The guard (src/ratelimit/rate-limit.guard.ts) before many clients, each with a bucket of its own in
-- Redis (src/redis/redis.service.ts), where the limiter always answers.
use overbook.Base.{
  times_le, ℕ, ◌+◌, ◌-◌, ◌*◌, ◌≤◌, ◌<◌, ◌≡◌, ◌∙◌, inl, inr, refl, sym, ap, Bool, true, false,
  Option, some, String, List, [], ◌∷◌, str_eq, str_eq_iff, if◌then◌else◌, arith, Bool-cases,
}
use overbook.Failure.{Result, ok, err}
use overbook.Redis.Bucket.{Bucket, TokenBucketResult, consume_token}
use overbook.Redis.Limit.{Calls, InOrder, last_time, granted, rate_bound}
use overbook.RateLimit.{
  RateLimitOptions, RateLimitConfig, Client, Note, bucket_key, first_of, can_activate, fail_open,
  decide,
}

pub record Request : Type 0 where
  pub at : ℕ
  pub client : Client

abbrev pub Buckets : Type 0
Buckets = String → Option Bucket

-- The requests come in the order of their times, from `from` on; the time of the last one.
abbrev pub IsInOrder : ℕ → List Request → Type 0
IsInOrder from [] = Unit {0}
IsInOrder from (q ∷ qs) = (from ≤ q.at) × IsInOrder q.at qs

abbrev pub last_at : ℕ → List Request → ℕ
last_at from [] = from
last_at from (q ∷ qs) = last_at q.at qs

InOrder-earlier :
    (from now : ℕ) (calls : Calls) → from ≤ now → InOrder now calls → InOrder from calls
InOrder-earlier from now [] h o = tt
InOrder-earlier from now ((t, cost) ∷ calls) h (first, rest) = (omega (arith, h, first), rest)

last_time-earlier :
    (from now : ℕ) (calls : Calls) → from ≤ now → last_time from calls ≤ last_time now calls
last_time-earlier from now [] h = h
last_time-earlier from now ((t, cost) ∷ calls) h = omega arith

module _ (config : RateLimitConfig) (o : RateLimitOptions) where
  abbrev pub capacity : ℕ
  capacity = first_of o.capacity config.capacity 20

  abbrev pub refill : ℕ
  refill = first_of o.refill_per_second config.refill_per_second 10

  -- `consumeToken(key, capacity, refill)`, with the cost 1
  abbrev pub limiter : ℕ → Buckets → String → ℕ → ℕ → Result TokenBucketResult
  limiter now buckets key c r = ok (consume_token c r 1 now (buckets key)).0

  -- the buckets after the guard has asked
  unfoldable pub after_request : Request → Buckets → Buckets
  after_request q buckets key =
      if str_eq key (bucket_key o q.client)
      then some (consume_token capacity refill 1 q.at (buckets key)).1
      else buckets key

  abbrev is_ok : Result Bool → Bool
  is_ok (ok _) = true
  is_ok (err _) = false

  abbrev pub passes : Request → Buckets → Bool
  passes q buckets = is_ok (can_activate config (some o) q.client (limiter q.at buckets)).0

  -- how many requests on the bucket `key` the guard lets through
  unfoldable pub passed : String → Buckets → List Request → ℕ
  unfolding after_request
  passed key buckets [] = 0
  passed key buckets (q ∷ qs) =
      let rest = passed key (after_request q buckets) qs in
      if str_eq key (bucket_key o q.client)
      then (if passes q buckets then 1 + rest else rest)
      else rest

  -- the calls on the bucket `key`
  abbrev own : String → List Request → Calls
  own key [] = []
  own key (q ∷ qs) =
      if str_eq key (bucket_key o q.client) then (q.at, 1) ∷ own key qs else own key qs

  decide_lem : (c : ℕ) (r : TokenBucketResult) → is_ok (decide c r).0 ≡ r.allowed
  unfolding decide
  decide_lem c r = elim (Bool-cases r.allowed) [
    | inl granted_it ↦ ground (arith, granted_it)
    | inr refused_it ↦ ground (arith, refused_it)
  ]

  passes_lem :
      (q : Request) (buckets : Buckets)
      → config.enabled ≡ true
      → passes q buckets
        ≡ (consume_token capacity refill 1 q.at (buckets (bucket_key o q.client))).0.allowed
  unfolding can_activate fail_open
  passes_lem q buckets on =
      let r = (consume_token capacity refill 1 q.at (buckets (bucket_key o q.client))).0 in
      let decided : Result Bool × List Note = decide capacity r in
      let open_door : Result Bool × List Note = (ok true, []) in
      let choice : Bool → Bool = λ b. is_ok (if b then decided else open_door).0 in
      ap choice on ∙ decide_lem capacity r

  passed-granted :
      (key : String) (buckets : Buckets) (qs : List Request)
      → config.enabled ≡ true
      → passed key buckets qs ≡ granted capacity refill (buckets key) (own key qs)
  unfolding passed after_request granted
  passed-granted key buckets [] on = refl
  passed-granted key buckets (q ∷ qs) on =
      let here = str_eq key (bucket_key o q.client) in
      let called : Option Bucket = some (consume_token capacity refill 1 q.at (buckets key)).1 in
      let rest = passed key (after_request q buckets) qs in
      let later = passed-granted key (after_request q buckets) qs on in
      elim (Bool-cases here) [
        | inl this ↦
            let rest' : rest ≡ granted capacity refill called (own key qs) =
              later
              ∙ ap (λ b. granted capacity refill (if b then called else buckets key) (own key qs))
                  this in
            let same : bucket_key o q.client ≡ key =
              sym ((str_eq_iff key (bucket_key o q.client)).0 this) in
            let passes' =
              passes_lem q buckets on
              ∙ ap (λ k. (consume_token capacity refill 1 q.at (buckets k)).0.allowed) same in
            ap (λ b. if b then (if passes q buckets then 1 + rest else rest) else rest) this
            ∙ ap (λ b. if b then 1 + rest else rest) passes'
            ∙ ap
                (λ n.
                  if (consume_token capacity refill 1 q.at (buckets key)).0.allowed
                  then 1 + n
                  else n)
                rest'
            ∙ sym (
                ap
                  (λ b.
                    granted capacity refill (buckets key)
                      (if b then (q.at, 1) ∷ own key qs else own key qs))
                  this)
        | inr other ↦
            ap (λ b. if b then (if passes q buckets then 1 + rest else rest) else rest) other
            ∙ later
            ∙ ap (λ b. granted capacity refill (if b then called else buckets key) (own key qs))
                other
            ∙ sym (
                ap
                  (λ b.
                    granted capacity refill (buckets key)
                      (if b then (q.at, 1) ∷ own key qs else own key qs))
                  other)
      ]

  -- The calls of one key are in order, and the last of them is no later than the last request.
  own-InOrder :
      (key : String) (from : ℕ) (qs : List Request)
      → IsInOrder from qs
      → InOrder from (own key qs) × (last_time from (own key qs) ≤ last_at from qs)
  own-InOrder key from [] h = (tt, omega arith)
  own-InOrder key from (q ∷ qs) (first, order) =
      let (rest, last) = own-InOrder key q.at qs order in
      elim (Bool-cases (str_eq key (bucket_key o q.client))) [
        | inl this ↦ rw this ((first, rest), last)
        | inr other ↦ rw other (
          InOrder-earlier from q.at (own key qs) first rest,
          omega (arith, last, last_time-earlier from q.at (own key qs) first),
        )
      ]

  -- The guard is enabled and the limiter answers, on one clock that does not go back, with tokens counted
  -- exactly. Whatever buckets earlier requests have left, and whoever else sends requests in between,
  -- the guard lets no more requests on one bucket through than the capacity and what is refilled up
  -- to the last request. The bucket is the one that `bucket_key` picks for the user or the address a
  -- request names.
  pub passed_bound :
      (key : String) (buckets : Buckets) (from : ℕ) (qs : List Request)
      → config.enabled ≡ true
      → 0 < refill
      → IsInOrder from qs
      → passed key buckets qs * 1000 ≤ capacity * 1000 + (last_at from qs - from) * refill
  passed_bound key buckets from qs on pos order =
      let (calls_order, last) = own-InOrder key from qs order in
      let bound = rate_bound capacity refill (buckets key) from (own key qs) pos calls_order in
      let more =
        times_le (last_time from (own key qs) - from) (last_at from qs - from) refill
          (omega (arith, last)) in
      let same = passed-granted key buckets qs on in omega (arith, bound, more, same)
