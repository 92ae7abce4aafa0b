-- ===== src/Route/Keeping.antt =====
-- A row of a key stays through the requests that follow (src/idempotency/idempotency.interceptor.ts
-- around src/bookings/bookings.controller.ts).
use overbook.Base.{
  ◌≡◌, ◌≢◌, refl, sym, ap, subst, ◌∙◌, ◌⊎◌, inl, inr, ℕ, Option, none, some, String, List, [], ◌∷◌,
  str_eq, str_eq_iff, Bool-cases,
}
use overbook.Failure.{Result, ok, err}
use overbook.Booking.Types.{BookingResponseDto}
use overbook.Booking.Service.{World}
use overbook.Idempotency.Table.{IdempotencyStatus, in_progress, completed, IdempotencyKeyEntity}
use overbook.Idempotency.Interceptor.{
  Claim, proceed, replay, key_reused, still_in_progress, stored_response, judge,
}
use overbook.Route.Pipeline.{
  Services, PostRequest, Server, key_of, guard, served, intercepted, admitted, post_booking,
}
use overbook.Route.Outcome.{Keeps, fingerprint_of, Outcome, NotHandled, intercepted_lem}

module _ {B : Type 0} where
  -- What is told of a stored row: its answer, or that the request is in progress.
  pub stored_lem :
      (s : IdempotencyStatus) (r : Option ℕ) (b : Option B)
      → ((status : ℕ) × (body : Option B) × (stored_response s r b ≡ ok (replay status body)))
        ⊎ (stored_response s r b ≡ err still_in_progress)
  unfolding stored_response
  stored_lem completed (some status) b = inl (status, b, refl)
  stored_lem completed none b = inr refl
  stored_lem in_progress r b = inr refl

  pub judge_lem :
      (hash : String) (e : IdempotencyKeyEntity B)
      → ((e.request_hash ≡ hash)
          × (judge hash (some e) ≡ stored_response e.status e.response_status e.response_body))
        ⊎ (judge hash (some e) ≡ err key_reused)
  unfolding judge
  judge_lem hash e = elim (Bool-cases (str_eq e.request_hash hash)) [
    | inl same ↦ inl ((str_eq_iff e.request_hash hash).0 same, rw same refl)
    | inr other ↦ inr (rw other refl)
  ]

  pub judge-ne-proceed :
      (hash : String) (e : IdempotencyKeyEntity B) → judge hash (some e) ≢ ok proceed
  judge-ne-proceed hash e h = elim (judge_lem hash e) [
    | inr reused ↦ cc (reused, h)
    | inl (_, told) ↦ elim (stored_lem e.status e.response_status e.response_body) [
      | inl (status, body, is) ↦ cc (told, is, h)
      | inr is ↦ cc (told, is, h)
    ]
  ]

module _ (V : Services) where
  open V use {D, T}

  served_idle :
      (key : String) (req : PostRequest) (keys : T.Db) (w : World D)
      (c : Result (Claim BookingResponseDto))
      → c ≢ ok proceed
      → (served V key req w (c, keys)).1 ≡ (keys, w)
  unfolding served
  served_idle key req keys w (err e) ne = refl
  served_idle key req keys w (ok (replay status body)) ne = refl
  served_idle key req keys w (ok proceed) ne = absurd (ne refl)

  -- A request that was not handled has changed nothing.
  pub idle_lem :
      (key : String) (req : PostRequest) (keys : T.Db) (w : World D) (o : Outcome V)
      → NotHandled V key req keys w o
      → o.1 ≡ (keys, w)
  idle_lem key req keys w o (inr (x, run)) = ap (λ a. a.1) run
  idle_lem key req keys w o (inl (e, r, run)) =
      ap (λ a. a.1) run
      ∙ served_idle key req keys w (judge (fingerprint_of V req) (some e))
          (judge-ne-proceed (fingerprint_of V req) e)

  -- A row that is kept stays through any request, of its key or of another.
  intercepted-Keeps :
      (key hash : String) (status : ℕ) (body : Option BookingResponseDto) (o : Option String)
      (req : PostRequest) (keys : T.Db) (w : World D)
      → Keeps T key hash status body keys
      → Keeps T key hash status body (intercepted V o req (keys, w)).1.0
  unfolding intercepted
  intercepted-Keeps key hash status body none req keys w k = k
  intercepted-Keeps key hash status body (some key') req keys w k =
      elim (intercepted_lem V key' req keys w) [
        | inr idle ↦
            subst (Keeps T key hash status body)
              (sym (
                ap (λ a. a.0)
                  (idle_lem key' req keys w (intercepted V (some key') req (keys, w)) idle)))
              k
        | inl (n, (keys', r, run, others, _)) ↦
            let other : key ≢ key' = λ same. cc (k.there, ap (λ x. T.row x keys) same ∙ n) in
            subst (Keeps T key hash status body) (sym (ap (λ a. a.1.0) run)) (record {
              entity = k.entity;
              there = others key other ∙ k.there;
              hashed = k.hashed;
              told = k.told;
            })
      ]

  admitted-Keeps :
      (key hash : String) (status : ℕ) (body : Option BookingResponseDto) (r : Result (Unit {0}))
      (req : PostRequest) (s : Server V)
      → Keeps T key hash status body s.keys
      → Keeps T key hash status body (admitted V r req s).1.keys
  unfolding admitted
  admitted-Keeps key hash status body (err e) req s k = k
  admitted-Keeps key hash status body (ok u) req s k =
      intercepted-Keeps key hash status body (key_of req.key) req s.keys s.world k

  -- any requests, one after the other
  unfoldable pub serve_all : List PostRequest → Server V → Server V
  serve_all [] s = s
  serve_all (req ∷ reqs) s = serve_all reqs (post_booking V req s).1

  pub serve_all-Keeps :
      (key hash : String) (status : ℕ) (body : Option BookingResponseDto) (reqs : List PostRequest)
      (s : Server V)
      → Keeps T key hash status body s.keys
      → Keeps T key hash status body (serve_all reqs s).keys
  unfolding serve_all post_booking
  serve_all-Keeps key hash status body [] s k = k
  serve_all-Keeps key hash status body (req ∷ reqs) s k =
      serve_all-Keeps key hash status body reqs (post_booking V req s).1
        (admitted-Keeps key hash status body (guard V req s.redis) req s k)
