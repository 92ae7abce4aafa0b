-- ===== src/Route/Outcome.antt =====
-- What one request of the route does to the keys and to the bookings.
use overbook.Base.{
  ◌≡◌, refl, ap, ◌∙◌, ◌⊎◌, inl, inr, ℕ, false, Option, none, some, String, str_append,
}
use overbook.Failure.{Failure, Result, ok, err, Result-cases}
use overbook.Booking.Types.{BookingResponseDto}
use overbook.Booking.Service.{World}
use overbook.Idempotency.Table.{in_progress, IdempotencyKeyEntity, KeyTable, Others, map_row}
use overbook.Idempotency.Fingerprint.{request_fingerprint}
use overbook.Idempotency.Interceptor.{
  proceed, replay, Answer, still_in_progress, stored_response, judge, completed_row, after_handler,
}
use overbook.Route.Pipeline.{Services, PostRequest, handle, served, intercepted}
use overbook.Route.Claiming.{claim_lem, after_handler_lem, after_failure_lem}

module _ {B : Type 0} where
  -- The row of the key is of a request that was answered so, or whose answer was not stored.
  pub record Keeps (T : KeyTable B) (key hash : String) (status : ℕ) (body : Option B) (db : T.Db)
      : Type 0 where
    pub entity : IdempotencyKeyEntity B
    pub there : T.row key db ≡ some entity
    pub hashed : entity.request_hash ≡ hash
    pub told :
        (stored_response entity.status entity.response_status entity.response_body
          ≡ ok (replay status body))
        ⊎ (stored_response entity.status entity.response_status entity.response_body
            ≡ err still_in_progress)

  kept_after :
      (T : KeyTable B) (key hash : String) (status : ℕ) (body : Option B) (db db' : T.Db)
      (e : IdempotencyKeyEntity B)
      → T.row key db ≡ some e
      → e.request_hash ≡ hash
      → e.status ≡ in_progress
      → (T.row key db' ≡ map_row (completed_row status body) (T.row key db))
        ⊎ (T.row key db' ≡ T.row key db)
      → Keeps T key hash status body db'
  unfolding stored_response completed_row
  kept_after T key hash status body db db' e r h p (inl stored) = record {
    entity = completed_row status body e;
    there = stored ∙ ap (map_row (completed_row status body)) r;
    hashed = h;
    told = inl refl;
  }
  kept_after T key hash status body db db' e r h p (inr same) = record {
    entity = e;
    there = same ∙ r;
    hashed = h;
    told = inr (rw p refl);
  }

module _ (V : Services) where
  open V use {D, T}

  abbrev pub fingerprint_of : PostRequest → String
  fingerprint_of req = request_fingerprint V.canon req.method req.url req.body

  abbrev pub Outcome : Type 0
  Outcome = Result (Answer BookingResponseDto) × (T.Db × World D)

  -- The handler ran: the key had no row, and the answer is the handler's.
  abbrev pub Handled : String → PostRequest → T.Db → World D → Outcome → Type 0
  Handled key req keys w o =
      (T.row key keys ≡ none)
      × ((keys' : T.Db) × (r : Result (Answer BookingResponseDto)) × (o
            ≡ (r, (keys', (handle V req w).1)))
          × Others T.row key keys keys'
          × (((status : ℕ) × (body : Option BookingResponseDto) × ((handle V req w).0
                  ≡ ok (status, body))
                × (r ≡ ok (record { status = status; body = body; replayed = false }))
                × Keeps T key (fingerprint_of req) status body keys')
              ⊎ ((x : Failure) × ((handle V req w).0 ≡ err x) × (r ≡ err x))))

  -- The handler did not run: the key has a row, which is judged, or a statement failed.
  abbrev pub NotHandled : String → PostRequest → T.Db → World D → Outcome → Type 0
  NotHandled key req keys w o =
      ((e : IdempotencyKeyEntity BookingResponseDto) × (T.row key keys ≡ some e)
        × (o ≡ served V key req w (judge (fingerprint_of req) (some e), keys)))
      ⊎ ((x : Failure) × (o ≡ (err x, (keys, w))))

  run_lem :
      (key : String) (req : PostRequest) (keys keys₁ : T.Db) (w : World D)
      (e : IdempotencyKeyEntity BookingResponseDto)
      → T.row key keys ≡ none
      → T.row key keys₁ ≡ some e
      → e.request_hash ≡ fingerprint_of req
      → e.status ≡ in_progress
      → Others T.row key keys keys₁
      → Handled key req keys w (served V key req w (ok proceed, keys₁))
  unfolding served
  run_lem key req keys keys₁ w e n r h p o = elim (Result-cases (handle V req w).0) [
    | inl (answer, done) ↦
        let (keys', run, o', kept) = after_handler_lem T key answer.0 answer.1 keys₁ in
        (
          n,
          (
            keys',
            ok (record { status = answer.0; body = answer.1; replayed = false }),
            through (ap (λ a. after_handler T key a keys₁) done ∙ run),
            λ other ne. o' other ne ∙ o other ne,
            inl (
              answer.0,
              answer.1,
              done,
              refl,
              kept_after T key (fingerprint_of req) answer.0 answer.1 keys₁ keys' e r h p kept,
            ),
          ),
        )
    | inr (x, threw) ↦
        let (keys', run, o', left) = after_failure_lem T key x keys₁ in
        (
          n,
          (
            keys',
            err x,
            through (ap (λ a. after_handler T key a keys₁) threw ∙ run),
            λ other ne. o' other ne ∙ o other ne,
            inr (x, threw, refl),
          ),
        )
  ]
    where
      through :
          {r : Result (Answer BookingResponseDto)} {keys' : T.Db}
          → after_handler T key (handle V req w).0 keys₁ ≡ (r, keys')
          → served V key req w (ok proceed, keys₁) ≡ (r, (keys', (handle V req w).1))
      through a = ap (λ x. (x.0, (x.1, (handle V req w).1))) a

  pub intercepted_lem :
      (key : String) (req : PostRequest) (keys : T.Db) (w : World D)
      → Handled key req keys w (intercepted V (some key) req (keys, w))
        ⊎ NotHandled key req keys w (intercepted V (some key) req (keys, w))
  unfolding intercepted
  intercepted_lem key req keys w =
      elim (claim_lem T key (str_append req.method (str_append " " req.route)) (fingerprint_of req)
        keys) [
          | inl (n, (keys₁, e, run, is, r, o)) ↦
              inl (rw run (run_lem key req keys keys₁ w e n r is.2 is.3 o))
          | inr (inl (e, r, run)) ↦ inr (inl (e, r, ap (served V key req w) run))
          | inr (inr (x, run)) ↦ inr (inr (x, ap (served V key req w) run))
        ]
