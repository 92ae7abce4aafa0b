-- ===== src/Route/Effects.antt =====
-- What one request of the route does to the bookings.
use overbook.Base.{
  ◌≡◌, refl, sym, ap, subst, ◌∙◌, ◌≢◌, ◌⊎◌, inl, inr, ℕ, true, false, Option, none, some, String,
}
use overbook.Failure.{Failure, Result, ok, err, Result-cases, pure, ◌>>=◌}
use overbook.Booking.Types.{CreateBookingDto, Context, BookingResponseDto}
use overbook.Booking.Service.{World, book}
use overbook.Booking.Outcome.{Committed, RolledBack, book_atomic}
use overbook.Idempotency.Interceptor.{Claim, proceed, replay, Answer, judge, unkeyed}
use overbook.Route.Pipeline.{
  Services, PostRequest, Server, trimmed, key_of, guard, create, handle, served, intercepted,
  admitted, post_booking,
}
use overbook.Route.Outcome.{Outcome, fingerprint_of, intercepted_lem}
use overbook.Route.Keeping.{judge-ne-proceed}

module _ (V : Services) where
  open V use {D, T}

  -- the answer of the route to what `book` returned
  abbrev pub answer_of : Result BookingResponseDto → Result (Answer BookingResponseDto)
  answer_of (ok r) = ok (record { status = 201; body = some r; replayed = false })
  answer_of (err x) = err x

  abbrev pub context_of : PostRequest → Context
  context_of req = record { trace_id = req.trace_id; idempotency_key = trimmed req.key }

  -- Nothing is booked: an error, or the answer to an earlier request.
  abbrev pub Unbooked : World D → Result (Answer BookingResponseDto) × World D → Type 0
  Unbooked w o =
      (o.1 ≡ w)
      × (((x : Failure) × (o.0 ≡ err x))
          ⊎ ((a : Answer BookingResponseDto) × (a.replayed ≡ true) × (o.0 ≡ ok a)))

  -- `book` ran once, on what the pipes made of the request, and the answer is its result.
  abbrev pub Tried : PostRequest → World D → Result (Answer BookingResponseDto) × World D → Type 0
  Tried req w o =
      (id : String) × (dto : CreateBookingDto) × (V.pipes req ≡ ok (id, dto))
      × ((r : Result BookingResponseDto) × (o.0 ≡ answer_of r)
          × (Committed D V.send V.config id dto (context_of req) w.0 w.1 (r, o.1)
              ⊎ RolledBack D V.send V.config w.0 w.1 (r, o.1)))

  -- the answer of the interceptor to what the handler returned
  abbrev passed : Result (ℕ × Option BookingResponseDto) → Result (Answer BookingResponseDto)
  passed (ok r) = ok (record { status = r.0; body = r.1; replayed = false })
  passed (err x) = err x

  -- the handler once the pipes have passed the request
  abbrev booked :
      Result BookingResponseDto × World D → Result (ℕ × Option BookingResponseDto) × World D
  booked (ok r, w) = (ok (201, some r), w)
  booked (err x, w) = (err x, w)

  booked_lem :
      (o : Result BookingResponseDto × World D)
      → (passed (booked o).0 ≡ answer_of o.0)
        × ((booked o).1 ≡ o.1)
        × (((λ w. o) >>= (λ r. pure (201, some r))) o.1 ≡ booked o)
  booked_lem (ok r, w) = (refl, refl, refl)
  booked_lem (err x, w) = (refl, refl, refl)

  handle_parsed :
      (req : PostRequest) (w : World D) (id : String) (dto : CreateBookingDto)
      → V.pipes req ≡ ok (id, dto)
      → handle V req w ≡ booked (book D V.send V.config id dto (context_of req) w)
  unfolding handle create
  handle_parsed req w id dto parsed =
      rw (handle, parsed) (booked_lem (book D V.send V.config id dto (context_of req) w)).2

  handle_refused :
      (req : PostRequest) (w : World D) (x : Failure)
      → V.pipes req ≡ err x
      → handle V req w ≡ (err x, w)
  unfolding handle create
  handle_refused req w x refused = rw (handle, refused) refl

  handle_lem :
      (req : PostRequest) (w : World D)
      → Unbooked w (passed (handle V req w).0, (handle V req w).1)
        ⊎ Tried req w (passed (handle V req w).0, (handle V req w).1)
  handle_lem req w = elim (Result-cases (V.pipes req)) [
    | inr (x, refused) ↦
        let ran = handle_refused req w x refused in
        inl (ap (λ o. o.1) ran, inl (x, ap (λ o. passed o.0) ran))
    | inl ((id, dto), parsed) ↦
        let o = book D V.send V.config id dto (context_of req) w in
        let ran = handle_parsed req w id dto parsed in
        inr (
          id,
          dto,
          parsed,
          (
            o.0,
            ap (λ a. passed a.0) ran ∙ (booked_lem o).0,
            subst
                (λ w'.
                  Committed D V.send V.config id dto (context_of req) w.0 w.1 (o.0, w')
                  ⊎ RolledBack D V.send V.config w.0 w.1 (o.0, w'))
                (sym (ap (λ a. a.1) ran ∙ (booked_lem o).1))
                (book_atomic D V.send V.config id dto (context_of req) w.0 w.1),
          ),
        )
  ]

  -- What a request may do, seen from the guard, the keys and the bookings.
  abbrev pub Effects :
      PostRequest → Server V → Result (Answer BookingResponseDto) × Server V → Type 0
  Effects req s o =
      ((x : Failure) × (guard V req s.redis ≡ err x)
        × (o.0 ≡ err x)
        × (o.1.keys ≡ s.keys)
        × (o.1.world ≡ s.world))
      ⊎ ((u : Unit {0}) × (guard V req s.redis ≡ ok u)
          × (Unbooked s.world (o.0, o.1.world) ⊎ Tried req s.world (o.0, o.1.world)))

  served_told :
      (key : String) (req : PostRequest) (keys : T.Db) (w : World D)
      (c : Result (Claim BookingResponseDto))
      → c ≢ ok proceed
      → Unbooked w ((served V key req w (c, keys)).0, (served V key req w (c, keys)).1.1)
  unfolding served
  served_told key req keys w (err e) ne = (refl, inl (e, refl))
  served_told key req keys w (ok (replay status body)) ne =
      (refl, inr (record { status = status; body = body; replayed = true }, refl, refl))
  served_told key req keys w (ok proceed) ne = absurd (ne refl)

  abbrev Did : PostRequest → World D → Result (Answer BookingResponseDto) → World D → Type 0
  Did req w r w' = Unbooked w (r, w') ⊎ Tried req w (r, w')

  unkeyed_effects :
      (req : PostRequest) (keys : T.Db) (w : World D)
      → Did req w (intercepted V none req (keys, w)).0 (intercepted V none req (keys, w)).1.1
  unfolding intercepted
  unkeyed_effects req keys w =
      subst (λ r. Did req w r (handle V req w).1) (sym (same (handle V req w).0)) (handle_lem req w)
    where
      same : (h : Result (ℕ × Option BookingResponseDto)) → (unkeyed T h keys).0 ≡ passed h
      same (ok r) = refl
      same (err x) = refl

  keyed_effects :
      (key : String) (req : PostRequest) (keys : T.Db) (w : World D)
      → Did req w
          (intercepted V (some key) req (keys, w)).0
          (intercepted V (some key) req (keys, w)).1.1
  keyed_effects key req keys w = elim (intercepted_lem V key req keys w) [
    | inl (n, (keys', r, run, others, inl (status, body, done, is, k))) ↦
        ran run (is ∙ sym (ap passed done)) (handle_lem req w)
    | inl (n, (keys', r, run, others, inr (x, threw, is))) ↦
        ran run (is ∙ sym (ap passed threw)) (handle_lem req w)
    | inr (inl (e, r, run)) ↦ told run (
        served_told key req keys w (judge (fingerprint_of V req) (some e))
          (judge-ne-proceed (fingerprint_of V req) e))
    | inr (inr (x, run)) ↦ told run (refl, inl (x, refl))
  ]
    where
      told : {o o' : Outcome V} → o ≡ o' → Unbooked w (o'.0, o'.1.1) → Did req w o.0 o.1.1
      told run u = inl (subst (λ o. Unbooked w (o.0, o.1.1)) (sym run) u)

      ran :
          {o : Outcome V} {r : Result (Answer BookingResponseDto)} {keys' : T.Db}
          → o ≡ (r, (keys', (handle V req w).1))
          → r ≡ passed (handle V req w).0
          → Did req w (passed (handle V req w).0) (handle V req w).1
          → Did req w o.0 o.1.1
      ran run is did =
          subst (λ o. Did req w o.0 o.1.1) (sym run)
            (subst (λ r. Did req w r (handle V req w).1) (sym is) did)

  intercepted_effects :
      (o : Option String) (req : PostRequest) (keys : T.Db) (w : World D)
      → Did req w (intercepted V o req (keys, w)).0 (intercepted V o req (keys, w)).1.1
  intercepted_effects none req keys w = unkeyed_effects req keys w
  intercepted_effects (some key) req keys w = keyed_effects key req keys w

  -- What a request to book does, on every path through the route. Refused by the guard, it changes no
  -- key and no booking. Otherwise either nothing is booked, and it is told an error or the answer of
  -- an earlier request; or `book` ran once, has written everything or nothing, and its result is the
  -- answer.
  pub post_booking_lem : (req : PostRequest) (s : Server V) → Effects req s (post_booking V req s)
  unfolding post_booking admitted
  post_booking_lem req s = elim (Result-cases (guard V req s.redis)) [
    | inr (x, refused) ↦ inl (
      x,
      refused,
      rw (post_booking, refused) refl,
      rw (post_booking, refused) refl,
      rw (post_booking, refused) refl,
    )
    | inl (u, passed) ↦ inr (
      u,
      passed,
      rw (post_booking, passed) (intercepted_effects (key_of req.key) req s.keys s.world),
    )
  ]
