-- ===== src/Route/Retry.antt =====
-- A client that sends a booking again under its key.
use overbook.Base.{
  ◌≡◌, refl, sym, ap, subst, ◌∙◌, ◌⊎◌, inl, inr, ℕ, true, false, Option, some, String, List,
}
use overbook.Failure.{Failure, Result, ok, err}
use overbook.Booking.Types.{BookingResponseDto}
use overbook.Booking.Service.{World}
use overbook.Idempotency.Table.{IdempotencyKeyEntity}
use overbook.Idempotency.Interceptor.{
  Claim, replay, Answer, key_reused, still_in_progress, stored_response, judge,
}
use overbook.Idempotency.Fingerprint.{request_fingerprint}
use overbook.Idempotency.SameRequest.{Same, request_fingerprint_lem}
use overbook.Route.Pipeline.{
  Services, PostRequest, Server, key_of, guard, served, intercepted, asked, with_state, admitted,
  post_booking,
}
use overbook.Route.Outcome.{Keeps, fingerprint_of, Outcome, intercepted_lem}
use overbook.Route.Keeping.{stored_lem, judge_lem, idle_lem, serve_all, serve_all-Keeps}

module _ (V : Services) where
  open V use {D, T}

  -- A handled request that is answered has its row.
  told_lem :
      (key : String) (req : PostRequest) (keys : T.Db) (w : World D)
      (e : IdempotencyKeyEntity BookingResponseDto) (a : Answer BookingResponseDto)
      → T.row key keys ≡ some e
      → (served V key req w (judge (fingerprint_of V req) (some e), keys)).0 ≡ ok a
      → Keeps T key (fingerprint_of V req) a.status a.body keys
  unfolding served
  told_lem key req keys w e a r run =
      let answer_to : Result (Claim BookingResponseDto) → Result (Answer BookingResponseDto) =
        λ c. (served V key req w (c, keys)).0 in
      elim (judge_lem (fingerprint_of V req) e) [
        | inr reused ↦
            let clash : err key_reused ≡ ok a = sym (ap answer_to reused) ∙ run in cc clash
        | inl (same, told) ↦ elim (stored_lem e.status e.response_status e.response_body) [
          | inl (status, body, is) ↦
              let replayed : Answer BookingResponseDto = record {
                status = status;
                body = body;
                replayed = true;
              } in
              let is_ok : ok replayed ≡ ok a = sym (ap answer_to (told ∙ is)) ∙ run in
              let is_a : replayed ≡ a = cc is_ok in
              subst (λ x. Keeps T key (fingerprint_of V req) x.status x.body keys) is_a
                (record { entity = e; there = r; hashed = same; told = inl is })
          | inr is ↦
              let clash : err still_in_progress ≡ ok a = sym (ap answer_to (told ∙ is)) ∙ run in
              cc clash
        ]
      ]

  intercepted-answered :
      (key : String) (req : PostRequest) (keys : T.Db) (w : World D) (a : Answer BookingResponseDto)
      → (intercepted V (some key) req (keys, w)).0 ≡ ok a
      → Keeps T key
          (fingerprint_of V req)
          a.status
          a.body
          (intercepted V (some key) req (keys, w)).1.0
  intercepted-answered key req keys w a run = elim (intercepted_lem V key req keys w) [
    | inl (n, (keys', r, is, others, inl (status, body, done, answer, k))) ↦
        let ran : Answer BookingResponseDto = record {
          status = status;
          body = body;
          replayed = false;
        } in
        let is_ok : ok ran ≡ ok a = sym answer ∙ sym (ap (λ o. o.0) is) ∙ run in
        let is_a : ran ≡ a = cc is_ok in
        subst
          (λ x.
            Keeps T key (fingerprint_of V req) x.status x.body
              ((intercepted V (some key) req (keys, w)).1.0))
          is_a (subst (Keeps T key (fingerprint_of V req) status body) (sym (ap (λ o. o.1.0) is)) k)
    | inl (n, (keys', r, is, others, inr (x, threw, failed))) ↦
        let clash : err x ≡ ok a = sym failed ∙ sym (ap (λ o. o.0) is) ∙ run in cc clash
    | inr (inl (e, r, is)) ↦
        subst (Keeps T key (fingerprint_of V req) a.status a.body)
          (sym (
            ap (λ o. o.0)
              (idle_lem V key req keys w (intercepted V (some key) req (keys, w))
                (inl (e, r, is)))))
          (told_lem key req keys w e a r (sym (ap (λ o. o.0) is) ∙ run))
    | inr (inr (x, is)) ↦ let clash : err x ≡ ok a = sym (ap (λ o. o.0) is) ∙ run in cc clash
  ]

  admitted-answered :
      (key : String) (r : Result (Unit {0})) (req : PostRequest) (s : Server V)
      (a : Answer BookingResponseDto)
      → key_of req.key ≡ some key
      → (admitted V r req s).0 ≡ ok a
      → Keeps T key (fingerprint_of V req) a.status a.body (admitted V r req s).1.keys
  unfolding admitted
  admitted-answered key (err e) req s a is run = cc run
  admitted-answered key (ok u) req s a is run =
      subst
        (λ o.
          Keeps T key (fingerprint_of V req) a.status a.body
            (intercepted V o req (s.keys, s.world)).1.0)
        (sym is)
        (intercepted-answered key req s.keys s.world a
          (ap (λ o. (intercepted V o req (s.keys, s.world)).0) (sym is) ∙ run))

  -- What a request is told that finds its row: the stored answer, or an error; nothing is changed.
  abbrev pub Repeats :
      ℕ
      → Option BookingResponseDto
      → Server V
      → Result (Answer BookingResponseDto) × Server V
      → Type 0
  Repeats status body s o =
      (o.1.world ≡ s.world)
      × (o.1.keys ≡ s.keys)
      × ((o.0 ≡ ok (record { status = status; body = body; replayed = true }))
          ⊎ ((x : Failure) × (o.0 ≡ err x)))

  -- What the row says is what a request is told that has its key.
  again_lem :
      (key : String) (status : ℕ) (body : Option BookingResponseDto) (req : PostRequest)
      (keys : T.Db) (w : World D) (e : IdempotencyKeyEntity BookingResponseDto)
      → Keeps T key (fingerprint_of V req) status body keys
      → T.row key keys ≡ some e
      → ((served V key req w (judge (fingerprint_of V req) (some e), keys)).0
          ≡ ok (record { status = status; body = body; replayed = true }))
        ⊎ ((x : Failure) × ((served V key req w (judge (fingerprint_of V req) (some e), keys)).0
              ≡ err x))
  unfolding served
  again_lem key status body req keys w e k r =
      let answer_to : Result (Claim BookingResponseDto) → Result (Answer BookingResponseDto) =
        λ c. (served V key req w (c, keys)).0 in
      let one : k.entity ≡ e = cc (k.there, r) in
      elim (judge_lem (fingerprint_of V req) e) [
        | inr reused ↦ inr (key_reused, ap answer_to reused)
        | inl (_, told) ↦
            elim (subst
              (λ x.
                (stored_response x.status x.response_status x.response_body
                  ≡ ok (replay status body))
                ⊎ (stored_response x.status x.response_status x.response_body
                    ≡ err still_in_progress))
              one k.told) [
                | inl is ↦ inl (ap answer_to (told ∙ is))
                | inr is ↦ inr (still_in_progress, ap answer_to (told ∙ is))
              ]
      ]

  intercepted-again :
      (key : String) (status : ℕ) (body : Option BookingResponseDto) (req : PostRequest)
      (keys : T.Db) (w : World D)
      → Keeps T key (fingerprint_of V req) status body keys
      → ((intercepted V (some key) req (keys, w)).1 ≡ (keys, w))
        × (((intercepted V (some key) req (keys, w)).0
              ≡ ok (record { status = status; body = body; replayed = true }))
            ⊎ ((x : Failure) × ((intercepted V (some key) req (keys, w)).0 ≡ err x)))
  intercepted-again key status body req keys w k = elim (intercepted_lem V key req keys w) [
    | inl (n, _) ↦ absurd (cc (k.there, n))
    | inr idle ↦ (
      idle_lem V key req keys w (intercepted V (some key) req (keys, w)) idle,
      elim idle [
        | inr (x, is) ↦ inr (x, ap (λ o. o.0) is)
        | inl (e, r, is) ↦ elim (again_lem key status body req keys w e k r) [
          | inl told ↦ inl (ap (λ o. o.0) is ∙ told)
          | inr (x, told) ↦ inr (x, ap (λ o. o.0) is ∙ told)
        ]
      ],
    )
  ]

  admitted-again :
      (key : String) (status : ℕ) (body : Option BookingResponseDto) (r : Result (Unit {0}))
      (req : PostRequest) (s : Server V)
      → key_of req.key ≡ some key
      → Keeps T key (fingerprint_of V req) status body s.keys
      → Repeats status body s (admitted V r req s)
  unfolding admitted
  admitted-again key status body (err e) req s is k = (refl, refl, inr (e, refl))
  admitted-again key status body (ok u) req s is k =
      subst
        (λ o.
          Repeats status body s
            (with_state V (asked V req s.redis) (intercepted V o req (s.keys, s.world))))
        (sym is) (again_parts (intercepted-again key status body req s.keys s.world k))
    where
      again_parts :
          {o : Outcome V}
          → (o.1 ≡ (s.keys, s.world))
            × ((o.0 ≡ ok (record { status = status; body = body; replayed = true }))
                ⊎ ((x : Failure) × (o.0 ≡ err x)))
          → Repeats status body s (with_state V (asked V req s.redis) o)
      again_parts (same, answer) = (ap (λ x. x.1) same, ap (λ x. x.0) same, answer)

  -- A booking that was answered under a key is not made again, while the row of the key is there: the
  -- sweep, which may take it after a day, does not run. Once a request has been answered, any requests
  -- may follow, whole and one after the other, and the client may send its request again under the same
  -- key, with the same method and URL and with a body of the same value. That request changes no key,
  -- no booking, no stock and no cache; it gets the answer of the first one, marked as replayed, or an
  -- error.
  pub booked_once :
      (first retry : PostRequest) (between : List PostRequest) (s : Server V) (key : String)
      (a : Answer BookingResponseDto)
      → key_of first.key ≡ some key
      → key_of retry.key ≡ some key
      → retry.method ≡ first.method
      → retry.url ≡ first.url
      → Same V.canon retry.body first.body
      → (post_booking V first s).0 ≡ ok a
      → Repeats a.status a.body
          (serve_all V between (post_booking V first s).1)
          (post_booking V retry (serve_all V between (post_booking V first s).1))
  unfolding post_booking
  booked_once first retry between s key a keyed keyed' method url body run =
      let s' = serve_all V between (post_booking V first s).1 in
      admitted-again key a.status a.body (guard V retry s'.redis) retry s' keyed' (
        subst (λ h. Keeps T key h a.status a.body s'.keys)
          (sym (
            ap (λ m. request_fingerprint V.canon m retry.url retry.body) method
            ∙ ap (λ u. request_fingerprint V.canon first.method u retry.body) url
            ∙ request_fingerprint_lem V.canon first.method first.url body))
          (serve_all-Keeps V key (fingerprint_of V first) a.status a.body between
            (post_booking V first s).1
            (admitted-answered key (guard V first s.redis) first s a keyed run)))
