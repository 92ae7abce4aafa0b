-- ===== src/Notifications/Fate.antt =====
-- What becomes of a message (src/notifications/notifications.consumer.ts).
use overbook.Base.{
  ℕ, zero, suc, ◌+◌, ◌-◌, ◌≤◌, ◌<◌, ◌≡◌, ◌⊎◌, refl, sym, ap, subst, inl, inr, min, max, Bool, true,
  false, none, some, String, List, ◌∷◌, arith, Bool-cases, Option-cases,
}
use overbook.Failure.{Failure, Result, ok, err, Result-cases}
use overbook.Kafka.Topics.{OutgoingMessage, publish}
use overbook.Outbox.Relay.{text_of}
use overbook.Notifications.RetryPolicy.{should_dead_letter}
use overbook.Notifications.Service.{result, Handled, Notified}
use overbook.Notifications.Consumer.{
  HeaderNumber, plus, is_spent, backoff_of, Runtime, ConsumerConfig, KafkaMessage, Value,
  wait_until_due, Consumed, attempts_of, body_of, dead_message, retry_message, dead_letter,
  schedule_retry, schedule_retry_or_dead_letter, process,
}
use overbook.Notifications.Sending.{
  handling, process-handled, process-failed, dead_letter-taken, dead_letter-refused,
  schedule_retry-taken, schedule_retry-refused,
}

pub wait_lem :
    (fuel retry_at now : ℕ)
    → retry_at - now ≤ fuel
    → wait_until_due fuel (λ _. false) retry_at now ≡ max now retry_at
unfolding wait_until_due
wait_lem zero retry_at now h = omega arith
wait_lem (suc fuel) retry_at now h =
    let rest = wait_lem fuel retry_at (now + min (retry_at - now) 3000) in
    ground (arith, rest (omega arith))

module _ {J : Type 0} (E : Runtime J) (c : ConsumerConfig) where
  open E use {P, send, parse, number, show, booking_of}

  -- The broker took `m`, or refused it.
  abbrev pub IsPublished :
      OutgoingMessage (Value J)
      → List (OutgoingMessage (Value J))
      → List (OutgoingMessage (Value J))
      → Type 0
  IsPublished m sent sent' =
      (sent' ≡ m ∷ sent) ⊎ ((x : Failure) × (publish send m ≡ err x) × (sent' ≡ sent))

  -- one result more in the counter
  abbrev pub counting : String → Notified P → Notified P
  counting what (db, t) = (db, result what ∷ t)

  -- The attempt that failed was the last one, or there are more. Attempts that are no number never end.
  abbrev pub IsSpent : HeaderNumber → Type 0
  IsSpent a = (n : ℕ) × (a ≡ some n) × (c.max_attempts ≤ n + 1)

  abbrev pub IsLeft : HeaderNumber → Type 0
  IsLeft a = (a ≡ none) ⊎ ((n : ℕ) × (a ≡ some n) × (n + 1 < c.max_attempts))

  spent_lem : (a : HeaderNumber) → is_spent (plus 1 a) c.max_attempts ≡ true → IsSpent a
  unfolding should_dead_letter
  spent_lem none h = absurd (cc h)
  spent_lem (some n) h = (n, refl, ground (arith, h))

  left_lem : (a : HeaderNumber) → is_spent (plus 1 a) c.max_attempts ≡ false → IsLeft a
  unfolding should_dead_letter
  left_lem none h = inl refl
  left_lem (some n) h = inr (n, refl, ground (arith, h))

  -- The DLQ is told how often the message was tried and why it was given up: it is no JSON, and was not
  -- handled; or handling it failed, and its attempts are spent.
  abbrev pub IsGivenUp :
      KafkaMessage → Bool → HeaderNumber → String → Notified P → Notified P → Type 0
  IsGivenUp m fails attempts reason n n' =
      ((parse (body_of E c m) ≡ none)
        × (reason ≡ "payload is not valid JSON")
        × (attempts ≡ attempts_of E c m)
        × (n' ≡ counting "dead_lettered" n))
      ⊎ ((payload : J) × (x : Failure) × (parse (body_of E c m) ≡ some payload)
          × ((handling E c m fails payload n).0 ≡ err x)
          × IsSpent (attempts_of E c m)
          × (reason ≡ text_of x)
          × (attempts ≡ plus 1 (attempts_of E c m))
          × (n' ≡ counting "dead_lettered" (handling E c m fails payload n).1))

  -- What `onMessage` leaves of a message: it was notified or a duplicate; or handling it failed, attempts
  -- are left, and its next one is in the retry topic, or that refused it and the broker delivers it
  -- again; or it is given up, and in the DLQ or refused by it. Every other state is that of `handle`.
  abbrev pub IsFate :
      KafkaMessage → Bool → ℕ → ℕ → ℕ → Consumed E c → Result (Unit {0}) × Consumed E c → Type 0
  IsFate m fails now k d (n, sent) (r, (n', sent')) =
      ((payload : J) × (h : Handled) × (parse (body_of E c m) ≡ some payload)
        × ((handling E c m fails payload n).0 ≡ ok h)
        × (r ≡ ok tt)
        × (n' ≡ (handling E c m fails payload n).1)
        × (sent' ≡ sent))
      ⊎ ((payload : J) × (x : Failure) × (parse (body_of E c m) ≡ some payload)
          × ((handling E c m fails payload n).0 ≡ err x)
          × IsLeft (attempts_of E c m)
          × ((r ≡ ok tt)
                × (n' ≡ counting "retried" (handling E c m fails payload n).1)
                × (sent'
                    ≡ retry_message E c m payload (plus 1 (attempts_of E c m)) x now
                        (backoff_of E c (plus 1 (attempts_of E c m)) k d)
                      ∷ sent)
              ⊎ ((y : Failure) × (r ≡ err y)
                  × (n' ≡ (handling E c m fails payload n).1)
                  × (sent' ≡ sent))))
      ⊎ ((reason : String) × (attempts : HeaderNumber) × IsGivenUp m fails attempts reason n n'
          × (r ≡ ok tt)
          × IsPublished (dead_message E c m attempts reason now) sent sent')

  dead-IsPublished :
      (m : KafkaMessage) (attempts : HeaderNumber) (reason : String) (now : ℕ) (s : Consumed E c)
      → let out = dead_letter E c m attempts reason now s in
        (out.0 ≡ ok tt)
        × (out.1.0 ≡ counting "dead_lettered" s.0)
        × IsPublished (dead_message E c m attempts reason now) s.1 out.1.1
  dead-IsPublished m attempts reason now ((db, t), sent) =
      elim (Result-cases (publish send (dead_message E c m attempts reason now))) [
        | inl (tt, e) ↦
            rw (dead_letter-taken E c m attempts reason now db t sent e) (refl, refl, inl refl)
        | inr (x, e) ↦
            rw (dead_letter-refused E c m attempts reason now db t sent x e)
              (refl, refl, inr (x, e, refl))
      ]

  retried-or-thrown :
      (m : KafkaMessage) (payload : J) (attempts : HeaderNumber) (now k d : ℕ) (x : Failure)
      (s : Consumed E c)
      → let out = schedule_retry E c m payload attempts x now k d s in
        ((out.0 ≡ ok tt)
          × (out.1.0 ≡ counting "retried" s.0)
          × (out.1.1
              ≡ retry_message E c m payload attempts x now (backoff_of E c attempts k d) ∷ s.1))
        ⊎ ((y : Failure) × (out.0 ≡ err y) × (out.1.0 ≡ s.0) × (out.1.1 ≡ s.1))
  retried-or-thrown m payload attempts now k d x ((db, t), sent) =
      elim (Result-cases
        (publish send (retry_message E c m payload attempts x now (backoff_of E c attempts k d)))) [
          | inl (tt, e) ↦
              rw (schedule_retry-taken E c m payload attempts now k d x db t sent e)
                (inl (refl, refl, refl))
          | inr (y, e) ↦
              rw (schedule_retry-refused E c m payload attempts now k d x y db t sent e)
                (inr (y, refl, refl, refl))
        ]

  failed-IsFate :
      (m : KafkaMessage) (fails : Bool) (now k d : ℕ) (payload : J) (n : Notified P)
      (sent : List (OutgoingMessage (Value J))) (x : Failure)
      → parse (body_of E c m) ≡ some payload
      → (handling E c m fails payload n).0 ≡ err x
      → IsFate m fails now k d
          (n, sent)
          (schedule_retry_or_dead_letter E c m payload now k d x
            ((handling E c m fails payload n).1, sent))
  unfolding schedule_retry_or_dead_letter should_dead_letter
  failed-IsFate m fails now k d payload n sent x e threw =
      let attempts = plus 1 (attempts_of E c m) in
      let s : Consumed E c = ((handling E c m fails payload n).1, sent) in
      elim (Bool-cases (is_spent attempts c.max_attempts)) [
        | inl spent ↦
            let (returned, told, published) = dead-IsPublished m attempts (text_of x) now s in
            rw spent (
              inr (
                inr (
                  text_of x,
                  attempts,
                  inr (payload, x, e, threw, spent_lem (attempts_of E c m) spent, refl, refl, told),
                  returned,
                  published,
                )))
        | inr left ↦ rw left (
            inr (
              inl (
                payload,
                x,
                e,
                threw,
                left_lem (attempts_of E c m) left,
                retried-or-thrown m payload attempts now k d x s,
              )))
      ]

  parsed-IsFate :
      (m : KafkaMessage) (fails : Bool) (now k d : ℕ) (payload : J) (n : Notified P)
      (sent : List (OutgoingMessage (Value J)))
      → parse (body_of E c m) ≡ some payload
      → IsFate m fails now k d (n, sent) (process E c m fails now k d (some payload) (n, sent))
  parsed-IsFate m fails now k d payload n sent e =
      let n' = (handling E c m fails payload n).1 in
      elim (Result-cases (handling E c m fails payload n).0) [
        | inl (h, returned) ↦
            rw
              (process-handled E c m fails now k d payload n n' sent h (ap (λ r. (r, n')) returned))
              (inl (payload, h, e, returned, refl, refl, refl))
        | inr (x, thrown) ↦
            rw (process-failed E c m fails now k d payload n n' sent x (ap (λ r. (r, n')) thrown))
              (failed-IsFate m fails now k d payload n sent x e thrown)
      ]

  pub process_lem :
      (m : KafkaMessage) (fails : Bool) (now k d : ℕ) (s : Consumed E c)
      → IsFate m fails now k d s (process E c m fails now k d (parse (body_of E c m)) s)
  unfolding process
  process_lem m fails now k d (n, sent) = elim (Option-cases (parse (body_of E c m))) [
    | inl garbage ↦
        let (returned, told, published) =
          dead-IsPublished m (attempts_of E c m) "payload is not valid JSON" now (n, sent) in
        rw garbage (
          inr (
            inr (
              "payload is not valid JSON",
              attempts_of E c m,
              inl (refl, refl, refl, told),
              returned,
              published,
            )))
    | inr (payload, e) ↦
        subst (λ o. IsFate m fails now k d (n, sent) (process E c m fails now k d o (n, sent)))
          (sym e) (parsed-IsFate m fails now k d payload n sent e)
  ]
