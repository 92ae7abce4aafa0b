-- ===== src/Confirmation/Emailed.antt =====
-- One email for one booking, over everything that the consumer is handed.
use overbook.Base.{
  ℕ, ◌+◌, ◌≤◌, ◌≡◌, refl, sym, ap, ◌∙◌, inl, inr, Bool, false, String, List, [], ◌∷◌, ◌++◌, arith,
  Option-cases, if◌then◌else◌,
}
use mathlib.Core.Option.{get_or}
use overbook.Entities.{BookingPayload, OutboxMessageEntity}
use overbook.Kafka.Topics.{header_event_type}
use overbook.Outbox.Relay.{message_of}
use overbook.Notifications.Service.{Notified, handle}
use overbook.Notifications.Consumer.{Runtime, ConsumerConfig, header, Consumed, id_of, body_of}
use overbook.Notifications.Sending.{handling}
use overbook.Notifications.Once.{IsResponsive, emails, budget, handle-budget}
use overbook.Confirmation.Wire.{delivered}
use overbook.Confirmation.Stream.{
  Incoming, consume, consume_all, Same, consume-handled, consume-garbage,
}
use overbook.Confirmation.Told.{IsTold, handle-Does, Does-IsTold, Does-sent}

module _ {J : Type 0} (E : Runtime J) (c : ConsumerConfig) where
  open E use {P, parse}

  -- From one state to a later one: the invariant, no email less, and no more than were allowed.
  abbrev Advances : String → Notified P → Notified P → Type 0
  Advances id n n' =
      IsTold P id n' × (emails id n.1 ≤ emails id n'.1) × (budget P id n' ≤ budget P id n)

  Same-Advances :
      (id : String) (n n' : Notified P) → Same E c n n' → IsTold P id n → Advances id n n'
  Same-Advances id n n' (rows, count) told =
      let row : P.claimed id n'.0 ≡ P.claimed id n.0 = ap (P.claimed id) rows in
      let allowed : budget P id n' ≡ budget P id n =
        ap (λ k. k + (if P.claimed id n'.0 then 0 else 1)) (count id)
        ∙ ap (λ b. emails id n.1 + (if b then 0 else 1)) row in
      (
        λ claimed'. let one = told (sym row ∙ claimed') in omega (arith, one, count id),
        omega (arith, count id),
        omega (arith, allowed),
      )

  Advances-trans :
      (id : String) (n n' n'' : Notified P)
      → Advances id n n'
      → Advances id n' n''
      → Advances id n n''
  Advances-trans id n n' n'' (_, more, less) (told, more', less') =
      (told, omega (arith, more, more'), omega (arith, less, less'))

  handling-Advances :
      (id other type booking : String) (fails : Bool) (n : Notified P)
      → IsResponsive P
      → IsTold P id n
      → Advances id n (handle P fails other type booking n).1
  handling-Advances id other type booking fails (db, t) works told =
      let (told', more) =
        Does-IsTold P fails id other db t (handle P fails other type booking (db, t)).1
          (handle-Does P fails other type booking db t works) told in
      (
        told',
        more,
        handle-budget P id
            (record { fails = fails; id = other; event_type = type; booking = booking }) db t,
      )

  consume-Advances :
      (id : String) (i : Incoming) (s : Consumed E c)
      → IsResponsive P
      → IsTold P id s.0
      → Advances id s.0 (consume E c i s).0
  consume-Advances id i s works told = elim (Option-cases (parse (body_of E c i.message))) [
    | inl garbage ↦ Same-Advances id s.0 (consume E c i s).0 (consume-garbage E c i s garbage) told
    | inr (payload, parsed) ↦
        let n' = (handling E c i.message i.fails payload s.0).1 in
        let handled =
          handling-Advances id (id_of E c i.message)
            (get_or (header header_event_type i.message.headers) "unknown") (E.booking_of payload)
            i.fails s.0 works told in
        Advances-trans id s.0 n' (consume E c i s).0 handled (
          Same-Advances id n' (consume E c i s).0 (consume-handled E c i payload s parsed)
            handled.0)
  ]

  all-Advances :
      (id : String) (is : List Incoming) (s : Consumed E c)
      → IsResponsive P
      → IsTold P id s.0
      → Advances id s.0 (consume_all E c is s).0
  unfolding consume_all
  all-Advances id [] s works told = (told, omega arith, omega arith)
  all-Advances id (i ∷ is) s works told =
      let one = consume-Advances id i s works told in
      Advances-trans id s.0 (consume E c i s).0 (consume_all E c is (consume E c i s)).0 one
        (all-Advances id is (consume E c i s) works one.0)

  consume_all-append :
      (before after : List Incoming) (s : Consumed E c)
      → consume_all E c (before ++ after) s ≡ consume_all E c after (consume_all E c before s)
  unfolding consume_all
  consume_all-append [] after s = refl
  consume_all-append (i ∷ before) after s = consume_all-append before after (consume E c i s)

  module _ (encode : BookingPayload → J) where
    -- the message of a row, delivered while the provider takes the email
    abbrev pub accepted : OutboxMessageEntity → ℕ → ℕ → ℕ → ℕ → Incoming
    accepted row offset now k d = record {
      message = delivered E c encode row offset;
      fails = false;
      now = now;
      k = k;
      d = d;
    }

    accepted-told :
        (row : OutboxMessageEntity) (offset now k d : ℕ) (s : Consumed E c)
        → IsResponsive P
        → IsTold P row.id s.0
        → 1 ≤ emails row.id (consume E c (accepted row offset now k d) s).0.1
    unfolding delivered message_of id_of body_of header
    accepted-told row offset now k d s works told =
        let i = accepted row offset now k d in
        let payload = encode row.payload in
        let n' = (handling E c i.message false payload s.0).1 in
        let one : 1 ≤ emails row.id n'.1 =
          Does-sent P row.id s.0.0 s.0.1 n'
            (handle-Does P false row.id row.event_type (E.booking_of payload) s.0.0 s.0.1 works)
            told in
        let same = consume-handled E c i payload s (E.parse-stringify payload) in
        omega (arith, one, same.1 row.id)

    -- A booking that is announced gets exactly one email. The consumer is handed any messages in any
    -- order, copies of this one too, as often as the relay publishes its row and the topics deliver it,
    -- and the provider may refuse any of them, but it takes one copy that the consumer is handed; the
    -- statements on processed_messages do not fail, and at first the message has no row and no email.
    pub emailed_once :
        (row : OutboxMessageEntity) (offset now k d : ℕ) (before after : List Incoming)
        (s : Consumed E c)
        → IsResponsive P
        → P.claimed row.id s.0.0 ≡ false
        → emails row.id s.0.1 ≡ 0
        → emails row.id (consume_all E c (before ++ (accepted row offset now k d ∷ after)) s).0.1
          ≡ 1
    unfolding consume_all
    emailed_once row offset now k d before after s works free fresh =
        let copy = accepted row offset now k d in
        let told : IsTold P row.id s.0 = λ held. cc (held, free) in
        let s₁ = consume_all E c before s in
        let first = all-Advances row.id before s works told in
        let middle = consume-Advances row.id copy s₁ works first.0 in
        let last = all-Advances row.id after (consume E c copy s₁) works middle.0 in
        let sent = accepted-told row offset now k d s₁ works first.0 in
        let parts = ap (λ o. emails row.id o.0.1) (consume_all-append before (copy ∷ after) s) in
        ground (arith, parts, first, middle, last, sent, fresh, free)
