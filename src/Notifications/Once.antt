-- ===== src/Notifications/Once.antt =====
-- Many deliveries, of this message and of others (src/notifications/notifications.service.ts).
use overbook.Base.{
  ℕ, ◌+◌, ◌≤◌, ◌≡◌, ◌≢◌, refl, sym, ap, subst, ◌⊎◌, inl, inr, Bool, true, false, String, List, [],
  ◌∷◌, str_eq, str_eq_iff, if◌then◌else◌, arith, Bool-cases,
}
use overbook.Failure.{Failure, failed, ok, err}
use overbook.Notifications.Service.{
  ProcessedMessages, simulated, Counted, result, email, Notified, deliver, release_claim,
  handle_claim, handle, handle-inserted, handle-refused, handle_claim-sent,
}

-- One delivery of a message: does the provider fail, the id, the type and the booking.
pub record Arrival : Type 0 where
  pub fails : Bool
  pub id : String
  pub event_type : String
  pub booking : String

-- the emails for one message
unfoldable pub emails : String → List Counted → ℕ
emails id [] = 0
emails id (result _ ∷ t) = emails id t
emails id (email other ∷ t) = (if str_eq other id then 1 else 0) + emails id t

module _ (P : ProcessedMessages) where
  open P use {Db, claimed}

  -- the deliveries in their order; a failure is the consumer's to handle
  unfoldable pub handle_all : List Arrival → Notified P → Notified P
  handle_all [] s = s
  handle_all (a ∷ rest) s = handle_all rest (handle P a.fails a.id a.event_type a.booking s).1

  -- The statements of `handle` do not fail.
  abbrev pub IsResponsive : Type 0
  IsResponsive =
      ((id type : String) (db : Db)
        → (rows : List String) × (db' : Db) × (P.insert_or_ignore id type db ≡ (ok rows, db')))
      × ((id : String) (db : Db) → (db' : Db) × (P.delete_message id db ≡ (ok tt, db')))

  -- the emails that were sent, and one more while the message has no row
  abbrev pub budget : String → Notified P → ℕ
  budget id (db, t) = emails id t + (if claimed id db then 0 else 1)

  -- After a failed delivery the row is gone, or it could not be deleted.
  pub handle_claim-released :
      (id booking row : String) (rows : List String) (db : Db) (t : List Counted)
      → (db' : Db) × (x : Failure) × (handle_claim P true id booking (row ∷ rows) (db, t)
          ≡ (err x, (db', t)))
        × (((claimed id db' ≡ false)
              × ((other : String) → other ≢ id → claimed other db' ≡ claimed other db))
            ⊎ ((db' ≡ db) × ((msg : String) × (P.delete_message id db ≡ (err (failed msg), db)))))
  unfolding handle_claim deliver release_claim
  handle_claim-released id booking row rows db t = elim (P.delete_message_law id db) [
    | inl (db', done, gone, others) ↦ (db', simulated booking, ground arith, inl (gone, others))
    | inr (msg, h) ↦ (db, simulated booking, ground arith, inr (refl, (msg, h)))
  ]

  pub claimed-same :
      (id other : String) (db db' : Db)
      → str_eq other id ≡ false
      → ((k : String) → k ≢ other → claimed k db' ≡ claimed k db)
      → claimed id db' ≡ claimed id db
  claimed-same id other db db' different keeps =
      keeps id (λ same. cc ((str_eq_iff other id).1 (sym same), different))

  inserted-budget :
      (fails : Bool) (id other booking : String) (db db' : Db) (t : List Counted)
      → claimed other db ≡ false
      → claimed other db' ≡ true
      → ((k : String) → k ≢ other → claimed k db' ≡ claimed k db)
      → budget id (handle_claim P fails other booking (other ∷ []) (db', t)).1 ≤ budget id (db, t)
  unfolding emails
  inserted-budget false id other booking db db' t free held keeps =
      rw (handle_claim-sent P other booking other [] db' t) (elim (Bool-cases (str_eq other id)) [
        | inl same ↦
            let is : other ≡ id = (str_eq_iff other id).0 same in
            let free' : claimed id db ≡ false = subst (λ k. claimed k db ≡ false) is free in
            let held' : claimed id db' ≡ true = subst (λ k. claimed k db' ≡ true) is held in
            ground (arith, same)
        | inr different ↦
            let keep = claimed-same id other db db' different keeps in ground (arith, keep)
      ])
  inserted-budget true id other booking db db' t free held keeps =
      let (db'', x, h, left) = handle_claim-released other booking other [] db' t in
      rw h (elim (Bool-cases (str_eq other id)) [
        | inl same ↦
            let is : other ≡ id = (str_eq_iff other id).0 same in
            let free' : claimed id db ≡ false = subst (λ k. claimed k db ≡ false) is free in
            ground (arith, free')
        | inr different ↦ elim left [
          | inl (_, others) ↦
              let keep = claimed-same id other db db' different keeps in
              let keep' = claimed-same id other db' db'' different others in
              ground (arith, keep, keep')
          | inr (stays, _) ↦
              let keep = claimed-same id other db db' different keeps in
              let stay = ap (claimed id) stays in ground (arith, keep, stay)
        ]
      ])

  pub handle-budget :
      (id : String) (a : Arrival) (db : Db) (t : List Counted)
      → budget id (handle P a.fails a.id a.event_type a.booking (db, t)).1 ≤ budget id (db, t)
  unfolding handle_claim emails
  handle-budget id a db t = elim (Bool-cases (claimed a.id db)) [
    | inl held ↦ elim (P.insert_taken a.id a.event_type db held) [
      | inl done ↦
          rw (handle-inserted P a.fails a.id a.event_type a.booking db db t [] done) (omega arith)
      | inr (msg, h) ↦
          rw (handle-refused P a.fails a.id a.event_type a.booking db t (failed msg) h)
            (omega arith)
    ]
    | inr free ↦ elim (P.insert_new a.id a.event_type db free) [
      | inl (db', done, held, others) ↦
          rw (handle-inserted P a.fails a.id a.event_type a.booking db db' t (a.id ∷ []) done)
            (inserted-budget a.fails id a.id a.booking db db' t free held others)
      | inr (msg, h) ↦
          rw (handle-refused P a.fails a.id a.event_type a.booking db t (failed msg) h)
            (omega arith)
    ]
  ]

  all-budget :
      (id : String) (arrivals : List Arrival) (s : Notified P)
      → budget id (handle_all arrivals s) ≤ budget id s
  unfolding handle_all
  all-budget id [] s = omega arith
  all-budget id (a ∷ rest) (db, t) = omega (
    arith,
    handle-budget id a db t,
    all-budget id rest (handle P a.fails a.id a.event_type a.booking (db, t)).1,
  )

  -- However often the messages are delivered, whichever deliveries fail and whichever statements do,
  -- at most one email more is sent for a message, and none if it had a row.
  pub one_email :
      (id : String) (arrivals : List Arrival) (db : Db) (t : List Counted)
      → emails id (handle_all arrivals (db, t)).1 ≤ emails id t + (if claimed id db then 0 else 1)
  one_email id arrivals db t = omega (arith, all-budget id arrivals (db, t))
