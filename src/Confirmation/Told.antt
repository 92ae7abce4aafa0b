-- ===== src/Confirmation/Told.antt =====
-- What one message leaves that is handled while the statements do not fail
-- (src/notifications/notifications.service.ts).
use overbook.Base.{
  ◌+◌, ◌≤◌, ◌≡◌, ◌≢◌, refl, sym, ap, subst, ◌∙◌, ◌⊎◌, inl, inr, Bool, true, false, String, List, [],
  ◌∷◌, arith, Bool-cases, if◌then◌else◌, str_eq, str_eq_iff,
}
use overbook.Notifications.Service.{
  ProcessedMessages, Counted, result, email, Notified, handle, handle_claim, handle-inserted,
  handle_claim-sent,
}
use overbook.Notifications.Once.{IsResponsive, emails, handle_claim-released, claimed-same}

module _ (P : ProcessedMessages) where
  open P use {Db, claimed}

  -- the row of `id` is left, and nothing else is written
  abbrev Keeps : String → Db → Db → Type 0
  Keeps id db db' = (other : String) → other ≢ id → claimed other db' ≡ claimed other db

  -- What `handle` does while its statements do not fail: the message has a row, or it is sent, or the
  -- provider refuses it.
  abbrev pub Does : Bool → String → Db → List Counted → Notified P → Type 0
  Does fails id db t (db', t') =
      ((claimed id db ≡ true) × (db' ≡ db) × (t' ≡ result "duplicate" ∷ t))
      ⊎ ((fails ≡ false)
          × (claimed id db' ≡ true)
          × Keeps id db db'
          × (t' ≡ result "sent" ∷ email id ∷ t))
      ⊎ ((fails ≡ true) × (claimed id db' ≡ false) × Keeps id db db' × (t' ≡ t))

  claim-Does :
      (fails : Bool) (id booking : String) (db db' : Db) (t : List Counted)
      → IsResponsive P
      → claimed id db' ≡ true
      → Keeps id db db'
      → Does fails id db t (handle_claim P fails id booking (id ∷ []) (db', t)).1
  claim-Does false id booking db db' t works held keeps =
      rw (handle_claim-sent P id booking id [] db' t) (inr (inl (refl, held, keeps, refl)))
  claim-Does true id booking db db' t works held keeps =
      let (db'', x, h, left) = handle_claim-released P id booking id [] db' t in
      rw h (elim left [
        | inl (gone, others) ↦ inr (inr (refl, gone, (λ k ne. others k ne ∙ keeps k ne), refl))
        | inr (_, (msg, lost)) ↦ let (db3, deleted) = works.1 id db' in absurd (cc)
      ])

  pub handle-Does :
      (fails : Bool) (id type booking : String) (db : Db) (t : List Counted)
      → IsResponsive P
      → Does fails id db t (handle P fails id type booking (db, t)).1
  unfolding handle_claim
  handle-Does fails id type booking db t works = elim (Bool-cases (claimed id db)) [
    | inl held ↦ elim (P.insert_taken id type db held) [
      | inl done ↦
          rw (handle-inserted P fails id type booking db db t [] done) (inl (held, refl, refl))
      | inr (msg, h) ↦ let (rows, db', done) = works.0 id type db in absurd (cc)
    ]
    | inr free ↦ elim (P.insert_new id type db free) [
      | inl (db', done, held, keeps) ↦
          rw (handle-inserted P fails id type booking db db' t (id ∷ []) done)
            (claim-Does fails id booking db db' t works held keeps)
      | inr (msg, h) ↦ let (rows, db', done) = works.0 id type db in absurd (cc)
    ]
  ]

  -- A message with a row has had its email.
  abbrev pub IsTold : String → Notified P → Type 0
  IsTold id (db, t) = (claimed id db ≡ true → 1 ≤ emails id t)

  pub Does-IsTold :
      (fails : Bool) (id other : String) (db : Db) (t : List Counted) (n : Notified P)
      → Does fails other db t n
      → IsTold id (db, t)
      → IsTold id n × (emails id t ≤ emails id n.1)
  unfolding emails
  Does-IsTold fails id other db t (db', t') (inl (held, same, t_is)) told =
      let count : emails id t' ≡ emails id t = ap (emails id) t_is in
      (
        λ claimed'. omega (arith, count, told (sym (ap (claimed id) same) ∙ claimed')),
        omega (arith, count),
      )
  Does-IsTold fails id other db t (db', t') (inr (inl (fine, held, keeps, t_is))) told =
      let count : emails id t' ≡ (if str_eq other id then 1 else 0) + emails id t =
        ap (emails id) t_is in
      elim (Bool-cases (str_eq other id)) [
        | inl this ↦ (λ _. ground (arith, count), ground (arith, count))
        | inr different ↦
            let keep = claimed-same P id other db db' different keeps in
            (
              λ claimed'. let one = told (sym keep ∙ claimed') in ground (arith, count, one),
              ground (arith, count),
            )
      ]
  Does-IsTold fails id other db t (db', t') (inr (inr (refused, gone, keeps, t_is))) told =
      let count : emails id t' ≡ emails id t = ap (emails id) t_is in
      elim (Bool-cases (str_eq other id)) [
        | inl this ↦
            let is : other ≡ id = (str_eq_iff other id).0 this in
            let gone' : claimed id db' ≡ false = subst (λ k. claimed k db' ≡ false) is gone in
            (λ claimed'. absurd cc, omega (arith, count))
        | inr different ↦
            let keep = claimed-same P id other db db' different keeps in
            (λ claimed'. omega (arith, count, told (sym keep ∙ claimed')), omega (arith, count))
      ]

  pub Does-sent :
      (id : String) (db : Db) (t : List Counted) (n : Notified P)
      → Does false id db t n
      → IsTold id (db, t)
      → 1 ≤ emails id n.1
  unfolding emails
  Does-sent id db t (db', t') (inl (held, same, t_is)) told =
      let count : emails id t' ≡ emails id t = ap (emails id) t_is in
      omega (arith, count, told held)
  Does-sent id db t (db', t') (inr (inl (fine, held, keeps, t_is))) told =
      let count : emails id t' ≡ (if str_eq id id then 1 else 0) + emails id t =
        ap (emails id) t_is in
      let this = (str_eq_iff id id).1 refl in ground (arith, count, this)
  Does-sent id db t (db', t') (inr (inr (refused, gone, keeps, t_is))) told = cc refused
