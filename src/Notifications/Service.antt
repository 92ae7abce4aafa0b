-- ===== src/Notifications/Service.antt =====
-- `NotificationsService` (src/notifications/notifications.service.ts), for one consumer group. A
-- statement on `processed_messages` may always fail, and then changes nothing.
use overbook.Base.{
  ◌≡◌, ◌≢◌, ◌⊎◌, refl, inl, inr, true, false, Bool, String, List, [], ◌∷◌, arith, Bool-cases,
  str_append,
}
use overbook.Failure.{Failure, failed, Result, ok, err, Action, pure, throw, ◌>>=◌, ◌>>◌, catch}
use overbook.Database.{Fails, Reads}

pub record ProcessedMessages : Type 1 where
  pub Db : Type 0
  -- the message has a row
  pub claimed : String → Db → Bool
  -- INSERT .. ON CONFLICT DO NOTHING RETURNING message_id
  pub insert_or_ignore : String → String → Action Db (List String)
  pub delete_message : String → Action Db (Unit {0})
  pub insert_new :
      (id type : String) (db : Db)
      → claimed id db ≡ false
      → ((db' : Db) × (insert_or_ignore id type db ≡ (ok (id ∷ []), db'))
          × (claimed id db' ≡ true)
          × ((other : String) → other ≢ id → claimed other db' ≡ claimed other db))
        ⊎ Fails (insert_or_ignore id type db) db
  pub insert_taken :
      (id type : String) (db : Db)
      → claimed id db ≡ true
      → Reads (insert_or_ignore id type db) [] db
  pub delete_message_law :
      (id : String) (db : Db)
      → ((db' : Db) × (delete_message id db ≡ (ok tt, db'))
          × (claimed id db' ≡ false)
          × ((other : String) → other ≢ id → claimed other db' ≡ claimed other db))
        ⊎ Fails (delete_message id db) db

pub data Handled : Type 0 where
  sent : Handled
  duplicate : Handled

pub data Counted : Type 0 where
  result : String → Counted
  -- an email left
  email : String → Counted

-- NotificationDeliveryError
abbrev pub simulated : String → Failure
simulated booking = failed (str_append "simulated provider failure for booking " booking)

module _ (P : ProcessedMessages) where
  open P use {Db, insert_or_ignore, delete_message}

  abbrev pub Notified : Type 0
  Notified = Db × List Counted

  -- `deliver`, which is told whether the draw of `Math.random()` is below the failure rate
  unfoldable pub deliver : Bool → String → String → Action Notified (Unit {0})
  deliver true id booking (db, t) = (err (simulated booking), (db, t))
  deliver false id booking (db, t) = (ok tt, (db, email id ∷ t))

  abbrev pub on_db : {A : Type 0} → Action Db A → Action Notified A
  on_db m (db, t) = let (r, db') = m db in (r, (db', t))

  abbrev pub count : String → Action Notified (Unit {0})
  count label (db, t) = (ok tt, (db, result label ∷ t))

  -- the catch block of `handle`
  unfoldable pub release_claim : String → Failure → Action Notified Handled
  release_claim id error = do on_db (catch (delete_message id) (λ _. pure tt)); throw error

  -- `handle`, from the answer of the INSERT on
  unfoldable pub handle_claim : Bool → String → String → List String → Action Notified Handled
  handle_claim fails id booking [] = do count "duplicate"; pure duplicate
  handle_claim fails id booking (_ ∷ _) =
      catch (deliver fails id booking >>= λ _. count "sent" >>= λ _. pure sent) (release_claim id)

  unfoldable pub handle : Bool → String → String → String → Action Notified Handled
  handle fails id type booking = do
    claim ← on_db (insert_or_ignore id type)
    handle_claim fails id booking claim

  pub handle_claim-sent :
      (id booking : String) (row : String) (rows : List String) (db : Db) (t : List Counted)
      → handle_claim false id booking (row ∷ rows) (db, t)
        ≡ (ok sent, (db, result "sent" ∷ email id ∷ t))
  unfolding handle_claim deliver
  handle_claim-sent id booking row rows db t = refl

  handle_claim-failed :
      (id booking : String) (row : String) (rows : List String) (db : Db) (t : List Counted)
      → (db' : Db) × (x : Failure) × (handle_claim true id booking (row ∷ rows) (db, t)
          ≡ (err x, (db', t)))
  unfolding handle_claim deliver release_claim
  handle_claim-failed id booking row rows db t = elim (P.delete_message_law id db) [
    | inl (db', done, gone, _) ↦ (db', simulated booking, ground arith)
    | inr (msg, h) ↦ (db, simulated booking, ground arith)
  ]

  -- The three outcomes of `handle`, and what they leave.
  abbrev pub IsOutcome : String → Db → List Counted → Result Handled × Notified → Type 0
  IsOutcome id db t (r, (db', t')) =
      ((r ≡ ok sent)
        × (P.claimed id db ≡ false)
        × (P.claimed id db' ≡ true)
        × (t' ≡ result "sent" ∷ email id ∷ t))
      ⊎ ((r ≡ ok duplicate) × (P.claimed id db ≡ true) × (db' ≡ db) × (t' ≡ result "duplicate" ∷ t))
      ⊎ ((x : Failure) × (r ≡ err x) × (t' ≡ t))

  pub handle-inserted :
      (fails : Bool) (id type booking : String) (db db' : Db) (t : List Counted)
      (rows : List String)
      → insert_or_ignore id type db ≡ (ok rows, db')
      → handle fails id type booking (db, t) ≡ handle_claim fails id booking rows (db', t)
  unfolding handle
  handle-inserted fails id type booking db db' t rows h = ground arith

  pub handle-refused :
      (fails : Bool) (id type booking : String) (db : Db) (t : List Counted) (x : Failure)
      → insert_or_ignore id type db ≡ (err x, db)
      → handle fails id type booking (db, t) ≡ (err x, (db, t))
  unfolding handle
  handle-refused fails id type booking db t x h = ground arith

  claim-IsOutcome :
      (fails : Bool) (id booking : String) (db db' : Db) (t : List Counted)
      → P.claimed id db ≡ false
      → P.claimed id db' ≡ true
      → IsOutcome id db t (handle_claim fails id booking (id ∷ []) (db', t))
  claim-IsOutcome false id booking db db' t free held =
      rw (handle_claim-sent id booking id [] db' t) (inl (refl, free, held, refl))
  claim-IsOutcome true id booking db db' t free held =
      let (_, x, h) = handle_claim-failed id booking id [] db' t in rw h (inr (inr (x, refl, refl)))

  -- Handling a message sends one email or none: one only if the message had no row, and then it has
  -- one; a message with a row is a duplicate and sends none; a failure sends none.
  handle_lem :
      (fails : Bool) (id type booking : String) (db : Db) (t : List Counted)
      → IsOutcome id db t (handle fails id type booking (db, t))
  unfolding handle_claim
  handle_lem fails id type booking db t = elim (Bool-cases (P.claimed id db)) [
    | inl held ↦ elim (P.insert_taken id type db held) [
      | inl done ↦
          rw (handle-inserted fails id type booking db db t [] done)
            (inr (inl (refl, held, refl, refl)))
      | inr (msg, h) ↦
          rw (handle-refused fails id type booking db t (failed msg) h)
            (inr (inr (failed msg, refl, refl)))
    ]
    | inr free ↦ elim (P.insert_new id type db free) [
      | inl (db', done, held, _) ↦
          rw (handle-inserted fails id type booking db db' t (id ∷ []) done)
            (claim-IsOutcome fails id booking db db' t free held)
      | inr (msg, h) ↦
          rw (handle-refused fails id type booking db t (failed msg) h)
            (inr (inr (failed msg, refl, refl)))
    ]
  ]
