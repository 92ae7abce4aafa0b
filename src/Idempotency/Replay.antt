-- ===== src/Idempotency/Replay.antt =====
-- Which requests with one key are served, and what the others get.
use overbook.Base.{
  ℕ, ◌≡◌, ◌≢◌, ◌⊎◌, sym, ◌∙◌, subst, ap, inl, inr, Option, none, some, String, ◌==◌, Bool-cases,
  arith,
}
use overbook.Idempotency.Table.{IdempotencyKeyEntity, KeyTable}
use overbook.Idempotency.Requests.{
  Stage, answered, replayed, update_stage, World, Advance, inserts, reads, handled, threw, stores,
  releases, Step, pick, Reach, here, next,
}
use overbook.Idempotency.Invariant.{
  IsCalm, IsServed, IsFresh, Served, Guest, other_step, own_step, first_step,
}
use overbook.Idempotency.Stages.{Served-Guest, Fresh-Guest, Guest-unserved, Fresh-unserved}

module _ {B : Type 0} (T : KeyTable B) (key : String) (endpoint fingerprint : ℕ → String) where
  open T use {Db, row}

  -- No request's handler threw.
  abbrev pub AllCalm : World T key endpoint fingerprint → Type 0
  AllCalm w = (i : ℕ) → IsCalm (w.stage i)

  Advance-IsCalm :
      {i : ℕ} {db db' : Db} {p p' : Stage B}
      → Advance T key endpoint fingerprint i db p db' p'
      → IsCalm p'
      → IsCalm p
  Advance-IsCalm inserts h = tt
  Advance-IsCalm reads h = tt
  Advance-IsCalm (handled _ _) h = tt
  Advance-IsCalm (threw _) h = tt
  Advance-IsCalm stores h = tt
  Advance-IsCalm releases h = absurd h

  -- No row and nobody served; or the row of the one request that was.
  abbrev Inv : World T key endpoint fingerprint → Type 0
  Inv w =
      ((row key w.db ≡ none) × ((i : ℕ) → IsFresh (w.stage i)))
      ⊎ ((o : ℕ) × (e : IdempotencyKeyEntity B) × (row key w.db ≡ some e)
          × (e.request_hash ≡ fingerprint o)
          × Served e (w.stage o)
          × ((i : ℕ) → i ≢ o → Guest (w.stage o) (fingerprint o) (fingerprint i) (w.stage i)))

  -- the stages that a step of `i` leaves
  at : (stage : ℕ → Stage B) (i : ℕ) (p : Stage B) → update_stage stage i p i ≡ p
  at stage i p = ground arith

  beside :
      (stage : ℕ → Stage B) (i j : ℕ) (p : Stage B) → j ≢ i → update_stage stage i p j ≡ stage j
  beside stage i j p h = ground arith

  first-Inv :
      (w : World T key endpoint fingerprint) (i : ℕ) {db' : Db} {p' : Stage B}
      → Advance T key endpoint fingerprint i w.db (w.stage i) db' p'
      → row key w.db ≡ none
      → ((j : ℕ) → IsFresh (w.stage j))
      → Inv (record { db = db'; stage = update_stage w.stage i p' })
  first-Inv w i {p' = p'} mv r fresh = elim (first_step T key endpoint fingerprint mv r (fresh i)) [
    | inl (r', f) ↦ inl (
      r',
      λ j. elim (Bool-cases (j == i)) [
        | inl same ↦ rw (same, update_stage) f
        | inr other ↦ rw (other, update_stage) (fresh j)
      ],
    )
    | inr (e, r', hash, is, h) ↦ inr (
      i,
      e,
      r',
      hash,
      subst (Served e) (sym (at w.stage i p')) h,
      λ j ne.
          subst (Guest _ (fingerprint i) (fingerprint j)) (sym (beside w.stage i j p' ne))
            (Fresh-Guest _ (fingerprint i) (fingerprint j) (w.stage j) (fresh j)),
    )
  ]

  Served-Inv :
      (w : World T key endpoint fingerprint) (i : ℕ) {db' : Db} {p' : Stage B}
      → Advance T key endpoint fingerprint i w.db (w.stage i) db' p'
      → IsCalm p'
      → (e : IdempotencyKeyEntity B) → row key w.db ≡ some e
      → e.request_hash ≡ fingerprint i
      → Served e (w.stage i)
      → ((j : ℕ) → j ≢ i → Guest (w.stage i) (fingerprint i) (fingerprint j) (w.stage j))
      → Inv (record { db = db'; stage = update_stage w.stage i p' })
  Served-Inv w i {p' = p'} mv calm e r hash h guests =
      let (unanswered, (e', r', hash', h')) = own_step T key endpoint fingerprint e mv calm r h in
      inr (
        i,
        e',
        r',
        hash' ∙ hash,
        subst (Served e') (sym (at w.stage i p')) h',
        λ j ne. subst (Guest _ (fingerprint i) (fingerprint j)) (sym (beside w.stage i j p' ne)) (
            Served-Guest (w.stage i) _ (fingerprint i) (fingerprint j) (w.stage j) unanswered
              (guests j ne)),
      )

  Guest-Inv :
      (w : World T key endpoint fingerprint) (i o : ℕ) {db' : Db} {p' : Stage B}
      → Advance T key endpoint fingerprint i w.db (w.stage i) db' p'
      → o ≢ i
      → (e : IdempotencyKeyEntity B) → row key w.db ≡ some e
      → e.request_hash ≡ fingerprint o
      → Served e (w.stage o)
      → ((j : ℕ) → j ≢ o → Guest (w.stage o) (fingerprint o) (fingerprint j) (w.stage j))
      → Inv (record { db = db'; stage = update_stage w.stage i p' })
  Guest-Inv w i o {p' = p'} mv ne e r hash h guests =
      let (r', g) =
        other_step T key endpoint fingerprint (w.stage o) (fingerprint o) e mv r hash h
          (guests i (λ q. ne (sym q))) in
      inr (
        o,
        e,
        r',
        hash,
        subst (Served e) (sym (beside w.stage i o p' ne)) h,
        λ j other.
            subst (λ q. Guest q (fingerprint o) (fingerprint j) (update_stage w.stage i p' j))
              (sym (beside w.stage i o p' ne))
              (elim (Bool-cases (j == i)) [
                | inl same ↦
                    rw (same, update_stage)
                      (subst (λ k. Guest (w.stage o) (fingerprint o) (fingerprint k) p')
                        (ground arith) g)
                | inr beside_it ↦ rw (beside_it, update_stage) (guests j other)
              ]),
      )

  Step-Inv :
      {v w : World T key endpoint fingerprint}
      → Step T key endpoint fingerprint v w
      → AllCalm w
      → Inv v
      → Inv w
  Step-Inv {v} (pick i mv) calm (inl (r, fresh)) = first-Inv v i mv r fresh
  Step-Inv {v} (pick i {p' = p'} mv) calm (inr (o, e, r, hash, h, guests)) =
      elim (Bool-cases (o == i)) [
        | inl same ↦
            let is : o ≡ i = ground (arith, same) in
            Served-Inv v i mv (subst IsCalm (at v.stage i p') (calm i)) e r
              (hash ∙ ap fingerprint is) (subst (λ k. Served e (v.stage k)) is h)
              (subst
                (λ k.
                  (j : ℕ) → j ≢ k → Guest (v.stage k) (fingerprint k) (fingerprint j) (v.stage j))
                is guests)
        | inr other ↦ Guest-Inv v i o mv (ground (arith, other)) e r hash h guests
      ]

  Step-AllCalm :
      {v w : World T key endpoint fingerprint}
      → Step T key endpoint fingerprint v w
      → AllCalm w
      → AllCalm v
  Step-AllCalm {v} (pick i {p' = p'} mv) calm j = elim (Bool-cases (j == i)) [
    | inl same ↦
        subst (λ k. IsCalm (v.stage k)) (ground (arith, same))
          (Advance-IsCalm mv (subst IsCalm (at v.stage i p') (calm i)))
    | inr other ↦ subst IsCalm (beside v.stage i j p' (ground (arith, other))) (calm j)
  ]

  Reach-Inv :
      {w : World T key endpoint fingerprint}
      → Reach T key endpoint fingerprint w
      → AllCalm w
      → Inv w
  Reach-Inv (here r) calm = inl (r, λ _. tt)
  Reach-Inv (next r st) calm = Step-Inv st calm (Reach-Inv r (Step-AllCalm st calm))

  Inv-unique :
      (w : World T key endpoint fingerprint) (o i : ℕ)
      → ((j : ℕ) → j ≢ o → Guest (w.stage o) (fingerprint o) (fingerprint j) (w.stage j))
      → IsServed (w.stage i)
      → i ≡ o
  Inv-unique w o i guests h = elim (Bool-cases (i == o)) [
    | inl same ↦ ground (arith, same)
    | inr other ↦ absurd (Guest-unserved _ _ _ (w.stage i) (guests i (ground (arith, other))) h)
  ]

  -- While no handler throws and the row of the key is not swept, the handler is called for at most
  -- one of the requests with the key, whatever their interleaving and whichever statements fail.
  pub handled_once :
      {w : World T key endpoint fingerprint}
      → Reach T key endpoint fingerprint w
      → AllCalm w
      → (i j : ℕ) → IsServed (w.stage i)
      → IsServed (w.stage j)
      → i ≡ j
  handled_once {w} r calm i j hi hj = elim (Reach-Inv r calm) [
    | inl (_, fresh) ↦ absurd (Fresh-unserved (w.stage i) (fresh i) hi)
    | inr (o, _, _, _, _, guests) ↦ Inv-unique w o i guests hi ∙ sym (Inv-unique w o j guests hj)
  ]

  -- While no handler throws and the row of the key is not swept, a replay is the answer that the
  -- handler gave to a request with the same fingerprint.
  pub replay_same :
      {w : World T key endpoint fingerprint}
      → Reach T key endpoint fingerprint w
      → AllCalm w
      → (i s : ℕ) (b : Option B) → w.stage i ≡ replayed s b
      → (o : ℕ) × (w.stage o ≡ answered s b) × (fingerprint i ≡ fingerprint o)
  replay_same {w} r calm i s b h = elim (Reach-Inv r calm) [
    | inl (_, fresh) ↦ absurd (subst IsFresh h (fresh i))
    | inr (o, e, _, _, served, guests) ↦ elim (Bool-cases (i == o)) [
      | inl same ↦
          absurd
            (subst (Served e) h (subst (λ k. Served e (w.stage k)) (ground (arith, same)) served))
      | inr other ↦
          let answer =
            subst (Guest (w.stage o) (fingerprint o) (fingerprint i)) h
              (guests i (ground (arith, other))) in
          (o, answer.0, answer.1)
    ]
  ]
