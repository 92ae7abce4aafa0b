-- ===== src/Seats/Moves.antt =====
-- Every statement of a safe request keeps what it knows, and the balance of seats.
use overbook.Base.{
  ℕ, ◌+◌, ◌-◌, ◌≤◌, ◌≡◌, refl, sym, ◌∙◌, ◌≢◌, ◌⊎◌, inl, inr, Option, none, some, arith, Bool-cases,
  ◌==◌, subst,
}
use overbook.Entities.{EventEntity}
use overbook.Booking.Types.{BookingLockStrategy, pessimistic, optimistic}
use overbook.Booking.Decrement.{any_row, write_seats_and_bump, unchanged_since, subtract_and_bump}
use overbook.Seats.Store.{RowStore}
use overbook.Seats.System.{
  Request, Pc, begun, taken, refused, Move, plain_read, locked_read, out_of_rounds, too_few,
  naive_write, pessimistic_write, cas_won, cas_lost, insert_booking, commits, fails,
}
use overbook.Seats.Invariant.{Seen, Local, Frame}

module _ (R : RowStore) where
  open R use {St, committed, owner, pending}

  -- What one statement leaves behind.
  abbrev Kept : Request → ℕ → ℕ → St → St → ℕ → Pc → Type 0
  Kept r i total s s' sold' p' =
      Local R r i s' p' × Frame R i s s' × (sold' + (committed s').available_seats ≡ total)

  owned_or_not : (o : Option ℕ) (i : ℕ) → (o ≡ some i) ⊎ (o ≢ some i)
  owned_or_not none i = inr (ground arith)
  owned_or_not (some j) i = elim (Bool-cases (j == i)) [
    | inl e ↦ inl (ground arith)
    | inr ne ↦ inr (ground arith)
  ]

  rollback-Kept :
      (r : Request) (i total sold : ℕ) (s : St)
      → sold + (committed s).available_seats ≡ total
      → Kept r i total s (R.rollback i s) sold refused
  rollback-Kept r i total sold s b = elim (owned_or_not (owner s) i) [
    | inl own ↦
        let (c, o) = R.rollback_held i s own in (ground arith, inr (inr own, inl o, inl c), rw c b)
    | inr free ↦ let (c, o, p) = R.rollback_free i s free in (rw o free, inl (c, o, p), rw c b)
  ]

  plain_read-Seen :
      (strategy : BookingLockStrategy) (i : ℕ) (s : St)
      → strategy ≢ pessimistic
      → owner s ≢ some i
      → Seen R strategy i s (R.read i s)
  plain_read-Seen pessimistic i s ne h = absurd (ne refl)
  plain_read-Seen optimistic i s ne h = rw (R.read_law i s h) (h, omega arith, λ _. refl)
  plain_read-Seen BookingLockStrategy.none i s ne h = h

  pessimistic_write-Kept :
      (r : Request) (i total sold k : ℕ) (row : EventEntity) (s s' : St)
      → Seen R pessimistic i s row
      → r.quantity ≤ row.available_seats
      → R.update i any_row (write_seats_and_bump (row.available_seats - r.quantity)) s
        ≡ some (k, s')
      → sold + (committed s).available_seats ≡ total
      → Kept r i total s s' sold taken
  pessimistic_write-Kept r i total sold k row s s' (own, p, same) enough e b =
      let (_, own', c, put) = R.update_held i any_row _ s s' k own refl e in
      ((own', ground arith, ground arith), inr (inr own, inr own', inl c), rw c b)

  cas_won-Kept :
      (r : Request) (i total sold : ℕ) (row : EventEntity) (s s' : St)
      → Seen R optimistic i s row
      → r.quantity ≤ row.available_seats
      → R.update i (unchanged_since row r.quantity) (subtract_and_bump r.quantity) s ≡ some (1, s')
      → sold + (committed s).available_seats ≡ total
      → Kept r i total s s' sold taken
  cas_won-Kept r i total sold row s s' (free, older, same) enough e b =
      let test = unchanged_since row r.quantity in
      let (o, c, hit) = R.update_free i test (subtract_and_bump r.quantity) s s' 1 free e in
      elim hit [
        | inl (held, _, own', put) ↦
            ((own', ground arith, ground arith), inr (inl o, inr own', inl c), rw c b)
        | inr (_, none_hit, _) ↦ absurd (omega arith)
      ]

  cas_lost-Kept :
      (r : Request) (i total sold n : ℕ) (row : EventEntity) (s s' : St)
      → Seen R optimistic i s row
      → R.update i (unchanged_since row r.quantity) (subtract_and_bump r.quantity) s ≡ some (0, s')
      → sold + (committed s).available_seats ≡ total
      → Kept r i total s s' sold (begun n)
  cas_lost-Kept r i total sold n row s s' (free, older, same) e b =
      let (o, c, hit) =
        R.update_free i (unchanged_since row r.quantity) (subtract_and_bump r.quantity) s s' 0 free
          e in
      elim hit [
        | inl (_, one, _, _) ↦ absurd (omega arith)
        | inr (_, _, o') ↦ (ground arith, inr (inl o, inl o', inl c), rw c b)
      ]

  pub Move-Kept :
      (r : Request) (i total : ℕ) {s s' : St} {sold sold' : ℕ} {p p' : Pc}
      → r.strategy ≢ BookingLockStrategy.none
      → Move R r i s sold p s' sold' p'
      → Local R r i s p
      → sold + (committed s).available_seats ≡ total
      → Kept r i total s s' sold' p'
  Move-Kept r i total {s} safe (plain_read other) h b =
      (plain_read-Seen r.strategy i s other h, inl (refl, refl, refl), b)
  Move-Kept r i total {s} {s'} safe (locked_read {row = row} same e) h b =
      let (o, own, c, p, q) = R.lock_law i s s' row h e in
      (
        subst (λ st. Seen R st i s' row) (sym same) (own, p ∙ sym c, q ∙ sym c),
        inr (inl o, inr own, inl c),
        rw c b,
      )
  Move-Kept r i total {s} safe out_of_rounds h b = rollback-Kept r i total _ s b
  Move-Kept r i total {s} safe (too_few short) h b = rollback-Kept r i total _ s b
  Move-Kept r i total {s} safe (naive_write naive enough e) h b = absurd (safe naive)
  Move-Kept r i total {s} {s'} safe (pessimistic_write {k = k} {row = row} same enough e) h b =
      pessimistic_write-Kept r i total _ k row s s' (subst (λ st. Seen R st i s row) same h) enough
        e b
  Move-Kept r i total {s} {s'} safe (cas_won {row = row} same enough e) h b =
      cas_won-Kept r i total _ row s s' (subst (λ st. Seen R st i s row) same h) enough e b
  Move-Kept r i total {s} {s'} safe (cas_lost {n = n} {row = row} same enough e) h b =
      cas_lost-Kept r i total _ n row s s' (subst (λ st. Seen R st i s row) same h) e b
  Move-Kept r i total {s} safe insert_booking h b = (h, inl (refl, refl, refl), b)
  Move-Kept r i total {s} safe commits h b =
      let (c, o) = R.commit_law i s h.0 in
      (ground arith, inr (inr h.0, inl o, inr (ground arith)), rw c (omega (arith, h.1, b)))
  Move-Kept r i total {s} safe (fails nd nr) h b = rollback-Kept r i total _ s b
