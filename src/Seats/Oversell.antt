-- ===== src/Seats/Oversell.antt =====
-- The strategy `none` (src/bookings/bookings.service.ts).
use native.Mathlib.Numerals.{add-one}
use overbook.Base.{
  ℕ, ◌+◌, ◌-◌, ◌≤◌, ◌≡◌, refl, ap, sym, ◌≢◌, inl, inr, Bool, some, none, arith, subst,
}
use overbook.Entities.{EventEntity}
use overbook.Booking.Types.{BookingLockStrategy}
use overbook.Booking.Decrement.{any_row, write_seats}
use overbook.Seats.Store.{RowStore}
use overbook.Seats.System.{
  Request, Pc, begun, seen, taken, booked, update_pc, System, Move, plain_read, naive_write,
  insert_booking, commits, pick, start, Reach, here, next,
}

-- An UPDATE of a row that nobody holds does not wait.
abbrev pub IsResponsive : RowStore → Type 0
IsResponsive R =
    (i : ℕ) (test : EventEntity → Bool) (put : EventEntity → EventEntity) (s : R.St)
    → R.owner s ≡ none
    → (n : ℕ) × (s' : R.St) × (R.update i test put s ≡ some (n, s'))

module _ (R : RowStore) (requests : ℕ → Request) (event : EventEntity) where
  open R use {St, committed, owner}

  advance :
      {a : System R} (i : ℕ) {p p' : Pc} {s' : St} {sold' : ℕ}
      → Reach R requests event a
      → a.pc i ≡ p
      → Move R (requests i) i a.store a.sold p s' sold' p'
      → Reach R requests event (record { store = s'; sold = sold'; pc = update_pc a.pc i p' })
  advance {a} i {p' = p'} {s' = s'} {sold' = sold'} r at mv =
      next r (pick i (subst (λ q. Move R (requests i) i a.store a.sold q s' sold' p') (sym at) mv))

  update_pc_self : (pc : ℕ → Pc) (i : ℕ) (p : Pc) → update_pc pc i p i ≡ p
  update_pc_self pc i p = ground arith

  -- A naive request that has read `row` writes its own difference over whatever is there by now.
  abbrev Overwrites : System R → ℕ → EventEntity → Type 0
  Overwrites a i row =
      (b : System R) × Reach R requests event b
      × (b.sold ≡ a.sold + (requests i).quantity)
      × (owner b.store ≡ none)
      × ((committed b.store).available_seats + (requests i).quantity ≡ row.available_seats)
      × ((j : ℕ) → j ≢ i → b.pc j ≡ a.pc j)

  overwrite :
      IsResponsive R
      → (a : System R) (i n : ℕ) (row : EventEntity) → Reach R requests event a
      → (requests i).strategy ≡ BookingLockStrategy.none
      → a.pc i ≡ seen n row
      → (requests i).quantity ≤ row.available_seats
      → owner a.store ≡ none
      → Overwrites a i row
  overwrite responsive a i n row r naive at enough free =
      let q = (requests i).quantity in
      let put = write_seats (row.available_seats - q) in
      let (k, s₁, e) = responsive i any_row put a.store free in
      let (_, c₁, hit) = R.update_free i any_row put a.store s₁ k (ground arith) e in
      elim hit [
        | inr (missed, _, _) ↦ absurd (cc)
        | inl (_, _, own, same) ↦
            let (c₂, o₂) = R.commit_law i s₁ own in
            let r₁ = advance i r at (naive_write naive enough e) in
            let r₂ = advance i r₁ (update_pc_self a.pc i taken) insert_booking in
            let r₃ = advance i r₂ (update_pc_self (update_pc a.pc i taken) i booked) commits in
            (_, r₃, refl, o₂, rw c₂ (omega (arith, same.0, enough)), λ j ne. ground arith)
      ]

  -- If each of two naive requests fits by itself, there is an interleaving in which both are
  -- confirmed; the counter then shows what the second one left of what it had read.
  pub naive_oversells :
      IsResponsive R
      → (requests 0).strategy ≡ BookingLockStrategy.none
      → (requests 1).strategy ≡ BookingLockStrategy.none
      → (requests 0).quantity ≤ event.available_seats
      → (requests 1).quantity ≤ event.available_seats
      → (a : System R) × Reach R requests event a
        × (a.sold ≡ (requests 0).quantity + (requests 1).quantity)
        × ((committed a.store).available_seats + (requests 1).quantity ≡ event.available_seats)
  naive_oversells responsive n₀ n₁ f₀ f₁ =
      let s = R.init event in
      let (c, o) = R.init_law event in
      let same = λ (i : ℕ). R.read_law i s (ground arith) in
      let r₀ : Reach R requests event (start R requests event) = here in
      let r₁ = advance 0 r₀ (ap begun (add-one (requests 0).max_retries)) (plain_read (λ e. cc)) in
      let r₂ = advance 1 r₁ (ap begun (add-one (requests 1).max_retries)) (plain_read (λ e. cc)) in
      let (a, r₃, sold₁, o₁, _, others) =
        overwrite responsive _ 0 (requests 0).max_retries (R.read 0 s) r₂ n₀ refl
          (rw (same 0, c) f₀) o in
      let (b, r₄, sold₂, _, left, _) =
        overwrite responsive a 1 (requests 1).max_retries (R.read 1 s) r₃ n₁
          (others 1 (omega arith)) (rw (same 1, c) f₁) o₁ in
      (b, r₄, omega (arith, sold₁, sold₂), ground (arith, same 1))
