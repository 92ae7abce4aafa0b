-- ===== src/Seats/Safety.antt =====
-- The pessimistic and the optimistic strategy, in any mix (src/bookings/bookings.service.ts).
use overbook.Base.{ℕ, ◌+◌, ◌≤◌, ◌<◌, ◌≡◌, ◌≢◌, inl, inr, some, arith, Bool-cases, ◌==◌, subst}
use overbook.Entities.{EventEntity}
use overbook.Booking.Types.{BookingLockStrategy, optimistic}
use overbook.Booking.Decrement.{unchanged_since, subtract_and_bump}
use overbook.Seats.Store.{RowStore}
use overbook.Seats.System.{
  Request, Pc, seen, taken, booked, begun, done, refused, update_pc, System, Step, pick, start,
  Reach, here, next,
}
use overbook.Seats.Invariant.{Seen, Local, Frame-Local}
use overbook.Seats.Moves.{Move-Kept}

-- No request uses the strategy that is broken on purpose.
abbrev pub Safe : (ℕ → Request) → Type 0
Safe requests = (i : ℕ) → (requests i).strategy ≢ BookingLockStrategy.none

-- The seats of a transaction are written, and it has not ended.
abbrev pub IsHolding : Pc → Type 0
IsHolding taken = Unit {0}
IsHolding booked = Unit {0}
IsHolding _ = ⊥

module _ (R : RowStore) (requests : ℕ → Request) (event : EventEntity) where
  open R use {committed, owner}

  abbrev Inv : System R → Type 0
  Inv a =
      (a.sold + (committed a.store).available_seats ≡ event.available_seats)
      × ((i : ℕ) → Local R (requests i) i a.store (a.pc i))

  start-Inv : Inv (start R requests event)
  start-Inv = let (c, o) = R.init_law event in (rw c (omega arith), λ i. ground arith)

  Step-Inv : Safe requests → {a b : System R} → Step R requests a b → Inv a → Inv b
  Step-Inv safe {a} (pick i {s' = s'} {p' = p'} mv) (balance, local) =
      let (mine, frame, balance') =
        Move-Kept R (requests i) i event.available_seats (safe i) mv (local i) balance in
      (
        balance',
        λ j. elim (Bool-cases (j == i)) [
          | inl same ↦
              rw (same, update_pc) (subst (λ k. Local R (requests k) k s' p') (ground arith) mine)
          | inr other ↦
              rw (other, update_pc)
                (Frame-Local R (requests j) (a.pc j) i j a.store s' (ground arith) frame (local j))
        ],
      )

  pub Reach-Inv : Safe requests → {a : System R} → Reach R requests event a → Inv a
  Reach-Inv safe here = start-Inv
  Reach-Inv safe (next r st) = Step-Inv safe st (Reach-Inv safe r)

  -- Whatever the interleaving, the committed bookings never exceed the seats that were for sale, and
  -- the counter is exactly what is left.
  pub never_oversold :
      Safe requests
      → {a : System R} → Reach R requests event a
      → (a.sold ≤ event.available_seats)
        × ((committed a.store).available_seats + a.sold ≡ event.available_seats)
  never_oversold safe r =
      let (balance, _) = Reach-Inv safe r in (omega (arith, balance), omega (arith, balance))

  holder-owner :
      (r : Request) (p : Pc) (i : ℕ) (s : R.St) → IsHolding p → Local R r i s p → owner s ≡ some i
  holder-owner r taken i s h l = l.0
  holder-owner r booked i s h l = l.0
  holder-owner r (begun n) i s h l = absurd h
  holder-owner r (seen n row) i s h l = absurd h
  holder-owner r done i s h l = absurd h
  holder-owner r refused i s h l = absurd h

  -- No two transactions have seats written and not committed at the same time.
  one_holder :
      Safe requests
      → {a : System R} → Reach R requests event a
      → (i j : ℕ) → IsHolding (a.pc i)
      → IsHolding (a.pc j)
      → i ≡ j
  one_holder safe {a} r i j hi hj =
      let (_, local) = Reach-Inv safe r in
      let own_i = holder-owner (requests i) (a.pc i) i a.store hi (local i) in
      let own_j = holder-owner (requests j) (a.pc j) j a.store hj (local j) in cc

  -- The compare-and-set of the optimistic loop loses only to another booking that has committed since
  -- the row was read.
  pub cas_lost_to_commit :
      Safe requests
      → {a : System R} → Reach R requests event a
      → (i n : ℕ) (row : EventEntity) (s' : R.St) → (requests i).strategy ≡ optimistic
      → a.pc i ≡ seen n row
      → (requests i).quantity ≤ row.available_seats
      → R.update i
          (unchanged_since row (requests i).quantity)
          (subtract_and_bump (requests i).quantity)
          a.store
        ≡ some (0, s')
      → row.version < (committed a.store).version
  cas_lost_to_commit safe {a} r i n row s' opt at enough e =
      let (_, local) = Reach-Inv safe r in
      let at_seen : Seen R (requests i).strategy i a.store row =
        subst (λ p. Local R (requests i) i a.store p) at (local i) in
      let (free, older, same) = subst (λ st. Seen R st i a.store row) opt at_seen in
      let test = unchanged_since row (requests i).quantity in
      let put = subtract_and_bump (requests i).quantity in
      let (_, _, hit) = R.update_free i test put a.store s' 0 free e in ground (arith, same)
