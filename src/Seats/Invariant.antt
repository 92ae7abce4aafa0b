-- ===== src/Seats/Invariant.antt =====
-- What each request knows of the row, and that the statements of the others keep it so.
use overbook.Base.{ℕ, ◌+◌, ◌≤◌, ◌≡◌, ◌≢◌, ◌⊎◌, none, some, arith}
use overbook.Entities.{EventEntity}
use overbook.Booking.Types.{BookingLockStrategy, pessimistic, optimistic}
use overbook.Seats.Store.{RowStore}
use overbook.Seats.System.{Request, Pc, begun, seen, taken, booked, done, refused}

module _ (R : RowStore) where
  open R use {St, committed, owner, pending}

  -- A row that was read: under the lock it is the committed one; without it, it is no newer, and
  -- where the versions agree so do the seats.
  abbrev pub Seen : BookingLockStrategy → ℕ → St → EventEntity → Type 0
  Seen pessimistic i s row = (owner s ≡ some i) × (pending s ≡ committed s) × (row ≡ committed s)
  Seen optimistic i s row =
      (owner s ≢ some i)
      × (row.version ≤ (committed s).version)
      × (row.version ≡ (committed s).version → row.available_seats ≡ (committed s).available_seats)
  Seen BookingLockStrategy.none i s row = owner s ≢ some i

  -- The seats are taken, and not yet committed.
  abbrev pub Taken : ℕ → ℕ → St → Type 0
  Taken quantity i s =
      (owner s ≡ some i)
      × ((pending s).available_seats + quantity ≡ (committed s).available_seats)
      × ((pending s).version ≡ (committed s).version + 1)

  abbrev pub Local : Request → ℕ → St → Pc → Type 0
  Local r i s (begun n) = owner s ≢ some i
  Local r i s (seen n row) = Seen r.strategy i s row
  Local r i s taken = Taken r.quantity i s
  Local r i s booked = Taken r.quantity i s
  Local r i s done = owner s ≢ some i
  Local r i s refused = owner s ≢ some i

  -- What a statement of `i` may change: nothing; or the lock, which is free or its own before and
  -- after, and with it the committed row, which then has a higher version.
  abbrev pub Frame : ℕ → St → St → Type 0
  Frame i s s' =
      ((committed s' ≡ committed s) × (owner s' ≡ owner s) × (pending s' ≡ pending s))
      ⊎ (((owner s ≡ none) ⊎ (owner s ≡ some i))
          × ((owner s' ≡ none) ⊎ (owner s' ≡ some i))
          × ((committed s' ≡ committed s) ⊎ ((committed s').version ≡ (committed s).version + 1)))

  Frame-ne : (i j : ℕ) (s s' : St) → j ≢ i → Frame i s s' → owner s ≢ some j → owner s' ≢ some j
  Frame-ne i j s s' ne f h = ground arith

  Frame-Seen :
      (strategy : BookingLockStrategy) (row : EventEntity) (i j : ℕ) (s s' : St)
      → j ≢ i
      → Frame i s s'
      → Seen strategy j s row
      → Seen strategy j s' row
  Frame-Seen pessimistic row i j s s' ne f h = ground arith
  Frame-Seen optimistic row i j s s' ne f h =
      (Frame-ne i j s s' ne f h.0, ground (arith, h.1), λ e. ground (arith, h.1, h.2))
  Frame-Seen BookingLockStrategy.none row i j s s' ne f h = Frame-ne i j s s' ne f h

  pub Frame-Local :
      (r : Request) (p : Pc) (i j : ℕ) (s s' : St)
      → j ≢ i
      → Frame i s s'
      → Local r j s p
      → Local r j s' p
  Frame-Local r (begun n) i j s s' ne f h = Frame-ne i j s s' ne f h
  Frame-Local r (seen n row) i j s s' ne f h = Frame-Seen r.strategy row i j s s' ne f h
  Frame-Local r taken i j s s' ne f h = ground arith
  Frame-Local r booked i j s s' ne f h = ground arith
  Frame-Local r done i j s s' ne f h = Frame-ne i j s s' ne f h
  Frame-Local r refused i j s s' ne f h = Frame-ne i j s s' ne f h
