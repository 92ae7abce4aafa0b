-- ===== src/Tests/SampleRow.antt =====
-- One row with its lock, in memory: a row store that meets the interface.
use overbook.Base.{
  ℕ, ◌≡◌, refl, ◌≢◌, ◌⊎◌, Bool, true, false, Option, none, some, arith, ◌==◌, if◌then◌else◌,
}
use overbook.Entities.{EventEntity}
use overbook.Seats.Store.{RowStore, SameSeats}

pub record Row : Type 0 where
  pub committed : EventEntity
  pub owner : Option ℕ
  pub pending : EventEntity

abbrev pub holds : ℕ → Row → Bool
holds i s = elim s.owner [ none ↦ false | some j ↦ j == i ]

abbrev pub view : ℕ → Row → EventEntity
view i s = if holds i s then s.pending else s.committed

abbrev pub lock_row : ℕ → Row → Option (EventEntity × Row)
lock_row i s = elim s.owner [
  | none ↦ some (s.committed, record s { owner = some i; pending = s.committed })
  | some j ↦ if j == i then some (s.pending, s) else none
]

abbrev pub update_row :
    ℕ → (EventEntity → Bool) → (EventEntity → EventEntity) → Row → Option (ℕ × Row)
update_row i test put s = elim s.owner [
  | none ↦
      if test s.committed
      then some (1, record s { owner = some i; pending = put s.committed })
      else some (0, s)
  | some j ↦
      if j == i
      then (if test s.pending then some (1, record s { pending = put s.pending }) else some (0, s))
      else none
]

abbrev pub commit_row : ℕ → Row → Row
commit_row i s = if holds i s then record s { committed = s.pending; owner = none } else s

abbrev pub rollback_row : ℕ → Row → Row
rollback_row i s = if holds i s then record s { owner = none } else s

pub view-free : (i : ℕ) (s : Row) → s.owner ≢ some i → view i s ≡ s.committed
view-free i s h = ground arith

pub lock_row_lem :
    (i : ℕ) (s s' : Row) (row : EventEntity)
    → s.owner ≢ some i
    → lock_row i s ≡ some (row, s')
    → (s.owner ≡ none)
      × (s'.owner ≡ some i)
      × (s'.committed ≡ s.committed)
      × (s'.pending ≡ s.committed)
      × (row ≡ s.committed)
lock_row_lem i s s' row h e = ground arith

pub update_row_held :
    (i : ℕ) (test : EventEntity → Bool) (put : EventEntity → EventEntity) (s s' : Row) (n : ℕ)
    → s.owner ≡ some i
    → test s.pending ≡ true
    → update_row i test put s ≡ some (n, s')
    → (n ≡ 1)
      × (s'.owner ≡ some i)
      × (s'.committed ≡ s.committed)
      × SameSeats s'.pending (put s.pending)
update_row_held i test put s s' n h t e = ground arith

pub update_row_free :
    (i : ℕ) (test : EventEntity → Bool) (put : EventEntity → EventEntity) (s s' : Row) (n : ℕ)
    → s.owner ≢ some i
    → update_row i test put s ≡ some (n, s')
    → (s.owner ≡ none)
      × (s'.committed ≡ s.committed)
      × (((test s.committed ≡ true)
            × (n ≡ 1)
            × (s'.owner ≡ some i)
            × SameSeats s'.pending (put s.committed))
          ⊎ ((test s.committed ≡ false) × (n ≡ 0) × (s'.owner ≡ none)))
update_row_free i test put s s' n h e = ground arith

pub commit_row_lem :
    (i : ℕ) (s : Row)
    → s.owner ≡ some i
    → ((commit_row i s).committed ≡ s.pending) × ((commit_row i s).owner ≡ none)
commit_row_lem i s h = ground arith

pub rollback_row_held :
    (i : ℕ) (s : Row)
    → s.owner ≡ some i
    → ((rollback_row i s).committed ≡ s.committed) × ((rollback_row i s).owner ≡ none)
rollback_row_held i s h = ground arith

pub rollback_row_free :
    (i : ℕ) (s : Row)
    → s.owner ≢ some i
    → ((rollback_row i s).committed ≡ s.committed)
      × ((rollback_row i s).owner ≡ s.owner)
      × ((rollback_row i s).pending ≡ s.pending)
rollback_row_free i s h = ground arith

abbrev pub sample_row : RowStore
sample_row = record {
  St = Row;
  init = λ e. record { committed = e; owner = none; pending = e };
  committed = λ s. s.committed;
  owner = λ s. s.owner;
  pending = λ s. s.pending;
  read = view;
  lock = lock_row;
  update = update_row;
  commit = commit_row;
  rollback = rollback_row;
  init_law = λ e. (refl, refl);
  read_law = view-free;
  lock_law = lock_row_lem;
  update_held = update_row_held;
  update_free = update_row_free;
  commit_law = commit_row_lem;
  rollback_held = rollback_row_held;
  rollback_free = rollback_row_free;
}
