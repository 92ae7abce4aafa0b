-- ===== src/Idempotency/Stages.antt =====
-- Stages of a request, compared.
use overbook.Base.{ℕ, ◌≢◌, Option, String}
use overbook.Idempotency.Requests.{
  Stage, arrived, taken, handling, storing, releasing, answered, replayed, refused, withdrawn,
}
use overbook.Idempotency.Invariant.{IsServed, IsFresh, Guest}

module _ {B : Type 0} where
  pub Served-Guest :
      (served served' : Stage B) (hash own : String) (p : Stage B)
      → ((s : ℕ) (b : Option B) → served ≢ answered s b)
      → Guest served hash own p
      → Guest served' hash own p
  Served-Guest served served' hash own arrived h g = tt
  Served-Guest served served' hash own taken h g = tt
  Served-Guest served served' hash own (refused _) h g = tt
  Served-Guest served served' hash own (replayed s b) h g = absurd (h s b g.0)
  Served-Guest served served' hash own handling h g = absurd g
  Served-Guest served served' hash own (storing _ _) h g = absurd g
  Served-Guest served served' hash own (answered _ _) h g = absurd g
  Served-Guest served served' hash own (releasing _) h g = absurd g
  Served-Guest served served' hash own (withdrawn _) h g = absurd g

  pub Fresh-Guest :
      (served : Stage B) (hash own : String) (p : Stage B) → IsFresh p → Guest served hash own p
  Fresh-Guest served hash own arrived h = tt
  Fresh-Guest served hash own (refused _) h = tt
  Fresh-Guest served hash own taken h = absurd h
  Fresh-Guest served hash own handling h = absurd h
  Fresh-Guest served hash own (storing _ _) h = absurd h
  Fresh-Guest served hash own (answered _ _) h = absurd h
  Fresh-Guest served hash own (replayed _ _) h = absurd h
  Fresh-Guest served hash own (releasing _) h = absurd h
  Fresh-Guest served hash own (withdrawn _) h = absurd h

  pub Guest-unserved :
      (served : Stage B) (hash own : String) (p : Stage B)
      → Guest served hash own p
      → IsServed p
      → ⊥
  Guest-unserved served hash own arrived g h = h
  Guest-unserved served hash own taken g h = h
  Guest-unserved served hash own (refused _) g h = h
  Guest-unserved served hash own (replayed s b) g h = h
  Guest-unserved served hash own handling g h = g
  Guest-unserved served hash own (storing _ _) g h = g
  Guest-unserved served hash own (answered _ _) g h = g
  Guest-unserved served hash own (releasing _) g h = g
  Guest-unserved served hash own (withdrawn _) g h = g

  pub Fresh-unserved : (p : Stage B) → IsFresh p → IsServed p → ⊥
  Fresh-unserved arrived f h = h
  Fresh-unserved taken f h = f
  Fresh-unserved (refused _) f h = h
  Fresh-unserved (replayed s b) f h = f
  Fresh-unserved handling f h = f
  Fresh-unserved (storing _ _) f h = f
  Fresh-unserved (answered _ _) f h = f
  Fresh-unserved (releasing _) f h = f
  Fresh-unserved (withdrawn _) f h = f
