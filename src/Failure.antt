-- ===== src/Failure.antt =====
-- The exceptions that the handlers throw, and a result that carries one. The classes are those of
-- @nestjs/common that the source names; `failed` stands for every other Error.
use overbook.Base.{ℕ, ◌≡◌, refl, ◌⊎◌, inl, inr, Option, none, some, String, Bool, true, false}

pub data Failure : Type 0 where
  -- `${kind} ${id} not found`
  not_found : String → String → Failure
  conflict : String → Failure
  unprocessable : String → Failure
  too_many_requests : ℕ → Failure
  unavailable : String → Failure
  failed : String → Failure

-- `error instanceof ConflictException`
abbrev pub is_conflict : Failure → Bool
is_conflict (conflict _) = true
is_conflict _ = false

pub data Result {ℓ} (A : Type ℓ) : Type ℓ where
  ok : A → Result A
  err : Failure → Result A

-- A call that changes a state and may throw. The state comes back after a throw too.
abbrev pub Action : Type 0 → Type 0 → Type 0
Action S A = S → Result A × S

module _ {S : Type 0} where
  abbrev pub pure : {A : Type 0} → A → Action S A
  pure a s = (ok a, s)

  abbrev pub throw : {A : Type 0} → Failure → Action S A
  throw e s = (err e, s)

  infixl 5 ◌>>=◌ ◌>>◌
  abbrev pub ◌>>=◌ : {A B : Type 0} → Action S A → (A → Action S B) → Action S B
  ◌>>=◌ m f s = let (r, s') = m s in elim r [ ok a ↦ f a s' | err e ↦ throw e s' ]

  abbrev pub ◌>>◌ : {B : Type 0} → Action S (Unit {0}) → Action S B → Action S B
  m >> k = m >>= λ _. k

  -- `if (c) throw e`
  abbrev pub throw_if : Bool → Failure → Action S (Unit {0})
  throw_if true e = throw e
  throw_if false e = pure tt

  -- `if (!o) throw e`
  abbrev pub or_throw : {A : Type 0} → Option A → Failure → Action S A
  or_throw none e = throw e
  or_throw (some a) e = pure a

  -- `try { m } catch (e) { handler(e) }`
  abbrev pub catch : {A : Type 0} → Action S A → (Failure → Action S A) → Action S A
  catch m handler s = let (r, s') = m s in elim r [ ok a ↦ (ok a, s') | err e ↦ handler e s' ]

pub Result-cases {ℓ} :
    {A : Type ℓ} (r : Result A) → ((a : A) × (r ≡ ok a)) ⊎ ((x : Failure) × (r ≡ err x))
Result-cases (ok a) = inl (a, refl)
Result-cases (err x) = inr (x, refl)
