-- ===== src/Tests/ConfigTests.antt =====
-- Environments read by src/config/configuration.ts, and the theorems at them.
use overbook.Base.{
  ℕ, ◌≤◌, ◌^◌, ◌≡◌, refl, true, false, none, some, [], ◌∷◌, str_eq, if◌then◌else◌, arith,
}
use overbook.Failure.{ok, err}
use overbook.Config.Parse.{Doubles, pos, negate, bool, int}
use overbook.Config.Settings.{Environment, split_commas, configuration}
use overbook.Config.Numerals.{value}

abbrev whole_numbers : Doubles
whole_numbers = record {
  F = ℕ;
  of_int = λ n. n;
  parse_float = λ s. none;
  nearest = λ n. some n;
  nearest_exact = λ n h. refl;
}

abbrev env : Environment
env = λ name. if str_eq name "BOOKING_LOCK_STRATEGY" then some "Optimistic" else none

abbrev bad_env : Environment
bad_env = λ name. if str_eq name "BOOKING_LOCK_STRATEGY" then some "maybe" else none

flags :
    (bool (some "YES") false ≡ true) × (bool (some "0") true ≡ false) × (bool (some "") true ≡ true)
unfolding bool
flags = (refl, refl, refl)

numbers :
    (int whole_numbers (some " 12px") (pos 1) ≡ pos 12)
    × (int whole_numbers (some "many") (pos 1) ≡ pos 1)
    × (int whole_numbers (some "-3") (pos 1) ≡ negate 3)
unfolding int
numbers = (refl, refl, refl)

commas : split_commas "a:1,b:2,," ≡ "a:1" ∷ "b:2" ∷ "" ∷ "" ∷ []
commas = refl

refused_strategy :
    (elim (configuration whole_numbers "host" bad_env) [ ok c ↦ true | err e ↦ false ]) ≡ false
unfolding configuration
refused_strategy = refl

value_small : value (8 ∷ 0 ∷ 8 ∷ 0 ∷ []) ≤ 2 ^ 53
unfolding value
value_small = omega arith
