-- ===== src/Config/Strategy.antt =====
-- The one setting that is checked (`lockStrategy` of src/config/configuration.ts).
use overbook.Base.{◌≡◌, refl, ◌⊎◌, inl, inr, true, false, Option, String, Bool-cases}
use overbook.Failure.{Failure, ok, err}
use overbook.Booking.Types.{BookingLockStrategy}
use overbook.Config.Parse.{Doubles, lower_is, lock_strategy, or_fallback, unknown_strategy}
use overbook.Config.Settings.{Environment, AppConfiguration, with_strategy, configuration}

abbrev pub word : BookingLockStrategy → String
word BookingLockStrategy.none = "none"
word BookingLockStrategy.pessimistic = "pessimistic"
word BookingLockStrategy.optimistic = "optimistic"

-- The value, or the one that stands for a missing value, is the strategy's name in some case.
abbrev pub Names : Option String → BookingLockStrategy → Type 0
Names value s = lower_is (or_fallback value "pessimistic") (word s) ≡ true

abbrev Answers : Option String → Type 0
Answers value =
    ((s : BookingLockStrategy) × (lock_strategy value ≡ ok s) × Names value s)
    ⊎ ((e : Failure) × (lock_strategy value ≡ err e)
        × ((s : BookingLockStrategy) → ¬ (Names value s)))

answers : (value : Option String) → Answers value
unfolding lock_strategy
answers value =
    let chosen = or_fallback value "pessimistic" in
    elim (Bool-cases (lower_is chosen "none")) [
      | inl n ↦ inl (BookingLockStrategy.none, rw n refl, n)
      | inr n ↦ elim (Bool-cases (lower_is chosen "pessimistic")) [
        | inl p ↦ inl (BookingLockStrategy.pessimistic, rw (n, p) refl, p)
        | inr p ↦ elim (Bool-cases (lower_is chosen "optimistic")) [
          | inl o ↦ inl (BookingLockStrategy.optimistic, rw (n, p, o) refl, o)
          | inr o ↦ inr (unknown_strategy chosen, rw (n, p, o) refl, refused chosen n p o)
        ]
      ]
    ]
  where
    refused :
        (chosen : String)
        → lower_is chosen "none" ≡ false
        → lower_is chosen "pessimistic" ≡ false
        → lower_is chosen "optimistic" ≡ false
        → (s : BookingLockStrategy) → ¬ (lower_is chosen (word s) ≡ true)
    refused chosen n p o BookingLockStrategy.none h = cc (n, h)
    refused chosen n p o BookingLockStrategy.pessimistic h = cc (p, h)
    refused chosen n p o BookingLockStrategy.optimistic h = cc (o, h)

-- The configuration holds the strategy that the environment names, and where it names none, which
-- a missing value does not do, the call throws.
configuration_lem :
    (N : Doubles) (hostname : String) (env : Environment)
    → ((c : AppConfiguration N.F) × (configuration N hostname env ≡ ok c)
        × Names (env "BOOKING_LOCK_STRATEGY") c.booking.lock_strategy)
      ⊎ ((e : Failure) × (configuration N hostname env ≡ err e)
          × ((s : BookingLockStrategy) → ¬ (Names (env "BOOKING_LOCK_STRATEGY") s)))
unfolding configuration with_strategy
configuration_lem N hostname env = elim (answers (env "BOOKING_LOCK_STRATEGY")) [
  | inl (s, run, named) ↦ inl (with_strategy N hostname env s, rw (configuration, run) refl, named)
  | inr (e, run, unnamed) ↦ inr (e, rw (configuration, run) refl, unnamed)
]
