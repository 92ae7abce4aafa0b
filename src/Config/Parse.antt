-- ===== src/Config/Parse.antt =====
-- `bool`, `int`, `float` and `lockStrategy` (src/config/configuration.ts), on the characters' numbers
-- of a text. JavaScript's floating-point numbers are a parameter.
use overbook.Base.{
  ℕ, zero, suc, ◌+◌, ◌-◌, ◌*◌, ◌^◌, ◌≤◌, ◌≡◌, Bool, true, false, ◌&&◌, ◌||◌, ◌==◌, leb, Option,
  none, some, String, List, [], ◌∷◌, map, str_append, if◌then◌else◌,
}
use mathlib.Core.Option.{map as option_map}
use overbook.Failure.{Failure, failed, Result, ok, err}
use overbook.Booking.Types.{BookingLockStrategy}
use overbook.Trace.Resolve.{is_space}
use Prim.Native.Char.{code}

-- What is read of a floating-point number; `none` is a value that `Number.isFinite` refuses.
pub record Doubles : Type 1 where
  pub F : Type 0
  pub of_int : ℕ → F
  pub parse_float : String → Option F
  -- the number nearest to a whole one, which is the whole one up to 2 ^ 53
  pub nearest : ℕ → Option ℕ
  pub nearest_exact : (n : ℕ) → n ≤ 2 ^ 53 → nearest n ≡ some n

abbrev pub codes : String → List ℕ
codes String.[] = []
codes (String.◌∷◌ c s) = code c ∷ codes s

abbrev pub codes_eq : List ℕ → List ℕ → Bool
codes_eq [] [] = true
codes_eq [] (y ∷ ys) = false
codes_eq (x ∷ xs) [] = false
codes_eq (x ∷ xs) (y ∷ ys) = x == y && codes_eq xs ys

-- `toLowerCase` on ASCII. No other letter becomes one of the words below.
abbrev pub lower : ℕ → ℕ
lower c = if leb 65 c && leb c 90 then c + 32 else c

-- `value.toLowerCase() === word`
abbrev pub lower_is : String → String → Bool
lower_is value word = codes_eq (map lower (codes value)) (codes word)

unfoldable pub bool : Option String → Bool → Bool
bool none fallback = fallback
bool (some String.[]) fallback = fallback
bool (some (String.◌∷◌ c s)) fallback =
    let value = String.◌∷◌ c s in
    lower_is value "1" || lower_is value "true" || lower_is value "yes" || lower_is value "on"

pub data ℤ : Type 0 where
  pos : ℕ → ℤ
  negsuc : ℕ → ℤ

abbrev pub negate : ℕ → ℤ
negate zero = pos 0
negate (suc n) = negsuc n

abbrev pub is_digit : ℕ → Bool
is_digit c = leb 48 c && leb c 57

-- the number that the leading digits read, `n` before them
abbrev pub read_digits : ℕ → List ℕ → ℕ
read_digits n [] = n
read_digits n (c ∷ cs) =
    let more = read_digits (10 * n + (c - 48)) cs in if is_digit c then more else n

-- NaN without a digit
abbrev pub unsigned : List ℕ → Option ℕ
unsigned [] = none
unsigned (c ∷ cs) = if is_digit c then some (read_digits 0 (c ∷ cs)) else none

abbrev pub skip_spaces : List ℕ → List ℕ
skip_spaces [] = []
skip_spaces (c ∷ cs) = let rest = skip_spaces cs in if is_space c then rest else c ∷ cs

abbrev pub rounded : Doubles → Option ℕ → Option ℕ
rounded N none = none
rounded N (some n) = N.nearest n

abbrev pub signed : Doubles → List ℕ → Option ℤ
signed N [] = none
signed N (c ∷ cs) =
    if c == 45
    then option_map negate (rounded N (unsigned cs))
    else option_map pos (rounded N (unsigned (if c == 43 then cs else c ∷ cs)))

-- `Number.parseInt(text, 10)`, `none` where it is not finite
unfoldable pub parse_int : Doubles → List ℕ → Option ℤ
parse_int N cs = signed N (skip_spaces cs)

-- `value ?? ''`
abbrev pub or_blank : Option String → String
or_blank none = ""
or_blank (some s) = s

abbrev pub or_fallback {ℓ} : {A : Type ℓ} → Option A → A → A
or_fallback none fallback = fallback
or_fallback (some a) fallback = a

unfoldable pub int : Doubles → Option String → ℤ → ℤ
unfolding parse_int
int N value fallback = or_fallback (parse_int N (codes (or_blank value))) fallback

unfoldable pub float : (N : Doubles) → Option String → N.F → N.F
float N value fallback = or_fallback (N.parse_float (or_blank value)) fallback

abbrev pub unknown_strategy : String → Failure
unknown_strategy value = failed (
    str_append "BOOKING_LOCK_STRATEGY must be one of none|pessimistic|optimistic, got \""
      (str_append value "\""))

unfoldable pub lock_strategy : Option String → Result BookingLockStrategy
lock_strategy value =
    let chosen = or_fallback value "pessimistic" in
    if lower_is chosen "none"
    then ok BookingLockStrategy.none
    else if lower_is chosen "pessimistic"
    then ok BookingLockStrategy.pessimistic
    else if lower_is chosen "optimistic"
    then ok BookingLockStrategy.optimistic
    else err (unknown_strategy chosen)
