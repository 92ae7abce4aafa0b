-- ===== src/Config/Numerals.antt =====
-- Numerals to `int` (src/config/configuration.ts).
use overbook.Base.{
  ℕ, suc, ◌+◌, ◌-◌, ◌*◌, ◌^◌, ◌≤◌, ◌<◌, ◌≡◌, ap, ◌∙◌, Bool, true, false, ◌==◌, none, some, String,
  List, [], ◌∷◌, map, length, All, if◌then◌else◌, arith,
}
use mathlib.Core.Option.{map as option_map}
use overbook.Trace.Resolve.{is_space}
use overbook.Config.Parse.{
  Doubles, codes, ℤ, pos, negate, is_digit, read_digits, unsigned, skip_spaces, signed, rounded,
  parse_int, or_fallback, int,
}

-- the number that decimal digits stand for, the first the highest
unfoldable pub value : List ℕ → ℕ
value [] = 0
value (d ∷ ds) = d * 10 ^ length ds + value ds

abbrev pub numeral : List ℕ → List ℕ
numeral ds = map (λ d. 48 + d) ds

digit_test : (d : ℕ) → d < 10 → is_digit (48 + d) ≡ true
digit_test d h = ground arith

power : (k : ℕ) → 10 ^ suc k ≡ 10 * 10 ^ k
power k = omega arith

step_value : (n d p q v : ℕ) → q ≡ 10 * p → (10 * n + d) * p + v ≡ n * q + (d * p + v)
step_value n d p q v e = rw e (omega arith)

shifted : (n d : ℕ) → 10 * n + (48 + d - 48) ≡ 10 * n + d
shifted n d = omega arith

read_digits_lem :
    (n : ℕ) (ds : List ℕ)
    → All (λ d. d < 10) ds
    → read_digits n (numeral ds) ≡ n * 10 ^ length ds + value ds
unfolding value
read_digits_lem n [] h = omega arith
read_digits_lem n (d ∷ ds) (h, hs) = rw (digit_test d h) (
    ap (λ m. read_digits m (numeral ds)) (shifted n d)
    ∙ read_digits_lem (10 * n + d) ds hs
    ∙ step_value n d (10 ^ length ds) (10 ^ suc (length ds)) (value ds) (power (length ds)))

no_space : (d : ℕ) → d < 10 → is_space (48 + d) ≡ false
no_space d h = ground arith

no_sign : (d c : ℕ) → d < 10 → c < 48 → ((48 + d) == c) ≡ false
no_sign d c h k = ground arith

nothing_before : (p v : ℕ) → 0 * p + v ≡ v
nothing_before p v = omega arith

unsigned_lem :
    (d : ℕ) (ds : List ℕ)
    → All (λ n. n < 10) (d ∷ ds)
    → unsigned (numeral (d ∷ ds)) ≡ some (value (d ∷ ds))
unsigned_lem d ds (h, hs) =
    ap (λ b. if b then some (read_digits 0 (numeral (d ∷ ds))) else none) (digit_test d h)
    ∙ ap some (
        read_digits_lem 0 (d ∷ ds) (h, hs) ∙ nothing_before (10 ^ suc (length ds)) (value (d ∷ ds)))

-- the characters of an integer's text, and the integer
abbrev pub text_of : Bool → List ℕ → List ℕ
text_of minus ds = if minus then 45 ∷ numeral ds else numeral ds

abbrev pub integer : Bool → List ℕ → ℤ
integer minus ds = if minus then negate (value ds) else pos (value ds)

-- An integer of at most 2 ^ 53 comes back from its digits, a minus sign before them or not.
int_lem :
    (N : Doubles) (text : String) (minus : Bool) (d : ℕ) (ds : List ℕ) (fallback : ℤ)
    → All (λ n. n < 10) (d ∷ ds)
    → value (d ∷ ds) ≤ 2 ^ 53
    → codes text ≡ text_of minus (d ∷ ds)
    → int N (some text) fallback ≡ integer minus (d ∷ ds)
unfolding int parse_int
int_lem N text minus d ds fallback (h, hs) small e =
    let answer =
      ap (rounded N) (unsigned_lem d ds (h, hs)) ∙ N.nearest_exact (value (d ∷ ds)) small in
    ap (λ cs. or_fallback (signed N (skip_spaces cs)) fallback) e ∙ read minus answer
  where
    read :
        (minus : Bool)
        → rounded N (unsigned (numeral (d ∷ ds))) ≡ some (value (d ∷ ds))
        → or_fallback (signed N (skip_spaces (text_of minus (d ∷ ds)))) fallback
          ≡ integer minus (d ∷ ds)
    read true answer = ap (λ o. or_fallback (option_map negate o) fallback) answer
    read false answer =
        rw (no_space d h, no_sign d 45 h (omega arith), no_sign d 43 h (omega arith))
          (ap (λ o. or_fallback (option_map pos o) fallback) answer)
