-- ===== src/Base/Numbers.antt =====
-- Products and quotients of native numbers.
use Prim.Native.Nat.{ℕ, ◌+◌, ◌-◌, ◌*◌, ◌/◌, ◌≤◌, ◌<◌}
use mathlib.Core.Path.{subst}
use native.Mathlib.Omega.{arith}
use native.Mathlib.Nat.{div-lt_iff_lt-mul, le-div_iff_mul-le}

times_more : (a k r : ℕ) → a * r ≤ (a + k) * r
times_more a k r = omega arith

pub times_le : (a b r : ℕ) → a ≤ b → a * r ≤ b * r
times_le a b r h = subst (λ n. a * r ≤ n * r) (omega arith) (times_more a (b - a) r)

-- A part `k / d` of `n` is no more than `n`.
pub part_le : (k d n : ℕ) → k < d → k * n / d ≤ n
part_le k d n h =
    let more = times_le k d n (omega arith) in
    let too_much = (le-div_iff_mul-le {k = d} {x = n + 1} {y = k * n} (omega arith)).0 in
    grind (arith, more, too_much)

-- A proper part of a positive `n` is less than `n`.
pub part_lt : (k d n : ℕ) → k < d → 0 < n → k * n / d < n
part_lt k d n h pos =
    let more = times_le (k + 1) d n (omega arith) in
    (div-lt_iff_lt-mul {k = d} {x = k * n} {y = n} (omega arith)).1 (omega (arith, more, pos))
