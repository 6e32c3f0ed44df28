-- ===== src/Billing/Doubles.antt =====
-- The comparison of two amounts in addLine (apps/api/src/billing/invoice.service.ts), which is made on
-- binary floating point numbers. The double of an amount of hundredths is a whole number of steps of
-- 2^-59, which is the spacing of the doubles about 0.01, the smallest amount but 0.
use Prim.Native.Nat.{ℕ, zero, suc, ◌+◌, ◌-◌, ◌*◌, ◌/◌, ◌%◌}
use kruze.Base.{Bool, true, false, ltb, leb, if◌then◌else◌}
pub mod Bounds

-- the steps in 1, which is 2^59, and the significands of a double, 2^53
abbrev pub steps_in_one : ℕ
steps_in_one = 576460752303423488

abbrev pub significands : ℕ
significands = 9007199254740992

-- a quotient and its rest, to the nearest whole number, and to the even one of two
unfoldable pub round_half : ℕ → ℕ → ℕ → ℕ
round_half q rest d = if ltb (2 * rest) d then q else if ltb d (2 * rest) then suc q else q + q % 2

unfoldable pub nearest : ℕ → ℕ → ℕ
unfolding round_half
nearest v d = round_half (v / d) (v % d) d

-- the spacing of the doubles about v / 100 steps, sought from `u` on: the first power of two by which
-- the significand fits
unfoldable pub spacing : ℕ → ℕ → ℕ → ℕ
spacing zero u v = u
spacing (suc fuel) u v = elim (ltb v (significands * (100 * u))) [
  | true ↦ u
  | false ↦ spacing fuel (2 * u) v
]

-- the double of an amount of hundredths, in steps
unfoldable pub double : ℕ → ℕ
unfolding spacing nearest
double n = let u = spacing n 1 (n * steps_in_one) in nearest (n * steps_in_one) (100 * u) * u

-- `Math.abs(a - b)`
abbrev pub distance : ℕ → ℕ → ℕ
distance a b = (a - b) + (b - a)

-- `VARIANCE_TOLERANCE`, in hundredths
abbrev pub variance_tolerance : ℕ
variance_tolerance = 1

-- `diff <= VARIANCE_TOLERANCE`. The difference of two of these doubles is a whole number of steps, and
-- so is the tolerance, about which the doubles are one step apart: rounding the difference to a double
-- does not carry it over the tolerance.
unfoldable pub within_tolerance : ℕ → ℕ → Bool
unfolding double
within_tolerance validated claimed =
    leb (distance (double validated) (double claimed)) (double variance_tolerance)
