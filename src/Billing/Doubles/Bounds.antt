-- ===== src/Billing/Doubles/Bounds.antt =====
-- How far a double is from its amount (apps/api/src/billing/invoice.service.ts).
use kruze.Base.{
  ℕ, zero, suc, ◌+◌, ◌*◌, ◌/◌, ◌%◌, ◌≤◌, ◌<◌, ◌≡◌, ◌⊎◌, refl, inl, inr, true, false, ltb, ◌==◌,
  arith, Bool-cases,
}
use native.Mathlib.Omega.{div_any}
use native.Mathlib.Nat.{mod-lt}
use kruze.Billing.Doubles.{
  steps_in_one, significands, nearest, round_half, spacing, double, distance, variance_tolerance,
  within_tolerance,
}

test_zero : double 0 ≡ 0
unfolding double nearest round_half spacing
test_zero = refl

test_apart : within_tolerance 10000 10001 ≡ false
unfolding within_tolerance double nearest round_half spacing
test_apart = refl

test_together : within_tolerance 2 1 ≡ true
unfolding within_tolerance double nearest round_half spacing
test_together = refl

-- The quotient is off by a half at most.
record Near (v d q : ℕ) : Type 0 where
  above : 2 * (d * q) ≤ 2 * v + d
  below : 2 * v ≤ 2 * (d * q) + d

parity : (q : ℕ) → (q % 2 ≡ 0) ⊎ (q % 2 ≡ 1)
parity q = omega arith

tie-Near : (v d q rest : ℕ) → d * q + rest ≡ v → 2 * rest ≡ d → Near v d (q + q % 2)
tie-Near v d q rest split half = elim (parity q) [
  | inl even ↦ rw even (record { above = ground arith; below = ground arith })
  | inr odd ↦ rw odd (record { above = ground arith; below = ground arith })
]

round_half-Near : (v d q rest : ℕ) → d * q + rest ≡ v → rest < d → Near v d (round_half q rest d)
unfolding round_half
round_half-Near v d q rest split short = elim (Bool-cases (ltb (2 * rest) d)) [
  | inl low ↦ rw low (record { above = ground arith; below = ground arith })
  | inr no_low ↦ elim (Bool-cases (ltb d (2 * rest))) [
    | inl high ↦ rw (no_low, high) (record { above = ground arith; below = ground arith })
    | inr tie ↦ rw (no_low, tie) (tie-Near v d q rest split (ground (arith, no_low, tie)))
  ]
]

nearest-Near : (v d : ℕ) → 0 < d → Near v d (nearest v d)
unfolding nearest
nearest-Near v d positive = round_half-Near v d (v / d) (v % d) (div_any v d) (mod-lt v positive)

widen_le :
    (fuel u v : ℕ)
    → significands * (50 * u) ≤ v + significands * 50
    → significands * (50 * spacing fuel u v) ≤ v + significands * 50
unfolding spacing
widen_le zero u v h = h
widen_le (suc fuel) u v h = elim (Bool-cases (ltb v (significands * (100 * u)))) [
  | inl fits ↦ rw (spacing, fits) h
  | inr no_fit ↦ rw (spacing, no_fit) (widen_le fuel (2 * u) v (ground (arith, no_fit)))
]

spacing_positive : (fuel u v : ℕ) → 0 < u → 0 < spacing fuel u v
unfolding spacing
spacing_positive zero u v h = h
spacing_positive (suc fuel) u v h = elim (Bool-cases (ltb v (significands * (100 * u)))) [
  | inl fits ↦ rw (spacing, fits) h
  | inr wide ↦ rw (spacing, wide) (spacing_positive fuel (2 * u) v (ground arith))
]

spacing_fits :
    (fuel u v : ℕ)
    → 0 < u
    → v < significands * (100 * (u + fuel))
    → v < significands * (100 * spacing fuel u v)
unfolding spacing
spacing_fits zero u v h fuel_left = ground (arith, fuel_left)
spacing_fits (suc fuel) u v h fuel_left = elim (Bool-cases (ltb v (significands * (100 * u)))) [
  | inl fits ↦ rw (spacing, fits) (ground (arith, fits))
  | inr wide ↦ rw (spacing, wide) (spacing_fits fuel (2 * u) v (ground arith) (ground arith))
]

module _ (n u q : ℕ) where
  scaled-Near :
      Near (n * steps_in_one) (100 * u) q
      → significands * (50 * u) ≤ n * steps_in_one + significands * 50
      → (200 * (q * u) ≤ 2 * (n * steps_in_one) + (128 * n + 100))
        × (2 * (n * steps_in_one) ≤ 200 * (q * u) + (128 * n + 100))
  scaled-Near near narrow = (ground (arith, near.above, narrow), ground (arith, near.below, narrow))

-- The fuel of `double` is enough: the significand fits.
double_fits : (n : ℕ) → n * steps_in_one < significands * (100 * spacing n 1 (n * steps_in_one))
double_fits n = spacing_fits n 1 (n * steps_in_one) (ground arith) (ground arith)

double-Near :
    (n : ℕ)
    → (200 * double n ≤ 2 * (n * steps_in_one) + (128 * n + 100))
      × (2 * (n * steps_in_one) ≤ 200 * double n + (128 * n + 100))
unfolding double
double-Near n =
    let v = n * steps_in_one in
    let u = spacing n 1 v in
    let near = nearest-Near v (100 * u) (ground (arith, spacing_positive n 1 v (ground arith))) in
    let narrow = widen_le n 1 v (ground arith) in scaled-Near n u (nearest v (100 * u)) near narrow

-- every amount of a column Decimal(12, 2)
abbrev pub column_limit : ℕ
column_limit = 1000000000000

within_steps :
    (a b : ℕ)
    → within_tolerance a b ≡ true
    → distance (double a) (double b) ≤ double variance_tolerance
unfolding within_tolerance
within_steps a b h = ground (arith, h)

equal_within : (a : ℕ) → within_tolerance a a ≡ true
unfolding within_tolerance
equal_within a = ground arith

-- Amounts that the doubles hold together are a hundredth apart at most.
pub within-near :
    (a b : ℕ) → a < column_limit → b < column_limit → within_tolerance a b ≡ true → distance a b ≤ 1
within-near a b small small_b h =
    let near_a = double-Near a in
    let near_b = double-Near b in
    let near_1 = double-Near variance_tolerance in
    let close = within_steps a b h in
    omega (arith, near_a.0, near_a.1, near_b.0, near_b.1, near_1.0, near_1.1, close, small, small_b)

-- Amounts that the doubles tell apart differ.
pub within-apart : (a b : ℕ) → within_tolerance a b ≡ false → 0 < distance a b
within-apart a b h = elim (Bool-cases (a == b)) [
  | inr other ↦ ground (arith, other)
  | inl same ↦ absurd (ground (arith, same, h, equal_within a))
]
