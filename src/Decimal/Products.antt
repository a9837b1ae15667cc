-- ===== src/Decimal/Products.antt =====
-- Products on a grid, and the signs that rounding keeps.
use native.Mathlib.Nat.{pow-suc, zero-mul, suc-mul, le-mul_of_pos_right}
use maais.Base.{ℕ, zero, suc, ◌*◌, ◌/◌, ◌^◌, ◌≤◌, ◌<◌, ◌≡◌, ap, subst, arith}
use maais.Base.Int.{int_laws, ℤ, pos, negsuc, ◌*ℤ◌, ◌-ℤ◌, ◌≤ℤ◌}
use maais.Decimal.{
  Decimal, unit, max_coefficient, half_even, round_from, round, negative, mul, sub, fraction,
  zero_decimal,
}
use maais.Decimal.Grid.{units, half_even-exact, round_from-grid, lt-power}

half_even-zero : (d : ℕ) → 0 < d → half_even 0 d ≡ 0
half_even-zero d p = subst (λ (t : ℕ). half_even t d ≡ 0) (zero-mul d) (half_even-exact 0 d p)

-- A fraction that stands for a number on the grid is not rounded.
round_from-scaled :
    (m k d : ℕ)
    → 0 < d
    → m ≤ max_coefficient
    → round_from (m * 10 ^ k * d) (m * 10 ^ k * d) d ≡ m * 10 ^ k
unfolding round_from
round_from-scaled zero k d p small = simp zero-mul (half_even-zero d p)
round_from-scaled (suc m) k d p small =
    round_from-grid (suc m * 10 ^ k * d) (suc m) k d p small (
      grind (arith, lt-power k, suc-mul m (10 ^ k), le-mul_of_pos_right {m = d} (suc m * 10 ^ k) p))

pub *ℤ-pos : (a b : ℕ) → pos a *ℤ pos b ≡ pos (a * b)
unfolding ◌*ℤ◌
*ℤ-pos a b = ground arith

*ℤ-negsuc : (a b : ℕ) → negsuc a *ℤ pos b ≤ℤ pos 0
unfolding ◌*ℤ◌
*ℤ-negsuc a b = ground arith

tenth : (k n : ℕ) → n * 10 ^ suc k * (1 * (10 ^ 64 / 10 ^ 1)) ≡ n * 10 ^ k * 10 ^ 64
tenth k n = rw (pow-suc 10 k) (omega arith)

minus_self : (a : ℤ) → a -ℤ a ≡ pos 0
minus_self a = omega int_laws

negative-nonpos : (n : ℕ) → negative n ≤ℤ pos 0
negative-nonpos zero = omega arith
negative-nonpos (suc n) = omega arith

-- A tenth of a value on the coarser grid.
pub mul-tenth : (k n : ℕ) → n ≤ max_coefficient → mul (units (suc k) n) (fraction 1 1) ≡ units k n
unfolding mul units fraction unit round
mul-tenth k n small =
    rw (*ℤ-pos (n * 10 ^ suc k) (1 * (10 ^ 64 / 10 ^ 1)), tenth k n)
      (ap pos (round_from-scaled n k (10 ^ 64) (omega arith) small))

pub sub_self : (a : Decimal) → sub a a ≡ zero_decimal
unfolding sub round
sub_self a = rw (minus_self a)

round-nonpos : (a : ℤ) (d : ℕ) → 0 < d → a ≤ℤ pos 0 → round a d ≤ℤ pos 0
unfolding round round_from
round-nonpos (pos zero) d p h = rw (half_even-zero d p) (omega arith)
round-nonpos (pos (suc a)) d p h = absurd (omega arith)
round-nonpos (negsuc a) d p h = negative-nonpos _

-- A value that is not positive stays so under a factor that is not negative.
pub mul-nonpos : (a : Decimal) (n : ℕ) → a ≤ℤ zero_decimal → mul a (pos n) ≤ℤ zero_decimal
unfolding mul unit
mul-nonpos (pos zero) n h =
    round-nonpos (pos 0 *ℤ pos n) (10 ^ 64) (omega arith)
      (rw (*ℤ-pos 0 n, zero-mul n) (omega arith))
mul-nonpos (pos (suc a)) n h = absurd (omega arith)
mul-nonpos (negsuc a) n h = round-nonpos (negsuc a *ℤ pos n) (10 ^ 64) (omega arith) (*ℤ-negsuc a n)
