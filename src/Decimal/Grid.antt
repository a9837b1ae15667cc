-- ===== src/Decimal/Grid.antt =====
-- Values whose coefficient has at most 28 digits are not rounded, so sums and differences on one
-- grid of powers of ten are exact.
use native.Mathlib.Nat.{
  add-zero, mul-sub, mul-le-mul_right, mul-lt-mul_of_pos_right, eq_of_mul-eq-mul_right, one-le-pow,
  mul-div_cancel, mul-mod_left, zero-mul, suc-mul, pow-suc,
}
use native.Mathlib.Decide.{dec_lt, ℕ_discrete}
use Prim.Native.Nat.{min}
use maais.Decimal
use maais.Base.{
  ℕ, zero, suc, ◌+◌, ◌-◌, ◌*◌, ◌^◌, ◌≤◌, ◌<◌, ◌≡◌, ap, ◌∙◌, subst, arith, ltb, ◌==◌, Bool, true,
  false, if◌then◌else◌, leb, le→leb,
}
use maais.Base.Int.{ℤ, pos, ◌+ℤ◌, ◌-ℤ◌}
use maais.Decimal.{
  le, zero_decimal, lt, eq, Decimal, max_coefficient, half_even, round_from, round, add, sub,
}

pub half_even-exact : (x d : ℕ) → 0 < d → half_even (x * d) d ≡ x
unfolding half_even
half_even-exact x d h = rw (mul-div_cancel x h, mul-mod_left x d) (ground arith)

pub power_split : (m k d : ℕ) → m * 10 ^ suc k * d ≡ m * 10 ^ k * (d * 10)
power_split m k d = rw (pow-suc 10 k) (omega arith)

either : {q c x : ℕ} (b : Bool) → q ≡ x → c ≡ x → (if b then q else c) ≡ x
either true p q = p
either false p q = q

pub round_from-grid :
    (fuel m k d : ℕ)
    → 0 < d
    → m ≤ max_coefficient
    → k ≤ fuel
    → round_from fuel (m * 10 ^ k * d) d ≡ m * 10 ^ k
unfolding round_from
round_from-grid zero m k d h small le = half_even-exact (m * 10 ^ k) d h
round_from-grid (suc fuel) m zero d h small le =
    rw (half_even-exact (m * 10 ^ 0) d h, le→leb (m * 10 ^ 0) max_coefficient (omega arith))
round_from-grid (suc fuel) m (suc k) d h small le =
    either (leb (half_even (m * 10 ^ suc k * d) d) max_coefficient)
      (half_even-exact (m * 10 ^ suc k) d h)
      (rw (power_split m k d) (
        rw (round_from-grid fuel m k (d * 10) (omega arith) small (omega arith))
          (rw (pow-suc 10 k) (omega arith))))

-- A power of ten exceeds its exponent, so that the fuel of `round` is enough.
pub lt-power : (k : ℕ) → k < 10 ^ k
lt-power zero = omega arith
lt-power (suc k) = omega (arith, lt-power k, pow-suc 10 k)

-- A number whose coefficient has at most 28 digits is not rounded.
round_from-on_grid :
    (m k : ℕ) → m ≤ max_coefficient → round_from (m * 10 ^ k) (m * 10 ^ k) 1 ≡ m * 10 ^ k
round_from-on_grid zero k small =
    rw zero-mul (round_from-grid 0 0 0 1 (omega arith) small (omega arith))
round_from-on_grid (suc m) k small =
    subst (λ (t : ℕ). round_from (suc m * 10 ^ k) t 1 ≡ suc m * 10 ^ k) (omega arith)
      (round_from-grid (suc m * 10 ^ k) (suc m) k 1 (omega arith) small
        (omega (arith, lt-power k, suc-mul m (10 ^ k))))

-- No digit of the whole number of quanta `a` is dropped when it is rounded.
abbrev pub IsExact : ℤ → Type 0
IsExact a = round a 1 ≡ a

-- The value of m * 10^k quanta.
unfoldable pub units : ℕ → ℕ → Decimal
units k m = pos (m * 10 ^ k)

pub units-IsExact : (k m : ℕ) → m ≤ max_coefficient → IsExact (units k m)
unfolding units round
units-IsExact k m small = ap pos (round_from-on_grid m k small)

pub add_exact : (a b : Decimal) → IsExact (a +ℤ b) → add a b ≡ a +ℤ b
unfolding add
add_exact a b e = e

pub sub_exact : (a b : Decimal) → IsExact (a -ℤ b) → sub a b ≡ a -ℤ b
unfolding sub
sub_exact a b e = e

scale_sub : (m n p : ℕ) → (m - n) * p ≡ m * p - n * p
scale_sub m n p = omega (arith, mul-sub p m n)

scale_ltb : (m n p : ℕ) → 0 < p → ltb (m * p) (n * p) ≡ ltb m n
scale_ltb m n p h = elim (dec_lt m n) [
  | yes less ↦ ground (arith, mul-lt-mul_of_pos_right {m = m} {n = n} less h)
  | no more ↦ ground (arith, mul-le-mul_right {m = n} {n = m} p (omega arith))
]

scale_leb : (m n p : ℕ) → 0 < p → leb (m * p) (n * p) ≡ leb m n
scale_leb m n p h = elim (dec_lt n m) [
  | yes less ↦ ground (arith, mul-lt-mul_of_pos_right {m = n} {n = m} less h)
  | no more ↦ ground (arith, mul-le-mul_right {m = m} {n = n} p (omega arith))
]

scale_eq : (m n p : ℕ) → 0 < p → (m * p == n * p) ≡ (m == n)
scale_eq m n p h = elim (ℕ_discrete m n) [
  | yes same ↦ ground arith
  | no other ↦ ground (arith, eq_of_mul-eq-mul_right p h m n)
]

module _ (k m n : ℕ) where
  plus-units : units k m +ℤ units k n ≡ units k (m + n)
  unfolding units ◌+ℤ◌
  plus-units = ground arith

  minus-units : n ≤ m → units k m -ℤ units k n ≡ units k (m - n)
  unfolding units ◌-ℤ◌
  minus-units h = ground (arith, mul-le-mul_right (10 ^ k) h, scale_sub m n (10 ^ k))

  -- Sums, differences and tests of values on one grid are those of their coefficients.
  pub add-units : m + n ≤ max_coefficient → add (units k m) (units k n) ≡ units k (m + n)
  add-units small =
      add_exact (units k m) (units k n) (rw plus-units (units-IsExact k (m + n) small)) ∙ plus-units

  pub sub-units : n ≤ m → m ≤ max_coefficient → sub (units k m) (units k n) ≡ units k (m - n)
  sub-units h small =
      sub_exact (units k m) (units k n) (rw (minus-units h) (units-IsExact k (m - n) (omega arith)))
      ∙ minus-units h

  pub lt-units : lt (units k m) (units k n) ≡ ltb m n
  unfolding units
  lt-units = simp add-zero (scale_ltb m n (10 ^ k) (one-le-pow k 10 (omega arith)))

  pub eq-units : eq (units k m) (units k n) ≡ (m == n)
  unfolding units
  eq-units = simp add-zero (scale_eq m n (10 ^ k) (one-le-pow k 10 (omega arith)))

  pub le-units : le (units k m) (units k n) ≡ leb m n
  unfolding units
  le-units = simp add-zero (scale_leb m n (10 ^ k) (one-le-pow k 10 (omega arith)))

pub units-zero : (k : ℕ) → units k 0 ≡ zero_decimal
unfolding units
units-zero k = ap pos (zero-mul (10 ^ k))

pub le_zero-units : (k m : ℕ) → le (units k m) zero_decimal ≡ leb m 0
le_zero-units k m =
    subst (λ (z : Decimal). le (units k m) z ≡ leb m 0) (units-zero k) (le-units k m 0)

min_left : (m n : ℕ) → m ≤ n → min m n ≡ m
min_left m n h = omega arith

min_right : (m n : ℕ) → n ≤ m → min m n ≡ n
min_right m n h = omega arith

pub lt_zero-units : (k m : ℕ) → lt zero_decimal (units k m) ≡ ltb 0 m
lt_zero-units k m =
    subst (λ (z : Decimal). lt z (units k m) ≡ ltb 0 m) (units-zero k) (lt-units k 0 m)

pub min-units : (k m n : ℕ) → Decimal.min (units k m) (units k n) ≡ units k (min m n)
min-units k m n = elim (dec_lt n m) [
  | yes less ↦ rw (lt-units k n m, min_right m n (omega arith)) (ground arith)
  | no more ↦ rw (lt-units k n m, min_left m n (omega arith)) (ground arith)
]

pub eq_zero-units : (k m : ℕ) → eq (units k m) zero_decimal ≡ (m == 0)
eq_zero-units k m =
    subst (λ (z : Decimal). eq (units k m) z ≡ (m == 0)) (units-zero k) (eq-units k m 0)
