-- ===== src/Decimal/Bounds.antt =====
-- A rounded value does not pass an exact one, so a factor of at most 1 does not enlarge a product.
use native.Mathlib.Nat.{pow-suc, div-mul-le_self, mul-le-mul_right, mul-le-mul_left}
use maais.Base.{
  Bool, ◌⊎◌, ℕ, zero, suc, ◌+◌, ◌*◌, ◌/◌, ◌%◌, ◌^◌, ◌≤◌, ◌<◌, ◌≡◌, refl, true, false, Bool-cases,
  inl, inr, leb, ltb, if◌then◌else◌, leb→le, le→leb, arith, subst, sym,
}
use maais.Base.Int.{pos, negsuc, pos_part}
use maais.Decimal.Grid.{half_even-exact, power_split}
use maais.Decimal.Products.{*ℤ-pos}
use maais.Decimal.Rounding.{Coefficient, round_pos}
use maais.Decimal.Signs.{IsNonnegative}
use maais.Decimal.{
  Decimal, max_coefficient, half_even, round_from, round, unit, mul, le, lt, min, whole,
}

-- A factor between 0 and 1.
abbrev pub IsMultiplier : Decimal → Type 0
IsMultiplier a = IsNonnegative a × (le a (whole 1) ≡ true)

half_even-below : (n d x : ℕ) → 0 < d → n ≤ x * d → half_even n d ≤ x
unfolding half_even
half_even-below n d x p h = elim (Bool-cases (leb (suc (n / d)) x)) [
  | inl less ↦ bound (n / d) (n % d) (leb→le (suc (n / d)) x less)
  | inr more ↦
      subst (λ (y : ℕ). half_even y d ≤ x) (sym (exactly more))
        (omega (arith, half_even-exact x d p))
]
  where
    bound :
        (q r : ℕ)
        → suc q ≤ x
        → (if ltb (2 * r) d then q else (if ltb d (2 * r) then q + 1 else q + q % 2)) ≤ x
    bound q r less = ground (arith, less)

    exactly : leb (suc (n / d)) x ≡ false → n ≡ x * d
    exactly more = omega (
      arith,
      h,
      div-mul-le_self n d,
      mul-le-mul_right {m = x} {n = n / d} d (ground (arith, more)),
    )

pub round_from-below :
    (fuel n d m k : ℕ)
    → 0 < d
    → m ≤ max_coefficient
    → n ≤ m * 10 ^ k * d
    → round_from fuel n d ≤ m * 10 ^ k
unfolding round_from
round_from-below zero n d m k p small h = half_even-below n d (m * 10 ^ k) p h
round_from-below (suc fuel) n d m zero p small h =
    let fine = half_even-below n d (m * 10 ^ 0) p h in
    rw (le→leb (half_even n d) max_coefficient (omega (arith, fine, small))) fine
round_from-below (suc fuel) n d m (suc k) p small h =
    let fine = half_even-below n d (m * 10 ^ suc k) p h in
    let coarse =
      round_from-below fuel n (d * 10) m k (omega arith) small
        (subst (λ (y : ℕ). n ≤ y) (power_split m k d) h) in
    elim (Bool-cases (leb (half_even n d) max_coefficient)) [
      | inl fits ↦ rw fits fine
      | inr more ↦ rw more (rw (pow-suc 10 k) (omega (arith, coarse)))
    ]

mul_pos : (m n : ℕ) → mul (pos m) (pos n) ≡ pos (round_from (m * n) (m * n) unit)
unfolding mul round
mul_pos m n = rw (*ℤ-pos m n) refl

-- A product of values that are not negative has a coefficient of at most 28 digits.
pub mul-Coefficient :
    (a b : Decimal) → IsNonnegative a → IsNonnegative b → Coefficient (pos_part (mul a b))
unfolding unit
mul-Coefficient (pos m) (pos n) h g = rw (mul_pos m n) (round_pos (m * n) (10 ^ 64) (omega arith))
mul-Coefficient (negsuc m) b h g = absurd (ground (arith, h))
mul-Coefficient (pos m) (negsuc n) h g = absurd (ground (arith, g))

unit_positive : 0 < unit
unfolding unit
unit_positive = omega arith

at_most_unit : (n : ℕ) → le (pos n) (whole 1) ≡ true → n ≤ unit
unfolding whole
at_most_unit n h = ground (arith, h)

-- A factor of at most 1 does not enlarge such a product.
pub mul-shrinks :
    (a b : Decimal)
    → IsNonnegative a
    → IsNonnegative b
    → Coefficient (pos_part a)
    → le b (whole 1) ≡ true
    → le (mul a b) a ≡ true
mul-shrinks (pos m) (pos n) h g (c, k, small, same) most = rw (mul_pos m n) (ground (arith, shrunk))
  where
    factor : n ≤ unit
    factor = at_most_unit n most

    positive : 0 < unit
    positive = unit_positive

    shrunk : round_from (m * n) (m * n) unit ≤ m
    shrunk =
        subst (λ (y : ℕ). round_from (m * n) (m * n) unit ≤ y) (sym same)
          (round_from-below (m * n) (m * n) unit c k positive small
            (subst (λ (y : ℕ). m * n ≤ y * unit) same (mul-le-mul_left m factor)))
mul-shrinks (negsuc m) b h g fine most = absurd (ground (arith, h))
mul-shrinks (pos m) (negsuc n) h g fine most = absurd (ground (arith, g))

pub le_trans : (a b c : Decimal) → le a b ≡ true → le b c ≡ true → le a c ≡ true
le_trans a b c h g = ground (arith, h, g)

choice : (b : Bool) (x y : Decimal) → ((if b then y else x) ≡ x) ⊎ ((if b then y else x) ≡ y)
choice true x y = inr refl
choice false x y = inl refl

-- The lesser of two values is one of them, and at most each.
pub min-either : (a b : Decimal) → (min a b ≡ a) ⊎ (min a b ≡ b)
min-either a b = choice (lt b a) a b

pub min-first : (a b : Decimal) → le (min a b) a ≡ true
min-first a b = ground arith

pub min-second : (a b : Decimal) → le (min a b) b ≡ true
min-second a b = ground arith
