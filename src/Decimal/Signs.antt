-- ===== src/Decimal/Signs.antt =====
-- Results that are not negative.
use maais.Base.{ℕ, ◌*◌, ◌≡◌, true, arith}
use maais.Base.Int.{ℤ, pos, negsuc, ◌+ℤ◌, ◌-ℤ◌, ◌*ℤ◌}
use maais.Decimal.{
  Decimal, zero_decimal, unit, round, round_from, negative, add, mul, div, negate, absolute, le,
  min, max, whole,
}
use maais.Decimal.Products.{*ℤ-pos}

abbrev pub IsNonnegative : Decimal → Type 0
IsNonnegative a = le zero_decimal a ≡ true

pos-IsNonnegative : (n : ℕ) → IsNonnegative (pos n)
pos-IsNonnegative n = ground arith

negative-le : (n : ℕ) → le (negative n) zero_decimal ≡ true
negative-le n = ground arith

pub round-IsNonnegative : (a : ℤ) (d : ℕ) → IsNonnegative a → IsNonnegative (round a d)
unfolding round
round-IsNonnegative (pos n) d h = pos-IsNonnegative (round_from n n d)
round-IsNonnegative (negsuc n) d h = absurd (ground (arith, h))

product-IsNonnegative : (a b : Decimal) → IsNonnegative a → IsNonnegative b → IsNonnegative (a *ℤ b)
product-IsNonnegative (pos m) (pos n) h g = rw (*ℤ-pos m n) (pos-IsNonnegative (m * n))
product-IsNonnegative (negsuc m) b h g = absurd (ground (arith, h))
product-IsNonnegative (pos m) (negsuc n) h g = absurd (ground (arith, g))

pub mul-IsNonnegative :
    (a b : Decimal) → IsNonnegative a → IsNonnegative b → IsNonnegative (mul a b)
unfolding mul
mul-IsNonnegative a b h g = round-IsNonnegative (a *ℤ b) unit (product-IsNonnegative a b h g)

pub add-IsNonnegative :
    (a b : Decimal) → IsNonnegative a → IsNonnegative b → IsNonnegative (add a b)
unfolding add ◌+ℤ◌
add-IsNonnegative a b h g = round-IsNonnegative (a +ℤ b) 1 (ground (arith, h, g))

pub div-IsNonnegative :
    (a b : Decimal) → IsNonnegative a → IsNonnegative b → IsNonnegative (div a b)
unfolding div
div-IsNonnegative a (pos d) h g =
    round-IsNonnegative (a *ℤ pos unit) d
      (product-IsNonnegative a (pos unit) h (pos-IsNonnegative unit))
div-IsNonnegative a (negsuc d) h g = absurd (ground (arith, g))

pub absolute-IsNonnegative : (a : Decimal) → IsNonnegative (absolute a)
unfolding absolute negate ◌-ℤ◌
absolute-IsNonnegative (pos n) = round-IsNonnegative (pos n) 1 (pos-IsNonnegative n)
absolute-IsNonnegative (negsuc n) = round-IsNonnegative (pos 0 -ℤ negsuc n) 1 (ground arith)

pub min-IsNonnegative :
    (a b : Decimal) → IsNonnegative a → IsNonnegative b → IsNonnegative (min a b)
min-IsNonnegative a b h g = ground (arith, h, g)

pub max-IsNonnegative : (a : Decimal) → IsNonnegative (max a zero_decimal)
max-IsNonnegative a = ground arith

pub whole-IsNonnegative : (n : ℕ) → IsNonnegative (whole n)
unfolding whole
whole-IsNonnegative n = pos-IsNonnegative (n * unit)
