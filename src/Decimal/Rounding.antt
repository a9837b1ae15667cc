-- ===== src/Decimal/Rounding.antt =====
-- Rounded values have a coefficient of at most 28 digits, so rounding them again changes nothing.
use native.Mathlib.Nat.{div-eq_of_lt, pow-suc, le_trans, mul-le-mul_right}
use maais.Base.{
  leb→le, ℕ, zero, suc, ◌*◌, ◌^◌, ◌≤◌, ◌<◌, ◌≡◌, Bool-cases, inl, inr, arith, ap, subst, sym, leb,
}
use maais.Base.Int.{ℤ, pos, negsuc, pos_part, ◌+ℤ◌, ◌*ℤ◌}
use maais.Decimal.{Decimal, max_coefficient, unit, half_even, round_from, round, negative, mul, add}
use maais.Decimal.Grid.{lt-power, IsExact, units, units-IsExact}

one-le-max : 1 ≤ max_coefficient
unfolding max_coefficient
one-le-max = omega arith

abbrev pub Coefficient : ℕ → Type 0
Coefficient n = (m : ℕ) × (k : ℕ) × (m ≤ max_coefficient) × (n ≡ m * 10 ^ k)

half_even-small : (n d : ℕ) → n < d → half_even n d ≤ 1
unfolding half_even
half_even-small n d h = rw (div-eq_of_lt h) (ground arith)

round_from-Coefficient :
    (fuel n d : ℕ) → 0 < d → n < d * 10 ^ fuel → Coefficient (round_from fuel n d)
unfolding round_from
round_from-Coefficient zero n d p h =
    (half_even n d, 0, le_trans (half_even-small n d (omega arith)) one-le-max, omega arith)
round_from-Coefficient (suc fuel) n d p h =
    elim (Bool-cases (leb (half_even n d) max_coefficient)) [
      | inl fits ↦
          rw fits (half_even n d, 0, leb→le (half_even n d) max_coefficient fits, omega arith)
      | inr more ↦
          let (m, k, small, e) =
            round_from-Coefficient fuel n (d * 10) (omega arith)
              (subst (λ (t : ℕ). n < t) (rw (pow-suc 10 fuel) (omega arith)) h) in
          rw more (m, suc k, small, rw (e, pow-suc 10 k) (omega arith))
    ]

pub round_pos : (n d : ℕ) → 0 < d → Coefficient (round_from n n d)
round_pos n d p =
    round_from-Coefficient n n d p
      (omega (arith, lt-power n, mul-le-mul_right {m = 1} {n = d} (10 ^ n) (omega arith)))

negative-IsExact : (n : ℕ) → IsExact (pos n) → IsExact (negative n)
unfolding round
negative-IsExact zero h = h
negative-IsExact (suc n) h = ap (λ (z : ℤ). negative (pos_part z)) h

-- A rounded value is exact.
pub round-IsExact : (a : ℤ) (d : ℕ) → 0 < d → IsExact (round a d)
unfolding round units
round-IsExact (pos n) d p =
    let (m, k, small, e) = round_pos n d p in
    subst (λ (t : ℕ). IsExact (pos t)) (sym e) (units-IsExact k m small)
round-IsExact (negsuc n) d p =
    let (m, k, small, e) = round_pos (suc n) d p in
    negative-IsExact (round_from (suc n) (suc n) d)
      (subst (λ (t : ℕ). IsExact (pos t)) (sym e) (units-IsExact k m small))

pub mul-IsExact : (a b : Decimal) → IsExact (mul a b)
unfolding mul unit
mul-IsExact a b = round-IsExact (a *ℤ b) unit (omega arith)

plus_zero : (a : Decimal) → pos 0 +ℤ a ≡ a
unfolding ◌+ℤ◌
plus_zero a = ground arith

-- Adding to nothing leaves an exact value as it is.
pub add_zero : (a : Decimal) → IsExact a → add (pos 0) a ≡ a
unfolding add
add_zero a e = rw (plus_zero a) e
