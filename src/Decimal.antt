-- ===== src/Decimal.antt =====
-- Python's `decimal.Decimal` under the default context, which the program never changes: results
-- are rounded half to even to 28 significant digits. A finite value is the whole number of quanta
-- of 10^-64 that it stands for, so the order is that of the integers and an operation is the exact
-- one followed by `round`. Results below 10^-36 keep fewer than 28 digits (the library's own
-- smallest exponent is far lower); the columns that store these values keep 18 decimal places.
pub mod Grid
pub mod Rounding
mod Tests
pub mod Products
pub mod Signs
pub mod Bounds
use maais.Base.{
  ℕ, zero, suc, ◌+◌, ◌*◌, ◌/◌, ◌%◌, ◌^◌, Bool, List, ltb, leb, ◌==◌, if◌then◌else◌, foldl,
}
use maais.Base.Int.{ℤ, pos, negsuc, ◌+ℤ◌, ◌-ℤ◌, ◌*ℤ◌, ltb_ℤ, leb_ℤ, eqb_ℤ}

abbrev pub Decimal : Type 0
Decimal = ℤ

-- The number of quanta in 1.
unfoldable pub unit : ℕ
unit = 10 ^ 64

-- A coefficient of 28 digits; 10^28 itself is 1E+28.
unfoldable pub max_coefficient : ℕ
max_coefficient = 10 ^ 28

-- The whole number nearest to n / d, the even one on a tie.
unfoldable pub half_even : ℕ → ℕ → ℕ
half_even n d =
    if ltb (2 * (n % d)) d
    then n / d
    else if ltb d (2 * (n % d))
    then n / d + 1
    else n / d + n / d % 2

-- n / d quanta, rounded at the finest power of ten at which the coefficient has 28 digits. The
-- fuel bounds the digits that are dropped.
unfoldable pub round_from : ℕ → ℕ → ℕ → ℕ
round_from zero n d = half_even n d
round_from (suc fuel) n d =
    let coarser = 10 * round_from fuel n (d * 10) in
    if leb (half_even n d) max_coefficient then half_even n d else coarser

abbrev pub negative : ℕ → ℤ
negative zero = pos zero
negative (suc n) = negsuc n

-- The rounded value of n / d quanta. A number has at most as many digits as itself.
unfoldable pub round : ℤ → ℕ → Decimal
unfolding round_from half_even max_coefficient
round (pos n) d = pos (round_from n n d)
round (negsuc n) d = negative (round_from (suc n) (suc n) d)

unfoldable pub add : Decimal → Decimal → Decimal
unfolding round ◌+ℤ◌
add a b = round (a +ℤ b) 1

unfoldable pub sub : Decimal → Decimal → Decimal
unfolding round ◌-ℤ◌
sub a b = round (a -ℤ b) 1

unfoldable pub mul : Decimal → Decimal → Decimal
unfolding round ◌*ℤ◌ unit
mul a b = round (a *ℤ b) unit

-- `-a`.
unfoldable pub negate : Decimal → Decimal
unfolding round ◌-ℤ◌
negate a = round (pos 0 -ℤ a) 1

-- `abs(a)`, which rounds.
unfoldable pub absolute : Decimal → Decimal
unfolding round negate
absolute (pos n) = round (pos n) 1
absolute (negsuc n) = negate (negsuc n)

-- `a / b`, for a divisor that is not zero.
unfoldable pub div : Decimal → Decimal → Decimal
unfolding round ◌*ℤ◌ ◌-ℤ◌ unit
div a (pos d) = round (a *ℤ pos unit) d
div a (negsuc d) = round ((pos 0 -ℤ a) *ℤ pos unit) (suc d)

-- `Decimal(n)` for a whole number, and a decimal fraction n / 10^k.
unfoldable pub whole : ℕ → Decimal
unfolding unit
whole n = pos (n * unit)

unfoldable pub fraction : ℕ → ℕ → Decimal
unfolding unit
fraction n k = pos (n * (unit / 10 ^ k))

abbrev pub zero_decimal : Decimal
zero_decimal = pos 0

-- The comparisons are exact.
abbrev pub lt : Decimal → Decimal → Bool
lt = ltb_ℤ

abbrev pub le : Decimal → Decimal → Bool
le = leb_ℤ

abbrev pub eq : Decimal → Decimal → Bool
eq = eqb_ℤ

-- Python's `min(a, b)` and `max(a, b)` keep the first of two equal values.
abbrev pub min : Decimal → Decimal → Decimal
min a b = if lt b a then b else a

abbrev pub max : Decimal → Decimal → Decimal
max a b = if lt a b then b else a

-- `sum(values, start=Decimal("0"))`.
unfoldable pub sum : List Decimal → Decimal
unfolding add
sum = foldl add zero_decimal

-- The floor of a square root, bit by bit: each round of fuel takes two bits of `n`, so `n < 4 ^ fuel`
-- is enough.
unfoldable pub floor_root : ℕ → ℕ → ℕ
floor_root zero n = 0
floor_root (suc fuel) n =
    let r = 2 * floor_root fuel (n / 4) in if leb ((r + 1) * (r + 1)) n then r + 1 else r

-- `a.sqrt()`, for a value that is not negative and below 10^50: a root that is not whole lies
-- strictly between two quanta, where one half rounds as it does.
unfoldable pub sqrt : Decimal → Decimal
unfolding floor_root round unit
sqrt (pos n) =
    let r = floor_root 200 (n * unit) in
    if r * r == n * unit then round (pos r) 1 else round (pos (2 * r + 1)) 2
sqrt (negsuc n) = zero_decimal
