-- ===== src/Decimal/Tests.antt =====
-- Values that the rounding gives on concrete inputs.
use maais.Base.{◌≡◌, refl}
use maais.Decimal.{div, whole, fraction, round}

one_third : div (whole 1) (whole 3) ≡ fraction 3333333333333333333333333333 28
unfolding div whole fraction round
one_third = refl

two_thirds : div (whole 2) (whole 3) ≡ fraction 6666666666666666666666666667 28
unfolding div whole fraction round
two_thirds = refl
