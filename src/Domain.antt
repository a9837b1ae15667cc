-- ===== src/Domain.antt =====
-- The vocabulary of maais/domain/enums.py, the instants of maais/execution/paper/clock.py and the
-- argument guards that the paper modules share (clock.py, market.py, positions.py).
use maais.Base.{ℕ, Bool, true, false, not, String, ltb, leb, Result, raise_if, value_error}
use maais.Decimal.{Decimal, zero_decimal, le, lt}

pub data PaperOrderSide : Type 0 where
  buy sell : PaperOrderSide

pub data PaperOrderType : Type 0 where
  market limit stop_market : PaperOrderType

pub data PaperOrderStatus : Type 0 where
  created authorized accepted partially_filled filled canceled rejected expired : PaperOrderStatus

pub data PositionEffect : Type 0 where
  opens reduces : PositionEffect

pub data Direction : Type 0 where
  long short neutral : Direction

-- `side is PaperOrderSide.BUY`, and so on: tests by identity of an enum's member.
abbrev pub is_buy : PaperOrderSide → Bool
is_buy buy = true
is_buy sell = false

abbrev pub is_long : Direction → Bool
is_long long = true
is_long short = false
is_long neutral = false

abbrev pub is_short : Direction → Bool
is_short long = false
is_short short = true
is_short neutral = false

abbrev pub is_limit : PaperOrderType → Bool
is_limit market = false
is_limit limit = true
is_limit stop_market = false

abbrev pub is_open : PositionEffect → Bool
is_open opens = true
is_open reduces = false

-- A datetime: the instant in microseconds, and whether it is aware with offset zero. Instants are
-- compared only behind `require_utc`.
pub record Datetime : Type 0 where
  pub micros : ℕ
  pub utc : Bool

abbrev pub before : Datetime → Datetime → Bool
before a b = ltb a.micros b.micros

abbrev pub at_most : Datetime → Datetime → Bool
at_most a b = leb a.micros b.micros

abbrev pub require_utc : Datetime → String → Result (Unit {0})
require_utc value field = raise_if (not value.utc) (value_error field)

-- `require_positive_decimal`; values are finite, so only the sign is left to test.
abbrev pub require_positive_decimal : Decimal → String → Result (Unit {0})
require_positive_decimal value field = raise_if (le value zero_decimal) (value_error field)

-- `_require_nonnegative`.
abbrev pub require_nonnegative : Decimal → String → Result (Unit {0})
require_nonnegative value field = raise_if (lt value zero_decimal) (value_error field)
