-- ===== src/Account/Tests.antt =====
-- An account with one long position, and the rounding of margins.
use maais.Base.{◌≡◌, refl, true, false, none, some, List, [], ◌∷◌, String, ok}
use maais.Decimal.{
  max_coefficient, unit, whole, zero_decimal, round, round_from, half_even, add, sub, mul, div, sum,
  eq, lt,
}
use maais.Base.Int.{◌+ℤ◌, ◌-ℤ◌, ◌*ℤ◌}
use maais.Decimal.{negate}
use maais.Domain.{Datetime, long, buy, opens}
use maais.Positions
use maais.Positions.{PositionState, PositionLot, lots_quantity}
use maais.Account.{
  AccountState, FillArguments, free_margin, apply_fill, mark, cash_residual, margin_residual,
  equity_residual, expected_cash, reconciles, total, position, lookup, insert, raise_peak,
  fill_outcome, position_to_open,
}
use maais.Account.Calls.{Call, fills, marks, perform, perform_all, account_after}
use maais.Account.History.{
  Maintained, Sound, perform-Sound, apply_fill-has_margin, perform_all-Maintained,
}

abbrev noon : Datetime
noon = record { micros = 43200000000; utc = true }

abbrev account : AccountState
account = record {
  experiment_id = 1;
  initial_capital = whole 1000;
  currency = "USDT";
  leverage = 3;
  cash_balance = whole 1000;
  peak_equity = whole 1000;
  positions = [];
  version = 0;
  updated_at = none;
}

abbrev buying : FillArguments
buying = record {
  fill_id = 1;
  position_id = 2;
  symbol = "BTCUSDT";
  side = buy;
  position_effect = opens;
  quantity = whole 2;
  price = whole 100;
  fee = whole 1;
  fill_at = noon;
}

abbrev calls : List Call
calls = fills buying ∷ marks "BTCUSDT" (whole 110) noon ∷ marks "ETHUSDT" (whole 5) noon ∷ []

perform_all-Maintained_example : Maintained calls account (perform_all account calls)
perform_all-Maintained_example = perform_all-Maintained account calls

abbrev flat_lot : PositionLot
flat_lot = record {
  lot_id = 1;
  opening_fill_id = 1;
  opened_at = noon;
  entry_price = whole 100;
  original_quantity = whole 1;
  remaining_quantity = whole 1;
  opening_fee = zero_decimal;
  remaining_opening_fee = zero_decimal;
  funding = zero_decimal;
}

abbrev one_long : String → PositionState
one_long symbol = record {
  position_id = 2;
  experiment_id = 1;
  symbol = symbol;
  side = long;
  mark_price = whole 100;
  average_entry = whole 100;
  realized_pnl = zero_decimal;
  fees = zero_decimal;
  funding = zero_decimal;
  lots = flat_lot ∷ [];
  opened_at = some noon;
  closed_at = none;
  version = 1;
}

abbrev two_longs : AccountState
two_longs = record account {
  positions = ("BTCUSDT", one_long "BTCUSDT") ∷ ("ETHUSDT", one_long "ETHUSDT") ∷ [];
}

-- Two thirds of a hundred, rounded together and one by one, differ in the last digit: at leverage 3
-- the margin of two positions of notional 100 does not reconcile.
two_longs-margin : eq (margin_residual two_longs) zero_decimal ≡ false
unfolding margin_residual total Positions.gross_notional lots_quantity sum add sub mul div whole
    unit round round_from max_coefficient half_even
two_longs-margin = refl

two_longs-IsRefused : reconciles two_longs ≡ false
unfolding reconciles margin_residual cash_residual equity_residual expected_cash
    Positions.unrealized_pnl total Positions.gross_notional lots_quantity sum add sub mul div whole
    unit round round_from max_coefficient half_even
two_longs-IsRefused = refl

abbrev after_mark : AccountState
after_mark = account_after two_longs (perform two_longs (marks "BTCUSDT" (whole 110) noon))

perform-Sound_example : Sound "BTCUSDT" two_longs after_mark
unfolding perform mark position lookup Positions.mark whole unit
perform-Sound_example = perform-Sound two_longs (marks "BTCUSDT" (whole 110) noon) refl

abbrev after_fill : AccountState
after_fill = account_after account (apply_fill account buying)

after_fill-returned : apply_fill account buying ≡ ok after_fill
unfolding apply_fill fill_outcome position_to_open lookup Positions.empty_position
    Positions.open_fill raise_peak insert reconciles margin_residual cash_residual equity_residual
    expected_cash Positions.unrealized_pnl total Positions.gross_notional lots_quantity sum add sub
    mul div whole unit round round_from max_coefficient half_even ◌+ℤ◌ ◌-ℤ◌ ◌*ℤ◌ negate
    Positions.average_entry_of
after_fill-returned = refl

apply_fill-has_margin_example : lt (free_margin after_fill) zero_decimal ≡ false
apply_fill-has_margin_example = apply_fill-has_margin account buying after_fill-returned refl
