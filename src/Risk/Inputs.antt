-- ===== src/Risk/Inputs.antt =====
-- The policy and the request of maais/risk/official.py, with their validation. A count is a natural
-- number, so the guards against negative ones have nothing to refuse.
use maais.Base.{
  ℕ, Bool, true, false, not, ◌||◌, ◌&&◌, ◌==◌, String, str_eq, str_lt, is_empty, is_uppercase, List,
  any, all, map, is_unique, sort_by, Option, none, some, Result, ok, ◌>>◌, raise_if, value_error,
  ltb,
}
use maais.Decimal.{Decimal, zero_decimal, sub, div, negate, lt, le, whole, fraction}
use maais.Domain.{
  Direction, long, short, neutral, Datetime, require_utc, require_positive_decimal,
  require_nonnegative,
}

pub record OfficialRiskPolicy : Type 0 where
  pub maximum_kelly_fraction : Decimal
  pub maximum_trade_loss_fraction : Decimal
  pub maximum_portfolio_loss_fraction : Decimal
  pub maximum_gross_notional_fraction : Decimal
  pub maximum_margin_fraction : Decimal
  pub minimum_aligned_correlation_returns : ℕ
  pub correlation_reduce_20_threshold : Decimal
  pub correlation_reduce_40_threshold : Decimal
  pub correlation_block_threshold : Decimal
  pub drawdown_reduce_25_threshold : Decimal
  pub drawdown_reduce_50_threshold : Decimal
  pub drawdown_halt_threshold : Decimal

unfoldable pub make_policy : OfficialRiskPolicy → Result OfficialRiskPolicy
make_policy p = do
  require_positive_decimal p.maximum_kelly_fraction "maximum_kelly_fraction"
  require_positive_decimal p.maximum_trade_loss_fraction "maximum_trade_loss_fraction"
  require_positive_decimal p.maximum_portfolio_loss_fraction "maximum_portfolio_loss_fraction"
  require_positive_decimal p.maximum_gross_notional_fraction "maximum_gross_notional_fraction"
  require_positive_decimal p.maximum_margin_fraction "maximum_margin_fraction"
  require_positive_decimal p.correlation_reduce_20_threshold "correlation_reduce_20_threshold"
  require_positive_decimal p.correlation_reduce_40_threshold "correlation_reduce_40_threshold"
  require_positive_decimal p.correlation_block_threshold "correlation_block_threshold"
  require_positive_decimal p.drawdown_reduce_25_threshold "drawdown_reduce_25_threshold"
  require_positive_decimal p.drawdown_reduce_50_threshold "drawdown_reduce_50_threshold"
  require_positive_decimal p.drawdown_halt_threshold "drawdown_halt_threshold"
  raise_if (ltb p.minimum_aligned_correlation_returns 2)
      (value_error "correlation warmup must require at least two returns")
  raise_if
      (not (
        lt p.correlation_reduce_20_threshold p.correlation_reduce_40_threshold
        && (lt p.correlation_reduce_40_threshold p.correlation_block_threshold
            && le p.correlation_block_threshold (whole 1))))
      (value_error "correlation thresholds must be ordered within [0, 1]")
  raise_if
      (not (
        lt p.drawdown_reduce_25_threshold p.drawdown_reduce_50_threshold
        && (lt p.drawdown_reduce_50_threshold p.drawdown_halt_threshold
            && lt p.drawdown_halt_threshold (whole 1))))
      (value_error "drawdown thresholds must be ordered within [0, 1]")
  ok p

unfoldable pub conservative : OfficialRiskPolicy
conservative = record {
  maximum_kelly_fraction = fraction 25 2;
  maximum_trade_loss_fraction = fraction 2 2;
  maximum_portfolio_loss_fraction = fraction 6 2;
  maximum_gross_notional_fraction = whole 1;
  maximum_margin_fraction = whole 1;
  minimum_aligned_correlation_returns = 60;
  correlation_reduce_20_threshold = fraction 30 2;
  correlation_reduce_40_threshold = fraction 60 2;
  correlation_block_threshold = fraction 70 2;
  drawdown_reduce_25_threshold = fraction 5 2;
  drawdown_reduce_50_threshold = fraction 10 2;
  drawdown_halt_threshold = fraction 20 2;
}

pub record DrawdownSnapshot : Type 0 where
  pub peak_equity : Decimal
  pub current_equity : Decimal

unfoldable pub make_drawdown : DrawdownSnapshot → Result DrawdownSnapshot
make_drawdown d = do
  raise_if
      (le d.peak_equity zero_decimal
        || (lt d.current_equity zero_decimal || lt d.peak_equity d.current_equity))
      (value_error "drawdown equity inputs are invalid")
  ok d

unfoldable pub drawdown_fraction : DrawdownSnapshot → Decimal
drawdown_fraction d = div (sub d.peak_equity d.current_equity) d.peak_equity

pub record OpenRiskPosition : Type 0 where
  pub symbol : String
  pub notional : Decimal
  pub loss_at_stop : Decimal
  pub margin : Decimal

abbrev pub misnamed : String → Bool
misnamed symbol = is_empty symbol || not (is_uppercase symbol)

unfoldable pub make_position : OpenRiskPosition → Result OpenRiskPosition
make_position p = do
  raise_if (misnamed p.symbol) (value_error "open risk position symbol must be uppercase")
  require_nonnegative p.notional "notional"
  require_nonnegative p.loss_at_stop "loss_at_stop"
  require_nonnegative p.margin "margin"
  ok p

pub record CorrelationObservation : Type 0 where
  pub other_symbol : String
  pub aligned_return_count : ℕ
  pub correlation : Option Decimal

abbrev out_of_range : Option Decimal → Bool
out_of_range none = false
out_of_range (some value) = lt value (negate (whole 1)) || lt (whole 1) value

unfoldable pub make_observation : CorrelationObservation → Result CorrelationObservation
make_observation o = do
  raise_if (misnamed o.other_symbol) (value_error "correlation symbol must be uppercase")
  raise_if (out_of_range o.correlation)
      (value_error "correlation must be finite and within [-1, 1]")
  ok o

pub record OfficialRiskRequest : Type 0 where
  pub symbol : String
  pub direction : Direction
  pub capital : Decimal
  pub executable_price : Decimal
  pub stop_price : Decimal
  pub p_win : Decimal
  pub expected_gain_fraction : Decimal
  pub expected_loss_fraction : Decimal
  pub entry_fee_fraction : Decimal
  pub leverage : ℕ
  pub drawdown : DrawdownSnapshot
  pub open_positions : List OpenRiskPosition
  pub correlations : List CorrelationObservation
  pub evaluated_at : Datetime

abbrev pub is_neutral : Direction → Bool
is_neutral long = false
is_neutral short = false
is_neutral neutral = true

abbrev pub position_names : OfficialRiskRequest → List String
position_names r = map (λ p. p.symbol) r.open_positions

abbrev pub correlation_names : OfficialRiskRequest → List String
correlation_names r = map (λ o. o.other_symbol) r.correlations

-- A name of an open position in another symbol.
abbrev pub is_portfolio_name : OfficialRiskRequest → String → Bool
is_portfolio_name r name = any (str_eq name) (position_names r) && not (str_eq name r.symbol)

unfoldable pub make_request : OfficialRiskRequest → Result OfficialRiskRequest
make_request r = do
  raise_if (misnamed r.symbol) (value_error "risk request symbol must be uppercase")
  raise_if (is_neutral r.direction) (value_error "risk request direction must be long or short")
  require_positive_decimal r.capital "capital"
  require_positive_decimal r.executable_price "executable_price"
  require_positive_decimal r.stop_price "stop_price"
  require_positive_decimal r.expected_gain_fraction "expected_gain_fraction"
  require_positive_decimal r.expected_loss_fraction "expected_loss_fraction"
  raise_if (lt r.p_win zero_decimal || lt (whole 1) r.p_win)
      (value_error "p_win must be a finite Decimal in [0, 1]")
  raise_if (lt r.entry_fee_fraction zero_decimal || lt (fraction 1 2) r.entry_fee_fraction)
      (value_error "entry_fee_fraction must be a finite Decimal in [0, 0.01]")
  raise_if (r.leverage == 0) (value_error "leverage must be positive")
  require_utc r.evaluated_at "risk evaluation time must be UTC-aware"
  raise_if (not (is_unique (position_names r)))
      (value_error "open risk positions must be unique by symbol")
  raise_if (not (is_unique (correlation_names r)))
      (value_error "correlation observations must be unique by symbol")
  raise_if (not (all (is_portfolio_name r) (correlation_names r)))
      (value_error "correlation observations must belong to open portfolio symbols")
  ok (record r {
    open_positions = sort_by (λ p q. str_lt p.symbol q.symbol) r.open_positions;
    correlations = sort_by (λ p q. str_lt p.other_symbol q.other_symbol) r.correlations;
  })
