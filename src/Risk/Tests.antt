-- ===== src/Risk/Tests.antt =====
-- A long trade beside an open position with a correlation of a half.
use maais.Base.{
  String, Bool, Option, err, ◌≡◌, refl, true, false, some, none, [], ◌∷◌, sort_by, insert_by,
  is_unique, is_uppercase, ok, Result, Ensures,
}
use maais.Base.Int.{◌+ℤ◌, ◌-ℤ◌, ◌*ℤ◌}
use maais.Returns.{is_ok, value_of, value_of-ok}
use maais.Decimal.{
  Decimal, max_coefficient, unit, whole, fraction, round, round_from, half_even, add, sub, mul, div,
  negate, absolute, sum, le,
}
use maais.Domain.{long}
use maais.Quality.{all_passed, first_blocked, in_order}
use maais.Risk.Inputs.{
  OfficialRiskRequest, make_policy, make_request, conservative, drawdown_fraction,
}
use maais.Risk.Engine.{
  OfficialRiskDecision, decision, make_decision, observation, correlation_loop,
  correlation_gate_for, correlation_gate, half_kelly_of, stop_distance,
}
use maais.Risk.Sizing.{evaluate, correlated, sized, sizes_for, quantity_for, risk_budget}
use maais.Risk.Approval.{Decided}
use maais.Risk.Validated.{evaluate-Decided}
use maais.Risk.Bounds.{full_budget, evaluate-risk_at_stop}

abbrev request : OfficialRiskRequest
request = record {
  symbol = "BTCUSDT";
  direction = long;
  capital = whole 1000;
  executable_price = whole 100;
  stop_price = whole 90;
  p_win = fraction 6 1;
  expected_gain_fraction = fraction 2 1;
  expected_loss_fraction = fraction 1 1;
  entry_fee_fraction = fraction 1 3;
  leverage = 2;
  drawdown = record { peak_equity = whole 1000; current_equity = whole 1000 };
  open_positions =
      record {
        symbol = "ETHUSDT";
        notional = whole 100;
        loss_at_stop = whole 10;
        margin = whole 50;
      }
      ∷ [];
  correlations =
      record {
        other_symbol = "ETHUSDT";
        aligned_return_count = 60;
        correlation = some (fraction 5 1);
      }
      ∷ [];
  evaluated_at = record { micros = 1; utc = true };
}

policy-made : make_policy conservative ≡ ok conservative
unfolding make_policy conservative whole fraction unit
policy-made = refl

request-made : make_request request ≡ ok request
unfolding make_request is_uppercase is_unique sort_by insert_by whole fraction unit
request-made = refl

evaluate-Decided_example : Ensures (Decided conservative request) (evaluate conservative request)
evaluate-Decided_example =
    evaluate-Decided conservative conservative request request policy-made request-made

abbrev outcome : Result OfficialRiskDecision → Option (Bool × Decimal)
outcome (ok d) = some (d.approved, d.quantity)
outcome (err e) = none

-- Two per cent of the capital, reduced to sixteen by the correlation, buy 1.6 at a distance of ten.
evaluate-request : outcome (evaluate conservative request) ≡ some (true, fraction 16 1)
unfolding evaluate correlated sized sizes_for quantity_for risk_budget decision make_decision
    observation correlation_loop correlation_gate_for correlation_gate half_kelly_of stop_distance
    drawdown_fraction conservative all_passed first_blocked in_order max_coefficient unit whole
    fraction round round_from half_even add sub mul div negate absolute sum ◌+ℤ◌ ◌-ℤ◌ ◌*ℤ◌
evaluate-request = refl

taken : is_ok (evaluate conservative request) ≡ true
unfolding evaluate correlated sized sizes_for quantity_for risk_budget decision make_decision
    observation correlation_loop correlation_gate_for correlation_gate half_kelly_of stop_distance
    drawdown_fraction conservative all_passed first_blocked in_order max_coefficient unit whole
    fraction round round_from half_even add sub mul div negate absolute sum ◌+ℤ◌ ◌-ℤ◌ ◌*ℤ◌
taken = refl

abbrev trade : OfficialRiskDecision
trade = value_of (evaluate conservative request) taken

trade-approved : trade.approved ≡ true
unfolding evaluate correlated sized sizes_for quantity_for risk_budget decision make_decision
    observation correlation_loop correlation_gate_for correlation_gate half_kelly_of stop_distance
    drawdown_fraction conservative all_passed first_blocked in_order max_coefficient unit whole
    fraction round round_from half_even add sub mul div negate absolute sum ◌+ℤ◌ ◌-ℤ◌ ◌*ℤ◌
trade-approved = refl

evaluate-risk_at_stop_example : le trade.risk_at_stop (full_budget conservative request) ≡ true
evaluate-risk_at_stop_example =
    evaluate-risk_at_stop conservative conservative request request trade policy-made request-made
      (value_of-ok (evaluate conservative request) taken) trade-approved

abbrev rejection : Result OfficialRiskDecision → Option (Bool × Option String)
rejection (ok d) = some (d.approved, d.rejection_reason)
rejection (err e) = none

-- A budget of nine at a stop distance of seven: the quantity, rounded up in its last digit, costs
-- more than nine at the stop, so the trade that the engine sized itself is rejected, and the reason
-- that it gives is that of a sized trade.
abbrev sevenths : OfficialRiskRequest
sevenths = record request {
  capital = whole 450;
  stop_price = whole 93;
  drawdown = record { peak_equity = whole 450; current_equity = whole 450 };
  open_positions = [];
  correlations = [];
}

evaluate-sevenths :
    rejection (evaluate conservative sevenths)
    ≡ some (false, some "trade_risk_sized_within_all_caps")
unfolding evaluate correlated sized sizes_for quantity_for risk_budget decision make_decision
    observation correlation_loop correlation_gate_for correlation_gate half_kelly_of stop_distance
    drawdown_fraction conservative all_passed first_blocked in_order max_coefficient unit whole
    fraction round round_from half_even add sub mul div negate absolute sum ◌+ℤ◌ ◌-ℤ◌ ◌*ℤ◌
evaluate-sevenths = refl
