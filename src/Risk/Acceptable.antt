-- ===== src/Risk/Acceptable.antt =====
-- Which trades the engine should approve, by the policy and the request alone, and how large.
use maais.Base.{
  ◌≡◌, ◌⊎◌, Bool, true, false, String, List, All, any, Option, none, some, if◌then◌else◌,
}
use maais.Decimal.{Decimal, zero_decimal, add, mul, div, le, lt, min, absolute, fraction, whole}
use maais.Domain.{Direction, long, short, neutral}
use maais.Risk.Inputs.{
  OfficialRiskPolicy, OfficialRiskRequest, CorrelationObservation, drawdown_fraction,
}
use maais.Risk.Engine.{
  OfficialRiskDecision, observation, correlation_of, other_symbols, half_kelly_of, stop_distance,
}
use maais.Risk.Sizing.{
  total, risk_budget, capacity, loss_limit, notional_limit, margin_limit, margin_cost, quantity_for,
}
use maais.Risk.Correlation.{Known}

-- The multiplier of the drawdown: the lesser of those that the two thresholds set.
abbrev pub expected_dm : OfficialRiskPolicy → OfficialRiskRequest → Decimal
expected_dm p r =
    let drawdown = drawdown_fraction r.drawdown in
    min (if le p.drawdown_reduce_50_threshold drawdown then fraction 5 1 else whole 1)
      (if le p.drawdown_reduce_25_threshold drawdown then fraction 75 2 else whole 1)

-- A correlation is at the threshold or beyond.
abbrev pub reaches : Decimal → Option Decimal → Bool
reaches threshold none = false
reaches threshold (some raw) = le threshold (absolute raw)

-- So is that of one of the symbols.
abbrev pub some_reach : Decimal → List CorrelationObservation → List String → Bool
some_reach threshold os symbols =
    any (λ s. reaches threshold (correlation_of (observation s os))) symbols

-- The multiplier of the correlations: that of the strongest one.
abbrev pub expected_cm_for :
    OfficialRiskPolicy → List CorrelationObservation → List String → Decimal
expected_cm_for p os symbols =
    if some_reach p.correlation_reduce_40_threshold os symbols
    then fraction 6 1
    else if some_reach p.correlation_reduce_20_threshold os symbols
    then fraction 8 1
    else whole 1

abbrev pub expected_cm : OfficialRiskPolicy → OfficialRiskRequest → Decimal
expected_cm p r = expected_cm_for p r.correlations (other_symbols r)

-- The least of four values.
pub record IsLeast (q a b c d : Decimal) : Type 0 where
  pub first : le q a ≡ true
  pub second : le q b ≡ true
  pub third : le q c ≡ true
  pub fourth : le q d ≡ true
  pub attained : (q ≡ a) ⊎ ((q ≡ b) ⊎ ((q ≡ c) ⊎ (q ≡ d)))

-- The quantity is the least of those that the budget of the trade and what is left of the limits of
-- the loss, the notional and the margin pay for.
abbrev pub LeastCapacity :
    OfficialRiskPolicy → OfficialRiskRequest → Decimal → Decimal → Decimal → Type 0
LeastCapacity p r dm cm q =
    IsLeast q (div (risk_budget p r dm cm) (stop_distance r))
      (div (capacity (loss_limit p r) (total (λ o. o.loss_at_stop) r)) (stop_distance r))
      (div (capacity (notional_limit p r) (total (λ o. o.notional) r)) r.executable_price)
      (div (capacity (margin_limit p r) (total (λ o. o.margin) r)) (margin_cost r))

-- A quantity within the limits: it is positive, what it loses at the stop is within the budget, and
-- with the open positions its loss, its notional and its margin with the entry fee are within the
-- limits of the capital.
pub record Fits (p : OfficialRiskPolicy) (r : OfficialRiskRequest) (dm cm q : Decimal)
    : Type 0 where
  pub positive : lt zero_decimal q ≡ true
  pub trade_loss : le (mul q (stop_distance r)) (risk_budget p r dm cm) ≡ true
  pub portfolio_loss :
      le (add (total (λ o. o.loss_at_stop) r) (mul q (stop_distance r))) (loss_limit p r) ≡ true
  pub gross :
      le (add (total (λ o. o.notional) r) (mul q r.executable_price)) (notional_limit p r) ≡ true
  pub margin :
      le
        (add
          (add (total (λ o. o.margin) r) (div (mul q r.executable_price) (whole r.leverage)))
          (mul (mul q r.executable_price) r.entry_fee_fraction))
        (margin_limit p r)
      ≡ true

-- A quantity that the engine sizes for its multipliers, within the limits.
abbrev pub SizedFits : OfficialRiskPolicy → OfficialRiskRequest → Decimal → Decimal → Type 0
SizedFits p r dm cm = Fits p r dm cm (quantity_for p r dm cm)

-- The stop lies on the losing side of the price.
abbrev pub Protects : Direction → Decimal → Decimal → Type 0
Protects long stop price = lt stop price ≡ true
Protects short stop price = lt price stop ≡ true
Protects neutral stop price = ⊥

-- A request for a trade that may be made: it has an edge, a stop on its losing side, an equity not too
-- far below its peak and small known correlations, and the quantity for it is within the limits.
pub record Acceptable (p : OfficialRiskPolicy) (r : OfficialRiskRequest) : Type 0 where
  pub edge : le (half_kelly_of p r) zero_decimal ≡ false
  pub protective : Protects r.direction r.stop_price r.executable_price
  pub not_halted : le p.drawdown_halt_threshold (drawdown_fraction r.drawdown) ≡ false
  pub known : All (Known p r.correlations) (other_symbols r)
  pub fits : SizedFits p r (expected_dm p r) (expected_cm p r)

-- A decision to make such a trade, with its multipliers and its sizes.
pub record Taken (p : OfficialRiskPolicy) (r : OfficialRiskRequest) (d : OfficialRiskDecision)
    : Type 0 where
  pub acceptable : Acceptable p r
  pub same_dm : d.drawdown_multiplier ≡ expected_dm p r
  pub same_cm : d.correlation_multiplier ≡ expected_cm p r
  pub same_quantity : d.quantity ≡ quantity_for p r (expected_dm p r) (expected_cm p r)
  pub least : LeastCapacity p r (expected_dm p r) (expected_cm p r) d.quantity
  pub same_notional : d.notional ≡ mul d.quantity r.executable_price
  pub same_risk : d.risk_at_stop ≡ mul d.quantity (stop_distance r)
  pub same_margin : d.margin ≡ div d.notional (whole r.leverage)
