-- ===== src/Risk/Sizing.antt =====
-- The size of a trade behind the four capacity gates of `OfficialRiskEngine.evaluate`, and the whole
-- chain.
use maais.Base.{Bool, not, ◌&&◌, List, [], ◌∷◌, ◌++◌, map, Result, ◌>>=◌, if◌then◌else◌}
use maais.Decimal.{Decimal, zero_decimal, add, sub, mul, div, min, max, lt, le, sum, whole}
use maais.Quality.{gate, verdict, passed, failed, is_passed}
use maais.Risk.Inputs.{OfficialRiskPolicy, OfficialRiskRequest, OpenRiskPosition, drawdown_fraction}
use maais.Risk.Engine.{
  RiskGate, kelly, price_and_stop, drawdown_check, trade_risk_at_stop, portfolio_loss_at_stop,
  gross_notional, margin_check, OfficialRiskDecision, Sizes, decision, early_rejection,
  correlation_gate, half_kelly_of, stop_is_valid, stop_distance, drawdown_multiplier_of,
}

abbrev pub total : (OpenRiskPosition → Decimal) → OfficialRiskRequest → Decimal
total f r = sum (map f r.open_positions)

-- The money that the trade may lose.
unfoldable pub risk_budget : OfficialRiskPolicy → OfficialRiskRequest → Decimal → Decimal → Decimal
risk_budget p r dm cm =
    let risk_fraction = min (half_kelly_of p r) p.maximum_trade_loss_fraction in
    mul (mul (mul r.capital risk_fraction) dm) cm

-- What is left of a limit.
abbrev pub capacity : Decimal → Decimal → Decimal
capacity limit existing = max (sub limit existing) zero_decimal

abbrev pub loss_limit : OfficialRiskPolicy → OfficialRiskRequest → Decimal
loss_limit p r = mul r.capital p.maximum_portfolio_loss_fraction

abbrev pub notional_limit : OfficialRiskPolicy → OfficialRiskRequest → Decimal
notional_limit p r = mul r.capital p.maximum_gross_notional_fraction

abbrev pub margin_limit : OfficialRiskPolicy → OfficialRiskRequest → Decimal
margin_limit p r = mul r.capital p.maximum_margin_fraction

abbrev pub margin_cost : OfficialRiskRequest → Decimal
margin_cost r = mul r.executable_price (add (div (whole 1) (whole r.leverage)) r.entry_fee_fraction)

-- `min(quantity_caps.values())`.
unfoldable pub quantity_for : OfficialRiskPolicy → OfficialRiskRequest → Decimal → Decimal → Decimal
unfolding risk_budget
quantity_for p r dm cm =
    let by_trade = div (risk_budget p r dm cm) (stop_distance r) in
    let by_loss =
      div (capacity (loss_limit p r) (total (λ o. o.loss_at_stop) r)) (stop_distance r) in
    let by_notional =
      div (capacity (notional_limit p r) (total (λ o. o.notional) r)) r.executable_price in
    let by_margin = div (capacity (margin_limit p r) (total (λ o. o.margin) r)) (margin_cost r) in
    min (min (min by_trade by_loss) by_notional) by_margin

unfoldable pub sizes_for : OfficialRiskRequest → Decimal → Sizes
sizes_for r quantity = record {
  quantity = quantity;
  notional = mul quantity r.executable_price;
  risk_at_stop = mul quantity (stop_distance r);
  margin = div (mul quantity r.executable_price) (whole r.leverage);
}

-- The tests of the last four gates.
abbrev pub within_trade :
    OfficialRiskPolicy → OfficialRiskRequest → Decimal → Decimal → Sizes → Bool
within_trade p r dm cm s = lt zero_decimal s.quantity && le s.risk_at_stop (risk_budget p r dm cm)

abbrev pub within_loss : OfficialRiskPolicy → OfficialRiskRequest → Sizes → Bool
within_loss p r s = le (add (total (λ o. o.loss_at_stop) r) s.risk_at_stop) (loss_limit p r)

abbrev pub within_notional : OfficialRiskPolicy → OfficialRiskRequest → Sizes → Bool
within_notional p r s = le (add (total (λ o. o.notional) r) s.notional) (notional_limit p r)

abbrev pub within_margin : OfficialRiskPolicy → OfficialRiskRequest → Sizes → Bool
within_margin p r s =
    le (add (add (total (λ o. o.margin) r) s.margin) (mul s.notional r.entry_fee_fraction))
      (margin_limit p r)

-- The gate of the trade's own risk has the reason that goes with the quantity alone.
abbrev pub trade_gate : Bool → Bool → RiskGate
trade_gate within positive =
    gate trade_risk_at_stop (if within then passed else failed)
      (if positive then "trade_risk_sized_within_all_caps" else "no_risk_capacity")

-- The last four gates, from their tests and whether the quantity is positive.
abbrev pub capacity_verdicts : Bool → Bool → Bool → Bool → Bool → List RiskGate
capacity_verdicts positive trade loss notional margin =
    trade_gate trade positive
    ∷ verdict portfolio_loss_at_stop loss "portfolio_loss_at_stop_within_limit"
        "portfolio_loss_at_stop_exceeded"
    ∷ verdict gross_notional notional "gross_notional_within_limit" "gross_notional_exceeded"
    ∷ verdict margin_check margin "margin_and_entry_fee_within_limit"
        "margin_and_entry_fee_exceeded"
    ∷ []

abbrev pub capacity_gates :
    OfficialRiskPolicy → OfficialRiskRequest → Decimal → Decimal → Sizes → List RiskGate
capacity_gates p r dm cm s =
    capacity_verdicts (lt zero_decimal s.quantity) (within_trade p r dm cm s) (within_loss p r s)
      (within_notional p r s) (within_margin p r s)

-- The part of `evaluate` after the correlation gate.
unfoldable pub sized :
    OfficialRiskPolicy
    → OfficialRiskRequest
    → Decimal
    → Decimal
    → List RiskGate
    → Result OfficialRiskDecision
unfolding quantity_for sizes_for
sized p r dm cm gates =
    let s = sizes_for r (quantity_for p r dm cm) in
    decision s (half_kelly_of p r) dm cm (gates ++ capacity_gates p r dm cm s)

abbrev pub kelly_passed : RiskGate
kelly_passed = gate kelly passed "kelly_positive"

abbrev pub stop_passed : RiskGate
stop_passed = gate price_and_stop passed "executable_price_and_stop_valid"

abbrev pub drawdown_passed : RiskGate
drawdown_passed = gate drawdown_check passed "drawdown_within_limit"

-- The part of `evaluate` from the correlation gate on.
unfoldable pub correlated :
    OfficialRiskPolicy → OfficialRiskRequest → Decimal → Result OfficialRiskDecision
unfolding sized
correlated p r dm = do
  (cm, g) ← correlation_gate p r
  let gates = kelly_passed ∷ stop_passed ∷ drawdown_passed ∷ g ∷ []
  if is_passed g.status then sized p r dm cm gates else early_rejection (half_kelly_of p r) gates dm

unfoldable pub evaluate : OfficialRiskPolicy → OfficialRiskRequest → Result OfficialRiskDecision
unfolding correlated
evaluate p r =
    let half = half_kelly_of p r in
    let drawdown = drawdown_fraction r.drawdown in
    if le half zero_decimal
    then early_rejection (max half zero_decimal) (gate kelly failed "kelly_nonpositive" ∷ [])
        zero_decimal
    else if not (stop_is_valid r)
    then early_rejection half (kelly_passed ∷ gate price_and_stop failed "stop_not_protective" ∷ [])
        zero_decimal
    else if le p.drawdown_halt_threshold drawdown
    then early_rejection half
        (kelly_passed ∷ stop_passed ∷ gate drawdown_check failed "drawdown_halt" ∷ []) zero_decimal
    else correlated p r (drawdown_multiplier_of p drawdown)
