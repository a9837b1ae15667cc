-- ===== src/Risk/Engine.antt =====
-- `OfficialRiskEngine` of maais/risk/official.py: the chain of eight gates, and the size that they
-- leave. The divisors are positive for a request that was made.
use maais.Base.{
  ℕ, Bool, false, not, ◌||◌, ◌&&◌, String, str_eq, List, [], ◌∷◌, ◌++◌, any, map, is_nil, keep,
  Option, none, some, is_none, is_some, Result, ok, err, ◌>>◌, raise_if, value_error, runtime_error,
  ltb, if◌then◌else◌,
}
use maais.Decimal.{Decimal, zero_decimal, sub, mul, div, min, lt, le, absolute, whole, fraction}
use maais.Domain.{is_long, is_short}
use maais.Quality.{Gate, gate, passed, failed, not_applicable, all_passed, first_blocked, in_order}
use maais.Risk.Inputs.{OfficialRiskPolicy, OfficialRiskRequest, CorrelationObservation}

pub data RiskCheck : Type 0 where
  kelly price_and_stop drawdown_check correlation_check : RiskCheck
  trade_risk_at_stop portfolio_loss_at_stop gross_notional margin_check : RiskCheck

abbrev pub RiskGate : Type 0
RiskGate = Gate RiskCheck

pub record OfficialRiskDecision : Type 0 where
  pub approved : Bool
  pub quantity : Decimal
  pub notional : Decimal
  pub risk_at_stop : Decimal
  pub margin : Decimal
  pub half_kelly_fraction : Decimal
  pub drawdown_multiplier : Decimal
  pub correlation_multiplier : Decimal
  pub gates : List RiskGate
  pub rejection_reason : Option String

abbrev pub index : RiskCheck → ℕ
index kelly = 0
index price_and_stop = 1
index drawdown_check = 2
index correlation_check = 3
index trade_risk_at_stop = 4
index portfolio_loss_at_stop = 5
index gross_notional = 6
index margin_check = 7

-- `tuple(RiskCheck)`.
abbrev pub all_checks : List RiskCheck
all_checks =
    kelly ∷ price_and_stop ∷ drawdown_check ∷ correlation_check ∷ trade_risk_at_stop
    ∷ portfolio_loss_at_stop ∷ gross_notional ∷ margin_check ∷ []

-- `OfficialRiskDecision.__post_init__`.
unfoldable pub make_decision : OfficialRiskDecision → Result OfficialRiskDecision
unfolding in_order all_passed
make_decision d = do
  raise_if (not (in_order index all_checks d.gates))
      (value_error "official risk decision must contain every ordered risk gate")
  raise_if
      (lt d.quantity zero_decimal
        || (lt d.notional zero_decimal
            || (lt d.risk_at_stop zero_decimal
                || (lt d.margin zero_decimal
                    || (lt d.half_kelly_fraction zero_decimal
                        || (lt d.drawdown_multiplier zero_decimal
                            || lt d.correlation_multiplier zero_decimal))))))
      (value_error "risk decision must be nonnegative and finite")
  raise_if (if d.approved then not (all_passed d.gates) else all_passed d.gates)
      (value_error "risk approval must match its complete gate chain")
  raise_if (if d.approved then is_some d.rejection_reason else is_none d.rejection_reason)
      (value_error "risk rejection reason does not match approval")
  ok d

pub record Sizes : Type 0 where
  pub quantity : Decimal
  pub notional : Decimal
  pub risk_at_stop : Decimal
  pub margin : Decimal

-- `_decision`.
unfoldable pub decision :
    Sizes → Decimal → Decimal → Decimal → List RiskGate → Result OfficialRiskDecision
unfolding make_decision first_blocked all_passed
decision s half_kelly drawdown_multiplier correlation_multiplier gates = make_decision (record {
  approved = all_passed gates;
  quantity = s.quantity;
  notional = s.notional;
  risk_at_stop = s.risk_at_stop;
  margin = s.margin;
  half_kelly_fraction = half_kelly;
  drawdown_multiplier = drawdown_multiplier;
  correlation_multiplier = correlation_multiplier;
  gates = gates;
  rejection_reason = first_blocked gates;
})

-- The checks after those that are completed.
abbrev pub rest_of : List RiskCheck → List RiskGate → List RiskCheck
rest_of checks [] = checks
rest_of [] (g ∷ gs) = []
rest_of (check ∷ checks) (g ∷ gs) = rest_of checks gs

abbrev pub nothing : Sizes
nothing = record {
  quantity = zero_decimal;
  notional = zero_decimal;
  risk_at_stop = zero_decimal;
  margin = zero_decimal;
}

-- The completed gates, and those that they block.
abbrev pub filled_up : List RiskGate → List RiskGate
filled_up completed =
    completed
    ++ map (λ check. gate check not_applicable "prior_risk_gate_failed")
        (rest_of all_checks completed)

-- `_early_rejection`.
unfoldable pub early_rejection : Decimal → List RiskGate → Decimal → Result OfficialRiskDecision
unfolding decision
early_rejection half_kelly completed drawdown_multiplier =
    decision nothing half_kelly drawdown_multiplier zero_decimal (filled_up completed)

-- `observations[symbol]`, of a dict in which a later observation replaces an earlier one.
unfoldable pub observation : String → List CorrelationObservation → Option CorrelationObservation
observation symbol [] = none
observation symbol (o ∷ os) = elim (observation symbol os) [
  | some later ↦ some later
  | none ↦ if str_eq o.other_symbol symbol then some o else none
]

-- Fewer returns than the policy asks for.
abbrev pub is_cold : OfficialRiskPolicy → Option CorrelationObservation → Bool
is_cold p none = false
is_cold p (some o) = ltb o.aligned_return_count p.minimum_aligned_correlation_returns

abbrev pub correlation_of : Option CorrelationObservation → Option Decimal
correlation_of none = none
correlation_of (some o) = o.correlation

abbrev pub other_symbols : OfficialRiskRequest → List String
other_symbols r = map (λ p. p.symbol) (keep (λ p. not (str_eq p.symbol r.symbol)) r.open_positions)

-- The multiplier after one correlation.
abbrev pub reduced : OfficialRiskPolicy → Decimal → Decimal → Decimal
reduced p value multiplier =
    if le p.correlation_reduce_40_threshold value
    then min multiplier (fraction 6 1)
    else if le p.correlation_reduce_20_threshold value
    then min multiplier (fraction 8 1)
    else multiplier

-- The loop of `_correlation_gate`.
unfoldable pub correlation_loop :
    OfficialRiskPolicy
    → List CorrelationObservation
    → Decimal
    → List String
    → Result (Decimal × RiskGate)
correlation_loop p os multiplier [] =
    ok (multiplier, gate correlation_check passed "correlation_warm_and_within_limit")
correlation_loop p os multiplier (symbol ∷ symbols) =
    elim (correlation_of (observation symbol os)) [
      | none ↦ err (runtime_error "warm correlation unexpectedly has no value")
      | some raw ↦
          let rest = correlation_loop p os (reduced p (absolute raw) multiplier) symbols in
          if le p.correlation_block_threshold (absolute raw)
          then ok (zero_decimal, gate correlation_check failed "correlation_cluster_blocked")
          else rest
    ]

abbrev pub refused : String → Result (Decimal × RiskGate)
refused reason = ok (zero_decimal, gate correlation_check not_applicable reason)

-- `_correlation_gate`, for the symbols of the portfolio.
unfoldable pub correlation_gate_for :
    OfficialRiskPolicy → List CorrelationObservation → List String → Result (Decimal × RiskGate)
unfolding correlation_loop observation
correlation_gate_for p os symbols =
    if is_nil symbols
    then ok (whole 1, gate correlation_check passed "single_symbol_or_empty_portfolio")
    else if any (λ s. is_none (observation s os)) symbols
    then refused "correlation_observation_missing"
    else if any (λ s. is_cold p (observation s os)) symbols
    then refused "correlation_history_cold"
    else if any (λ s. is_none (correlation_of (observation s os))) symbols
    then refused "correlation_unavailable"
    else correlation_loop p os (whole 1) symbols

unfoldable pub correlation_gate :
    OfficialRiskPolicy → OfficialRiskRequest → Result (Decimal × RiskGate)
unfolding correlation_gate_for
correlation_gate p r = correlation_gate_for p r.correlations (other_symbols r)

-- Half of the Kelly fraction, up to the policy's maximum.
unfoldable pub half_kelly_of : OfficialRiskPolicy → OfficialRiskRequest → Decimal
half_kelly_of p r =
    let ratio = div r.expected_gain_fraction r.expected_loss_fraction in
    let full = div (sub (mul r.p_win ratio) (sub (whole 1) r.p_win)) ratio in
    min (div full (whole 2)) p.maximum_kelly_fraction

abbrev pub stop_is_valid : OfficialRiskRequest → Bool
stop_is_valid r =
    (is_long r.direction && lt r.stop_price r.executable_price)
    || (is_short r.direction && lt r.executable_price r.stop_price)

unfoldable pub stop_distance : OfficialRiskRequest → Decimal
stop_distance r = absolute (sub r.executable_price r.stop_price)

abbrev pub drawdown_multiplier_of : OfficialRiskPolicy → Decimal → Decimal
drawdown_multiplier_of p drawdown =
    if le p.drawdown_reduce_50_threshold drawdown
    then fraction 5 1
    else if le p.drawdown_reduce_25_threshold drawdown
    then fraction 75 2
    else whole 1
