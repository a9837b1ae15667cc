-- ===== src/Risk/Bounds.antt =====
-- What a trade that the engine approves may lose.
use maais.Base.{◌≡◌, true, ok, Ensures, subst, sym, ap, ◌∙◌}
use maais.Decimal.{Decimal, mul, le, min}
use maais.Decimal.Signs.{IsNonnegative, mul-IsNonnegative, min-IsNonnegative}
use maais.Decimal.Bounds.{IsMultiplier, le_trans, mul-Coefficient, mul-shrinks}
use maais.Risk.Inputs.{OfficialRiskPolicy, OfficialRiskRequest, make_policy, make_request}
use maais.Risk.Engine.{OfficialRiskDecision, half_kelly_of, stop_distance}
use maais.Risk.Sizing.{risk_budget, quantity_for, evaluate}
use maais.Risk.Acceptable.{expected_dm, expected_cm}
use maais.Risk.Amounts.{Ready, positive-IsNonnegative}
use maais.Risk.Approval.{Decided}
use maais.Risk.Validated.{validated-Ready, evaluate-Decided}

abbrev pub full_budget : OfficialRiskPolicy → OfficialRiskRequest → Decimal
full_budget p r = mul r.capital (min (half_kelly_of p r) p.maximum_trade_loss_fraction)

within_caps :
    (p : OfficialRiskPolicy) (r : OfficialRiskRequest) (dm cm : Decimal)
    → Ready p r
    → IsNonnegative (half_kelly_of p r)
    → IsMultiplier dm
    → IsMultiplier cm
    → le (risk_budget p r dm cm) (full_budget p r) ≡ true
unfolding risk_budget
within_caps p r dm cm ready half (h, g) (h', g') =
    let capital = positive-IsNonnegative r.capital ready.capital in
    let share =
      min-IsNonnegative (half_kelly_of p r) p.maximum_trade_loss_fraction half
        (positive-IsNonnegative p.maximum_trade_loss_fraction ready.loss_cap) in
    let full = mul-IsNonnegative r.capital _ capital share in
    le_trans (mul (mul (full_budget p r) dm) cm) (mul (full_budget p r) dm) (full_budget p r)
      (mul-shrinks _ cm (mul-IsNonnegative _ dm full h) h' (mul-Coefficient _ dm full h) g')
      (mul-shrinks _ dm full h (mul-Coefficient r.capital _ capital share) g)

-- For a policy and a request that passed their validation, what an approved trade loses at its stop
-- is at most the capital times the lesser of the half Kelly fraction and the policy's largest loss of
-- a trade, whatever the drawdown and the correlations of the request.
pub evaluate-risk_at_stop :
    (p₀ p : OfficialRiskPolicy) (r₀ r : OfficialRiskRequest) (d : OfficialRiskDecision)
    → make_policy p₀ ≡ ok p
    → make_request r₀ ≡ ok r
    → evaluate p r ≡ ok d
    → d.approved ≡ true
    → le d.risk_at_stop (full_budget p r) ≡ true
evaluate-risk_at_stop p₀ p r₀ r d hp hr run approved =
    let decided : Decided p r d =
      subst (Ensures (Decided p r)) run (evaluate-Decided p₀ p r₀ r hp hr) in
    let a = decided.sound approved in
    let risked = mul (quantity_for p r (expected_dm p r) (expected_cm p r)) (stop_distance r) in
    subst (λ x. le x (full_budget p r) ≡ true)
      (sym (a.same_risk ∙ ap (λ q. mul q (stop_distance r)) a.same_quantity))
      (le_trans risked (risk_budget p r (expected_dm p r) (expected_cm p r)) (full_budget p r)
        a.acceptable.fits.trade_loss
        (within_caps p r (expected_dm p r) (expected_cm p r) (validated-Ready p₀ p r₀ r hp hr)
          (positive-IsNonnegative (half_kelly_of p r) a.acceptable.edge)
          (subst IsMultiplier a.same_dm decided.drawdown_bounds)
          (subst IsMultiplier a.same_cm decided.correlation_bounds)))
