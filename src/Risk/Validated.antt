-- ===== src/Risk/Validated.antt =====
-- The engine on a policy and a request that their constructors accepted.
use maais.Base.{◌≡◌, false, ok, Ensures, arith}
use maais.Decimal.{zero_decimal, le, lt}
use maais.Risk.Inputs.{OfficialRiskPolicy, OfficialRiskRequest, make_policy, make_request}
use maais.Risk.Sizing.{evaluate}
use maais.Risk.Amounts.{Ready}
use maais.Risk.Approval.{Decided, ready-Decided}

policy_caps :
    (p₀ p : OfficialRiskPolicy)
    → make_policy p₀ ≡ ok p
    → (le p.maximum_kelly_fraction zero_decimal ≡ false)
      × (le p.maximum_trade_loss_fraction zero_decimal ≡ false)
unfolding make_policy
policy_caps p₀ p h = ground (arith, h)

request_amounts :
    (r₀ r : OfficialRiskRequest)
    → make_request r₀ ≡ ok r
    → (le r.capital zero_decimal ≡ false)
      × (le r.executable_price zero_decimal ≡ false)
      × (lt r.entry_fee_fraction zero_decimal ≡ false)
unfolding make_request
request_amounts r₀ r h = ground (arith, h)

pub validated-Ready :
    (p₀ p : OfficialRiskPolicy) (r₀ r : OfficialRiskRequest)
    → make_policy p₀ ≡ ok p
    → make_request r₀ ≡ ok r
    → Ready p r
validated-Ready p₀ p r₀ r hp hr =
    let (kelly_cap, loss_cap) = policy_caps p₀ p hp in
    let (capital, price, fee) = request_amounts r₀ r hr in
    record {
      kelly_cap = kelly_cap;
      loss_cap = loss_cap;
      capital = capital;
      price = price;
      fee = fee;
    }

-- For a policy and a request that passed their validation the engine raises nothing and returns a
-- decision. The decision is approved exactly when, for the policy and the request, half of the Kelly
-- fraction is positive, the stop protects the direction, the drawdown is below the halt threshold, each
-- open position in another symbol has a known correlation over enough returns and below the block
-- threshold, and the quantity that is sized for the multipliers of the drawdown and of the strongest
-- correlation is positive, with its loss at the stop, the portfolio's loss, the gross notional and the
-- margin with the entry fee within their limits. An approved decision has those multipliers, that
-- quantity, which is the least of the four capacities, and its notional, loss at the stop and margin.
-- Every decision carries the eight gates in their order, a reason exactly when it is not approved, and
-- multipliers between 0 and 1.
pub evaluate-Decided :
    (p₀ p : OfficialRiskPolicy) (r₀ r : OfficialRiskRequest)
    → make_policy p₀ ≡ ok p
    → make_request r₀ ≡ ok r
    → Ensures (Decided p r) (evaluate p r)
evaluate-Decided p₀ p r₀ r hp hr = ready-Decided p r (validated-Ready p₀ p r₀ r hp hr)
