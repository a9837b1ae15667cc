-- ===== src/Risk/Amounts.antt =====
-- The amounts of a decision are not negative, so its constructor accepts it.
use maais.Base.{
  ◌≡◌, refl, Bool, true, false, not, List, Option, String, is_none, is_some, ok, if◌then◌else◌,
  arith,
}
use maais.Decimal.{Decimal, zero_decimal, sub, le, lt, div, whole}
use maais.Decimal.Signs.{
  IsNonnegative, mul-IsNonnegative, add-IsNonnegative, div-IsNonnegative, absolute-IsNonnegative,
  min-IsNonnegative, max-IsNonnegative, whole-IsNonnegative,
}
use maais.Quality.{all_passed, first_blocked, first_blocked-all_passed, in_order}
use maais.Risk.Inputs.{OfficialRiskPolicy, OfficialRiskRequest}
use maais.Risk.Engine.{
  RiskGate, OfficialRiskDecision, Sizes, decision, make_decision, index, all_checks, half_kelly_of,
  stop_distance,
}
use maais.Risk.Sizing.{
  total, risk_budget, loss_limit, notional_limit, margin_limit, margin_cost, capacity, quantity_for,
  sizes_for,
}

pub record NonnegativeSizes (s : Sizes) : Type 0 where
  pub quantity : IsNonnegative s.quantity
  pub notional : IsNonnegative s.notional
  pub risk : IsNonnegative s.risk_at_stop
  pub margin : IsNonnegative s.margin

abbrev pub decided : Sizes → Decimal → Decimal → Decimal → List RiskGate → OfficialRiskDecision
decided s half dm cm gates = record {
  approved = all_passed gates;
  quantity = s.quantity;
  notional = s.notional;
  risk_at_stop = s.risk_at_stop;
  margin = s.margin;
  half_kelly_fraction = half;
  drawdown_multiplier = dm;
  correlation_multiplier = cm;
  gates = gates;
  rejection_reason = first_blocked gates;
}

agreeing : (b : Bool) (x : Option String) → is_none x ≡ b → (if b then not b else b) ≡ false
agreeing true x h = refl
agreeing false x h = refl

explained_by :
    (b : Bool) (x : Option String) → is_none x ≡ b → (if b then is_some x else is_none x) ≡ false
explained_by b x h = ground (arith, h)

pub decision_lem :
    (s : Sizes) (half dm cm : Decimal) (gates : List RiskGate)
    → NonnegativeSizes s
    → IsNonnegative half
    → IsNonnegative dm
    → IsNonnegative cm
    → in_order index all_checks gates ≡ true
    → decision s half dm cm gates ≡ ok (decided s half dm cm gates)
unfolding decision make_decision
decision_lem s half dm cm gates n h1 h2 h3 ordered =
    let same = first_blocked-all_passed gates in
    ground (
      arith,
      ordered,
      n.quantity,
      n.notional,
      n.risk,
      n.margin,
      h1,
      h2,
      h3,
      agreeing (all_passed gates) (first_blocked gates) same,
      explained_by (all_passed gates) (first_blocked gates) same,
    )

pub positive-IsNonnegative : (a : Decimal) → le a zero_decimal ≡ false → IsNonnegative a
positive-IsNonnegative a h = ground (arith, h)

-- What makes every amount that the engine computes nonnegative.
pub record Ready (p : OfficialRiskPolicy) (r : OfficialRiskRequest) : Type 0 where
  pub kelly_cap : le p.maximum_kelly_fraction zero_decimal ≡ false
  pub loss_cap : le p.maximum_trade_loss_fraction zero_decimal ≡ false
  pub capital : le r.capital zero_decimal ≡ false
  pub price : le r.executable_price zero_decimal ≡ false
  pub fee : lt r.entry_fee_fraction zero_decimal ≡ false

not_negative : (a : Decimal) → lt a zero_decimal ≡ false → IsNonnegative a
not_negative a h = ground (arith, h)

capacity-IsNonnegative : (limit existing : Decimal) → IsNonnegative (capacity limit existing)
capacity-IsNonnegative limit existing = max-IsNonnegative (sub limit existing)

module _ (p : OfficialRiskPolicy) (r : OfficialRiskRequest) (ready : Ready p r) where
  price-IsNonnegative : IsNonnegative r.executable_price
  price-IsNonnegative = positive-IsNonnegative r.executable_price ready.price

  distance-IsNonnegative : IsNonnegative (stop_distance r)
  unfolding stop_distance
  distance-IsNonnegative = absolute-IsNonnegative _

  budget-IsNonnegative :
      (dm cm : Decimal)
      → IsNonnegative (half_kelly_of p r)
      → IsNonnegative dm
      → IsNonnegative cm
      → IsNonnegative (risk_budget p r dm cm)
  unfolding risk_budget
  budget-IsNonnegative dm cm half h g =
      mul-IsNonnegative _ cm
        (mul-IsNonnegative _ dm
          (mul-IsNonnegative r.capital _ (positive-IsNonnegative r.capital ready.capital) (
            min-IsNonnegative (half_kelly_of p r) p.maximum_trade_loss_fraction half
              (positive-IsNonnegative p.maximum_trade_loss_fraction ready.loss_cap)))
          h)
        g

  cost-IsNonnegative : IsNonnegative (margin_cost r)
  cost-IsNonnegative = mul-IsNonnegative r.executable_price _ price-IsNonnegative (
      add-IsNonnegative (div (whole 1) (whole r.leverage)) r.entry_fee_fraction
        (div-IsNonnegative (whole 1) (whole r.leverage) (whole-IsNonnegative 1)
          (whole-IsNonnegative r.leverage))
        (not_negative r.entry_fee_fraction ready.fee))

  pub quantity-IsNonnegative :
      (dm cm : Decimal)
      → IsNonnegative (half_kelly_of p r)
      → IsNonnegative dm
      → IsNonnegative cm
      → IsNonnegative (quantity_for p r dm cm)
  unfolding quantity_for
  quantity-IsNonnegative dm cm half h g =
      min-IsNonnegative _ _
        (min-IsNonnegative _ _
          (min-IsNonnegative _ _
            (div-IsNonnegative (risk_budget p r dm cm) (stop_distance r)
              (budget-IsNonnegative dm cm half h g) distance-IsNonnegative)
            (div-IsNonnegative (capacity (loss_limit p r) (total (λ o. o.loss_at_stop) r))
              (stop_distance r)
              (capacity-IsNonnegative (loss_limit p r) (total (λ o. o.loss_at_stop) r))
              distance-IsNonnegative))
          (div-IsNonnegative (capacity (notional_limit p r) (total (λ o. o.notional) r))
            r.executable_price
            (capacity-IsNonnegative (notional_limit p r) (total (λ o. o.notional) r))
            price-IsNonnegative))
        (div-IsNonnegative (capacity (margin_limit p r) (total (λ o. o.margin) r)) (margin_cost r)
          (capacity-IsNonnegative (margin_limit p r) (total (λ o. o.margin) r)) cost-IsNonnegative)

  pub sizes_nonnegative : (q : Decimal) → IsNonnegative q → NonnegativeSizes (sizes_for r q)
  unfolding sizes_for
  sizes_nonnegative q h = record {
    quantity = h;
    notional = mul-IsNonnegative q r.executable_price h price-IsNonnegative;
    risk = mul-IsNonnegative q (stop_distance r) h distance-IsNonnegative;
    margin =
        div-IsNonnegative _ (whole r.leverage)
          (mul-IsNonnegative q r.executable_price h price-IsNonnegative)
          (whole-IsNonnegative r.leverage);
  }
