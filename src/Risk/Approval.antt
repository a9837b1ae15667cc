-- ===== src/Risk/Approval.antt =====
-- When a trade is approved, and that the engine always decides.
use maais.Base.{
  subst, sym, ap, ◌∙◌, ◌≡◌, refl, true, false, Bool-cases, inl, inr, List, [], ◌∷◌, ◌++◌, All,
  is_none, Result, ok, err, ◌>>=◌, Ensures, if◌then◌else◌, arith,
}
use maais.Decimal.{Decimal, zero_decimal, le, lt, max, fraction, unit, whole}
use maais.Decimal.Signs.{IsNonnegative, max-IsNonnegative}
use maais.Decimal.Bounds.{IsMultiplier}
use maais.Quality.{gate, failed, is_passed, all_passed, first_blocked-all_passed, in_order}
use maais.Risk.Inputs.{OfficialRiskPolicy, OfficialRiskRequest, drawdown_fraction}
use maais.Risk.Engine.{
  RiskGate, kelly, price_and_stop, drawdown_check, OfficialRiskDecision, Sizes, decision, index,
  all_checks, early_rejection, filled_up, nothing, other_symbols, half_kelly_of, stop_is_valid,
  drawdown_multiplier_of, correlation_gate,
}
use maais.Risk.Sizing.{
  risk_budget, quantity_for, sizes_for, within_trade, within_loss, within_notional, within_margin,
  capacity_gates, sized, correlated, evaluate, kelly_passed, stop_passed,
}
use maais.Risk.Amounts.{
  NonnegativeSizes, decided, decision_lem, positive-IsNonnegative, Ready, quantity-IsNonnegative,
  sizes_nonnegative,
}
use maais.Risk.Acceptable.{expected_dm, expected_cm, LeastCapacity, SizedFits, Acceptable, Taken}
use maais.Risk.Multipliers.{
  stop_is_valid-Protects, Protects-stop_is_valid, drawdown_multiplier_of-expected, Valued,
  correlation_gate_for-Valued, quantity_for-LeastCapacity,
}
use maais.Risk.Chain.{first_gates, chain-passed, chain-pass, chain-ordered, halves}
use maais.Risk.Correlation.{Known, Judged, correlation_gate_for-Judged}

-- A decision is approved exactly for an acceptable request, has a reason exactly otherwise, and has the
-- eight gates in their order and multipliers between 0 and 1.
pub record Decided (p : OfficialRiskPolicy) (r : OfficialRiskRequest) (d : OfficialRiskDecision)
    : Type 0 where
  pub sound : d.approved ≡ true → Taken p r d
  pub complete : Acceptable p r → d.approved ≡ true
  pub ordered : in_order index all_checks d.gates ≡ true
  pub explained : is_none d.rejection_reason ≡ d.approved
  pub drawdown_bounds : IsMultiplier d.drawdown_multiplier
  pub correlation_bounds : IsMultiplier d.correlation_multiplier

zero-IsMultiplier : IsMultiplier zero_decimal
unfolding whole unit
zero-IsMultiplier = (refl, refl)

nothing_nonnegative : NonnegativeSizes nothing
nothing_nonnegative = record { quantity = refl; notional = refl; risk = refl; margin = refl }

-- The decision behind a chain of gates, from what the chain says of the trade.
outcome_of_chain :
    (p : OfficialRiskPolicy) (r : OfficialRiskRequest) (s : Sizes) (half dm cm : Decimal)
    (gates : List RiskGate)
    → NonnegativeSizes s
    → IsNonnegative half
    → IsMultiplier dm
    → IsMultiplier cm
    → in_order index all_checks gates ≡ true
    → (all_passed gates ≡ true → Taken p r (decided s half dm cm gates))
    → (Acceptable p r → all_passed gates ≡ true)
    → Ensures (Decided p r) (decision s half dm cm gates)
outcome_of_chain p r s half dm cm gates n h1 h2 h3 ordered sound complete =
    rw (decision_lem s half dm cm gates n h1 h2.0 h3.0 ordered) (record {
      sound = sound;
      complete = complete;
      ordered = ordered;
      explained = first_blocked-all_passed gates;
      drawdown_bounds = h2;
      correlation_bounds = h3;
    })

module _ (p : OfficialRiskPolicy) (r : OfficialRiskRequest) (ready : Ready p r) (dm cm : Decimal)
    (g : RiskGate) (edge : le (half_kelly_of p r) zero_decimal ≡ false)
    (protective : stop_is_valid r ≡ true)
    (not_halted : le p.drawdown_halt_threshold (drawdown_fraction r.drawdown) ≡ false)
    (dm_bounds : IsMultiplier dm) (dm_same : dm ≡ expected_dm p r) where
  sized-Decided :
      Judged (All (Known p r.correlations) (other_symbols r)) (cm, g)
      → is_passed g.status ≡ true
      → cm ≡ expected_cm p r
      → Ensures (Decided p r) (sized p r dm cm (first_gates g))
  unfolding sized sizes_for
  sized-Decided judged t cm_same =
      let half = positive-IsNonnegative (half_kelly_of p r) edge in
      let q = quantity_for p r dm cm in
      let s = sizes_for r q in
      outcome_of_chain p r s (half_kelly_of p r) dm cm (first_gates g ++ capacity_gates p r dm cm s)
        (sizes_nonnegative p r ready q
          (quantity-IsNonnegative p r ready dm cm half dm_bounds.0 judged.bounded.0))
        half dm_bounds judged.bounded
        (chain-ordered g (lt zero_decimal s.quantity) (within_trade p r dm cm s) (within_loss p r s)
          (within_notional p r s) (within_margin p r s) judged.same_check)
        (λ all.
          let (_, trade, loss, notional, margin) =
            chain-passed g (lt zero_decimal s.quantity) (within_trade p r dm cm s)
              (within_loss p r s) (within_notional p r s) (within_margin p r s) all in
          let (positive, budget) =
            halves (lt zero_decimal s.quantity) (le s.risk_at_stop (risk_budget p r dm cm)) trade in
          let fits : SizedFits p r dm cm = record {
            positive = positive;
            trade_loss = budget;
            portfolio_loss = loss;
            gross = notional;
            margin = margin;
          } in
          record {
            acceptable = record {
              edge = edge;
              protective = stop_is_valid-Protects r protective;
              not_halted = not_halted;
              known = judged.sound t;
              fits =
                  subst (λ x. SizedFits p r x (expected_cm p r)) dm_same
                    (subst (SizedFits p r dm) cm_same fits);
            };
            same_dm = dm_same;
            same_cm = cm_same;
            same_quantity = same;
            least =
                subst (LeastCapacity p r (expected_dm p r) (expected_cm p r)) (sym same)
                  (quantity_for-LeastCapacity p r (expected_dm p r) (expected_cm p r));
            same_notional = refl;
            same_risk = refl;
            same_margin = refl;
          })
        (λ a.
          chain-pass g (lt zero_decimal s.quantity) (within_trade p r dm cm s) (within_loss p r s)
            (within_notional p r s) (within_margin p r s) t
            (rw ((back a).positive, (back a).trade_loss) refl) (back a).portfolio_loss
            (back a).gross (back a).margin)
    where
      same : quantity_for p r dm cm ≡ quantity_for p r (expected_dm p r) (expected_cm p r)
      same =
          ap (λ x. quantity_for p r x cm) dm_same ∙ ap (quantity_for p r (expected_dm p r)) cm_same

      back : Acceptable p r → SizedFits p r dm cm
      back a =
          subst (SizedFits p r dm) (sym cm_same)
            (subst (λ x. SizedFits p r x (expected_cm p r)) (sym dm_same) a.fits)

  uncorrelated-Decided :
      Judged (All (Known p r.correlations) (other_symbols r)) (cm, g)
      → is_passed g.status ≡ false
      → Ensures (Decided p r) (early_rejection (half_kelly_of p r) (first_gates g) dm)
  unfolding early_rejection all_passed in_order
  uncorrelated-Decided judged f =
      outcome_of_chain p r nothing (half_kelly_of p r) dm zero_decimal (filled_up (first_gates g))
        nothing_nonnegative (positive-IsNonnegative (half_kelly_of p r) edge) dm_bounds
        zero-IsMultiplier (rw judged.same_check refl)
        (λ all. let wrong : false ≡ true = rw f at all in cc)
        (λ a. let wrong = judged.complete a.known in cc)

drawdown_multiplier_of-IsMultiplier :
    (p : OfficialRiskPolicy) (drawdown : Decimal) → IsMultiplier (drawdown_multiplier_of p drawdown)
unfolding fraction whole unit
drawdown_multiplier_of-IsMultiplier p drawdown = (ground arith, ground arith)

module _ (p : OfficialRiskPolicy) (r : OfficialRiskRequest) (ready : Ready p r) where
  correlated-Decided :
      le (half_kelly_of p r) zero_decimal ≡ false
      → stop_is_valid r ≡ true
      → le p.drawdown_halt_threshold (drawdown_fraction r.drawdown) ≡ false
      → Ensures
          (Decided p r)
          (correlated p r (drawdown_multiplier_of p (drawdown_fraction r.drawdown)))
  unfolding correlated correlation_gate
  correlated-Decided edge protective not_halted =
      after (correlation_gate p r) (correlation_gate_for-Judged p r.correlations (other_symbols r))
        (correlation_gate_for-Valued p r.correlations (other_symbols r))
    where
      dm : Decimal
      dm = drawdown_multiplier_of p (drawdown_fraction r.drawdown)

      after :
          (x : Result (Decimal × RiskGate))
          → Ensures (Judged (All (Known p r.correlations) (other_symbols r))) x
          → Valued (expected_cm p r) x
          → Ensures (Decided p r) (
              x >>= λ out.
              if is_passed out.1.status
              then sized p r dm out.0 (first_gates out.1)
              else early_rejection (half_kelly_of p r) (first_gates out.1) dm)
      after (err e) judged valued = absurd judged
      after (ok out) judged valued = elim (Bool-cases (is_passed out.1.status)) [
        | inl t ↦ rw t (
            sized-Decided p r ready dm out.0 out.1 edge protective not_halted
              (drawdown_multiplier_of-IsMultiplier p (drawdown_fraction r.drawdown))
              (drawdown_multiplier_of-expected p r) judged t (valued t))
        | inr f ↦ rw f (
            uncorrelated-Decided p r ready dm out.0 out.1 edge protective not_halted
              (drawdown_multiplier_of-IsMultiplier p (drawdown_fraction r.drawdown))
              (drawdown_multiplier_of-expected p r) judged f)
      ]

  pub ready-Decided : Ensures (Decided p r) (evaluate p r)
  unfolding evaluate early_rejection all_passed in_order
  ready-Decided = elim (Bool-cases (le (half_kelly_of p r) zero_decimal)) [
    | inl no_edge ↦ rw no_edge (
        outcome_of_chain p r nothing (max (half_kelly_of p r) zero_decimal) zero_decimal
          zero_decimal (filled_up (gate kelly failed "kelly_nonpositive" ∷ [])) nothing_nonnegative
          (max-IsNonnegative (half_kelly_of p r)) zero-IsMultiplier zero-IsMultiplier refl
          (λ all. cc) (λ a. let wrong = a.edge in cc))
    | inr edge ↦ elim (Bool-cases (stop_is_valid r)) [
      | inr unprotected ↦
          rw (edge, unprotected)
            (outcome_of_chain p r nothing (half_kelly_of p r) zero_decimal zero_decimal
              (filled_up (kelly_passed ∷ gate price_and_stop failed "stop_not_protective" ∷ []))
              nothing_nonnegative (positive-IsNonnegative (half_kelly_of p r) edge)
              zero-IsMultiplier zero-IsMultiplier refl (λ all. cc)
              (λ a. let wrong = Protects-stop_is_valid r a.protective in cc))
      | inl protective ↦
          elim (Bool-cases (le p.drawdown_halt_threshold (drawdown_fraction r.drawdown))) [
            | inl halted ↦
                rw (edge, protective, halted)
                  (outcome_of_chain p r nothing (half_kelly_of p r) zero_decimal zero_decimal
                    (filled_up (
                      kelly_passed ∷ stop_passed ∷ gate drawdown_check failed "drawdown_halt" ∷ []))
                    nothing_nonnegative (positive-IsNonnegative (half_kelly_of p r) edge)
                    zero-IsMultiplier zero-IsMultiplier refl (λ all. cc)
                    (λ a. let wrong = a.not_halted in cc))
            | inr not_halted ↦
                rw (edge, protective, not_halted) (correlated-Decided edge protective not_halted)
          ]
    ]
  ]
