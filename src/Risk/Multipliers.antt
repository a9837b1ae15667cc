-- ===== src/Risk/Multipliers.antt =====
-- The multipliers and the quantity of the engine are the expected ones.
use maais.Base.{
  ◌&&◌, ◌≡◌, refl, inl, inr, ◌⊎◌, Bool, true, false, Bool-cases, ◌||◌, String, List, [], ◌∷◌, any,
  Option, none, some, is_none, Result, ok, err, runtime_error, if◌then◌else◌, arith, ◌∙◌, subst,
}
use maais.Decimal.{lt, Decimal, zero_decimal, div, le, min, absolute, fraction, whole, unit}
use maais.Decimal.Bounds.{le_trans, min-either, min-first, min-second}
use maais.Quality.{gate, failed, is_passed}
use maais.Domain.{Direction, long, short, neutral, is_long, is_short}
use maais.Risk.Inputs.{
  OfficialRiskPolicy, OfficialRiskRequest, CorrelationObservation, drawdown_fraction,
}
use maais.Risk.Engine.{
  stop_is_valid, refused, RiskGate, correlation_check, observation, is_cold, correlation_of,
  reduced, correlation_loop, correlation_gate_for, drawdown_multiplier_of, stop_distance,
}
use maais.Risk.Sizing.{
  total, risk_budget, capacity, loss_limit, notional_limit, margin_limit, margin_cost, quantity_for,
}
use maais.Risk.Acceptable.{
  Protects, expected_dm, reaches, some_reach, expected_cm_for, IsLeast, LeastCapacity,
}

pub drawdown_multiplier_of-expected :
    (p : OfficialRiskPolicy) (r : OfficialRiskRequest)
    → drawdown_multiplier_of p (drawdown_fraction r.drawdown) ≡ expected_dm p r
unfolding fraction whole unit
drawdown_multiplier_of-expected p r = ground arith

-- What a round does to the multiplier, by whether the thresholds are reached.
abbrev lowered : Bool → Bool → Decimal → Decimal
lowered far near m = if far then min m (fraction 6 1) else if near then min m (fraction 8 1) else m

lowered_twice :
    (a a' b b' : Bool) (m : Decimal) → lowered b b' (lowered a a' m) ≡ lowered (a || b) (a' || b') m
unfolding fraction unit
lowered_twice a a' b b' m = ground arith

-- A call that returns a passed gate has the multiplier; one that raises says nothing.
abbrev pub Valued : Decimal → Result (Decimal × RiskGate) → Type 0
Valued value (ok out) = is_passed out.1.status ≡ true → out.0 ≡ value
Valued value (err e) = Unit

module _ (p : OfficialRiskPolicy) (os : List CorrelationObservation) where
  abbrev far : List String → Bool
  far symbols = some_reach p.correlation_reduce_40_threshold os symbols

  abbrev near : List String → Bool
  near symbols = some_reach p.correlation_reduce_20_threshold os symbols

  round-Valued :
      (m : Decimal) (symbols : List String) (later : Decimal → Result (Decimal × RiskGate))
      (x : Option Decimal)
      → ((m' : Decimal) → Valued (lowered (far symbols) (near symbols) m') (later m'))
      → Valued
          (lowered
            (reaches p.correlation_reduce_40_threshold x || far symbols)
            (reaches p.correlation_reduce_20_threshold x || near symbols)
            m)
          (elim x [
            | none ↦ err (runtime_error "warm correlation unexpectedly has no value")
            | some raw ↦
                let rest = later (reduced p (absolute raw) m) in
                if le p.correlation_block_threshold (absolute raw)
                then ok (zero_decimal, gate correlation_check failed "correlation_cluster_blocked")
                else rest
          ])
  round-Valued m symbols later none next = tt
  round-Valued m symbols later (some raw) next =
      elim (Bool-cases (le p.correlation_block_threshold (absolute raw))) [
        | inl blocked ↦ rw blocked (λ t. cc)
        | inr below ↦ rw below (
            subst (λ v. Valued v (later (reduced p (absolute raw) m)))
              (lowered_twice (le p.correlation_reduce_40_threshold (absolute raw))
                (le p.correlation_reduce_20_threshold (absolute raw)) (far symbols) (near symbols)
                m)
              (next (reduced p (absolute raw) m)))
      ]

  loop-Valued :
      (m : Decimal) (symbols : List String)
      → Valued (lowered (far symbols) (near symbols) m) (correlation_loop p os m symbols)
  unfolding correlation_loop
  loop-Valued m [] = λ t. refl
  loop-Valued m (s ∷ symbols) =
      round-Valued m symbols (λ m'. correlation_loop p os m' symbols)
        (correlation_of (observation s os)) (λ m'. loop-Valued m' symbols)

  from_one :
      (a b : Bool)
      → lowered a b (whole 1) ≡ (if a then fraction 6 1 else if b then fraction 8 1 else whole 1)
  unfolding fraction whole unit
  from_one true b = refl
  from_one false true = refl
  from_one false false = refl

  unless :
      (b : Bool) (v : Decimal) (reason : String) (x : Result (Decimal × RiskGate))
      → Valued v x
      → Valued v (if b then refused reason else x)
  unless true v reason x h = λ t. cc
  unless false v reason x h = h

  pub correlation_gate_for-Valued :
      (symbols : List String)
      → Valued (expected_cm_for p os symbols) (correlation_gate_for p os symbols)
  unfolding correlation_gate_for
  correlation_gate_for-Valued [] = λ t. refl
  correlation_gate_for-Valued (s ∷ ss) =
      let symbols : List String = s ∷ ss in
      let value = expected_cm_for p os symbols in
      unless (any (λ s. is_none (observation s os)) symbols) value "correlation_observation_missing"
        _
        (unless (any (λ s. is_cold p (observation s os)) symbols) value "correlation_history_cold" _
          (unless (any (λ s. is_none (correlation_of (observation s os))) symbols) value
            "correlation_unavailable" (correlation_loop p os (whole 1) symbols)
            (subst (λ v. Valued v (correlation_loop p os (whole 1) symbols))
              (from_one (far symbols) (near symbols)) (loop-Valued (whole 1) symbols))))

least : (a b c d : Decimal) → IsLeast (min (min (min a b) c) d) a b c d
least a b c d = record {
  first =
      le_trans (min three d) three a below (le_trans three two a (min-first two c) (min-first a b));
  second =
      le_trans (min three d) three b below
        (le_trans three two b (min-first two c) (min-second a b));
  third = le_trans (min three d) three c below (min-second two c);
  fourth = min-second three d;
  attained = one_of (min-either three d) (min-either two c) (min-either a b);
}
  where
    two : Decimal
    two = min a b

    three : Decimal
    three = min two c

    below : le (min three d) three ≡ true
    below = min-first three d

    one_of :
        (min three d ≡ three) ⊎ (min three d ≡ d)
        → (three ≡ two) ⊎ (three ≡ c)
        → (two ≡ a) ⊎ (two ≡ b)
        → (min three d ≡ a) ⊎ ((min three d ≡ b) ⊎ ((min three d ≡ c) ⊎ (min three d ≡ d)))
    one_of (inr h) k l = inr (inr (inr h))
    one_of (inl h) (inr k) l = inr (inr (inl (h ∙ k)))
    one_of (inl h) (inl k) (inl l) = inl (h ∙ k ∙ l)
    one_of (inl h) (inl k) (inr l) = inr (inl (h ∙ k ∙ l))

pub quantity_for-LeastCapacity :
    (p : OfficialRiskPolicy) (r : OfficialRiskRequest) (dm cm : Decimal)
    → LeastCapacity p r dm cm (quantity_for p r dm cm)
unfolding quantity_for
quantity_for-LeastCapacity p r dm cm =
    least (div (risk_budget p r dm cm) (stop_distance r))
      (div (capacity (loss_limit p r) (total (λ o. o.loss_at_stop) r)) (stop_distance r))
      (div (capacity (notional_limit p r) (total (λ o. o.notional) r)) r.executable_price)
      (div (capacity (margin_limit p r) (total (λ o. o.margin) r)) (margin_cost r))

-- The test of the stop, by the direction.
valid-Protects :
    (d : Direction) (stop price : Decimal)
    → ((is_long d && lt stop price) || (is_short d && lt price stop)) ≡ true
    → Protects d stop price
valid-Protects long stop price h = ground (arith, h)
valid-Protects short stop price h = h
valid-Protects neutral stop price h = cc

Protects-valid :
    (d : Direction) (stop price : Decimal)
    → Protects d stop price
    → ((is_long d && lt stop price) || (is_short d && lt price stop)) ≡ true
Protects-valid long stop price h = ground (arith, h)
Protects-valid short stop price h = h
Protects-valid neutral stop price h = absurd h

pub stop_is_valid-Protects :
    (r : OfficialRiskRequest)
    → stop_is_valid r ≡ true
    → Protects r.direction r.stop_price r.executable_price
stop_is_valid-Protects r = valid-Protects r.direction r.stop_price r.executable_price

pub Protects-stop_is_valid :
    (r : OfficialRiskRequest)
    → Protects r.direction r.stop_price r.executable_price
    → stop_is_valid r ≡ true
Protects-stop_is_valid r = Protects-valid r.direction r.stop_price r.executable_price
