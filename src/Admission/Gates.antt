-- ===== src/Admission/Gates.antt =====
-- `OfficialMonitoringAdmission` of maais/monitoring/admission.py: the six gates and their decision.
use maais.Base.{
  ℕ, ◌-◌, Bool, false, not, ◌||◌, ◌&&◌, String, str_eq, List, [], ◌∷◌, any, is_nil, Option, none,
  some, is_none, Result, ok, ◌>>◌, raise_if, value_error, ltb, if◌then◌else◌,
}
use maais.Decimal.{mul, lt}
use maais.Domain.{Datetime, before}
use maais.Quality.{
  Gate, gate, passed, failed, not_applicable, is_passed, blocking, in_order, same_checks,
}
use maais.Admission.{
  AdmissionCheck, kill_switch, health, baseline_warmup, volatility, liquidity, benchmark,
  OfficialAdmissionPolicy, MonitoringAdmissionContext, HealthObservation, RollingVolatilityBaseline,
  BenchmarkObservation,
}

abbrev pub AdmissionGate : Type 0
AdmissionGate = Gate AdmissionCheck

abbrev pub index : AdmissionCheck → ℕ
index kill_switch = 0
index health = 1
index baseline_warmup = 2
index volatility = 3
index liquidity = 4
index benchmark = 5

-- `tuple(AdmissionCheck)`.
abbrev pub all_checks : List AdmissionCheck
all_checks = kill_switch ∷ health ∷ baseline_warmup ∷ volatility ∷ liquidity ∷ benchmark ∷ []

unfoldable pub kill_switch_gate : MonitoringAdmissionContext → AdmissionGate
kill_switch_gate c =
    if c.kill_switch_active
    then gate kill_switch failed "kill_switch_active"
    else gate kill_switch passed "kill_switch_clear"

-- `observations[component]`, of a dict in which a later observation replaces an earlier one.
unfoldable pub observation : String → List HealthObservation → Option HealthObservation
observation component [] = none
observation component (h ∷ hs) = elim (observation component hs) [
  | some later ↦ some later
  | none ↦ if str_eq h.component component then some h else none
]

-- The tests of `_health` on the observation of one component.
abbrev pub is_unhealthy : Option HealthObservation → Bool
is_unhealthy none = false
is_unhealthy (some h) = not h.healthy

abbrev pub is_future : Datetime → Option HealthObservation → Bool
is_future at none = false
is_future at (some h) = before at h.observed_at

abbrev pub is_stale : Datetime → ℕ → Option HealthObservation → Bool
is_stale at age none = false
is_stale at age (some h) = ltb age (at.micros - h.observed_at.micros)

unfoldable pub health_gate : OfficialAdmissionPolicy → MonitoringAdmissionContext → AdmissionGate
unfolding observation
health_gate p c =
    let names = p.mandatory_components in
    if any (λ n. is_none (observation n c.health)) names
    then gate health not_applicable "mandatory_health_missing"
    else if any (λ n. is_unhealthy (observation n c.health)) names
    then gate health failed "mandatory_health_unhealthy"
    else if any (λ n. is_future c.evaluated_at (observation n c.health)) names
    then gate health failed "mandatory_health_from_future"
    else if any (λ n. is_stale c.evaluated_at p.health_max_age (observation n c.health)) names
    then gate health failed "mandatory_health_stale"
    else gate health passed "mandatory_health_fresh"

-- `_baseline`, with the baseline that it reads.
unfoldable pub baseline_gate_for :
    OfficialAdmissionPolicy
    → MonitoringAdmissionContext
    → Option RollingVolatilityBaseline
    → AdmissionGate
baseline_gate_for p c none = gate baseline_warmup not_applicable "baseline_missing"
baseline_gate_for p c (some b) =
    if not (str_eq b.symbol c.symbol && str_eq b.timeframe c.timeframe)
    then gate baseline_warmup failed "baseline_identity_mismatch"
    else if before c.evaluated_at b.observed_at
    then gate baseline_warmup failed "baseline_from_future"
    else if ltb p.market_observation_max_age (c.evaluated_at.micros - b.observed_at.micros)
    then gate baseline_warmup failed "baseline_observation_stale"
    else if ltb b.sample_count p.minimum_baseline_samples
    then gate baseline_warmup not_applicable "baseline_cold"
    else gate baseline_warmup passed "baseline_warm"

unfoldable pub baseline_gate : OfficialAdmissionPolicy → MonitoringAdmissionContext → AdmissionGate
unfolding baseline_gate_for
baseline_gate p c = baseline_gate_for p c c.volatility

unfoldable pub volatility_gate_for :
    OfficialAdmissionPolicy → Bool → Option RollingVolatilityBaseline → AdmissionGate
volatility_gate_for p warm none = gate volatility not_applicable "baseline_unavailable"
volatility_gate_for p warm (some b) =
    if not warm
    then gate volatility not_applicable "baseline_unavailable"
    else if lt (mul b.baseline_std p.volatility_multiplier) b.current_std
    then gate volatility failed "volatility_circuit_breaker"
    else gate volatility passed "volatility_within_limit"

unfoldable pub volatility_gate :
    OfficialAdmissionPolicy → MonitoringAdmissionContext → AdmissionGate
unfolding volatility_gate_for
volatility_gate p c = volatility_gate_for p (is_passed (baseline_gate p c).status) c.volatility

unfoldable pub liquidity_gate_for :
    OfficialAdmissionPolicy → Bool → Option RollingVolatilityBaseline → AdmissionGate
liquidity_gate_for p warm none = gate liquidity not_applicable "liquidity_observation_missing"
liquidity_gate_for p warm (some b) =
    if not warm
    then gate liquidity not_applicable "liquidity_observation_missing"
    else if lt p.maximum_spread_fraction b.spread_fraction
    then gate liquidity failed "liquidity_spread_exceeded"
    else gate liquidity passed "liquidity_within_limit"

unfoldable pub liquidity_gate : OfficialAdmissionPolicy → MonitoringAdmissionContext → AdmissionGate
unfolding liquidity_gate_for
liquidity_gate p c = liquidity_gate_for p (is_passed (baseline_gate p c).status) c.volatility

unfoldable pub benchmark_gate_for :
    OfficialAdmissionPolicy → Datetime → Option BenchmarkObservation → AdmissionGate
benchmark_gate_for p at none = gate benchmark not_applicable "benchmark_missing"
benchmark_gate_for p at (some b) =
    if before at b.observed_at
    then gate benchmark failed "benchmark_from_future"
    else if ltb p.benchmark_max_age (at.micros - b.observed_at.micros)
    then gate benchmark failed "benchmark_stale"
    else gate benchmark passed "benchmark_explicit_and_fresh"

unfoldable pub benchmark_gate : OfficialAdmissionPolicy → MonitoringAdmissionContext → AdmissionGate
unfolding benchmark_gate_for
benchmark_gate p c = benchmark_gate_for p c.evaluated_at c.benchmark

pub record MonitoringAdmissionDecision : Type 0 where
  pub allowed : Bool
  pub gates : List AdmissionGate
  pub blocking_checks : List AdmissionCheck

unfoldable pub make_decision : MonitoringAdmissionDecision → Result MonitoringAdmissionDecision
unfolding in_order blocking same_checks
make_decision d = do
  raise_if (not (in_order index all_checks d.gates))
      (value_error "monitoring decision must contain every ordered admission check")
  let expected = blocking d.gates
  raise_if
      (not (same_checks index expected d.blocking_checks)
        || (if d.allowed then not (is_nil expected) else is_nil expected))
      (value_error "monitoring admission does not match its gate results")
  ok d

abbrev pub gates_of : OfficialAdmissionPolicy → MonitoringAdmissionContext → List AdmissionGate
gates_of p c =
    kill_switch_gate c
    ∷ health_gate p c
    ∷ baseline_gate p c
    ∷ volatility_gate p c
    ∷ liquidity_gate p c
    ∷ benchmark_gate p c
    ∷ []

unfoldable pub evaluate :
    OfficialAdmissionPolicy → MonitoringAdmissionContext → Result MonitoringAdmissionDecision
unfolding make_decision blocking
evaluate p c = make_decision (record {
  allowed = is_nil (blocking (gates_of p c));
  gates = gates_of p c;
  blocking_checks = blocking (gates_of p c);
})
