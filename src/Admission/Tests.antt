-- ===== src/Admission/Tests.antt =====
-- A cycle with one healthy component, and a stale one.
use maais.Base.{
  Bool, List, Option, Result, err, ◌≡◌, refl, true, false, some, none, [], ◌∷◌, ok, Ensures,
}
use maais.Base.Int.{◌*ℤ◌}
use maais.Decimal.{max_coefficient, unit, whole, fraction, round, round_from, half_even, mul}
use maais.Quality.{blocking, in_order, same_checks}
use maais.Admission.{OfficialAdmissionPolicy, MonitoringAdmissionContext, AdmissionCheck, health}
use maais.Admission.Gates.{
  evaluate, kill_switch_gate, health_gate, observation, baseline_gate, baseline_gate_for,
  volatility_gate, volatility_gate_for, liquidity_gate, liquidity_gate_for, benchmark_gate,
  benchmark_gate_for, make_decision, MonitoringAdmissionDecision,
}
use maais.Admission.Allowed.{Admits, evaluate-Admits}

abbrev policy : OfficialAdmissionPolicy
policy = record {
  mandatory_components = "risk" ∷ [];
  health_max_age = 10;
  market_observation_max_age = 2;
  benchmark_max_age = 60;
  minimum_baseline_samples = 60;
  volatility_multiplier = fraction 15 1;
  maximum_spread_fraction = fraction 5 2;
}

abbrev context : MonitoringAdmissionContext
context = record {
  symbol = "BTCUSDT";
  timeframe = "1m";
  evaluated_at = record { micros = 100; utc = true };
  kill_switch_active = false;
  kill_switch_reason = none;
  kill_switch_version = 0;
  kill_switch_changed_at = record { micros = 1; utc = true };
  kill_switch_changed_by = "operator";
  health =
      record {
        component = "risk";
        healthy = true;
        observed_at = record { micros = 95; utc = true };
        error = none;
      }
      ∷ [];
  volatility = some (record {
    symbol = "BTCUSDT";
    timeframe = "1m";
    sample_count = 60;
    baseline_std = fraction 1 2;
    current_std = fraction 1 2;
    spread_fraction = fraction 1 3;
    observed_at = record { micros = 99; utc = true };
  });
  benchmark = some (record {
    symbol = "BTCUSDT";
    return_fraction = fraction 1 4;
    observed_at = record { micros = 50; utc = true };
    source_event_id = "benchmark";
  });
}

evaluate-Admits_example : Ensures (Admits policy context) (evaluate policy context)
evaluate-Admits_example = evaluate-Admits policy context

abbrev allowed_of : Result MonitoringAdmissionDecision → Option (Bool × List AdmissionCheck)
allowed_of (ok d) = some (d.allowed, d.blocking_checks)
allowed_of (err e) = none

evaluate-context : allowed_of (evaluate policy context) ≡ some (true, [])
unfolding evaluate kill_switch_gate health_gate observation baseline_gate baseline_gate_for
    volatility_gate volatility_gate_for liquidity_gate liquidity_gate_for benchmark_gate
    benchmark_gate_for make_decision blocking in_order same_checks max_coefficient unit whole
    fraction round round_from half_even mul ◌*ℤ◌
evaluate-context = refl

-- A component that was last seen before the allowed age blocks the cycle.
evaluate-stale :
    allowed_of (evaluate (record policy { health_max_age = 4 }) context) ≡ some (false, health ∷ [])
unfolding evaluate kill_switch_gate health_gate observation baseline_gate baseline_gate_for
    volatility_gate volatility_gate_for liquidity_gate liquidity_gate_for benchmark_gate
    benchmark_gate_for make_decision blocking in_order same_checks max_coefficient unit whole
    fraction round round_from half_even mul ◌*ℤ◌
evaluate-stale = refl
