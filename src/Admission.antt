-- ===== src/Admission.antt =====
-- maais/monitoring/admission.py: the six gates that a decision cycle passes before it may trade. JSON
-- snapshots and content hashes are left out. Ages and counts are natural numbers, the ages in
-- microseconds, so the guards against negative ones have nothing to refuse.
pub mod Gates
pub mod Conditions
pub mod Allowed
mod Tests
use maais.Base.{
  ℕ, Bool, true, false, not, ◌||◌, ◌&&◌, ◌==◌, String, str_eq, str_lt, is_empty, is_uppercase, List,
  [], ◌∷◌, any, map, is_nil, is_unique, sort_by, Option, none, some, is_none, is_some, Result, ok,
  ◌>>=◌, ◌>>◌, raise_if, value_error, leb, if◌then◌else◌,
}
use maais.Decimal.{Decimal, zero_decimal, le, lt, fraction}
use maais.Domain.{Datetime, before, require_utc, require_positive_decimal, require_nonnegative}

pub data AdmissionCheck : Type 0 where
  kill_switch health baseline_warmup volatility liquidity benchmark : AdmissionCheck

pub record OfficialAdmissionPolicy : Type 0 where
  pub mandatory_components : List String
  pub health_max_age : ℕ
  pub market_observation_max_age : ℕ
  pub benchmark_max_age : ℕ
  pub minimum_baseline_samples : ℕ
  pub volatility_multiplier : Decimal
  pub maximum_spread_fraction : Decimal

abbrev require_positive_age : ℕ → String → Result (Unit {0})
require_positive_age age field = raise_if (age == 0) (value_error field)

unfoldable pub make_policy : OfficialAdmissionPolicy → Result OfficialAdmissionPolicy
make_policy p = do
  raise_if
      (is_nil p.mandatory_components
        || (not (is_unique p.mandatory_components) || any is_empty p.mandatory_components))
      (value_error "mandatory monitoring components must be nonempty and unique")
  require_positive_age p.health_max_age "health_max_age"
  require_positive_age p.market_observation_max_age "market_observation_max_age"
  require_positive_age p.benchmark_max_age "benchmark_max_age"
  raise_if (leb p.minimum_baseline_samples 1)
      (value_error "baseline warmup must require multiple samples")
  require_positive_decimal p.volatility_multiplier "volatility_multiplier"
  require_positive_decimal p.maximum_spread_fraction "maximum_spread_fraction"
  ok p

pub record HealthObservation : Type 0 where
  pub component : String
  pub healthy : Bool
  pub observed_at : Datetime
  pub error : Option String

unfoldable pub make_health : HealthObservation → Result HealthObservation
make_health h = do
  raise_if (is_empty h.component) (value_error "health component is required")
  require_utc h.observed_at "health observed_at"
  raise_if (h.healthy && is_some h.error) (value_error "healthy component cannot carry an error")
  ok h

pub record RollingVolatilityBaseline : Type 0 where
  pub symbol : String
  pub timeframe : String
  pub sample_count : ℕ
  pub baseline_std : Decimal
  pub current_std : Decimal
  pub spread_fraction : Decimal
  pub observed_at : Datetime

-- `not symbol or symbol != symbol.upper()`.
abbrev misnamed : String → Bool
misnamed symbol = is_empty symbol || not (is_uppercase symbol)

unfoldable pub make_baseline : RollingVolatilityBaseline → Result RollingVolatilityBaseline
make_baseline b = do
  raise_if (misnamed b.symbol || is_empty b.timeframe)
      (value_error "volatility baseline identity is invalid")
  require_positive_decimal b.baseline_std "baseline std must be positive and finite"
  require_nonnegative b.current_std "current_std"
  require_nonnegative b.spread_fraction "spread_fraction"
  require_utc b.observed_at "volatility observed_at"
  ok b

pub record BenchmarkObservation : Type 0 where
  pub symbol : String
  pub return_fraction : Decimal
  pub observed_at : Datetime
  pub source_event_id : String

unfoldable pub make_benchmark : BenchmarkObservation → Result BenchmarkObservation
make_benchmark b = do
  raise_if (misnamed b.symbol || is_empty b.source_event_id)
      (value_error "benchmark identity is invalid")
  require_utc b.observed_at "benchmark observed_at"
  ok b

pub record MonitoringAdmissionContext : Type 0 where
  pub symbol : String
  pub timeframe : String
  pub evaluated_at : Datetime
  pub kill_switch_active : Bool
  pub kill_switch_reason : Option String
  pub kill_switch_version : ℕ
  pub kill_switch_changed_at : Datetime
  pub kill_switch_changed_by : String
  pub health : List HealthObservation
  pub volatility : Option RollingVolatilityBaseline
  pub benchmark : Option BenchmarkObservation

unfoldable pub make_context : MonitoringAdmissionContext → Result MonitoringAdmissionContext
make_context c = do
  raise_if (misnamed c.symbol || is_empty c.timeframe)
      (value_error "monitoring context identity is invalid")
  require_utc c.evaluated_at "monitoring evaluated_at"
  require_utc c.kill_switch_changed_at "kill_switch_changed_at"
  raise_if
      (if c.kill_switch_active then is_none c.kill_switch_reason else is_some c.kill_switch_reason)
      (value_error "kill switch state and reason must appear together")
  raise_if (is_empty c.kill_switch_changed_by) (value_error "kill switch actor is required")
  raise_if (before c.evaluated_at c.kill_switch_changed_at)
      (value_error "kill switch state cannot come from the future")
  raise_if (not (is_unique (map (λ h. h.component) c.health)))
      (value_error "health observations must be unique by component")
  ok (record c { health = sort_by (λ g h. str_lt g.component h.component) c.health })
