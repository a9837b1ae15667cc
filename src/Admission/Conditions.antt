-- ===== src/Admission/Conditions.antt =====
-- What each gate of an admission stands for.
use maais.Base.{
  ℕ, ◌+◌, ◌-◌, ◌≤◌, ◌≡◌, refl, Bool, true, false, String, eq_iff, List, All, All-map, All-both, any,
  none_of, none_in, Option, none, some, is_none, arith, ltb,
}
use maais.Decimal.{mul, le}
use maais.Domain.{Datetime, before}
use maais.Quality.{is_passed}
use maais.Admission.{
  OfficialAdmissionPolicy, MonitoringAdmissionContext, HealthObservation, RollingVolatilityBaseline,
  BenchmarkObservation,
}
use maais.Admission.Gates.{
  observation, is_unhealthy, is_future, is_stale, health_gate, baseline_gate, baseline_gate_for,
  volatility_gate, volatility_gate_for, liquidity_gate, liquidity_gate_for, benchmark_gate,
  benchmark_gate_for,
}

-- Seen at most `age` before `at`, and not after it.
pub record Fresh (at : Datetime) (age : ℕ) (seen : Datetime) : Type 0 where
  pub not_future : seen.micros ≤ at.micros
  pub recent : at.micros ≤ seen.micros + age

-- The last observation of a component is healthy and fresh.
pub record Healthy (p : OfficialAdmissionPolicy) (c : MonitoringAdmissionContext)
    (component : String) : Type 0 where
  pub h : HealthObservation
  pub found : observation component c.health ≡ some h
  pub healthy : h.healthy ≡ true
  pub fresh : Fresh c.evaluated_at p.health_max_age h.observed_at

-- The baseline is the context's own, fresh and of enough samples.
pub record Warm (p : OfficialAdmissionPolicy) (c : MonitoringAdmissionContext)
    (b : RollingVolatilityBaseline) : Type 0 where
  pub same_symbol : b.symbol ≡ c.symbol
  pub same_timeframe : b.timeframe ≡ c.timeframe
  pub fresh : Fresh c.evaluated_at p.market_observation_max_age b.observed_at
  pub sampled : p.minimum_baseline_samples ≤ b.sample_count

-- A warm baseline with a volatility and a spread within the limits.
pub record Calm (p : OfficialAdmissionPolicy) (c : MonitoringAdmissionContext) : Type 0 where
  pub b : RollingVolatilityBaseline
  pub found : c.volatility ≡ some b
  pub warm : Warm p c b
  pub calm : le b.current_std (mul b.baseline_std p.volatility_multiplier) ≡ true
  pub liquid : le b.spread_fraction p.maximum_spread_fraction ≡ true

pub record Benchmarked (p : OfficialAdmissionPolicy) (c : MonitoringAdmissionContext) : Type 0 where
  pub b : BenchmarkObservation
  pub found : c.benchmark ≡ some b
  pub fresh : Fresh c.evaluated_at p.benchmark_max_age b.observed_at

-- The conditions for a cycle to trade, apart from the gates.
pub record Admissible (p : OfficialAdmissionPolicy) (c : MonitoringAdmissionContext) : Type 0 where
  pub running : c.kill_switch_active ≡ false
  pub all_healthy : All (Healthy p c) p.mandatory_components
  pub market : Calm p c
  pub benchmarked : Benchmarked p c

Fresh-tests :
    (at : Datetime) (age : ℕ) (seen : Datetime)
    → before at seen ≡ false
    → ltb age (at.micros - seen.micros) ≡ false
    → Fresh at age seen
Fresh-tests at age seen h g = record { not_future = ground arith; recent = ground arith }

Fresh-not_future :
    (at : Datetime) (age : ℕ) (seen : Datetime) → Fresh at age seen → before at seen ≡ false
Fresh-not_future at age seen f = ground (arith, f.not_future)

Fresh-recent :
    (at : Datetime) (age : ℕ) (seen : Datetime)
    → Fresh at age seen
    → ltb age (at.micros - seen.micros) ≡ false
Fresh-recent at age seen f = ground (arith, f.not_future, f.recent)

module _ (p : OfficialAdmissionPolicy) (c : MonitoringAdmissionContext) where
  module _ (n : String) where
    Healthy-seen : Healthy p c n → is_none (observation n c.health) ≡ false
    Healthy-seen k = rw k.found refl

    Healthy-is_unhealthy : Healthy p c n → is_unhealthy (observation n c.health) ≡ false
    Healthy-is_unhealthy k = rw (k.found, k.healthy) refl

    Healthy-not_future : Healthy p c n → is_future c.evaluated_at (observation n c.health) ≡ false
    Healthy-not_future k =
        rw k.found (Fresh-not_future c.evaluated_at p.health_max_age k.h.observed_at k.fresh)

    Healthy-recent :
        Healthy p c n → is_stale c.evaluated_at p.health_max_age (observation n c.health) ≡ false
    Healthy-recent k =
        rw k.found (Fresh-recent c.evaluated_at p.health_max_age k.h.observed_at k.fresh)

    Healthy-tests :
        (x : Option HealthObservation)
        → observation n c.health ≡ x
        → is_none x ≡ false
        → is_unhealthy x ≡ false
        → is_future c.evaluated_at x ≡ false
        → is_stale c.evaluated_at p.health_max_age x ≡ false
        → Healthy p c n
    Healthy-tests none found h1 h2 h3 h4 = cc
    Healthy-tests (some o) found h1 h2 h3 h4 = record {
      h = o;
      found = found;
      healthy = ground (arith, h2);
      fresh = Fresh-tests c.evaluated_at p.health_max_age o.observed_at h3 h4;
    }

  abbrev names : List String
  names = p.mandatory_components

  abbrev SeenTest : String → Type 0
  SeenTest n = is_none (observation n c.health) ≡ false

  abbrev WellTest : String → Type 0
  WellTest n = is_unhealthy (observation n c.health) ≡ false

  abbrev PastTest : String → Type 0
  PastTest n = is_future c.evaluated_at (observation n c.health) ≡ false

  abbrev RecentTest : String → Type 0
  RecentTest n = is_stale c.evaluated_at p.health_max_age (observation n c.health) ≡ false

  pub health_gate_sound : is_passed (health_gate p c).status ≡ true → All (Healthy p c) names
  unfolding health_gate
  health_gate_sound t =
      let seen : any (λ n. is_none (observation n c.health)) names ≡ false = ground (arith, t) in
      let well : any (λ n. is_unhealthy (observation n c.health)) names ≡ false =
        ground (arith, t) in
      let past : any (λ n. is_future c.evaluated_at (observation n c.health)) names ≡ false =
        ground (arith, t) in
      let recent : any (λ n. is_stale c.evaluated_at p.health_max_age (observation n c.health))
            names
          ≡ false =
        ground (arith, t) in
      let first = All-both SeenTest WellTest names (none_of _ names seen) (none_of _ names well) in
      let second =
        All-both PastTest RecentTest names (none_of _ names past) (none_of _ names recent) in
      All-map (λ n. (SeenTest n × WellTest n) × (PastTest n × RecentTest n)) (Healthy p c)
        (λ n h. Healthy-tests n (observation n c.health) refl h.0.0 h.0.1 h.1.0 h.1.1) names
        (All-both (λ n. SeenTest n × WellTest n) (λ n. PastTest n × RecentTest n) names first
          second)

  pub health_gate_complete : All (Healthy p c) names → is_passed (health_gate p c).status ≡ true
  unfolding health_gate
  health_gate_complete k =
      rw
        (
          none_in (λ n. is_none (observation n c.health)) (Healthy p c) Healthy-seen names k,
          none_in (λ n. is_unhealthy (observation n c.health)) (Healthy p c) Healthy-is_unhealthy
              names k,
          none_in (λ n. is_future c.evaluated_at (observation n c.health)) (Healthy p c)
              Healthy-not_future names k,
          none_in (λ n. is_stale c.evaluated_at p.health_max_age (observation n c.health))
              (Healthy p c) Healthy-recent names k,
        )
        refl

  baseline_gate_for_sound :
      (b : RollingVolatilityBaseline)
      → is_passed (baseline_gate_for p c (some b)).status ≡ true
      → Warm p c b
  unfolding baseline_gate_for
  baseline_gate_for_sound b t = record {
    same_symbol = ground (arith, t, eq_iff b.symbol c.symbol);
    same_timeframe = ground (arith, t, eq_iff b.timeframe c.timeframe);
    fresh = record { not_future = ground (arith, t); recent = ground (arith, t) };
    sampled = ground (arith, t);
  }

  baseline_gate_for_complete :
      (b : RollingVolatilityBaseline)
      → Warm p c b
      → is_passed (baseline_gate_for p c (some b)).status ≡ true
  unfolding baseline_gate_for
  baseline_gate_for_complete b w = ground (
    arith,
    w.same_symbol,
    w.same_timeframe,
    w.fresh.not_future,
    w.fresh.recent,
    w.sampled,
    eq_iff b.symbol c.symbol,
    eq_iff b.timeframe c.timeframe,
  )

  volatility_gate_for-calm :
      (warm : Bool) (b : RollingVolatilityBaseline)
      → is_passed (volatility_gate_for p warm (some b)).status ≡ true
      → le b.current_std (mul b.baseline_std p.volatility_multiplier) ≡ true
  unfolding volatility_gate_for
  volatility_gate_for-calm warm b h = ground (arith, h)

  liquidity_gate_for-liquid :
      (warm : Bool) (b : RollingVolatilityBaseline)
      → is_passed (liquidity_gate_for p warm (some b)).status ≡ true
      → le b.spread_fraction p.maximum_spread_fraction ≡ true
  unfolding liquidity_gate_for
  liquidity_gate_for-liquid warm b h = ground (arith, h)

  pub market_sound :
      (x : Option RollingVolatilityBaseline)
      → c.volatility ≡ x
      → is_passed (baseline_gate_for p c x).status ≡ true
      → is_passed (volatility_gate_for p (is_passed (baseline_gate_for p c x).status) x).status
        ≡ true
      → is_passed (liquidity_gate_for p (is_passed (baseline_gate_for p c x).status) x).status
        ≡ true
      → Calm p c
  unfolding baseline_gate_for
  market_sound none found h1 h2 h3 = cc
  market_sound (some b) found h1 h2 h3 = record {
    b = b;
    found = found;
    warm = baseline_gate_for_sound b h1;
    calm = volatility_gate_for-calm (is_passed (baseline_gate_for p c (some b)).status) b h2;
    liquid = liquidity_gate_for-liquid (is_passed (baseline_gate_for p c (some b)).status) b h3;
  }

  pub market_complete :
      Calm p c
      → (is_passed (baseline_gate p c).status ≡ true)
        × (is_passed (volatility_gate p c).status ≡ true)
        × (is_passed (liquidity_gate p c).status ≡ true)
  unfolding baseline_gate volatility_gate liquidity_gate volatility_gate_for liquidity_gate_for
  market_complete k =
      let warm = baseline_gate_for_complete k.b k.warm in
      rw (k.found, warm) (refl, ground (arith, k.calm), ground (arith, k.liquid))

  pub benchmark_gate_sound :
      (x : Option BenchmarkObservation)
      → c.benchmark ≡ x
      → is_passed (benchmark_gate_for p c.evaluated_at x).status ≡ true
      → Benchmarked p c
  unfolding benchmark_gate_for
  benchmark_gate_sound none found h = cc
  benchmark_gate_sound (some b) found h = record {
    b = b;
    found = found;
    fresh = record { not_future = ground (arith, h); recent = ground (arith, h) };
  }

  pub benchmark_gate_complete : Benchmarked p c → is_passed (benchmark_gate p c).status ≡ true
  unfolding benchmark_gate benchmark_gate_for
  benchmark_gate_complete k = rw k.found (ground (arith, k.fresh.not_future, k.fresh.recent))
