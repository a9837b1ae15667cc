-- ===== src/Integrity/Assessment.antt =====
-- `MarketIntegrityStateMachine.evaluate`, and whether an assessment is an expected warm-up.
use maais.Base.{
  ℕ, Bool, true, false, not, ◌||◌, ◌&&◌, ◌==◌, String, str_eq, List, [], ◌∷◌, any, all, keep, map,
  is_nil, Option, none, some, if◌then◌else◌,
}
use maais.Quality.{QualityStatus, passed, failed, not_applicable, is_failed}
use maais.Integrity.{
  IntegrityCheck, required_sources, missing_interval, duplicate_conflict, sequence, venue_timestamp,
  observed_lag, source_freshness, clock_drift, stale_book, api_outage, ohlc, volume, crossed_book,
  symbol_state, historical_coverage, close_return_outlier, futures_spot_basis, secondary_reference,
  FrameAdmission, admitted, quarantined, IntegrityPolicy, IntegrityContext,
}
use maais.Integrity.Checks.{
  IntegrityResult, check_required_sources, check_missing_interval, frame_is_canonical,
  check_sequence, check_venue_timestamp, check_observed_lag, check_source_freshness,
  check_clock_drift, check_stale_book, check_api_outage,
}
use maais.Integrity.Values.{
  check_ohlc, check_volume, check_crossed_book, check_symbol_state, check_historical_coverage,
  check_close_return_outlier, check_futures_spot_basis, check_secondary_reference,
}

abbrev pub index : IntegrityCheck → ℕ
index required_sources = 0
index missing_interval = 1
index duplicate_conflict = 2
index sequence = 3
index venue_timestamp = 4
index observed_lag = 5
index source_freshness = 6
index clock_drift = 7
index stale_book = 8
index api_outage = 9
index ohlc = 10
index volume = 11
index crossed_book = 12
index symbol_state = 13
index historical_coverage = 14
index close_return_outlier = 15
index futures_spot_basis = 16
index secondary_reference = 17

abbrev pub same : IntegrityCheck → IntegrityCheck → Bool
same a b = index a == index b

abbrev pub is_not_applicable : QualityStatus → Bool
is_not_applicable passed = false
is_not_applicable failed = false
is_not_applicable not_applicable = true

-- The result blocks the frame.
abbrev pub blocks : IntegrityPolicy → IntegrityResult → Bool
blocks p result =
    is_failed result.status
    || (is_not_applicable result.status && any (same result.check) p.required_checks)

unfoldable pub results_of : IntegrityPolicy → IntegrityContext → List IntegrityResult
results_of p c =
    check_required_sources p c
    ∷ check_missing_interval c
    ∷ frame_is_canonical
    ∷ check_sequence p c
    ∷ check_venue_timestamp p c
    ∷ check_observed_lag p c
    ∷ check_source_freshness p c
    ∷ check_clock_drift p c
    ∷ check_stale_book p c
    ∷ check_api_outage p c
    ∷ check_ohlc c
    ∷ check_volume c
    ∷ check_crossed_book c
    ∷ check_symbol_state c
    ∷ check_historical_coverage p c
    ∷ check_close_return_outlier p c
    ∷ check_futures_spot_basis p c
    ∷ check_secondary_reference p c
    ∷ []

pub record IntegrityAssessment : Type 0 where
  pub frame_id : ℕ
  pub admission : FrameAdmission
  pub quality_status : QualityStatus
  pub results : List IntegrityResult
  pub blocking_checks : List IntegrityCheck

-- The assessment of a frame from its results.
unfoldable pub assess : IntegrityPolicy → ℕ → List IntegrityResult → IntegrityAssessment
assess p frame_id results =
    let blocking = map (λ result. result.check) (keep (blocks p) results) in
    record {
      frame_id = frame_id;
      admission = if is_nil blocking then admitted else quarantined;
      quality_status = if is_nil blocking then passed else failed;
      results = results;
      blocking_checks = blocking;
    }

unfoldable pub evaluate : IntegrityPolicy → IntegrityContext → IntegrityAssessment
unfolding results_of assess
evaluate p c = assess p c.frame.frame_id (results_of p c)

-- `expected_reasons.get(check, frozenset())`.
abbrev pub is_expected : IntegrityCheck → String → Bool
is_expected missing_interval reason = str_eq reason "previous_bar_missing"
is_expected historical_coverage reason = str_eq reason "historical_warmup_incomplete"
is_expected close_return_outlier reason =
    str_eq reason "previous_close_missing" || str_eq reason "return_warmup_incomplete"
is_expected _ reason = false

-- `by_check.get(check)`, of a dict in which a later result replaces an earlier one.
unfoldable pub result_for : IntegrityCheck → List IntegrityResult → Option IntegrityResult
result_for check [] = none
result_for check (result ∷ results) = elim (result_for check results) [
  | some later ↦ some later
  | none ↦ if same result.check check then some result else none
]

-- The blocker is one that a short history explains.
abbrev pub is_excused : IntegrityCheck → Option IntegrityResult → Bool
is_excused check none = false
is_excused check (some result) =
    is_not_applicable result.status && is_expected check result.reason_code

unfoldable pub is_expected_warmup : IntegrityAssessment → Bool
unfolding result_for
is_expected_warmup a =
    not (is_nil a.blocking_checks)
    && all (λ check. is_excused check (result_for check a.results)) a.blocking_checks
