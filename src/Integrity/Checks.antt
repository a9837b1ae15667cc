-- ===== src/Integrity/Checks.antt =====
-- The checks of `MarketIntegrityStateMachine`, in the order of `evaluate`: sources, times and clocks.
use maais.Base.{
  ℕ, ◌+◌, ◌-◌, Bool, true, false, not, ◌&&◌, ◌==◌, String, List, any, Option, none, some, is_none,
  get, ltb, leb, if◌then◌else◌,
}
use maais.Domain.{Datetime, before}
use maais.Quality.{Gate, gate, verdict, passed, failed, not_applicable}
use maais.Integrity.{
  IntegrityCheck, required_sources, missing_interval, duplicate_conflict, sequence, venue_timestamp,
  observed_lag, source_freshness, clock_drift, stale_book, api_outage, SequenceRule, contiguous,
  monotonic, venue_event, local_observation, SourceObservation, IntegrityPolicy, IntegrityContext,
}

abbrev pub IntegrityResult : Type 0
IntegrityResult = Gate IntegrityCheck

-- `abs(a - b)` of two instants.
abbrev pub apart : Datetime → Datetime → ℕ
apart a b = (a.micros - b.micros) + (b.micros - a.micros)

abbrev pub manifest_of : IntegrityContext → List (String × SourceObservation)
manifest_of c = c.frame.source_manifest

unfoldable pub check_required_sources : IntegrityPolicy → IntegrityContext → IntegrityResult
check_required_sources p c =
    if any (λ name. is_none (get name (manifest_of c))) p.required_sources
    then gate required_sources not_applicable "required_sources_missing"
    else gate required_sources passed "required_sources_present"

unfoldable pub check_missing_interval : IntegrityContext → IntegrityResult
check_missing_interval c = elim c.previous_bar_close_at [
  | none ↦ gate missing_interval not_applicable "previous_bar_missing"
  | some at ↦
      verdict missing_interval (at.micros == c.frame.bar.bar_open_at.micros)
        "bar_interval_contiguous" "bar_interval_gap"
]

abbrev pub frame_is_canonical : IntegrityResult
frame_is_canonical = gate duplicate_conflict passed "frame_identity_canonical"

-- `source.sequence`, if there is a source.
abbrev pub sequence_of : Option SourceObservation → Option ℕ
sequence_of none = none
sequence_of (some source) = source.sequence

-- The rule is violated from the previous sequence to the current one.
abbrev pub violates : SequenceRule → ℕ → ℕ → Bool
violates contiguous previous current = not (current == previous + 1)
violates monotonic previous current = leb current previous

abbrev pub bad_sequence : SequenceRule → Option ℕ → Option ℕ → Bool
bad_sequence rule none current = false
bad_sequence rule (some previous) none = false
bad_sequence rule (some previous) (some current) = violates rule previous current

unfoldable pub check_sequence : IntegrityPolicy → IntegrityContext → IntegrityResult
check_sequence p c =
    if any (λ (rule : String × SequenceRule). is_none (sequence_of (get rule.0 (manifest_of c))))
      p.sequence_rules
    then gate sequence not_applicable "required_sequence_missing"
    else verdict sequence
        (not (
          any
            (λ (rule : String × SequenceRule).
              bad_sequence rule.1 (get rule.0 c.prior_sequences)
                (sequence_of (get rule.0 (manifest_of c))))
            p.sequence_rules))
        "sequences_contiguous_or_initialized" "sequence_gap_or_regression"

abbrev pub is_local : SourceObservation → Bool
is_local source = elim source.timestamp_basis [ venue_event ↦ false | local_observation ↦ true ]

-- The override of a source, or the general limit.
abbrev pub skew_limit : IntegrityPolicy → String → ℕ
skew_limit p name = elim (get name p.venue_timestamp_skew_overrides) [
  | none ↦ p.max_venue_timestamp_skew
  | some limit ↦ limit
]

abbrev pub is_skewed : IntegrityPolicy → String → SourceObservation → Bool
is_skewed p name source =
    not (is_local source)
    && ltb (skew_limit p name) (apart source.observed_at source.venue_event_at)

unfoldable pub check_venue_timestamp : IntegrityPolicy → IntegrityContext → IntegrityResult
check_venue_timestamp p c =
    if any (λ (entry : String × SourceObservation). is_skewed p entry.0 entry.1) (manifest_of c)
    then gate venue_timestamp failed "venue_timestamp_skew"
    else gate venue_timestamp passed (
        if any (λ (entry : String × SourceObservation). is_local entry.1) (manifest_of c)
        then "venue_timestamps_within_skew_or_observation_based"
        else "venue_timestamps_within_skew")

unfoldable pub check_observed_lag : IntegrityPolicy → IntegrityContext → IntegrityResult
check_observed_lag p c =
    if before c.evaluated_at c.frame.cutoff_at
    then gate observed_lag failed "evaluation_precedes_frame"
    else if ltb p.max_decision_lag (c.evaluated_at.micros - c.frame.cutoff_at.micros)
    then gate observed_lag failed "decision_lag_exceeded"
    else gate observed_lag passed "decision_lag_within_limit"

-- The source was observed more than the age before the cutoff; a later observation is not stale.
abbrev pub is_stale : Datetime → ℕ → Option SourceObservation → Bool
is_stale cutoff age none = false
is_stale cutoff age (some source) = ltb age (cutoff.micros - source.observed_at.micros)

abbrev pub is_stale_within : Datetime → Option ℕ → Option SourceObservation → Bool
is_stale_within cutoff none source = false
is_stale_within cutoff (some age) source = is_stale cutoff age source

unfoldable pub check_source_freshness : IntegrityPolicy → IntegrityContext → IntegrityResult
check_source_freshness p c =
    if any (λ name. is_none (get name p.source_max_age)) p.required_sources
    then gate source_freshness not_applicable "source_freshness_policy_missing"
    else verdict source_freshness
        (not (
          any
            (λ name.
              is_stale_within c.frame.cutoff_at (get name p.source_max_age)
                (get name (manifest_of c)))
            p.required_sources))
        "sources_fresh" "source_stale"

abbrev clock_result : ℕ → Option SourceObservation → Option Datetime → IntegrityResult
clock_result drift none time = gate clock_drift not_applicable "venue_clock_missing"
clock_result drift (some source) none = gate clock_drift not_applicable "venue_clock_missing"
clock_result drift (some source) (some time) =
    verdict clock_drift (not (ltb drift (apart time source.observed_at))) "venue_clock_within_limit"
      "venue_clock_drift_exceeded"

unfoldable pub check_clock_drift : IntegrityPolicy → IntegrityContext → IntegrityResult
check_clock_drift p c =
    clock_result p.max_venue_clock_drift (get "venue_clock" (manifest_of c))
      c.frame.venue_server_time

unfoldable pub check_stale_book : IntegrityPolicy → IntegrityContext → IntegrityResult
check_stale_book p c = elim (get "order_book" (manifest_of c)) [
  | none ↦ gate stale_book not_applicable "order_book_missing"
  | some source ↦
      verdict stale_book (not (is_stale c.frame.cutoff_at p.max_book_age (some source)))
        "order_book_fresh" "order_book_stale"
]

unfoldable pub check_api_outage : IntegrityPolicy → IntegrityContext → IntegrityResult
check_api_outage p c =
    verdict api_outage
      (not (ltb p.max_decision_lag (c.evaluated_at.micros - c.frame.cutoff_at.micros)))
      "market_data_current" "market_data_outage"
