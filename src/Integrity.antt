-- ===== src/Integrity.antt =====
-- maais/market_data/integrity/state_machine.py, and the parts of maais/market_data/frames.py and
-- maais/market_data/events.py that it reads. JSON details and content hashes are left out. An age, a
-- lag or a skew is a natural number of microseconds and a count is a natural number, so the guards
-- against negative ones have nothing to refuse.
pub mod Checks
pub mod Values
pub mod Assessment
pub mod Conditions
pub mod Trust
pub mod Admitted
pub mod Warmup
mod Tests
use maais.Base.{
  ℕ, ◌*◌, Bool, true, false, not, ◌||◌, ◌&&◌, ◌==◌, String, str_eq, is_empty, List, [], ◌∷◌, any,
  all, map, is_nil, Option, none, some, is_none, Result, ok, ◌>>=◌, ◌>>◌, raise_if, value_error,
  ltb, leb,
}
use maais.Decimal.{Decimal, zero_decimal, le, lt, min, max, whole, fraction}
use maais.Domain.{
  Datetime, before, at_most, require_utc, require_positive_decimal, require_nonnegative,
}
use maais.Market.{BookLevel}

pub data IntegrityCheck : Type 0 where
  required_sources missing_interval duplicate_conflict sequence venue_timestamp observed_lag :
      IntegrityCheck
  source_freshness clock_drift stale_book api_outage ohlc volume crossed_book symbol_state :
      IntegrityCheck
  historical_coverage close_return_outlier futures_spot_basis secondary_reference : IntegrityCheck

pub data FrameAdmission : Type 0 where
  admitted quarantined : FrameAdmission

pub data SequenceRule : Type 0 where
  contiguous monotonic : SequenceRule

pub data TimestampBasis : Type 0 where
  venue_event local_observation : TimestampBasis

-- `SourceObservation`.
pub record SourceObservation : Type 0 where
  pub venue : String
  pub stream : String
  pub event_id : String
  pub content_hash : String
  pub venue_event_at : Datetime
  pub observed_at : Datetime
  pub sequence : Option ℕ
  pub source_published_at : Option Datetime
  pub source_engine_at : Option Datetime
  pub timestamp_basis : TimestampBasis

pub record ClosedBarPayload : Type 0 where
  pub timeframe : String
  pub bar_open_at : Datetime
  pub bar_close_at : Datetime
  pub open_price : Decimal
  pub high : Decimal
  pub low : Decimal
  pub close : Decimal
  pub volume : Decimal
  pub quote_volume : Decimal
  pub trade_count : ℕ
  pub taker_buy_volume : Decimal
  pub taker_buy_quote_volume : Decimal
  pub closed : Bool

unfoldable pub make_bar : ClosedBarPayload → Result ClosedBarPayload
make_bar b = do
  raise_if (is_empty b.timeframe) (value_error "bar timeframe is required")
  require_utc b.bar_open_at "bar_open_at"
  require_utc b.bar_close_at "bar_close_at"
  raise_if (at_most b.bar_close_at b.bar_open_at)
      (value_error "bar_close_at must follow bar_open_at")
  require_positive_decimal b.open_price "open"
  require_positive_decimal b.high "high"
  require_positive_decimal b.low "low"
  require_positive_decimal b.close "close"
  require_nonnegative b.volume "volume"
  require_nonnegative b.quote_volume "quote_volume"
  require_nonnegative b.taker_buy_volume "taker_buy_volume"
  require_nonnegative b.taker_buy_quote_volume "taker_buy_quote_volume"
  raise_if (lt (min b.open_price b.close) b.low || lt b.high (max b.open_price b.close))
      (value_error "bar OHLC values are inconsistent")
  raise_if (lt b.high b.low) (value_error "bar high cannot be below low")
  raise_if (lt b.volume b.taker_buy_volume)
      (value_error "taker buy volume cannot exceed total volume")
  raise_if (lt b.quote_volume b.taker_buy_quote_volume)
      (value_error "taker buy quote volume cannot exceed total quote volume")
  ok b

-- `CausalMinuteFrame`, without its key and its hash.
pub record CausalMinuteFrame : Type 0 where
  pub frame_id : ℕ
  pub cutoff_at : Datetime
  pub bar : ClosedBarPayload
  pub book_bids : List BookLevel
  pub book_asks : List BookLevel
  pub best_bid : Option Decimal
  pub best_ask : Option Decimal
  pub mark_price : Option Decimal
  pub index_price : Option Decimal
  pub funding_rate : Option Decimal
  pub primary_spot_price : Option Decimal
  pub secondary_venue_price : Option Decimal
  pub venue_server_time : Option Datetime
  pub symbol_status : Option String
  pub source_manifest : List (String × SourceObservation)

pub record IntegrityPolicy : Type 0 where
  pub required_checks : List IntegrityCheck
  pub required_sources : List String
  pub sequence_rules : List (String × SequenceRule)
  pub source_max_age : List (String × ℕ)
  pub max_venue_timestamp_skew : ℕ
  pub venue_timestamp_skew_overrides : List (String × ℕ)
  pub max_venue_clock_drift : ℕ
  pub max_book_age : ℕ
  pub max_decision_lag : ℕ
  pub minimum_history_bars : ℕ
  pub minimum_outlier_returns : ℕ
  pub outlier_z_threshold : Decimal
  pub maximum_basis_fraction : Decimal
  pub maximum_secondary_divergence : Decimal

-- `set(names).issubset(self.required_sources)`.
abbrev named : {A : Type 0} → List String → List (String × A) → Bool
named sources mapping = all (λ entry. any (str_eq entry.0) sources) mapping

unfoldable pub make_policy : IntegrityPolicy → Result IntegrityPolicy
make_policy p = do
  raise_if (is_nil p.required_checks || is_nil p.required_sources)
      (value_error "official integrity policy cannot be empty")
  raise_if (p.max_venue_timestamp_skew == 0)
      (value_error "max_venue_timestamp_skew must be positive")
  raise_if (p.max_venue_clock_drift == 0) (value_error "max_venue_clock_drift must be positive")
  raise_if (p.max_book_age == 0) (value_error "max_book_age must be positive")
  raise_if (p.max_decision_lag == 0) (value_error "max_decision_lag must be positive")
  raise_if (p.minimum_history_bars == 0 || ltb p.minimum_outlier_returns 2)
      (value_error "integrity warm-up windows are invalid")
  require_positive_decimal p.outlier_z_threshold "outlier_z_threshold"
  require_positive_decimal p.maximum_basis_fraction "maximum_basis_fraction"
  require_positive_decimal p.maximum_secondary_divergence "maximum_secondary_divergence"
  raise_if (not (named p.required_sources p.venue_timestamp_skew_overrides))
      (value_error "venue timestamp skew overrides must name required sources")
  raise_if (any (λ entry. entry.1 == 0) p.venue_timestamp_skew_overrides)
      (value_error "venue timestamp skew overrides must be positive")
  raise_if (is_nil p.sequence_rules || not (named p.required_sources p.sequence_rules))
      (value_error "sequence rules must name required sources")
  ok p

-- `tuple(IntegrityCheck)`.
abbrev pub all_checks : List IntegrityCheck
all_checks =
    required_sources ∷ missing_interval ∷ duplicate_conflict ∷ sequence ∷ venue_timestamp
    ∷ observed_lag ∷ source_freshness ∷ clock_drift ∷ stale_book ∷ api_outage ∷ ohlc ∷ volume
    ∷ crossed_book ∷ symbol_state ∷ historical_coverage ∷ close_return_outlier ∷ futures_spot_basis
    ∷ secondary_reference ∷ []

-- `timedelta(seconds=n)`.
abbrev seconds : ℕ → ℕ
seconds n = n * 1000000

unfoldable pub official : IntegrityPolicy
official = record {
  required_checks = all_checks;
  required_sources =
      "closed_bar" ∷ "order_book" ∷ "mark_funding" ∷ "primary_spot" ∷ "secondary_venue"
      ∷ "venue_clock" ∷ "symbol_state" ∷ [];
  sequence_rules = ("closed_bar", contiguous) ∷ ("order_book", monotonic) ∷ [];
  source_max_age =
      ("closed_bar", seconds 1)
      ∷ ("order_book", seconds 2)
      ∷ ("mark_funding", seconds 2)
      ∷ ("primary_spot", seconds 5)
      ∷ ("secondary_venue", seconds 5)
      ∷ ("venue_clock", seconds 60)
      ∷ ("symbol_state", seconds 86400)
      ∷ [];
  max_venue_timestamp_skew = seconds 1;
  venue_timestamp_skew_overrides =
      ("primary_spot", seconds 5) ∷ ("secondary_venue", seconds 5) ∷ [];
  max_venue_clock_drift = seconds 1;
  max_book_age = seconds 2;
  max_decision_lag = seconds 5;
  minimum_history_bars = 60;
  minimum_outlier_returns = 20;
  outlier_z_threshold = whole 5;
  maximum_basis_fraction = fraction 2 2;
  maximum_secondary_divergence = fraction 2 2;
}

pub record IntegrityContext : Type 0 where
  pub frame : CausalMinuteFrame
  pub evaluated_at : Datetime
  pub previous_bar_close_at : Option Datetime
  pub previous_close : Option Decimal
  pub prior_sequences : List (String × ℕ)
  pub recent_close_returns : List Decimal
  pub historical_bar_count : ℕ

abbrev not_utc : Option Datetime → Bool
not_utc none = false
not_utc (some at) = not at.utc

abbrev not_positive : Option Decimal → Bool
not_positive none = false
not_positive (some value) = le value zero_decimal

unfoldable pub make_context : IntegrityContext → Result IntegrityContext
make_context c = do
  require_utc c.evaluated_at "evaluated_at must be UTC-aware"
  raise_if (not_utc c.previous_bar_close_at) (value_error "previous_bar_close_at must be UTC-aware")
  raise_if (not_positive c.previous_close)
      (value_error "previous_close must be a positive finite Decimal")
  raise_if (any (λ entry. is_empty entry.0) c.prior_sequences)
      (value_error "prior source sequences must be named and nonnegative")
  ok c
