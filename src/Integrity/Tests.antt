-- ===== src/Integrity/Tests.antt =====
-- A sound frame, and the first frame of a run.
use maais.Base.{ℕ, ◌≡◌, refl, true, some, none, [], ◌∷◌, any, All, get, arith}
use maais.Base.Int.{◌+ℤ◌, ◌-ℤ◌, ◌*ℤ◌}
use maais.Decimal.{
  max_coefficient, unit, whole, fraction, round, round_from, half_even, add, sub, mul, div, negate,
  absolute, sum, sqrt, floor_root,
}
use maais.Domain.{Datetime}
use maais.Integrity.{
  IntegrityCheck, IntegrityPolicy, IntegrityContext, SourceObservation, CausalMinuteFrame,
  venue_event, official, admitted, missing_interval, historical_coverage, close_return_outlier,
}
use maais.Quality.{is_passed}
use maais.Integrity.Checks
use maais.Integrity.Values
use maais.Integrity.Assessment.{same, evaluate, assess, results_of, is_expected_warmup, result_for}
use maais.Integrity.Admitted.{evaluate-admitted, evaluate-Trustworthy}
use maais.Integrity.Trust.{Trustworthy}
use maais.Integrity.Warmup.{ShortHistory, evaluate-ShortHistory}

abbrev policy : IntegrityPolicy
policy = record official { minimum_outlier_returns = 2 }

abbrev instant : ℕ → Datetime
instant t = record { micros = t; utc = true }

abbrev source : SourceObservation
source = record {
  venue = "venue";
  stream = "stream";
  event_id = "event";
  content_hash = "hash";
  venue_event_at = instant 60000000;
  observed_at = instant 60000100;
  sequence = some 8;
  source_published_at = none;
  source_engine_at = none;
  timestamp_basis = venue_event;
}

abbrev frame : CausalMinuteFrame
frame = record {
  frame_id = 1;
  cutoff_at = instant 60000200;
  bar = record {
    timeframe = "1m";
    bar_open_at = instant 0;
    bar_close_at = instant 60000000;
    open_price = whole 100;
    high = whole 103;
    low = whole 99;
    close = whole 102;
    volume = whole 5;
    quote_volume = whole 500;
    trade_count = 3;
    taker_buy_volume = whole 1;
    taker_buy_quote_volume = whole 100;
    closed = true;
  };
  book_bids = record { price = whole 101; quantity = whole 1 } ∷ [];
  book_asks = record { price = whole 102; quantity = whole 1 } ∷ [];
  best_bid = some (whole 101);
  best_ask = some (whole 102);
  mark_price = some (whole 102);
  index_price = none;
  funding_rate = none;
  primary_spot_price = some (whole 101);
  secondary_venue_price = some (whole 102);
  venue_server_time = some (instant 60000000);
  symbol_status = some "TRADING";
  source_manifest =
      ("closed_bar", source)
      ∷ ("order_book", source)
      ∷ ("mark_funding", source)
      ∷ ("primary_spot", source)
      ∷ ("secondary_venue", source)
      ∷ ("venue_clock", source)
      ∷ ("symbol_state", source)
      ∷ [];
}

abbrev context : IntegrityContext
context = record {
  frame = frame;
  evaluated_at = instant 60000300;
  previous_bar_close_at = some (instant 0);
  previous_close = some (whole 100);
  prior_sequences = ("closed_bar", 7) ∷ [];
  recent_close_returns = fraction 1 2 ∷ fraction 3 2 ∷ [];
  historical_bar_count = 60;
}

abbrev first_context : IntegrityContext
first_context = record context {
  previous_bar_close_at = none;
  previous_close = none;
  prior_sequences = [];
  recent_close_returns = [];
  historical_bar_count = 0;
}

every : (check : IntegrityCheck) → any (same check) policy.required_checks ≡ true
unfolding official
every check = ground arith

admitted-context : (evaluate policy context).admission ≡ admitted
unfolding evaluate assess results_of get official Checks.check_required_sources
    Checks.check_missing_interval Checks.check_sequence Checks.check_venue_timestamp
    Checks.check_observed_lag Checks.check_source_freshness Checks.check_clock_drift
    Checks.check_stale_book Checks.check_api_outage Values.check_ohlc Values.check_volume
    Values.check_crossed_book Values.check_symbol_state Values.check_historical_coverage
    Values.check_close_return_outlier Values.outlier_verdict Values.variance_of Values.mean_of
    Values.check_futures_spot_basis Values.check_secondary_reference Values.divergence
    max_coefficient unit whole fraction round round_from half_even add sub mul div negate absolute
    sum sqrt floor_root ◌+ℤ◌ ◌-ℤ◌ ◌*ℤ◌
admitted-context = refl

evaluate-Trustworthy_example : Trustworthy policy context
evaluate-Trustworthy_example = evaluate-Trustworthy policy context every admitted-context

evaluate-admitted_example : All (λ r. is_passed r.status ≡ true) (results_of policy context)
evaluate-admitted_example = (evaluate-admitted policy context every).0 admitted-context

-- The first frame lacks only a history.
blocked-first :
    (evaluate policy first_context).blocking_checks
    ≡ missing_interval ∷ historical_coverage ∷ close_return_outlier ∷ []
unfolding evaluate assess results_of get official Checks.check_required_sources
    Checks.check_missing_interval Checks.check_sequence Checks.check_venue_timestamp
    Checks.check_observed_lag Checks.check_source_freshness Checks.check_clock_drift
    Checks.check_stale_book Checks.check_api_outage Values.check_ohlc Values.check_volume
    Values.check_crossed_book Values.check_symbol_state Values.check_historical_coverage
    Values.check_close_return_outlier Values.check_futures_spot_basis
    Values.check_secondary_reference Values.divergence max_coefficient unit whole fraction round
    round_from half_even sub mul div negate absolute ◌-ℤ◌ ◌*ℤ◌
blocked-first = refl

warmup-first : is_expected_warmup (evaluate policy first_context) ≡ true
unfolding is_expected_warmup result_for evaluate assess results_of get official
    Checks.check_required_sources Checks.check_missing_interval Checks.check_sequence
    Checks.check_venue_timestamp Checks.check_observed_lag Checks.check_source_freshness
    Checks.check_clock_drift Checks.check_stale_book Checks.check_api_outage Values.check_ohlc
    Values.check_volume Values.check_crossed_book Values.check_symbol_state
    Values.check_historical_coverage Values.check_close_return_outlier
    Values.check_futures_spot_basis Values.check_secondary_reference Values.divergence
    max_coefficient unit whole fraction round round_from half_even sub mul div negate absolute ◌-ℤ◌
    ◌*ℤ◌
warmup-first = refl

evaluate-ShortHistory_example : ShortHistory policy (evaluate policy first_context)
evaluate-ShortHistory_example = evaluate-ShortHistory policy first_context warmup-first
