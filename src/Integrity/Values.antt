-- ===== src/Integrity/Values.antt =====
-- The checks of `MarketIntegrityStateMachine` on prices and history.
use maais.Base.{
  ◌-◌, not, ◌&&◌, String, str_eq, List, length, map, Option, none, some, ltb, if◌then◌else◌,
}
use maais.Decimal.{
  Decimal, zero_decimal, sub, mul, div, min, max, le, lt, eq, absolute, sum, whole, sqrt,
}
use maais.Quality.{gate, verdict, passed, not_applicable}
use maais.Integrity.{
  ohlc, volume, crossed_book, symbol_state, historical_coverage, close_return_outlier,
  futures_spot_basis, secondary_reference, IntegrityPolicy, IntegrityContext,
}
use maais.Integrity.Checks.{IntegrityResult}

unfoldable pub check_ohlc : IntegrityContext → IntegrityResult
check_ohlc c =
    let bar = c.frame.bar in
    verdict ohlc
      (le bar.low (min bar.open_price bar.close) && le (max bar.open_price bar.close) bar.high)
      "ohlc_valid" "ohlc_invalid"

unfoldable pub check_volume : IntegrityContext → IntegrityResult
check_volume c =
    verdict volume (le zero_decimal c.frame.bar.volume && le zero_decimal c.frame.bar.quote_volume)
      "volume_nonnegative" "volume_negative"

abbrev pub crossing : Option Decimal → Option Decimal → IntegrityResult
crossing none ask = gate crossed_book not_applicable "order_book_missing"
crossing (some bid) none = gate crossed_book not_applicable "order_book_missing"
crossing (some bid) (some ask) =
    verdict crossed_book (lt bid ask) "book_not_crossed" "book_crossed_or_locked"

unfoldable pub check_crossed_book : IntegrityContext → IntegrityResult
check_crossed_book c = crossing c.frame.best_bid c.frame.best_ask

abbrev pub state_result : Option String → IntegrityResult
state_result none = gate symbol_state not_applicable "symbol_state_missing"
state_result (some status) =
    verdict symbol_state (str_eq status "TRADING") "symbol_trading" "symbol_not_trading"

unfoldable pub check_symbol_state : IntegrityContext → IntegrityResult
check_symbol_state c = state_result c.frame.symbol_status

unfoldable pub check_historical_coverage : IntegrityPolicy → IntegrityContext → IntegrityResult
check_historical_coverage p c =
    if ltb c.historical_bar_count p.minimum_history_bars
    then gate historical_coverage not_applicable "historical_warmup_incomplete"
    else gate historical_coverage passed "historical_coverage_sufficient"

unfoldable pub mean_of : List Decimal → Decimal
mean_of values = div (sum values) (whole (length values))

-- `(value - mean) ** 2`, summed and divided by one less than their number.
unfoldable pub variance_of : List Decimal → Decimal
unfolding mean_of
variance_of values =
    div (sum (map (λ value. mul (sub value (mean_of values)) (sub value (mean_of values))) values))
      (whole (length values - 1))

-- The verdict on the current return, against the recent ones.
unfoldable pub outlier_verdict : Decimal → List Decimal → Decimal → IntegrityResult
unfolding variance_of
outlier_verdict threshold values current =
    if eq (variance_of values) zero_decimal
    then verdict close_return_outlier (eq current (mean_of values))
        "return_matches_zero_variance_baseline" "zero_variance_outlier"
    else verdict close_return_outlier
        (not (
          lt threshold (div (absolute (sub current (mean_of values))) (sqrt (variance_of values)))))
        "return_within_baseline" "return_outlier"

abbrev pub outlier_against : IntegrityPolicy → IntegrityContext → Option Decimal → IntegrityResult
outlier_against p c none = gate close_return_outlier not_applicable "previous_close_missing"
outlier_against p c (some previous) =
    if ltb (length c.recent_close_returns) p.minimum_outlier_returns
    then gate close_return_outlier not_applicable "return_warmup_incomplete"
    else outlier_verdict p.outlier_z_threshold c.recent_close_returns
        (div (sub c.frame.bar.close previous) previous)

unfoldable pub check_close_return_outlier : IntegrityPolicy → IntegrityContext → IntegrityResult
unfolding outlier_verdict
check_close_return_outlier p c =
    if ltb c.historical_bar_count p.minimum_history_bars
    then gate close_return_outlier not_applicable "return_warmup_incomplete"
    else outlier_against p c c.previous_close

-- `abs(mark - reference) / reference`.
unfoldable pub divergence : Decimal → Decimal → Decimal
divergence mark reference = div (absolute (sub mark reference)) reference

abbrev pub basis : Decimal → Option Decimal → Option Decimal → IntegrityResult
basis maximum none spot = gate futures_spot_basis not_applicable "futures_or_spot_price_missing"
basis maximum (some mark) none =
    gate futures_spot_basis not_applicable "futures_or_spot_price_missing"
basis maximum (some mark) (some spot) =
    verdict futures_spot_basis (not (lt maximum (divergence mark spot))) "basis_within_limit"
      "basis_divergence_exceeded"

unfoldable pub check_futures_spot_basis : IntegrityPolicy → IntegrityContext → IntegrityResult
unfolding divergence
check_futures_spot_basis p c =
    basis p.maximum_basis_fraction c.frame.mark_price c.frame.primary_spot_price

abbrev pub reference_result : Decimal → Option Decimal → Option Decimal → IntegrityResult
reference_result maximum mark none =
    gate secondary_reference not_applicable "secondary_reference_missing"
reference_result maximum none (some reference) =
    gate secondary_reference not_applicable "futures_mark_missing"
reference_result maximum (some mark) (some reference) =
    verdict secondary_reference (not (lt maximum (divergence mark reference)))
      "secondary_divergence_within_limit" "secondary_divergence_exceeded"

unfoldable pub check_secondary_reference : IntegrityPolicy → IntegrityContext → IntegrityResult
unfolding divergence
check_secondary_reference p c =
    reference_result p.maximum_secondary_divergence c.frame.mark_price c.frame.secondary_venue_price
