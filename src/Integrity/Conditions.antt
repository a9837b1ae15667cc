-- ===== src/Integrity/Conditions.antt =====
-- What each integrity check of an admitted frame stands for.
use maais.Base.{
  ℕ, ◌+◌, ◌≤◌, ◌≡◌, refl, Bool, true, false, String, eq_iff, length, get, Option, none, some, ltb,
  if◌then◌else◌, arith, sym, ◌∙◌,
}
use maais.Decimal.{Decimal, sub, div, lt}
use maais.Domain.{Datetime}
use maais.Quality.{gate, not_applicable, is_passed}
use maais.Integrity.{close_return_outlier, SourceObservation, IntegrityPolicy, IntegrityContext}
use maais.Integrity.Checks.{
  IntegrityResult, apart, manifest_of, check_missing_interval, check_observed_lag,
  check_clock_drift, check_stale_book,
}
use maais.Integrity.Values.{
  check_crossed_book, check_symbol_state, check_close_return_outlier, check_futures_spot_basis,
  check_secondary_reference, divergence, outlier_verdict, outlier_against, basis, reference_result,
  crossing, state_result,
}

-- The bar opens where the previous one closed.
pub record Continues (c : IntegrityContext) : Type 0 where
  pub at : Datetime
  pub previous : c.previous_bar_close_at ≡ some at
  pub contiguous_bar : at.micros ≡ c.frame.bar.bar_open_at.micros

-- The frame is judged in time.
pub record InTime (p : IntegrityPolicy) (c : IntegrityContext) : Type 0 where
  pub not_early : c.frame.cutoff_at.micros ≤ c.evaluated_at.micros
  pub not_late : c.evaluated_at.micros ≤ c.frame.cutoff_at.micros + p.max_decision_lag

pub record FreshBook (p : IntegrityPolicy) (c : IntegrityContext) : Type 0 where
  pub source : SourceObservation
  pub found : get "order_book" (manifest_of c) ≡ some source
  pub recent : c.frame.cutoff_at.micros ≤ source.observed_at.micros + p.max_book_age

pub record ClockAgrees (p : IntegrityPolicy) (c : IntegrityContext) : Type 0 where
  pub source : SourceObservation
  pub time : Datetime
  pub found : get "venue_clock" (manifest_of c) ≡ some source
  pub told : c.frame.venue_server_time ≡ some time
  pub near : apart time source.observed_at ≤ p.max_venue_clock_drift

pub record Uncrossed (x y : Option Decimal) : Type 0 where
  pub bid : Decimal
  pub ask : Decimal
  pub has_bid : x ≡ some bid
  pub has_ask : y ≡ some ask
  pub below : lt bid ask ≡ true

-- Two prices are present, and not further apart than the fraction.
pub record Near (maximum : Decimal) (x y : Option Decimal) : Type 0 where
  pub mark : Decimal
  pub reference : Decimal
  pub has_mark : x ≡ some mark
  pub has_reference : y ≡ some reference
  pub close_to : lt maximum (divergence mark reference) ≡ false

-- The history is long enough, and the current return is no outlier against the recent ones.
pub record Typical (p : IntegrityPolicy) (c : IntegrityContext) : Type 0 where
  pub previous : Decimal
  pub has_previous : c.previous_close ≡ some previous
  pub covered : p.minimum_history_bars ≤ c.historical_bar_count
  pub sampled : p.minimum_outlier_returns ≤ length c.recent_close_returns
  pub no_outlier :
      is_passed
        (outlier_verdict p.outlier_z_threshold c.recent_close_returns
          (div (sub c.frame.bar.close previous) previous)).status
      ≡ true

crossing_sound : (x y : Option Decimal) → is_passed (crossing x y).status ≡ true → Uncrossed x y
crossing_sound none y h = cc
crossing_sound (some bid) none h = cc
crossing_sound (some bid) (some ask) h = record {
  bid = bid;
  ask = ask;
  has_bid = refl;
  has_ask = refl;
  below = ground (arith, h);
}

state_sound : (x : Option String) → is_passed (state_result x).status ≡ true → x ≡ some "TRADING"
state_sound none h = cc
state_sound (some status) h = ground (arith, h, eq_iff status "TRADING")

basis-Near :
    (maximum : Decimal) (x y : Option Decimal)
    → is_passed (basis maximum x y).status ≡ true
    → Near maximum x y
basis-Near maximum none y h = cc
basis-Near maximum (some mark) none h = cc
basis-Near maximum (some mark) (some spot) h = record {
  mark = mark;
  reference = spot;
  has_mark = refl;
  has_reference = refl;
  close_to = ground (arith, h);
}

reference_result-Near :
    (maximum : Decimal) (x y : Option Decimal)
    → is_passed (reference_result maximum x y).status ≡ true
    → Near maximum x y
reference_result-Near maximum x none h = cc
reference_result-Near maximum none (some reference) h = cc
reference_result-Near maximum (some mark) (some reference) h = record {
  mark = mark;
  reference = reference;
  has_mark = refl;
  has_reference = refl;
  close_to = ground (arith, h);
}

covered_by : (m n : ℕ) → ltb m n ≡ false → n ≤ m
covered_by m n h = ground arith

second_test :
    (b : Bool) (g h : IntegrityResult)
    → is_passed g.status ≡ false
    → is_passed (if b then g else h).status ≡ true
    → b ≡ false
second_test true g h f t = let wrong : false ≡ true = sym f ∙ t in cc
second_test false g h f t = refl

otherwise :
    (b : Bool) (g h : IntegrityResult)
    → b ≡ false
    → is_passed (if b then g else h).status ≡ true
    → is_passed h.status ≡ true
otherwise b g h f t = rw f at t

module _ (p : IntegrityPolicy) (c : IntegrityContext) where
  pub interval_sound : is_passed (check_missing_interval c).status ≡ true → Continues c
  unfolding check_missing_interval
  interval_sound h = ground (arith, h)

  pub lag_sound : is_passed (check_observed_lag p c).status ≡ true → InTime p c
  unfolding check_observed_lag
  lag_sound h = ground (arith, h)

  pub book-sound : is_passed (check_stale_book p c).status ≡ true → FreshBook p c
  unfolding check_stale_book
  book-sound h = ground (arith, h)

  pub clock_sound : is_passed (check_clock_drift p c).status ≡ true → ClockAgrees p c
  unfolding check_clock_drift
  clock_sound h = ground (arith, h)

  pub crossed_sound :
      is_passed (check_crossed_book c).status ≡ true → Uncrossed c.frame.best_bid c.frame.best_ask
  unfolding check_crossed_book
  crossed_sound h = crossing_sound c.frame.best_bid c.frame.best_ask h

  pub symbol_sound :
      is_passed (check_symbol_state c).status ≡ true → c.frame.symbol_status ≡ some "TRADING"
  unfolding check_symbol_state
  symbol_sound h = state_sound c.frame.symbol_status h

  pub basis_sound :
      is_passed (check_futures_spot_basis p c).status ≡ true
      → Near p.maximum_basis_fraction c.frame.mark_price c.frame.primary_spot_price
  unfolding check_futures_spot_basis
  basis_sound h =
      basis-Near p.maximum_basis_fraction c.frame.mark_price c.frame.primary_spot_price h

  pub reference_sound :
      is_passed (check_secondary_reference p c).status ≡ true
      → Near p.maximum_secondary_divergence c.frame.mark_price c.frame.secondary_venue_price
  unfolding check_secondary_reference
  reference_sound h =
      reference_result-Near p.maximum_secondary_divergence c.frame.mark_price
        c.frame.secondary_venue_price h

  against :
      (x : Option Decimal)
      → c.previous_close ≡ x
      → p.minimum_history_bars ≤ c.historical_bar_count
      → is_passed (outlier_against p c x).status ≡ true
      → Typical p c
  against none same covered h = cc
  against (some previous) same covered h =
      let short = gate close_return_outlier not_applicable "return_warmup_incomplete" in
      let b = ltb (length c.recent_close_returns) p.minimum_outlier_returns in
      let judged =
        outlier_verdict p.outlier_z_threshold c.recent_close_returns
          (div (sub c.frame.bar.close previous) previous) in
      let long = second_test b short judged refl h in
      record {
        previous = previous;
        has_previous = same;
        covered = covered;
        sampled = covered_by (length c.recent_close_returns) p.minimum_outlier_returns long;
        no_outlier = otherwise b short judged long h;
      }

  pub outlier-sound : is_passed (check_close_return_outlier p c).status ≡ true → Typical p c
  unfolding check_close_return_outlier
  outlier-sound h =
      let short = gate close_return_outlier not_applicable "return_warmup_incomplete" in
      let b = ltb c.historical_bar_count p.minimum_history_bars in
      let long = second_test b short (outlier_against p c c.previous_close) refl h in
      against c.previous_close refl (covered_by c.historical_bar_count p.minimum_history_bars long)
        (otherwise b short (outlier_against p c c.previous_close) long h)
