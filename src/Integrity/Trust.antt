-- ===== src/Integrity/Trust.antt =====
-- What an admitted frame can be trusted for.
use maais.Base.{
  ◌≡◌, true, false, String, All, All-map, All-both, any, none_of, get, some, is_none, arith,
}
use maais.Decimal.{zero_decimal, le, min, max}
use maais.Quality.{is_passed}
use maais.Integrity.{SequenceRule, SourceObservation, IntegrityPolicy, IntegrityContext}
use maais.Integrity.Checks.{
  IntegrityResult, manifest_of, sequence_of, bad_sequence, is_skewed, is_stale_within,
  check_required_sources, check_sequence, check_venue_timestamp, check_source_freshness,
}
use maais.Integrity.Values.{check_ohlc, check_volume}
use maais.Integrity.Conditions.{
  Continues, InTime, FreshBook, ClockAgrees, Uncrossed, Near, Typical, interval_sound, lag_sound,
  book-sound, clock_sound, crossed_sound, symbol_sound, basis_sound, reference_sound, outlier-sound,
}
use maais.Integrity.Assessment.{results_of}

-- A source that a rule names has a sequence, and it follows the previous one by the rule.
pub record Sequenced (c : IntegrityContext) (rule : String × SequenceRule) : Type 0 where
  pub has_sequence : is_none (sequence_of (get rule.0 (manifest_of c))) ≡ false
  pub follows :
      bad_sequence rule.1 (get rule.0 c.prior_sequences) (sequence_of (get rule.0 (manifest_of c)))
      ≡ false

-- A required source has an allowed age and is not older at the cutoff.
pub record FreshSource (p : IntegrityPolicy) (c : IntegrityContext) (name : String) : Type 0 where
  pub present : is_none (get name (manifest_of c)) ≡ false
  pub limited : is_none (get name p.source_max_age) ≡ false
  pub recent :
      is_stale_within c.frame.cutoff_at (get name p.source_max_age) (get name (manifest_of c))
      ≡ false

pub record Trustworthy (p : IntegrityPolicy) (c : IntegrityContext) : Type 0 where
  pub sources : All (FreshSource p c) p.required_sources
  pub continues : Continues c
  pub sequenced : All (Sequenced c) p.sequence_rules
  pub unskewed : All (λ entry. is_skewed p entry.0 entry.1 ≡ false) (manifest_of c)
  pub in_time : InTime p c
  pub clock : ClockAgrees p c
  pub book : FreshBook p c
  pub low_bound : le c.frame.bar.low (min c.frame.bar.open_price c.frame.bar.close) ≡ true
  pub high_bound : le (max c.frame.bar.open_price c.frame.bar.close) c.frame.bar.high ≡ true
  pub volumes :
      (le zero_decimal c.frame.bar.volume ≡ true)
      × (le zero_decimal c.frame.bar.quote_volume ≡ true)
  pub uncrossed : Uncrossed c.frame.best_bid c.frame.best_ask
  pub trading : c.frame.symbol_status ≡ some "TRADING"
  pub typical : Typical p c
  pub near_spot : Near p.maximum_basis_fraction c.frame.mark_price c.frame.primary_spot_price
  pub near_secondary :
      Near p.maximum_secondary_divergence c.frame.mark_price c.frame.secondary_venue_price

module _ (p : IntegrityPolicy) (c : IntegrityContext) where
  sequence_sound : is_passed (check_sequence p c).status ≡ true → All (Sequenced c) p.sequence_rules
  unfolding check_sequence
  sequence_sound h =
      let present : any
            (λ (rule : String × SequenceRule). is_none (sequence_of (get rule.0 (manifest_of c))))
            p.sequence_rules
          ≡ false =
        ground (arith, h) in
      let follows : any
            (λ (rule : String × SequenceRule).
              bad_sequence rule.1 (get rule.0 c.prior_sequences)
                (sequence_of (get rule.0 (manifest_of c))))
            p.sequence_rules
          ≡ false =
        ground (arith, h) in
      All-map _ (Sequenced c) (λ rule both. record { has_sequence = both.0; follows = both.1 })
        p.sequence_rules
        (All-both _ _ p.sequence_rules (none_of _ p.sequence_rules present)
          (none_of _ p.sequence_rules follows))

  venue_sound :
      is_passed (check_venue_timestamp p c).status ≡ true
      → All
          (λ (entry : String × SourceObservation). is_skewed p entry.0 entry.1 ≡ false)
          (manifest_of c)
  unfolding check_venue_timestamp
  venue_sound h =
      none_of (λ (entry : String × SourceObservation). is_skewed p entry.0 entry.1) (manifest_of c)
        (ground (arith, h))

  sources_sound :
      is_passed (check_required_sources p c).status ≡ true
      → is_passed (check_source_freshness p c).status ≡ true
      → All (FreshSource p c) p.required_sources
  unfolding check_required_sources check_source_freshness
  sources_sound h g =
      let present : any (λ name. is_none (get name (manifest_of c))) p.required_sources ≡ false =
        ground (arith, h) in
      let limited : any (λ name. is_none (get name p.source_max_age)) p.required_sources ≡ false =
        ground (arith, g) in
      let recent : any
            (λ name.
              is_stale_within c.frame.cutoff_at (get name p.source_max_age)
                (get name (manifest_of c)))
            p.required_sources
          ≡ false =
        ground (arith, g) in
      All-map _ (FreshSource p c)
        (λ name k. record { present = k.0; limited = k.1.0; recent = k.1.1 }) p.required_sources
        (All-both _ _ p.required_sources (none_of _ p.required_sources present) (
          All-both _ _ p.required_sources (none_of _ p.required_sources limited)
            (none_of _ p.required_sources recent)))

  bar_sound :
      is_passed (check_ohlc c).status ≡ true
      → (le c.frame.bar.low (min c.frame.bar.open_price c.frame.bar.close) ≡ true)
        × (le (max c.frame.bar.open_price c.frame.bar.close) c.frame.bar.high ≡ true)
  unfolding check_ohlc
  bar_sound h = ground (arith, h)

  volume_sound :
      is_passed (check_volume c).status ≡ true
      → (le zero_decimal c.frame.bar.volume ≡ true)
        × (le zero_decimal c.frame.bar.quote_volume ≡ true)
  unfolding check_volume
  volume_sound h = ground (arith, h)

  pub results-Trustworthy :
      All (λ (r : IntegrityResult). is_passed r.status ≡ true) (results_of p c) → Trustworthy p c
  unfolding results_of
  results-Trustworthy
        (
          h1,
          (
            h2,
            (
              _,
              (
                h4,
                (
                  h5,
                  (
                    h6,
                    (h7, (h8, (h9, (_, (h11, (h12, (h13, (h14, (_, (h16, (h17, (h18, _)))))))))))),
                  ),
                ),
              ),
            ),
          ),
        ) =
      record {
        sources = sources_sound h1 h7;
        continues = interval_sound p c h2;
        sequenced = sequence_sound h4;
        unskewed = venue_sound h5;
        in_time = lag_sound p c h6;
        clock = clock_sound p c h8;
        book = book-sound p c h9;
        low_bound = (bar_sound h11).0;
        high_bound = (bar_sound h11).1;
        volumes = volume_sound h12;
        uncrossed = crossed_sound p c h13;
        trading = symbol_sound p c h14;
        typical = outlier-sound p c h16;
        near_spot = basis_sound p c h17;
        near_secondary = reference_sound p c h18;
      }
