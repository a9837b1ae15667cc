-- ===== src/Integrity/Warmup.antt =====
-- The quarantine of a frame whose history is too short.
use maais.Base.{
  ℕ, suc, ◌≤◌, ◌≡◌, refl, Bool, true, false, not, ◌&&◌, List, [], ◌∷◌, All, All-keep, All-map,
  All-both, all, map, keep, is_nil, none, some, if◌then◌else◌, arith,
}
use maais.Quality.{is_failed}
use maais.Integrity.{
  IntegrityCheck, required_sources, missing_interval, sequence, venue_timestamp, observed_lag,
  source_freshness, clock_drift, stale_book, api_outage, ohlc, volume, crossed_book, symbol_state,
  historical_coverage, close_return_outlier, futures_spot_basis, secondary_reference, admitted,
  quarantined, IntegrityPolicy, IntegrityContext,
}
use maais.Integrity.Checks.{
  IntegrityResult, check_required_sources, check_missing_interval, check_sequence,
  check_venue_timestamp, check_observed_lag, check_source_freshness, check_clock_drift,
  check_stale_book, check_api_outage,
}
use maais.Integrity.Values.{
  outlier_verdict, check_ohlc, check_volume, check_crossed_book, check_symbol_state,
  check_historical_coverage, check_close_return_outlier, check_futures_spot_basis,
  check_secondary_reference,
}
use maais.Integrity.Assessment.{
  index, same, is_not_applicable, blocks, results_of, IntegrityAssessment, assess, evaluate,
  is_excused, is_expected, result_for, is_expected_warmup,
}

-- The checks of the results come in their order, from the `n`th on.
abbrev Ascending : ℕ → List IntegrityResult → Type 0
Ascending n [] = Unit
Ascending n (r ∷ rs) = (n ≤ index r.check) × Ascending (suc (index r.check)) rs

module _ (p : IntegrityPolicy) (c : IntegrityContext) where
  check_required_sources-check : (check_required_sources p c).check ≡ required_sources
  unfolding check_required_sources
  check_required_sources-check = ground arith

  check_missing_interval-check : (check_missing_interval c).check ≡ missing_interval
  unfolding check_missing_interval
  check_missing_interval-check = ground arith

  check_sequence-check : (check_sequence p c).check ≡ sequence
  unfolding check_sequence
  check_sequence-check = ground arith

  check_venue_timestamp-check : (check_venue_timestamp p c).check ≡ venue_timestamp
  unfolding check_venue_timestamp
  check_venue_timestamp-check = ground arith

  check_observed_lag-check : (check_observed_lag p c).check ≡ observed_lag
  unfolding check_observed_lag
  check_observed_lag-check = ground arith

  check_source_freshness-check : (check_source_freshness p c).check ≡ source_freshness
  unfolding check_source_freshness
  check_source_freshness-check = ground arith

  check_clock_drift-check : (check_clock_drift p c).check ≡ clock_drift
  unfolding check_clock_drift
  check_clock_drift-check = ground arith

  check_stale_book-check : (check_stale_book p c).check ≡ stale_book
  unfolding check_stale_book
  check_stale_book-check = ground arith

  check_api_outage-check : (check_api_outage p c).check ≡ api_outage
  unfolding check_api_outage
  check_api_outage-check = ground arith

  check_ohlc-check : (check_ohlc c).check ≡ ohlc
  unfolding check_ohlc
  check_ohlc-check = ground arith

  check_volume-check : (check_volume c).check ≡ volume
  unfolding check_volume
  check_volume-check = ground arith

  check_crossed_book-check : (check_crossed_book c).check ≡ crossed_book
  unfolding check_crossed_book
  check_crossed_book-check = ground arith

  check_symbol_state-check : (check_symbol_state c).check ≡ symbol_state
  unfolding check_symbol_state
  check_symbol_state-check = ground arith

  check_historical_coverage-check : (check_historical_coverage p c).check ≡ historical_coverage
  unfolding check_historical_coverage
  check_historical_coverage-check = ground arith

  check_close_return_outlier-check : (check_close_return_outlier p c).check ≡ close_return_outlier
  unfolding check_close_return_outlier outlier_verdict
  check_close_return_outlier-check = ground arith

  check_futures_spot_basis-check : (check_futures_spot_basis p c).check ≡ futures_spot_basis
  unfolding check_futures_spot_basis
  check_futures_spot_basis-check = ground arith

  check_secondary_reference-check : (check_secondary_reference p c).check ≡ secondary_reference
  unfolding check_secondary_reference
  check_secondary_reference-check = ground arith

  results_of-Ascending : Ascending 0 (results_of p c)
  unfolding results_of
  results_of-Ascending =
      rw
        (
          check_required_sources-check, check_missing_interval-check, check_sequence-check,
          check_venue_timestamp-check, check_observed_lag-check, check_source_freshness-check,
          check_clock_drift-check, check_stale_book-check, check_api_outage-check, check_ohlc-check,
          check_volume-check, check_crossed_book-check, check_symbol_state-check,
          check_historical_coverage-check, check_close_return_outlier-check,
          check_futures_spot_basis-check, check_secondary_reference-check,
        )
        ((
          omega arith,
          (
            omega arith,
            (
              omega arith,
              (
                omega arith,
                (
                  omega arith,
                  (
                    omega arith,
                    (
                      omega arith,
                      (
                        omega arith,
                        (
                          omega arith,
                          (
                            omega arith,
                            (
                              omega arith,
                              (
                                omega arith,
                                (
                                  omega arith,
                                  (
                                    omega arith,
                                    (omega arith, (omega arith, (omega arith, (omega arith, tt)))),
                                  ),
                                ),
                              ),
                            ),
                          ),
                        ),
                      ),
                    ),
                  ),
                ),
              ),
            ),
          ),
        ))

absent :
    (check : IntegrityCheck) (n : ℕ) (rs : List IntegrityResult)
    → Ascending n rs
    → suc (index check) ≤ n
    → result_for check rs ≡ none
unfolding result_for
absent check n [] h less = refl
absent check n (r ∷ rs) h less =
    rw (absent check (suc (index r.check)) rs h.1 (omega (arith, h.0, less)))
      (ground (arith, h.0, less))

-- Each result is the one that its check finds.
found-All :
    (n : ℕ) (rs : List IntegrityResult)
    → Ascending n rs
    → All (λ r. result_for r.check rs ≡ some r) rs
unfolding result_for
found-All n [] h = tt
found-All n (r ∷ rs) h = (
  rw (absent r.check (suc (index r.check)) rs h.1 (omega arith)) (ground arith),
  All-map (λ s. result_for s.check rs ≡ some s) (λ s. result_for s.check (r ∷ rs) ≡ some s)
      (λ s e. rw e refl) rs (found-All (suc (index r.check)) rs h.1),
)

all_checks_of :
    (f : IntegrityCheck → Bool) (rs : List IntegrityResult)
    → all f (map (λ r. r.check) rs) ≡ true
    → All (λ r. f r.check ≡ true) rs
all_checks_of f [] h = tt
all_checks_of f (r ∷ rs) h = ground (arith, h, all_checks_of f rs)

-- A frame that is held back for its history alone.
pub record ShortHistory (p : IntegrityPolicy) (a : IntegrityAssessment) : Type 0 where
  pub held : a.admission ≡ quarantined
  pub no_failure : All (λ r. is_failed r.status ≡ false) a.results
  pub explained : All (λ r. blocks p r ≡ true → is_expected r.check r.reason_code ≡ true) a.results

abbrev Good : IntegrityPolicy → IntegrityResult → Type 0
Good p r =
    (is_failed r.status ≡ false) × (blocks p r ≡ true → is_expected r.check r.reason_code ≡ true)

excused :
    (p : IntegrityPolicy) (results : List IntegrityResult) (r : IntegrityResult)
    → (result_for r.check results ≡ some r)
      × (blocks p r ≡ true → is_excused r.check (result_for r.check results) ≡ true)
    → Good p r
excused p results r (found, allowed) = (
  not_failed (is_failed r.status) refl,
  λ b. (two (is_not_applicable r.status) (is_expected r.check r.reason_code) (judged b)).1,
)
  where
    judged : blocks p r ≡ true → is_excused r.check (some r) ≡ true
    judged b = rw found at (allowed b)

    two : (x y : Bool) → (x && y) ≡ true → (x ≡ true) × (y ≡ true)
    two x y h = ground (arith, h)

    not_failed : (x : Bool) → is_failed r.status ≡ x → is_failed r.status ≡ false
    not_failed false same = same
    not_failed true same =
        let open_to : blocks p r ≡ true = rw same refl in
        let held =
          (two (is_not_applicable r.status) (is_expected r.check r.reason_code)
            (judged open_to)).0 in
        ground (arith, same, held)

-- Whatever a policy requires, a quarantine that counts as an expected warm-up is one: the frame is
-- quarantined, none of the eighteen checks has failed, and each check that blocks, being not
-- applicable, has the reason of a short history: a missing previous bar or close, or too few bars.
pub evaluate-ShortHistory :
    (p : IntegrityPolicy) (c : IntegrityContext)
    → is_expected_warmup (evaluate p c) ≡ true
    → ShortHistory p (evaluate p c)
unfolding evaluate assess is_expected_warmup
evaluate-ShortHistory p c h =
    let results = results_of p c in
    let blocked = keep (blocks p) results in
    let (some_block, all_excused) = two (not (is_nil (map (λ r. r.check) blocked))) _ h in
    let allowed =
      All-keep (blocks p) (λ r. is_excused r.check (result_for r.check results) ≡ true) results
        (all_checks_of (λ check. is_excused check (result_for check results)) blocked
          all_excused) in
    let both =
      All-map _ (Good p) (λ r k. excused p results r k) results
        (All-both (λ r. result_for r.check results ≡ some r)
          (λ r. blocks p r ≡ true → is_excused r.check (result_for r.check results) ≡ true) results
          (found-All 0 results (results_of-Ascending p c)) allowed) in
    record {
      held = closed (map (λ r. r.check) blocked) some_block;
      no_failure = All-map (Good p) (λ r. is_failed r.status ≡ false) (λ r k. k.0) results both;
      explained =
          All-map (Good p) (λ r. blocks p r ≡ true → is_expected r.check r.reason_code ≡ true)
            (λ r k. k.1) results both;
    }
  where
    two : (x y : Bool) → (x && y) ≡ true → (x ≡ true) × (y ≡ true)
    two x y h = ground (arith, h)

    closed :
        (blocking : List IntegrityCheck)
        → not (is_nil blocking) ≡ true
        → (if is_nil blocking then admitted else quarantined) ≡ quarantined
    closed [] h = cc
    closed (k ∷ ks) h = refl
