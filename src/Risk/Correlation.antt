-- ===== src/Risk/Correlation.antt =====
-- The correlation gate passes exactly for a portfolio whose correlations are known and small.
use maais.Base.{
  ℕ, ◌≤◌, ◌≡◌, refl, true, false, Bool-cases, inl, inr, String, List, [], ◌∷◌, All, any, Option,
  none, some, is_none, Result, ok, err, Ensures, Ensures-map, none_of, none_in, All-map, All-both,
  if◌then◌else◌, arith, sym, ◌∙◌, ltb, runtime_error,
}
use maais.Decimal.{Decimal, zero_decimal, le, absolute, whole, fraction, unit}
use maais.Decimal.Bounds.{IsMultiplier}
use maais.Quality.{gate, failed, is_passed}
use maais.Risk.Inputs.{OfficialRiskPolicy, CorrelationObservation}
use maais.Risk.Engine.{
  RiskGate, correlation_check, observation, is_cold, correlation_of, reduced, correlation_loop,
  correlation_gate_for, refused,
}

-- The correlation with a symbol was observed, over enough returns, and lies below the threshold.
pub record Known (p : OfficialRiskPolicy) (os : List CorrelationObservation) (symbol : String)
    : Type 0 where
  pub o : CorrelationObservation
  pub raw : Decimal
  pub found : observation symbol os ≡ some o
  pub warm : p.minimum_aligned_correlation_returns ≤ o.aligned_return_count
  pub correlated : o.correlation ≡ some raw
  pub below : le p.correlation_block_threshold (absolute raw) ≡ false

-- What the gate and its multiplier say: the multiplier lies between 0 and 1, and the gate passes exactly
-- for what is good.
pub record Judged (Good : Type 0) (out : Decimal × RiskGate) : Type 0 where
  pub bounded : IsMultiplier out.0
  pub same_check : out.1.check ≡ correlation_check
  pub sound : is_passed out.1.status ≡ true → Good
  pub complete : Good → is_passed out.1.status ≡ true

abbrev Below : OfficialRiskPolicy → Option Decimal → Type 0
Below p none = ⊥
Below p (some raw) = le p.correlation_block_threshold (absolute raw) ≡ false

reduced-IsMultiplier :
    (p : OfficialRiskPolicy) (value m : Decimal) → IsMultiplier m → IsMultiplier (reduced p value m)
unfolding fraction whole unit
reduced-IsMultiplier p value m (h, g) = (ground (arith, h, g), ground (arith, h, g))

not_less : (m n : ℕ) → ltb m n ≡ false → n ≤ m
not_less m n h = ground arith

less_not : (m n : ℕ) → n ≤ m → ltb m n ≡ false
less_not m n h = ground arith

-- One round of the loop, with the rounds after it as a function of the multiplier.
round-Judged :
    (p : OfficialRiskPolicy) (m : Decimal) (G : Type 0)
    (later : Decimal → Result (Decimal × RiskGate)) (x : Option Decimal)
    → IsMultiplier m
    → is_none x ≡ false
    → ((m' : Decimal) → IsMultiplier m' → Ensures (Judged G) (later m'))
    → Ensures (Judged (Below p x × G)) (elim x [
      | none ↦ err (runtime_error "warm correlation unexpectedly has no value")
      | some raw ↦
          let rest = later (reduced p (absolute raw) m) in
          if le p.correlation_block_threshold (absolute raw)
          then ok (zero_decimal, gate correlation_check failed "correlation_cluster_blocked")
          else rest
    ])
unfolding whole unit
round-Judged p m G later none h known next = cc
round-Judged p m G later (some raw) h known next =
    elim (Bool-cases (le p.correlation_block_threshold (absolute raw))) [
      | inl blocked ↦ rw blocked (record {
        bounded = (refl, refl);
        same_check = refl;
        sound = λ t. cc;
        complete = λ g. cc;
      })
      | inr below ↦ rw below (
          Ensures-map (Judged G) (Judged ((false ≡ false) × G))
            (λ out j. record {
              bounded = j.bounded;
              same_check = j.same_check;
              sound = λ t. (refl, j.sound t);
              complete = λ g. j.complete g.1;
            })
            (later (reduced p (absolute raw) m))
            (next (reduced p (absolute raw) m) (reduced-IsMultiplier p (absolute raw) m h)))
    ]

loop-Judged :
    (p : OfficialRiskPolicy) (os : List CorrelationObservation) (m : Decimal)
    (symbols : List String)
    → IsMultiplier m
    → All (λ s. is_none (correlation_of (observation s os)) ≡ false) symbols
    → Ensures
        (Judged (All (λ s. Below p (correlation_of (observation s os))) symbols))
        (correlation_loop p os m symbols)
unfolding correlation_loop
loop-Judged p os m [] h known = record {
  bounded = h;
  same_check = refl;
  sound = λ t. tt;
  complete = λ t. refl;
}
loop-Judged p os m (s ∷ symbols) h known =
    round-Judged p m (All (λ s. Below p (correlation_of (observation s os))) symbols)
      (λ m'. correlation_loop p os m' symbols) (correlation_of (observation s os)) h known.0
      (λ m' h'. loop-Judged p os m' symbols h' known.1)

module _ (p : OfficialRiskPolicy) (os : List CorrelationObservation) (s : String) where
  with_raw :
      (o : CorrelationObservation) (x : Option Decimal)
      → observation s os ≡ some o
      → o.correlation ≡ x
      → is_cold p (some o) ≡ false
      → Below p x
      → Known p os s
  with_raw o none found same warm below = absurd below
  with_raw o (some raw) found same warm below = record {
    o = o;
    raw = raw;
    found = found;
    warm =
        omega (arith, not_less o.aligned_return_count p.minimum_aligned_correlation_returns warm);
    correlated = same;
    below = below;
  }

  Known-of :
      (x : Option CorrelationObservation)
      → observation s os ≡ x
      → is_cold p x ≡ false
      → Below p (correlation_of x)
      → Known p os s
  Known-of none found warm below = absurd below
  Known-of (some o) found warm below = with_raw o o.correlation found refl warm below

  Known-seen : Known p os s → is_none (observation s os) ≡ false
  Known-seen k = rw k.found refl

  Known-warm : Known p os s → is_cold p (observation s os) ≡ false
  Known-warm k =
      rw k.found (less_not k.o.aligned_return_count p.minimum_aligned_correlation_returns k.warm)

  Known-Below : Known p os s → Below p (correlation_of (observation s os))
  Known-Below k = rw (k.found, k.correlated) k.below

  Known-available : Known p os s → is_none (correlation_of (observation s os)) ≡ false
  Known-available k = rw (k.found, k.correlated) refl

blocked_gate :
    (G : Type 0) (reason : String) → (G → true ≡ false) → Ensures (Judged G) (refused reason)
unfolding whole unit
blocked_gate G reason h = record {
  bounded = (refl, refl);
  same_check = refl;
  sound = λ t. cc;
  complete = λ g. let bad = h g in cc;
}

pub correlation_gate_for-Judged :
    (p : OfficialRiskPolicy) (os : List CorrelationObservation) (symbols : List String)
    → Ensures (Judged (All (Known p os) symbols)) (correlation_gate_for p os symbols)
unfolding correlation_gate_for whole unit
correlation_gate_for-Judged p os [] = record {
  bounded = (refl, refl);
  same_check = refl;
  sound = λ t. tt;
  complete = λ t. refl;
}
correlation_gate_for-Judged p os (s ∷ ss) =
    let symbols : List String = s ∷ ss in
    elim (Bool-cases (any (λ x. is_none (observation x os)) symbols)) [
      | inl missing ↦ rw missing (
          blocked_gate (All (Known p os) symbols) "correlation_observation_missing" (λ k.
            sym missing
            ∙ none_in (λ x. is_none (observation x os)) (Known p os) (Known-seen p os) symbols k))
      | inr seen ↦ elim (Bool-cases (any (λ x. is_cold p (observation x os)) symbols)) [
        | inl cold ↦
            rw (seen, cold)
              (blocked_gate (All (Known p os) symbols) "correlation_history_cold" (λ k.
                sym cold
                ∙ none_in (λ x. is_cold p (observation x os)) (Known p os) (Known-warm p os) symbols
                    k))
        | inr warm ↦
            elim (Bool-cases (any (λ x. is_none (correlation_of (observation x os))) symbols)) [
              | inl gone ↦
                  rw (seen, warm, gone)
                    (blocked_gate (All (Known p os) symbols) "correlation_unavailable" (λ k.
                      sym gone
                      ∙ none_in (λ x. is_none (correlation_of (observation x os))) (Known p os)
                          (Known-available p os) symbols k))
              | inr there ↦
                  rw (seen, warm, there)
                    (Ensures-map
                      (Judged (All (λ x. Below p (correlation_of (observation x os))) symbols))
                      (Judged (All (Known p os) symbols))
                      (λ out j. record {
                        bounded = j.bounded;
                        same_check = j.same_check;
                        sound = λ t.
                            All-map
                              (λ x.
                                (is_cold p (observation x os) ≡ false)
                                × Below p (correlation_of (observation x os)))
                              (Known p os) (λ x h. Known-of p os x (observation x os) refl h.0 h.1)
                              symbols
                              (All-both (λ x. is_cold p (observation x os) ≡ false)
                                (λ x. Below p (correlation_of (observation x os))) symbols
                                (none_of (λ x. is_cold p (observation x os)) symbols warm)
                                (j.sound t));
                        complete = λ k. j.complete (
                            All-map (Known p os) (λ x. Below p (correlation_of (observation x os)))
                              (Known-Below p os) symbols k);
                      })
                      (correlation_loop p os (whole 1) symbols)
                      (loop-Judged p os (whole 1) symbols (refl, refl)
                        (none_of (λ x. is_none (correlation_of (observation x os))) symbols there)))
            ]
      ]
    ]
