-- ===== src/Admission/Allowed.antt =====
-- When a decision cycle is admitted.
use maais.Base.{
  ◌≡◌, refl, Bool, true, false, not, List, [], ◌∷◌, is_nil, ok, ◌>>◌, raise_if, value_error,
  Ensures, if◌then◌else◌, arith, sym, ◌∙◌,
}
use maais.Quality.{is_passed, all_passed, blocking, blocking-all_passed, same_checks_refl, in_order}
use maais.Admission.{
  kill_switch, health, baseline_warmup, volatility, liquidity, benchmark, OfficialAdmissionPolicy,
  MonitoringAdmissionContext,
}
use maais.Admission.Gates.{
  AdmissionGate, index, all_checks, kill_switch_gate, health_gate, baseline_gate, baseline_gate_for,
  volatility_gate, volatility_gate_for, liquidity_gate, liquidity_gate_for, benchmark_gate,
  benchmark_gate_for, gates_of, MonitoringAdmissionDecision, make_decision, evaluate,
}
use maais.Admission.Conditions.{
  Admissible, health_gate_sound, health_gate_complete, market_sound, market_complete,
  benchmark_gate_sound, benchmark_gate_complete,
}

module _ (p : OfficialAdmissionPolicy) (c : MonitoringAdmissionContext) where
  six :
      (a b d e f g : AdmissionGate)
      → all_passed (a ∷ b ∷ d ∷ e ∷ f ∷ g ∷ []) ≡ true
      → (is_passed a.status ≡ true)
        × (is_passed b.status ≡ true)
        × (is_passed d.status ≡ true)
        × (is_passed e.status ≡ true)
        × (is_passed f.status ≡ true)
        × (is_passed g.status ≡ true)
  unfolding all_passed
  six a b d e f g h = ground (arith, h)

  kill_switch_sound : is_passed (kill_switch_gate c).status ≡ true → c.kill_switch_active ≡ false
  unfolding kill_switch_gate
  kill_switch_sound h = ground (arith, h)

  kill_switch_complete : c.kill_switch_active ≡ false → is_passed (kill_switch_gate c).status ≡ true
  unfolding kill_switch_gate
  kill_switch_complete h = rw h refl

  gates_sound : all_passed (gates_of p c) ≡ true → Admissible p c
  unfolding baseline_gate volatility_gate liquidity_gate benchmark_gate
  gates_sound h =
      let (k, w, b, v, l, m) =
        six (kill_switch_gate c) (health_gate p c) (baseline_gate p c) (volatility_gate p c)
          (liquidity_gate p c) (benchmark_gate p c) h in
      record {
        running = kill_switch_sound k;
        all_healthy = health_gate_sound p c w;
        market = market_sound p c c.volatility refl b v l;
        benchmarked = benchmark_gate_sound p c c.benchmark refl m;
      }

  gates_complete : Admissible p c → all_passed (gates_of p c) ≡ true
  unfolding all_passed
  gates_complete a =
      let (b, v, l) = market_complete p c a.market in
      rw
        (
          kill_switch_complete a.running,
          health_gate_complete p c a.all_healthy,
          b,
          v,
          l,
          benchmark_gate_complete p c a.benchmarked,
        )
        refl

  kill_switch-check : (kill_switch_gate c).check ≡ kill_switch
  unfolding kill_switch_gate
  kill_switch-check = ground arith

  health-check : (health_gate p c).check ≡ health
  unfolding health_gate
  health-check = ground arith

  baseline-check : (baseline_gate p c).check ≡ baseline_warmup
  unfolding baseline_gate baseline_gate_for
  baseline-check = ground arith

  volatility-check : (volatility_gate p c).check ≡ volatility
  unfolding volatility_gate volatility_gate_for
  volatility-check = ground arith

  liquidity-check : (liquidity_gate p c).check ≡ liquidity
  unfolding liquidity_gate liquidity_gate_for
  liquidity-check = ground arith

  benchmark-check : (benchmark_gate p c).check ≡ benchmark
  unfolding benchmark_gate benchmark_gate_for
  benchmark-check = ground arith

  gates-ordered : in_order index all_checks (gates_of p c) ≡ true
  unfolding in_order
  gates-ordered =
      rw
        (
          kill_switch-check, health-check, baseline-check, volatility-check, liquidity-check,
          benchmark-check,
        )
        refl

-- An admission is allowed exactly under the conditions, and names the gates that block it.
pub record Admits (p : OfficialAdmissionPolicy) (c : MonitoringAdmissionContext)
    (d : MonitoringAdmissionDecision) : Type 0 where
  pub sound : d.allowed ≡ true → Admissible p c
  pub complete : Admissible p c → d.allowed ≡ true
  pub ordered : in_order index all_checks d.gates ≡ true
  pub blocked : d.blocking_checks ≡ blocking d.gates

abbrev decided : List AdmissionGate → MonitoringAdmissionDecision
decided gates = record {
  allowed = is_nil (blocking gates);
  gates = gates;
  blocking_checks = blocking gates;
}

accepted :
    (gates : List AdmissionGate)
    → in_order index all_checks gates ≡ true
    → make_decision (decided gates) ≡ ok (decided gates)
unfolding make_decision
accepted gates ordered =
    rw (ordered, same_checks_refl index (blocking gates))
      (open_or_shut (is_nil (blocking gates)) (decided gates))
  where
    open_or_shut :
        (b : Bool) (d : MonitoringAdmissionDecision)
        → (raise_if
              (if b then not b else b)
              (value_error "monitoring admission does not match its gate results")
            >> ok d)
          ≡ ok d
    open_or_shut true d = refl
    open_or_shut false d = refl

-- For any policy and context the admission raises nothing and returns a decision. It is allowed
-- exactly when the kill switch is clear, each mandatory component's last observation is healthy and
-- fresh, the volatility baseline is the context's own, fresh and of enough samples, the volatility
-- and the spread are within their limits, and the benchmark is fresh; fresh means neither from after
-- the evaluation nor older than the policy's age. The decision has the six gates in their order, and
-- the checks that block are those of the gates that have not passed.
pub evaluate-Admits :
    (p : OfficialAdmissionPolicy) (c : MonitoringAdmissionContext)
    → Ensures (Admits p c) (evaluate p c)
unfolding evaluate
evaluate-Admits p c =
    let same = blocking-all_passed (gates_of p c) in
    rw (accepted (gates_of p c) (gates-ordered p c)) (record {
      sound = λ t. gates_sound p c (sym same ∙ t);
      complete = λ a. same ∙ gates_complete p c a;
      ordered = gates-ordered p c;
      blocked = refl;
    })
