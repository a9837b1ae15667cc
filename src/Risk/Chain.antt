-- ===== src/Risk/Chain.antt =====
-- The chain of the eight gates, from the correlation's gate and the tests of the last four.
use maais.Base.{◌≡◌, refl, Bool, true, ◌&&◌, List, [], ◌∷◌, ◌++◌, arith}
use maais.Quality.{is_passed, all_passed, in_order}
use maais.Risk.Engine.{RiskGate, correlation_check, index, all_checks}
use maais.Risk.Sizing.{capacity_verdicts, kelly_passed, stop_passed, drawdown_passed}

abbrev pub first_gates : RiskGate → List RiskGate
first_gates g = kelly_passed ∷ stop_passed ∷ drawdown_passed ∷ g ∷ []

abbrev pub chain : RiskGate → Bool → Bool → Bool → Bool → Bool → List RiskGate
chain g positive b1 b2 b3 b4 = first_gates g ++ capacity_verdicts positive b1 b2 b3 b4

pub chain-passed :
    (g : RiskGate) (positive b1 b2 b3 b4 : Bool)
    → all_passed (chain g positive b1 b2 b3 b4) ≡ true
    → (is_passed g.status ≡ true) × (b1 ≡ true) × (b2 ≡ true) × (b3 ≡ true) × (b4 ≡ true)
unfolding all_passed
chain-passed g positive b1 b2 b3 b4 h = ground (arith, h)

pub chain-pass :
    (g : RiskGate) (positive b1 b2 b3 b4 : Bool)
    → is_passed g.status ≡ true
    → b1 ≡ true
    → b2 ≡ true
    → b3 ≡ true
    → b4 ≡ true
    → all_passed (chain g positive b1 b2 b3 b4) ≡ true
unfolding all_passed
chain-pass g positive b1 b2 b3 b4 h h1 h2 h3 h4 = rw (h, h1, h2, h3, h4) refl

pub chain-ordered :
    (g : RiskGate) (positive b1 b2 b3 b4 : Bool)
    → g.check ≡ correlation_check
    → in_order index all_checks (chain g positive b1 b2 b3 b4) ≡ true
unfolding in_order
chain-ordered g positive b1 b2 b3 b4 h = ground (arith, h)

pub halves : (a b : Bool) → (a && b) ≡ true → (a ≡ true) × (b ≡ true)
halves a b h = ground (arith, h)
