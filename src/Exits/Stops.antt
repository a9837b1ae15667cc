-- ===== src/Exits/Stops.antt =====
-- The stop of an exit plan only ever moves towards the market.
use maais.Base.{◌≡◌, List, [], ◌∷◌, arith}
use maais.Base.Int.{◌≤ℤ◌}
use maais.Decimal.{Decimal}
use maais.Domain.{Direction, long, short, neutral}
use maais.Exits.{
  ExitPlan, evaluate_mark, observe_closed_bar, resize, tighten_stop, emergency_flatten, close,
}
use maais.Exits.Calls.{
  Call, marks, bars, resizes, tightens, flattens, closes, perform, perform_all, plan_after,
}

-- The first stop loses no less than the second: below it for a long plan, above it for a short.
abbrev pub Tighter : Direction → Decimal → Decimal → Type 0
Tighter long old new = old ≤ℤ new
Tighter short old new = new ≤ℤ old
Tighter neutral old new = Unit

-- The plan's side and position stay, and its stop has not loosened.
pub record Guards (p q : ExitPlan) : Type 0 where
  pub same_side : q.side ≡ p.side
  pub same_position : q.position_id ≡ p.position_id
  pub tighter : Tighter p.side p.stop_price q.stop_price

perform-Guards : (p : ExitPlan) (c : Call) → Guards p (plan_after p (perform p c))
unfolding perform evaluate_mark observe_closed_bar resize tighten_stop emergency_flatten close
perform-Guards p (marks x at e) = ground arith
perform-Guards p (bars d b at e) = ground arith
perform-Guards p (flattens at x) = ground arith
perform-Guards p (closes at) = ground arith
perform-Guards p (tightens x at) = ground arith
perform-Guards p (resizes q x at) = ground arith

Guards-trans : (p q r : ExitPlan) → Guards p q → Guards q r → Guards p r
Guards-trans p q r h g = ground arith

-- Over any history of calls, marks, bars, resizing and tightening included, a plan keeps its side
-- and position, a long plan's stop never falls and a short plan's stop never rises.
pub perform_all-Guards : (p : ExitPlan) (cs : List Call) → Guards p (perform_all p cs).0
unfolding perform_all
perform_all-Guards p [] = ground arith
perform_all-Guards p (c ∷ cs) =
    let q = plan_after p (perform p c) in
    Guards-trans p q (perform_all q cs).0 (perform-Guards p c) (perform_all-Guards q cs)
