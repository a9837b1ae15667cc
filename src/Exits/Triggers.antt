-- ===== src/Exits/Triggers.antt =====
-- An exit plan issues at most one intent: its triggers and what they leave.
use maais.Base.{
  ℕ, ◌+◌, ◌≤◌, ◌≡◌, ◌⊎◌, true, Option, none, some, Result, ok, err, List, [], ◌∷◌, arith, length,
  length-append,
}
use maais.Exits.{
  ExitPlan, ExitIntent, ExitEvaluation, ExitPlanStatus, active, triggered, superseded, closed,
  evaluate_mark, observe_closed_bar, resize, tighten_stop, emergency_flatten, close, pending_intent,
}
use maais.Exits.Calls.{
  Call, marks, bars, resizes, tightens, flattens, closes, perform, perform_all, plan_after,
  intents_of,
}

-- What a call that returns has issued: an active plan stays active or is closed after its trigger
-- without an intent; an intent comes with the trigger, closes the whole position with a reduce-only
-- market order, and is what a restart recovers from the plan.
abbrev pub Issued : ExitPlan → Option ExitIntent → ExitPlan → Type 0
Issued p none q =
    ((p.status ≡ active) × (q.status ≡ active)) ⊎ ((p.status ≡ triggered) × (q.status ≡ closed))
Issued p (some i) q =
    (p.status ≡ active)
    × (q.status ≡ triggered)
    × (pending_intent q ≡ ok i)
    × (i.reduce_only ≡ true)
    × (i.quantity ≡ p.quantity)

abbrev pub Settled : ExitPlan → Result ExitEvaluation → Type 0
Settled p (err x) = Unit
Settled p (ok e) = Issued p e.intent e.plan

pub perform-Settled : (p : ExitPlan) (c : Call) → Settled p (perform p c)
unfolding perform evaluate_mark observe_closed_bar resize tighten_stop emergency_flatten close
    pending_intent
perform-Settled p (closes at) = ground arith
perform-Settled p (flattens at x) = ground arith
perform-Settled p (tightens x at) = ground arith
perform-Settled p (resizes q x at) = ground arith
perform-Settled p (marks x at e) = ground arith
perform-Settled p (bars d b at e) = ground arith

-- How many intents a plan can still issue.
abbrev pub budget : ExitPlanStatus → ℕ
budget active = 1
budget triggered = 0
budget superseded = 0
budget closed = 0

budget-step :
    (p : ExitPlan) (r : Result ExitEvaluation)
    → Settled p r
    → length (intents_of r) + budget (plan_after p r).status ≤ budget p.status
budget-step p (err x) h = omega arith
budget-step p (ok e) h = ground arith

-- Over any history of calls a plan issues at most one intent, and none once it is no longer
-- active; after an intent the plan is no longer active.
pub perform_all-budget :
    (p : ExitPlan) (cs : List Call)
    → length (perform_all p cs).1 + budget (perform_all p cs).0.status ≤ budget p.status
unfolding perform_all
perform_all-budget p [] = omega arith
perform_all-budget p (c ∷ cs) =
    let r = perform p c in
    omega (
      arith,
      perform_all-budget (plan_after p r) cs,
      budget-step p r (perform-Settled p c),
      length-append {0} (intents_of r) (perform_all (plan_after p r) cs).1,
    )
