-- ===== src/Exits/Calls.antt =====
-- The calls that change an exit plan, as data: each returns the next plan and the intent it issues.
use maais.Base.{Bool, Option, none, some, Result, ok, err, ◌>>=◌, List, [], ◌∷◌, ◌++◌}
use maais.Decimal.{Decimal}
use maais.Domain.{Direction, Datetime}
use maais.Exits.{
  ExitPlan, ExitIntent, ExitEvaluation, evaluate_mark, observe_closed_bar, resize, tighten_stop,
  emergency_flatten, close,
}

pub data Call : Type 0 where
  marks : Decimal → Datetime → Option Decimal → Call
  bars : Direction → Bool → Datetime → Decimal → Call
  resizes : Decimal → Decimal → Datetime → Call
  tightens : Decimal → Datetime → Call
  flattens : Datetime → Decimal → Call
  closes : Datetime → Call

abbrev pub quietly : ExitPlan → ExitEvaluation
quietly p = record { plan = p; intent = none }

unfoldable pub perform : ExitPlan → Call → Result ExitEvaluation
perform p (marks price at executable) = evaluate_mark p price at executable
perform p (bars decision approved at executable) =
    observe_closed_bar p decision approved at executable
perform p (resizes quantity entry at) = resize p quantity entry at >>= λ q. ok (quietly q)
perform p (tightens price at) = tighten_stop p price at >>= λ q. ok (quietly q)
perform p (flattens at executable) = emergency_flatten p at executable
perform p (closes at) = close p at >>= λ q. ok (quietly q)

-- The plan after a call: one that raises leaves it alone, since the objects are immutable.
abbrev pub plan_after : ExitPlan → Result ExitEvaluation → ExitPlan
plan_after p (ok e) = e.plan
plan_after p (err x) = p

abbrev pub intents_of : Result ExitEvaluation → List ExitIntent
intents_of (err x) = []
intents_of (ok e) = elim e.intent [ none ↦ [] | some i ↦ i ∷ [] ]

-- The last plan, and the intents that were issued on the way.
unfoldable pub perform_all : ExitPlan → List Call → ExitPlan × List ExitIntent
perform_all p [] = (p, [])
perform_all p (c ∷ cs) =
    let r = perform p c in
    let (last, rest) = perform_all (plan_after p r) cs in (last, intents_of r ++ rest)
