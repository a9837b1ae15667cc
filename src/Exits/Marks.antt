-- ===== src/Exits/Marks.antt =====
-- Which exit a mark price triggers.
use maais.Base.{◌≤◌, ◌≡◌, ◌⊎◌, true, false, Option, none, some, Ensures, arith}
use maais.Base.Int.{◌≤ℤ◌}
use maais.Decimal.{Decimal, le, zero_decimal}
use maais.Domain.{Direction, long, short, neutral, Datetime}
use maais.Exits.{
  ExitPlan, ExitReason, ExitEvaluation, intent_of, triggered, stop, target, or_mark, evaluate_mark,
}
use maais.Exits.Holding.{IsWaiting}

-- The price has reached the stop, or the target, of a plan on a side.
abbrev pub HitStop : Direction → Decimal → Decimal → Type 0
HitStop long stop_price price = price ≤ℤ stop_price
HitStop short stop_price price = stop_price ≤ℤ price
HitStop neutral stop_price price = stop_price ≤ℤ price

abbrev pub HitTarget : Direction → Decimal → Decimal → Type 0
HitTarget long target_price price = target_price ≤ℤ price
HitTarget short target_price price = price ≤ℤ target_price
HitTarget neutral target_price price = price ≤ℤ target_price

-- The plan was triggered at a mark price, and the intent says so.
abbrev pub TriggeredAt :
    ExitPlan → ExitReason → Decimal → Datetime → Option Decimal → ExitEvaluation → Type 0
TriggeredAt p reason price at executable e =
    (e.plan.status ≡ triggered)
    × (e.plan.trigger_reason ≡ some reason)
    × (e.plan.trigger_price ≡ some price)
    × (e.plan.trigger_executable_price ≡ some (or_mark executable price))
    × (e.intent ≡ some (intent_of p reason at (some price)))

-- The stop goes before the target, and between the two nothing happens.
abbrev pub AfterMark : ExitPlan → Decimal → Datetime → Option Decimal → ExitEvaluation → Type 0
AfterMark p price at executable e =
    (HitStop p.side p.stop_price price × TriggeredAt p stop price at executable e)
    ⊎ ((¬ HitStop p.side p.stop_price price
          × HitTarget p.side p.target_price price
          × TriggeredAt p target price at executable e)
        ⊎ (¬ HitStop p.side p.stop_price price
            × ¬ HitTarget p.side p.target_price price
            × (e.plan ≡ p)
            × (e.intent ≡ none)))

abbrev pub IsPriced : Option Decimal → Type 0
IsPriced none = Unit
IsPriced (some price) = le price zero_decimal ≡ false

-- A positive mark price in UTC, not before the plan, evaluates a waiting plan: at or beyond the stop
-- it triggers the stop, else at or beyond the target the target, else nothing changes. The call
-- returns in each case, with an executable price or without.
pub evaluate_mark_lem :
    (p : ExitPlan) (price : Decimal) (at : Datetime) (executable : Option Decimal)
    → IsWaiting p
    → le price zero_decimal ≡ false
    → IsPriced executable
    → at.utc ≡ true
    → p.created_at.micros ≤ at.micros
    → Ensures (AfterMark p price at executable) (evaluate_mark p price at executable)
unfolding evaluate_mark
evaluate_mark_lem p price at none w q r u t = ground arith
evaluate_mark_lem p price at (some x) w q r u t = ground arith
