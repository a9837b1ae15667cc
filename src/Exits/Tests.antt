-- ===== src/Exits/Tests.antt =====
-- A long plan on 1 at 100 with a stop at 98, a target at 104 and a holding time of three bars.
use maais.Base.{◌≡◌, ◌+◌, ◌≤◌, refl, true, none, List, [], ◌∷◌, ok, Ensures, arith, length}
use maais.Decimal.{whole, fraction, unit, add, sub, mul}
use maais.Domain.{Datetime, Direction, long, short, neutral}
use maais.Exits.{
  ExitPlan, active, triggered, create, evaluate_mark, resize, tighten_stop, emergency_flatten,
  close,
}
use maais.Exits.Calls.{
  Call, marks, tightens, resizes, flattens, closes, perform, perform_all, plan_after,
}
use maais.Exits.Triggers.{budget, perform_all-budget}
use maais.Exits.Stops.{Guards, perform_all-Guards}
use maais.Exits.Holding.{
  Bar, IsWaiting, IsSound, AfterBar, call_of, calls_of, create-holding_ends, bar_lem,
}
use maais.Exits.Marks.{AfterMark, evaluate_mark_lem}

abbrev noon : Datetime
noon = record { micros = 43200000000; utc = true }

abbrev plan : ExitPlan
plan = record {
  plan_id = 1;
  position_id = 2;
  side = long;
  quantity = whole 1;
  average_entry = whole 100;
  expected_loss_fraction = fraction 2 2;
  expected_gain_fraction = fraction 4 2;
  stop_price = whole 98;
  target_price = whole 104;
  maximum_bars = 3;
  bars_elapsed = 0;
  opposite_signal_streak = 0;
  status = active;
  created_at = noon;
  changed_at = noon;
  version = 1;
  trigger_reason = none;
  triggered_at = none;
  trigger_price = none;
  trigger_executable_price = none;
}

create-plan : create 1 2 long (whole 1) (whole 100) (fraction 2 2) (fraction 4 2) noon 3 ≡ ok plan
unfolding create add sub mul whole fraction
create-plan = refl

abbrev history : List Call
history =
    tightens (whole 99) noon
    ∷ tightens (whole 97) noon
    ∷ resizes (whole 2) (whole 101) noon
    ∷ marks (whole 90) noon none
    ∷ flattens noon (whole 90)
    ∷ closes noon
    ∷ []

-- The looser stop is refused, the mark triggers, and the flattening comes too late.
history_triggers : length (perform_all plan history).1 ≡ 1
unfolding perform_all perform evaluate_mark resize tighten_stop emergency_flatten close add sub mul
    whole fraction
history_triggers = refl

perform_all-budget_example :
    length (perform_all plan history).1 + budget (perform_all plan history).0.status ≤ 1
perform_all-budget_example = perform_all-budget plan history

perform_all-Guards_example : Guards plan (perform_all plan history).0
perform_all-Guards_example = perform_all-Guards plan history

abbrev bar : Direction → Bar
bar decision = record {
  decision = decision;
  approved = true;
  closed_at = noon;
  executable_price = whole 100;
}

bar-IsSound : (d : Direction) → IsSound noon (bar d)
unfolding whole unit
bar-IsSound d = record { is_utc = refl; not_before = omega arith; priced = refl }

create-holding_ends_example :
    (perform_all plan (calls_of (bar long ∷ bar short ∷ bar neutral ∷ []))).0.status ≡ triggered
create-holding_ends_example =
    create-holding_ends 1 2 long (whole 1) (whole 100) (fraction 2 2) (fraction 4 2) noon 3
      (bar long ∷ bar short ∷ bar neutral ∷ []) create-plan
      (bar-IsSound long, (bar-IsSound short, (bar-IsSound neutral, tt))) (omega arith)

plan-IsWaiting : IsWaiting plan
plan-IsWaiting = ground arith

bar_lem_example : AfterBar plan (bar short) (plan_after plan (perform plan (call_of (bar short))))
bar_lem_example = bar_lem plan (bar short) plan-IsWaiting (bar-IsSound short)

evaluate_mark_lem_example :
    Ensures (AfterMark plan (whole 97) noon none) (evaluate_mark plan (whole 97) noon none)
unfolding whole unit
evaluate_mark_lem_example =
    evaluate_mark_lem plan (whole 97) noon none plan-IsWaiting refl tt refl (omega arith)
