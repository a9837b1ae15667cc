-- ===== src/Exits.antt =====
-- maais/execution/paper/exits.py: the exit plan that guards an open position.
pub mod Calls
pub mod Stops
pub mod Triggers
pub mod Holding
pub mod Marks
mod Tests
use maais.Base.{
  ℕ, ◌+◌, Bool, true, false, not, ◌||◌, ◌&&◌, Option, none, some, String, Result, ok, ◌>>=◌, ◌>>◌,
  raise_if, or_raise, value_error, runtime_error, is_none, is_some, leb, ◌==◌, if◌then◌else◌,
}
use maais.Decimal.{Decimal, zero_decimal, add, sub, mul, min, max, lt, le, whole}
use maais.Domain.{
  PaperOrderSide, PaperOrderType, Direction, buy, sell, market, Datetime, is_long, is_short, before,
  require_utc, require_positive_decimal,
}

pub data ExitPlanStatus : Type 0 where
  active triggered superseded closed : ExitPlanStatus

pub data ExitReason : Type 0 where
  stop target maximum_hold opposing_signal emergency : ExitReason

pub record ExitIntent : Type 0 where
  pub position_id : ℕ
  pub side : PaperOrderSide
  pub order_type : PaperOrderType
  pub quantity : Decimal
  pub reduce_only : Bool
  pub reason : ExitReason
  pub triggered_at : Datetime
  pub trigger_price : Option Decimal

pub record ExitPlan : Type 0 where
  pub plan_id : ℕ
  pub position_id : ℕ
  pub side : Direction
  pub quantity : Decimal
  pub average_entry : Decimal
  pub expected_loss_fraction : Decimal
  pub expected_gain_fraction : Decimal
  pub stop_price : Decimal
  pub target_price : Decimal
  pub maximum_bars : ℕ
  pub bars_elapsed : ℕ
  pub opposite_signal_streak : ℕ
  pub status : ExitPlanStatus
  pub created_at : Datetime
  pub changed_at : Datetime
  pub version : ℕ
  pub trigger_reason : Option ExitReason
  pub triggered_at : Option Datetime
  pub trigger_price : Option Decimal
  pub trigger_executable_price : Option Decimal

pub record ExitEvaluation : Type 0 where
  pub plan : ExitPlan
  pub intent : Option ExitIntent

abbrev pub is_active : ExitPlanStatus → Bool
is_active active = true
is_active _ = false

abbrev pub is_triggered : ExitPlanStatus → Bool
is_triggered triggered = true
is_triggered _ = false

abbrev pub is_closed : ExitPlanStatus → Bool
is_closed closed = true
is_closed _ = false

-- The trigger's time is UTC and does not precede the plan.
check_time : Datetime → Option Datetime → Result (Unit {0})
check_time created_at none = ok tt
check_time created_at (some at) = do
  require_utc at "triggered_at"
  raise_if (before at created_at) (value_error "exit trigger cannot precede plan creation")

check_price : Option Decimal → String → Result (Unit {0})
check_price none field = ok tt
check_price (some price) field = require_positive_decimal price field

-- `__post_init__`, which `replace` runs too.
unfoldable pub make_plan : ExitPlan → Result ExitPlan
unfolding check_time check_price
make_plan p = do
  raise_if
      (is_active p.status
        && (is_some p.trigger_reason
            || (is_some p.triggered_at
                || (is_some p.trigger_executable_price || is_some p.trigger_price))))
      (value_error "active exit plan cannot contain trigger metadata")
  raise_if
      ((is_triggered p.status || is_closed p.status)
        && (is_none p.trigger_reason
            || (is_none p.triggered_at || is_none p.trigger_executable_price)))
      (value_error "triggered and closed exit plans require restart metadata")
  check_time p.created_at p.triggered_at
  check_price p.trigger_price "trigger_price"
  check_price p.trigger_executable_price "trigger_executable_price"
  ok p

-- `_require_fraction`.
require_fraction : Decimal → String → Result (Unit {0})
require_fraction value field =
    raise_if (le value zero_decimal || le (whole 1) value) (value_error field)

-- `_levels`: the stop and the target.
unfoldable pub levels : Direction → Decimal → Decimal → Decimal → Decimal × Decimal
levels side average_entry loss gain =
    if is_long side
    then (mul average_entry (sub (whole 1) loss), mul average_entry (add (whole 1) gain))
    else (mul average_entry (add (whole 1) loss), mul average_entry (sub (whole 1) gain))

unfoldable pub create :
    ℕ → ℕ → Direction → Decimal → Decimal → Decimal → Decimal → Datetime → ℕ → Result ExitPlan
unfolding require_fraction levels make_plan
create plan_id position_id side quantity average_entry loss gain created_at maximum_bars = do
  raise_if (not (is_long side || is_short side))
      (value_error "exit plan side must be long or short")
  require_positive_decimal quantity "quantity"
  require_positive_decimal average_entry "average_entry"
  require_fraction loss "expected_loss_fraction"
  require_fraction gain "expected_gain_fraction"
  require_utc created_at "created_at"
  raise_if (maximum_bars == 0) (value_error "maximum_bars must be positive")
  let prices = levels side average_entry loss gain
  make_plan (record {
    plan_id = plan_id;
    position_id = position_id;
    side = side;
    quantity = quantity;
    average_entry = average_entry;
    expected_loss_fraction = loss;
    expected_gain_fraction = gain;
    stop_price = prices.0;
    target_price = prices.1;
    maximum_bars = maximum_bars;
    bars_elapsed = 0;
    opposite_signal_streak = 0;
    status = active;
    created_at = created_at;
    changed_at = created_at;
    version = 1;
    trigger_reason = none;
    triggered_at = none;
    trigger_price = none;
    trigger_executable_price = none;
  })

-- `_require_active`.
abbrev require_active : ExitPlan → Result (Unit {0})
require_active p = raise_if (not (is_active p.status)) (runtime_error "exit plan is not active")

-- The side of the order that closes a position.
abbrev pub closing_side : Direction → PaperOrderSide
closing_side side = if is_long side then sell else buy

abbrev pub intent_of : ExitPlan → ExitReason → Datetime → Option Decimal → ExitIntent
intent_of p reason at price = record {
  position_id = p.position_id;
  side = closing_side p.side;
  order_type = market;
  quantity = p.quantity;
  reduce_only = true;
  reason = reason;
  triggered_at = at;
  trigger_price = price;
}

-- `_trigger`.
trigger : ExitPlan → ExitReason → Datetime → Option Decimal → Decimal → Result ExitEvaluation
unfolding make_plan
trigger p reason at price executable = do
  plan ← make_plan (record p {
    status = triggered;
    changed_at = at;
    version = p.version + 1;
    trigger_reason = some reason;
    triggered_at = some at;
    trigger_price = price;
    trigger_executable_price = some executable;
  })
  ok (record { plan = plan; intent = some (intent_of p reason at price) })

-- Which level a mark price has reached, the stop before the target.
unfoldable pub reached : ExitPlan → Decimal → Option ExitReason
reached p mark_price =
    if is_long p.side
    then (if le mark_price p.stop_price
        then some stop
        else if le p.target_price mark_price
        then some target
        else none)
    else if le p.stop_price mark_price
    then some stop
    else if le mark_price p.target_price
    then some target
    else none

-- `executable_price or mark_price`; a price that was checked is not zero.
abbrev pub or_mark : Option Decimal → Decimal → Decimal
or_mark none mark_price = mark_price
or_mark (some price) mark_price = price

unfoldable pub evaluate_mark :
    ExitPlan → Decimal → Datetime → Option Decimal → Result ExitEvaluation
unfolding trigger reached check_price
evaluate_mark p mark_price observed_at executable_price = do
  require_active p
  require_positive_decimal mark_price "mark_price"
  require_utc observed_at "observed_at"
  check_price executable_price "executable_price"
  elim (reached p mark_price) [
    | none ↦ ok (record { plan = p; intent = none })
    | some reason ↦
        trigger p reason observed_at (some mark_price) (or_mark executable_price mark_price)
  ]

-- The decision goes against the plan's side.
abbrev pub opposes : Direction → Direction → Bool
opposes side decision = (is_long side && is_short decision) || (is_short side && is_long decision)

unfoldable pub observe_closed_bar :
    ExitPlan → Direction → Bool → Datetime → Decimal → Result ExitEvaluation
unfolding trigger make_plan
observe_closed_bar p decision approved closed_at executable_price = do
  require_active p
  require_utc closed_at "closed_at"
  require_positive_decimal executable_price "executable_price"
  let streak = if approved && opposes p.side decision then p.opposite_signal_streak + 1 else 0
  updated ← make_plan (record p {
    bars_elapsed = p.bars_elapsed + 1;
    opposite_signal_streak = streak;
    changed_at = closed_at;
    version = p.version + 1;
  })
  if leb 2 streak
      then trigger updated opposing_signal closed_at none executable_price
      else if leb updated.maximum_bars updated.bars_elapsed
      then trigger updated maximum_hold closed_at none executable_price
      else ok (record { plan = updated; intent = none })

unfoldable pub resize : ExitPlan → Decimal → Decimal → Datetime → Result ExitPlan
unfolding levels make_plan
resize p quantity average_entry changed_at = do
  require_active p
  require_positive_decimal quantity "quantity"
  require_positive_decimal average_entry "average_entry"
  require_utc changed_at "changed_at"
  let prices = levels p.side average_entry p.expected_loss_fraction p.expected_gain_fraction
  make_plan (record p {
    quantity = quantity;
    average_entry = average_entry;
    stop_price = if is_long p.side then max p.stop_price prices.0 else min p.stop_price prices.0;
    target_price = prices.1;
    changed_at = changed_at;
    version = p.version + 1;
  })

unfoldable pub tighten_stop : ExitPlan → Decimal → Datetime → Result ExitPlan
unfolding make_plan
tighten_stop p stop_price changed_at = do
  require_active p
  require_positive_decimal stop_price "stop_price"
  require_utc changed_at "changed_at"
  raise_if
      ((is_long p.side && lt stop_price p.stop_price)
        || (is_short p.side && lt p.stop_price stop_price))
      (value_error "stop cannot move away from risk")
  make_plan (record p { stop_price = stop_price; changed_at = changed_at; version = p.version + 1 })

unfoldable pub emergency_flatten : ExitPlan → Datetime → Decimal → Result ExitEvaluation
unfolding trigger
emergency_flatten p triggered_at executable_price = do
  require_active p
  require_utc triggered_at "triggered_at"
  require_positive_decimal executable_price "executable_price"
  trigger p emergency triggered_at none executable_price

unfoldable pub pending_intent : ExitPlan → Result ExitIntent
pending_intent p = do
  raise_if (not (is_triggered p.status))
      (runtime_error "only a triggered exit plan has a pending intent")
  reason ← or_raise p.trigger_reason (runtime_error "AssertionError")
  at ← or_raise p.triggered_at (runtime_error "AssertionError")
  ok (intent_of p reason at p.trigger_price)

unfoldable pub close : ExitPlan → Datetime → Result ExitPlan
unfolding make_plan
close p closed_at = do
  require_utc closed_at "closed_at"
  raise_if (not (is_triggered p.status)) (runtime_error "only a triggered exit plan can be closed")
  make_plan (record p { status = closed; changed_at = closed_at; version = p.version + 1 })
