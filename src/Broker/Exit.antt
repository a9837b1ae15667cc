-- ===== src/Broker/Exit.antt =====
-- What an exit that the broker executes has done.
use maais.Base.{
  ◌+◌, ◌≡◌, refl, Bool, true, false, not, ◌==◌, none, some, List, String, Result, ok, Error,
  raise_if, returned, ok-injective, value_error, permission_error, exit_halt, arith, sym, subst,
  ◌∙◌,
}
use maais.Decimal.{eq}
use maais.Decimal.Grid.{IsExact}
use maais.Decimal.Rounding.{mul-IsExact}
use maais.Domain.{Datetime, before, at_most}
use maais.Market.{BookSnapshot}
use maais.Clock.{OrderEligibility, eligibility}
use maais.Filters.{PreparedOrder, prepare, multiple, ExchangeFilterSnapshot, OrderArguments}
use maais.Filters.Limits.{Within, prepare-Within}
use maais.Orders
use maais.Orders.{PaperOrder}
use maais.Fills.{PaperFill}
use maais.Positions.{PositionState, quantity_of, is_flat}
use maais.Account
use maais.Account.{AccountState, position, lookup}
use maais.Exits.{ExitPlan, closed, make_plan, close, is_triggered}
use maais.Records.{validate}
use maais.Broker.Commands.{
  PaperBroker, PaperBrokerResult, MarketExitCommand, placed_order, stored_fill, market_fill,
  outcome_of,
}
use maais.Broker.Leaving.{
  intent_mismatch, halt_on_filter, halt_on_fill, exit_arguments, exit_order, exit_request,
  exit_fill, settle_exit, execute_market_exit,
}
use maais.Broker.Steps.{
  placed_order-Placed, Completed, apply_fill-Completed, FilledBy, market_fill-FilledBy,
}
use maais.Broker.Entry.{eligible_time, not_late, passed}
use maais.Broker.Closing.{equal_decimals, Ended, apply_fill-Ended}

-- The account and the plan that an exit leaves.
pub record SettledExit (c : MarketExitCommand) (a : AccountState) (p : PositionState)
    (order : PaperOrder) (f : PaperFill) (r : PaperBrokerResult) : Type 0 where
  pub account : AccountState
  pub plan : ExitPlan
  pub same_order : r.outcome.order ≡ order
  pub same_fill : r.fill ≡ f
  pub has_account : r.outcome.account ≡ some account
  pub has_plan : r.outcome.exit_plan ≡ some plan
  pub booked : Account.apply_fill a (exit_fill c p f) ≡ ok account
  pub plan_closed : plan.status ≡ closed
  pub closed_then : plan.changed_at ≡ f.fill_at
  pub validated : validate r.outcome ≡ ok tt

close-closed :
    (plan : ExitPlan) (at : Datetime) {q : ExitPlan}
    → close plan at ≡ ok q
    → (q.status ≡ closed) × (q.changed_at ≡ at)
unfolding close make_plan
close-closed plan at h = ground (arith, h)

settle_exit-SettledExit :
    (c : MarketExitCommand) (a : AccountState) (p : PositionState) (plan : ExitPlan)
    (order : PaperOrder) (f : PaperFill) {r : PaperBrokerResult}
    → settle_exit c a p plan order f ≡ ok r
    → SettledExit c a p order f r
unfolding settle_exit
settle_exit-SettledExit c a p plan order f {r} h =
    let (account, booked, h1) = returned (Account.apply_fill a (exit_fill c p f)) _ h in
    let (q, ended, h2) = returned (close plan f.fill_at) _ h1 in
    let (stored, kept, h3) = returned (stored_fill c.fill_id c.order_id a.currency f) _ h2 in
    let (u, valid, h4) =
      returned (validate (outcome_of order c.exchange_filters stored account q)) _ h3 in
    subst (SettledExit c a p order f) (ok-injective h4) (record {
      account = account;
      plan = q;
      same_order = refl;
      same_fill = refl;
      has_account = refl;
      has_plan = refl;
      booked = booked;
      plan_closed = (close-closed plan f.fill_at ended).0;
      closed_then = (close-closed plan f.fill_at ended).1;
      validated = valid;
    })

-- What an exit with the fill `f` has done, from the position to the closed plan.
pub record Exited (b : PaperBroker) (c : MarketExitCommand) (a : AccountState) (plan : ExitPlan)
    (books : List BookSnapshot) (r : PaperBrokerResult) (f : PaperFill) : Type 0 where
  pub p : PositionState
  pub order : PaperOrder
  pub prepared : PreparedOrder
  pub e : OrderEligibility
  pub held : lookup c.symbol a.positions ≡ some p
  pub was_triggered : is_triggered plan.status ≡ true
  pub intended : intent_mismatch c p plan ≡ false
  pub within : Within c.exchange_filters (exit_arguments c p) prepared
  pub whole_position : prepared.quantity ≡ quantity_of p
  pub eligible_from : e.eligible_at.micros ≡ c.intent.triggered_at.micros + c.execution_latency
  pub completed : Completed (exit_order b c p plan prepared e) order
  pub reduces_only : order.reduce_only ≡ true
  pub by_book : FilledBy (exit_request c prepared e) books f
  pub in_time : before f.fill_at c.expires_at ≡ true
  pub settled : SettledExit c a p order f r
  pub position_ended : Ended settled.account c.symbol f.fill_at

-- Neither handler turns an error into a result.
halt_on_filter-ok :
    (x : Result PreparedOrder) {y : PreparedOrder} → halt_on_filter x ≡ ok y → x ≡ ok y
halt_on_filter-ok x h = ground (arith, h)

halt_on_fill-ok : (x : Result PaperFill) {y : PaperFill} → halt_on_fill x ≡ ok y → x ≡ ok y
halt_on_fill-ok x h = ground (arith, h)

listed_position :
    (a : AccountState) (symbol : String) {p : PositionState}
    → position a symbol ≡ ok p
    → lookup symbol a.positions ≡ some p
unfolding position
listed_position a symbol h = ground (arith, h)

unraised : (b : Bool) (e : Error) {u : Unit {0}} → raise_if b e ≡ ok u → b ≡ false
unraised true e h = cc
unraised false e h = refl

prepared-IsExact :
    (s : ExchangeFilterSnapshot) (a : OrderArguments) (prepared : PreparedOrder)
    → Within s a prepared
    → IsExact prepared.quantity
unfolding multiple
prepared-IsExact s a prepared w = subst IsExact (sym w.rounded_down) (mul-IsExact _ _)

abbrev untriggered : Error
untriggered = permission_error "exit plan is not triggered"

abbrev other_intent : Error
other_intent = permission_error "exit intent does not match the open position and plan"

abbrev residual : Error
residual = exit_halt "exit_quantization_residual" none

-- An exit that returns had a triggered plan and an intent for exactly the open position; its order is
-- reduce-only and filled whole, by the first eligible book after the trigger and the latency and
-- before the order expires; the position it leaves has no side and is closed at the fill; the plan is
-- closed then too; and the stored record passes its validation.
pub execute_market_exit-Exited :
    (b : PaperBroker) (c : MarketExitCommand) (a : AccountState) (plan : ExitPlan)
    (books : List BookSnapshot) {r : PaperBrokerResult}
    → execute_market_exit b c a plan books ≡ ok r
    → Exited b c a plan books r r.fill
unfolding execute_market_exit
execute_market_exit-Exited b c a plan books {r} h =
    let (u0, same, h0) =
      returned
        (raise_if (not (a.experiment_id == c.experiment_id))
          (value_error "account and exit command experiment differ"))
        _ h in
    let (p, held, h1) = returned (position a c.symbol) _ h0 in
    let (u1, opened, h2) =
      returned (raise_if (is_flat p) (value_error "exit command has no open position")) _ h1 in
    let (u2, was, h3) = returned (raise_if (not (is_triggered plan.status)) untriggered) _ h2 in
    let (u3, intended, h4) = returned (raise_if (intent_mismatch c p plan) other_intent) _ h3 in
    let (u4, causal, h5) =
      returned
        (raise_if (before c.intent.triggered_at c.exchange_filters.captured_at)
          (exit_halt "future_exchange_filter_snapshot" none))
        _ h4 in
    let (q, fits, h6) =
      returned (halt_on_filter (prepare c.exchange_filters (exit_arguments c p))) _ h5 in
    let (u5, whole, h7) = returned (raise_if (not (eq q.quantity (quantity_of p))) residual) _ h6 in
    let (e, waits, h8) = returned (eligibility c.intent.triggered_at c.execution_latency) _ h7 in
    let (o, placed, h9) = returned (placed_order (exit_order b c p plan q e) c.created_at) _ h8 in
    let (f, found, h10) =
      returned (halt_on_fill (market_fill b.max_book_age (exit_request c q e) books)) _ h9 in
    let late = exit_halt "exit_fill_after_expiry" (some f.market_event_id) in
    let (u6, timely, h11) = returned (raise_if (at_most c.expires_at f.fill_at) late) _ h10 in
    let (order, completed, h12) = returned (Orders.apply_fill o f.quantity f.fill_at) _ h11 in
    let within =
      prepare-Within c.exchange_filters (exit_arguments c p)
        (halt_on_filter-ok (prepare c.exchange_filters (exit_arguments c p)) fits) in
    let by_book =
      market_fill-FilledBy b.max_book_age (exit_request c q e) books
        (halt_on_fill-ok (market_fill b.max_book_age (exit_request c q e) books) found) in
    let settled = settle_exit-SettledExit c a p plan order f h12 in
    let all_of_it =
      equal_decimals q.quantity (quantity_of p)
        (passed (eq q.quantity (quantity_of p)) residual whole) in
    let completed_order =
      apply_fill-Completed (exit_order b c p plan q e) o f.quantity f.fill_at
        (placed_order-Placed (exit_order b c p plan q e) c.created_at placed)
        (prepared-IsExact c.exchange_filters (exit_arguments c p) q within) by_book.whole_quantity
        completed in
    let listed = listed_position a c.symbol held in
    subst (Exited b c a plan books r) (sym settled.same_fill) (record {
      p = p;
      order = order;
      prepared = q;
      e = e;
      held = listed;
      was_triggered = passed (is_triggered plan.status) untriggered was;
      intended = unraised (intent_mismatch c p plan) other_intent intended;
      within = within;
      whole_position = all_of_it;
      eligible_from = eligible_time c.intent.triggered_at c.execution_latency waits;
      completed = completed_order;
      reduces_only = completed_order.same_reduce_only;
      by_book = by_book;
      in_time = not_late f.fill_at c.expires_at late timely;
      settled = settled;
      position_ended =
          apply_fill-Ended a (exit_fill c p f) p refl listed (by_book.whole_quantity ∙ all_of_it)
            settled.booked;
    })
