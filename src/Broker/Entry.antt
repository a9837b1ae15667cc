-- ===== src/Broker/Entry.antt =====
-- What an entry that the broker executes has done.
use maais.Base.{
  ℕ, ◌+◌, ◌≡◌, refl, Bool, true, false, not, ◌==◌, Option, none, some, List, ok, Error, raise_if,
  returned, ok-injective, value_error, runtime_error, permission_error, arith, ap, sym, subst, ◌∙◌,
}
use maais.Decimal.{lt, zero_decimal}
use maais.Decimal.Grid.{IsExact}
use maais.Decimal.Rounding.{mul-IsExact}
use maais.Domain.{Datetime, before, at_most}
use maais.Market.{BookSnapshot}
use maais.Clock.{OrderEligibility, eligibility}
use maais.Authorization.{verify}
use maais.Filters.{PreparedOrder, prepare, multiple}
use maais.Filters.Limits.{Within, prepare-Within}
use maais.Orders
use maais.Orders.{PaperOrder}
use maais.Fills.{PaperFill}
use maais.Positions.{PositionState, quantity_of}
use maais.Account
use maais.Account.{AccountState, free_margin, reconciles, position}
use maais.Account.History.{apply_fill-has_margin}
use maais.Exits
use maais.Exits.{ExitPlan, active, make_plan, resize, is_active}
use maais.Records.{validate}
use maais.Broker.Commands.{
  PaperBroker, PaperBrokerResult, MarketEntryCommand, claims_match, placed_order, stored_fill,
  market_fill, outcome_of,
}
use maais.Broker.Entering.{
  entry_arguments, entry_order, entry_request, entry_fill, entry_plan, settle_entry,
  execute_market_entry,
}
use maais.Broker.Steps.{
  placed_order-Placed, Completed, apply_fill-Completed, FilledBy, market_fill-FilledBy,
}

-- The plan guards the position: it is active, for the whole quantity.
pub record PlanGuards (p : PositionState) (plan : ExitPlan) : Type 0 where
  pub whole_position : plan.quantity ≡ quantity_of p
  pub same_position : plan.position_id ≡ p.position_id
  pub watching : plan.status ≡ active

entry_plan-PlanGuards :
    (c : MarketEntryCommand) (p : PositionState) (at : Datetime) (current : Option ExitPlan)
    {plan : ExitPlan}
    → entry_plan c p at current ≡ ok plan
    → PlanGuards p plan
unfolding entry_plan Exits.create resize make_plan
entry_plan-PlanGuards c p at none h = ground (arith, h)
entry_plan-PlanGuards c p at (some plan) h = ground (arith, h)

-- The account, the position and the plan that an entry leaves.
pub record Settled (c : MarketEntryCommand) (a : AccountState) (order : PaperOrder) (f : PaperFill)
    (r : PaperBrokerResult) : Type 0 where
  pub account : AccountState
  pub held : PositionState
  pub plan : ExitPlan
  pub same_order : r.outcome.order ≡ order
  pub same_fill : r.fill ≡ f
  pub has_account : r.outcome.account ≡ some account
  pub has_plan : r.outcome.exit_plan ≡ some plan
  pub booked : Account.apply_fill a (entry_fill c f) ≡ ok account
  pub has_margin : lt (free_margin account) zero_decimal ≡ false
  pub holds : position account c.symbol ≡ ok held
  pub guarded : PlanGuards held plan
  pub validated : validate r.outcome ≡ ok tt

settle_entry-Settled :
    (c : MarketEntryCommand) (a : AccountState) (current : Option ExitPlan) (order : PaperOrder)
    (f : PaperFill) {r : PaperBrokerResult}
    → settle_entry c a current order f ≡ ok r
    → Settled c a order f r
unfolding settle_entry
settle_entry-Settled c a current order f {r} h =
    let (account, booked, h1) = returned (Account.apply_fill a (entry_fill c f)) _ h in
    let (held, holds, h2) = returned (position account c.symbol) _ h1 in
    let (plan, planned, h3) = returned (entry_plan c held f.fill_at current) _ h2 in
    let (stored, kept, h4) = returned (stored_fill c.fill_id c.order_id a.currency f) _ h3 in
    let (u, valid, h5) =
      returned (validate (outcome_of order c.exchange_filters stored account plan)) _ h4 in
    subst (Settled c a order f) (ok-injective h5) (record {
      account = account;
      held = held;
      plan = plan;
      same_order = refl;
      same_fill = refl;
      has_account = refl;
      has_plan = refl;
      booked = booked;
      has_margin = apply_fill-has_margin a (entry_fill c f) booked refl;
      holds = holds;
      guarded = entry_plan-PlanGuards c held f.fill_at current planned;
      validated = valid;
    })

-- What an entry with the fill `f` has done, from the capability to the plan.
pub record Entered (b : PaperBroker) (c : MarketEntryCommand) (a : AccountState)
    (books : List BookSnapshot) (r : PaperBrokerResult) (f : PaperFill) : Type 0 where
  pub order : PaperOrder
  pub prepared : PreparedOrder
  pub e : OrderEligibility
  pub verified : verify b.sign c.capability c.created_at ≡ ok true
  pub within : Within c.exchange_filters (entry_arguments c) prepared
  pub bound : claims_match c prepared.quantity c.capability.claims ≡ true
  pub eligible_from : e.eligible_at.micros ≡ c.decision_completed_at.micros + c.execution_latency
  pub completed : Completed (entry_order b c a prepared e) order
  pub by_book : FilledBy (entry_request c prepared e) books f
  pub in_time : before f.fill_at c.expires_at ≡ true
  pub settled : Settled c a order f r

pub eligible_time :
    (at : Datetime) (latency : ℕ) {e : OrderEligibility}
    → eligibility at latency ≡ ok e
    → e.eligible_at.micros ≡ at.micros + latency
unfolding eligibility
eligible_time at latency h = ground (arith, h)

abbrev expired_fill : Error
expired_fill = runtime_error "first eligible market fill occurred after order expiry"

abbrev invalid_capability : Error
invalid_capability = permission_error "execution capability is invalid or expired"

abbrev other_order : Error
other_order = permission_error "execution capability does not match prepared order"

pub passed : (b : Bool) (e : Error) {u : Unit {0}} → raise_if (not b) e ≡ ok u → b ≡ true
passed true e h = refl
passed false e h = cc

pub not_late :
    (f at : Datetime) (e : Error) {u : Unit {0}}
    → raise_if (at_most at f) e ≡ ok u
    → before f at ≡ true
not_late f at e h = ground (arith, h)

prepared-IsExact :
    (c : MarketEntryCommand) (prepared : PreparedOrder)
    → Within c.exchange_filters (entry_arguments c) prepared
    → IsExact prepared.quantity
unfolding multiple
prepared-IsExact c prepared w = subst IsExact (sym w.rounded_down) (mul-IsExact _ _)

-- An entry that returns has a capability that verifies at its creation and whose claims are those of
-- the prepared order; its quantity is inside the exchange's filters and the approval; its order is
-- filled whole, by the first eligible book after the decision and the latency and before the order
-- expires; the account has booked that fill and keeps a free margin that is not negative; an active
-- exit plan guards the whole position; and the stored record passes its validation.
pub execute_market_entry-Entered :
    (b : PaperBroker) (c : MarketEntryCommand) (a : AccountState) (books : List BookSnapshot)
    (current : Option ExitPlan) {r : PaperBrokerResult}
    → execute_market_entry b c a books current ≡ ok r
    → Entered b c a books r r.fill
unfolding execute_market_entry
execute_market_entry-Entered b c a books current {r} h =
    let (u0, same, h0) =
      returned
        (raise_if (not (a.experiment_id == c.experiment_id))
          (value_error "account and command experiment differ"))
        _ h in
    let (u1, causal, h1) =
      returned
        (raise_if (before c.decision_completed_at c.exchange_filters.captured_at)
          (value_error "exchange filter snapshot cannot be captured after the decision"))
        _ h0 in
    let (valid, answer, h2) = returned (verify b.sign c.capability c.created_at) _ h1 in
    let (u2, allowed, h3) = returned (raise_if (not valid) invalid_capability) _ h2 in
    let (p, fits, h4) = returned (prepare c.exchange_filters (entry_arguments c)) _ h3 in
    let (u3, matched, h5) =
      returned (raise_if (not (claims_match c p.quantity c.capability.claims)) other_order) _ h4 in
    let (e, waits, h6) = returned (eligibility c.decision_completed_at c.execution_latency) _ h5 in
    let (o, placed, h7) = returned (placed_order (entry_order b c a p e) c.created_at) _ h6 in
    let (f, found, h8) = returned (market_fill b.max_book_age (entry_request c p e) books) _ h7 in
    let (u4, timely, h9) = returned (raise_if (at_most c.expires_at f.fill_at) expired_fill) _ h8 in
    let (order, completed, h10) = returned (Orders.apply_fill o f.quantity f.fill_at) _ h9 in
    let within = prepare-Within c.exchange_filters (entry_arguments c) fits in
    let by_book = market_fill-FilledBy b.max_book_age (entry_request c p e) books found in
    let settled = settle_entry-Settled c a current order f h10 in
    subst (Entered b c a books r) (sym settled.same_fill) (record {
      order = order;
      prepared = p;
      e = e;
      verified = answer ∙ ap ok (passed valid invalid_capability allowed);
      within = within;
      bound = passed (claims_match c p.quantity c.capability.claims) other_order matched;
      eligible_from = eligible_time c.decision_completed_at c.execution_latency waits;
      completed =
          apply_fill-Completed (entry_order b c a p e) o f.quantity f.fill_at
            (placed_order-Placed (entry_order b c a p e) c.created_at placed)
            (prepared-IsExact c p within) by_book.whole_quantity completed;
      by_book = by_book;
      in_time = not_late f.fill_at c.expires_at expired_fill timely;
      settled = settled;
    })
