-- ===== src/Broker/Entering.antt =====
-- maais/execution/paper/broker.py: `execute_market_entry`.
use maais.Base.{
  false, not, ◌==◌, List, Option, none, some, Result, ok, ◌>>=◌, ◌>>◌, raise_if, value_error,
  runtime_error, permission_error,
}
use maais.Domain.{Datetime, market, opens, before, at_most}
use maais.Market.{BookSnapshot}
use maais.Clock.{OrderEligibility, eligibility}
use maais.Authorization.{verify}
use maais.Filters.{PreparedOrder, OrderArguments, prepare}
use maais.Orders
use maais.Orders.{PaperOrder, OrderRequest, authorize, accept}
use maais.Fills.{MarketFillRequest, PaperFill}
use maais.Positions.{PositionState, quantity_of}
use maais.Account
use maais.Account.{AccountState, FillArguments, lookup, position}
use maais.Exits
use maais.Exits.{ExitPlan, ExitIntent, is_triggered, resize, close, closing_side}
use maais.Records.{validate}
use maais.Broker.Commands.{
  MarketEntryCommand, PaperBrokerResult, claims_match, held_quantity, PaperBroker, placed_order,
  stored_fill, market_fill, outcome_of,
}

abbrev pub entry_arguments : MarketEntryCommand → OrderArguments
entry_arguments c = record {
  side = c.side;
  order_type = market;
  requested_quantity = c.requested_quantity;
  approved_quantity = c.approved_quantity;
  price = some c.decision_executable_price;
  approved_notional = c.approved_notional;
}

abbrev pub entry_order :
    PaperBroker
    → MarketEntryCommand
    → AccountState
    → PreparedOrder
    → OrderEligibility
    → OrderRequest
entry_order b c a prepared e = record {
  order_id = c.order_id;
  experiment_id = c.experiment_id;
  proposal_id = c.proposal_id;
  client_order_id = c.client_order_id;
  command_hash = b.entry_hash c prepared e;
  symbol = c.symbol;
  side = c.side;
  order_type = market;
  position_effect = opens;
  quantity = prepared.quantity;
  limit_price = none;
  reduce_only = false;
  open_quantity = held_quantity a c.symbol;
  created_at = c.created_at;
  expires_at = c.expires_at;
}

-- The exit plan after an entry: a new one, or the active one resized.
unfoldable pub entry_plan :
    MarketEntryCommand → PositionState → Datetime → Option ExitPlan → Result ExitPlan
entry_plan c p at none =
    Exits.create c.exit_plan_id p.position_id p.side (quantity_of p) p.average_entry
      c.expected_loss_fraction c.expected_gain_fraction at 60
entry_plan c p at (some plan) = do
  raise_if (not (plan.position_id == p.position_id))
      (value_error "active exit plan belongs to another position")
  resize plan (quantity_of p) p.average_entry at

abbrev pub entry_request : MarketEntryCommand → PreparedOrder → OrderEligibility → MarketFillRequest
entry_request c prepared e = record {
  symbol = c.symbol;
  side = c.side;
  quantity = prepared.quantity;
  eligible_after = e.eligible_at;
  decision_executable_price = c.decision_executable_price;
  taker_fee_rate = c.taker_fee_rate;
}

abbrev pub entry_fill : MarketEntryCommand → PaperFill → FillArguments
entry_fill c f = record {
  fill_id = c.fill_id;
  position_id = c.position_id;
  symbol = c.symbol;
  side = c.side;
  position_effect = opens;
  quantity = f.quantity;
  price = f.price;
  fee = f.fee;
  fill_at = f.fill_at;
}

-- The account, the plan and the stored fill of an entry, validated together.
unfoldable pub settle_entry :
    MarketEntryCommand
    → AccountState
    → Option ExitPlan
    → PaperOrder
    → PaperFill
    → Result PaperBrokerResult
settle_entry c a active order f = do
  next_account ← Account.apply_fill a (entry_fill c f)
  held ← position next_account c.symbol
  plan ← entry_plan c held f.fill_at active
  stored ← stored_fill c.fill_id c.order_id a.currency f
  validate (outcome_of order c.exchange_filters stored next_account plan)
  ok (record { outcome = outcome_of order c.exchange_filters stored next_account plan; fill = f })

unfoldable pub execute_market_entry :
    PaperBroker
    → MarketEntryCommand
    → AccountState
    → List BookSnapshot
    → Option ExitPlan
    → Result PaperBrokerResult
unfolding market_fill settle_entry
execute_market_entry b c a books active = do
  raise_if (not (a.experiment_id == c.experiment_id))
      (value_error "account and command experiment differ")
  raise_if (before c.decision_completed_at c.exchange_filters.captured_at)
      (value_error "exchange filter snapshot cannot be captured after the decision")
  valid ← verify b.sign c.capability c.created_at
  raise_if (not valid) (permission_error "execution capability is invalid or expired")
  prepared ← prepare c.exchange_filters (entry_arguments c)
  raise_if (not (claims_match c prepared.quantity c.capability.claims))
      (permission_error "execution capability does not match prepared order")
  e ← eligibility c.decision_completed_at c.execution_latency
  order ← placed_order (entry_order b c a prepared e) c.created_at
  f ← market_fill b.max_book_age (entry_request c prepared e) books
  raise_if (at_most c.expires_at f.fill_at)
      (runtime_error "first eligible market fill occurred after order expiry")
  filled_order ← Orders.apply_fill order f.quantity f.fill_at
  settle_entry c a active filled_order f
