-- ===== src/Broker/Leaving.antt =====
-- maais/execution/paper/broker.py: `execute_market_exit`.
use Prim.Native.String.{◌++◌}
use maais.Base.{
  Bool, true, not, ◌||◌, ◌==◌, List, none, some, Result, ok, err, ◌>>=◌, ◌>>◌, raise_if,
  value_error, permission_error, filter_rejection, fill_rejection, exit_halt,
}
use maais.Decimal.{mul, eq}
use maais.Domain.{market, reduces, before, at_most}
use maais.Market.{BookSnapshot}
use maais.Clock.{OrderEligibility, eligibility}
use maais.Filters.{PreparedOrder, OrderArguments, prepare}
use maais.Orders
use maais.Orders.{PaperOrder, OrderRequest, authorize, accept}
use maais.Fills.{MarketFillRequest, PaperFill}
use maais.Positions.{PositionState, is_flat, quantity_of}
use maais.Account
use maais.Account.{AccountState, FillArguments, lookup, position}
use maais.Exits.{ExitPlan, is_triggered, close, closing_side}
use maais.Records.{validate}
use maais.Broker.Commands.{
  MarketExitCommand, PaperBrokerResult, same_side, PaperBroker, placed_order, stored_fill,
  market_fill, outcome_of,
}

-- `except FilterRejection`, and `except FillRejection`: the incident that the exit raises instead.
abbrev pub halt_on_filter {ℓ} : {A : Type ℓ} → Result A → Result A
halt_on_filter (err (filter_rejection reason)) = err (exit_halt ("exchange_filter:" ++ reason) none)
halt_on_filter (err e) = err e
halt_on_filter (ok a) = ok a

abbrev pub halt_on_fill {ℓ} : {A : Type ℓ} → Result A → Result A
halt_on_fill (err (fill_rejection reason id)) = err (exit_halt reason id)
halt_on_fill (err e) = err e
halt_on_fill (ok a) = ok a

abbrev pub exit_arguments : MarketExitCommand → PositionState → OrderArguments
exit_arguments c p = record {
  side = c.intent.side;
  order_type = market;
  requested_quantity = c.intent.quantity;
  approved_quantity = quantity_of p;
  price = some c.decision_executable_price;
  approved_notional = mul (quantity_of p) c.decision_executable_price;
}

abbrev pub exit_order :
    PaperBroker
    → MarketExitCommand
    → PositionState
    → ExitPlan
    → PreparedOrder
    → OrderEligibility
    → OrderRequest
exit_order b c p plan prepared e = record {
  order_id = c.order_id;
  experiment_id = c.experiment_id;
  proposal_id = c.proposal_id;
  client_order_id = c.client_order_id;
  command_hash = b.exit_hash c plan prepared e;
  symbol = c.symbol;
  side = c.intent.side;
  order_type = market;
  position_effect = reduces;
  quantity = prepared.quantity;
  limit_price = none;
  reduce_only = true;
  open_quantity = quantity_of p;
  created_at = c.created_at;
  expires_at = c.expires_at;
}

abbrev pub exit_request : MarketExitCommand → PreparedOrder → OrderEligibility → MarketFillRequest
exit_request c prepared e = record {
  symbol = c.symbol;
  side = c.intent.side;
  quantity = prepared.quantity;
  eligible_after = e.eligible_at;
  decision_executable_price = c.decision_executable_price;
  taker_fee_rate = c.taker_fee_rate;
}

abbrev pub exit_fill : MarketExitCommand → PositionState → PaperFill → FillArguments
exit_fill c p f = record {
  fill_id = c.fill_id;
  position_id = p.position_id;
  symbol = c.symbol;
  side = c.intent.side;
  position_effect = reduces;
  quantity = f.quantity;
  price = f.price;
  fee = f.fee;
  fill_at = f.fill_at;
}

-- The intent is for this position and plan.
abbrev pub intent_mismatch : MarketExitCommand → PositionState → ExitPlan → Bool
intent_mismatch c p plan =
    not (c.intent.position_id == p.position_id)
    || (not (plan.position_id == p.position_id)
        || (not (eq c.intent.quantity (quantity_of p))
            || (not (same_side (closing_side p.side) c.intent.side) || not c.intent.reduce_only)))

unfoldable pub settle_exit :
    MarketExitCommand
    → AccountState
    → PositionState
    → ExitPlan
    → PaperOrder
    → PaperFill
    → Result PaperBrokerResult
settle_exit c a p plan order f = do
  next_account ← Account.apply_fill a (exit_fill c p f)
  closed_plan ← close plan f.fill_at
  stored ← stored_fill c.fill_id c.order_id a.currency f
  validate (outcome_of order c.exchange_filters stored next_account closed_plan)
  ok (record {
    outcome = outcome_of order c.exchange_filters stored next_account closed_plan;
    fill = f;
  })

unfoldable pub execute_market_exit :
    PaperBroker
    → MarketExitCommand
    → AccountState
    → ExitPlan
    → List BookSnapshot
    → Result PaperBrokerResult
unfolding market_fill settle_exit
execute_market_exit b c a plan books = do
  raise_if (not (a.experiment_id == c.experiment_id))
      (value_error "account and exit command experiment differ")
  p ← position a c.symbol
  raise_if (is_flat p) (value_error "exit command has no open position")
  raise_if (not (is_triggered plan.status)) (permission_error "exit plan is not triggered")
  raise_if (intent_mismatch c p plan)
      (permission_error "exit intent does not match the open position and plan")
  raise_if (before c.intent.triggered_at c.exchange_filters.captured_at)
      (exit_halt "future_exchange_filter_snapshot" none)
  prepared ← halt_on_filter (prepare c.exchange_filters (exit_arguments c p))
  raise_if (not (eq prepared.quantity (quantity_of p)))
      (exit_halt "exit_quantization_residual" none)
  e ← eligibility c.intent.triggered_at c.execution_latency
  order ← placed_order (exit_order b c p plan prepared e) c.created_at
  f ← halt_on_fill (market_fill b.max_book_age (exit_request c prepared e) books)
  raise_if (at_most c.expires_at f.fill_at)
      (exit_halt "exit_fill_after_expiry" (some f.market_event_id))
  filled_order ← Orders.apply_fill order f.quantity f.fill_at
  settle_exit c a p plan filled_order f
