-- ===== src/Records.antt =====
-- maais/execution/paper/records.py: the stored fill, the execution record with its validation, and a
-- funding record. The JSON market snapshot is left out.
use maais.Base.{
  ℕ, true, not, ◌||◌, ◌&&◌, ◌==◌, String, str_eq, is_empty, List, is_nil, any, map, Option, none,
  some, is_none, is_some, Result, ok, ◌>>=◌, ◌>>◌, raise_if, value_error,
}
use maais.Decimal.{Decimal, zero_decimal, add, lt, eq, sum}
use maais.Domain.{Datetime, before, require_utc, require_positive_decimal}
use maais.Positions.{is_flat, quantity_of}
use maais.Account
use maais.Account.{AccountState, reconciles}
use maais.Exits.{ExitPlan, is_closed}
use maais.Filters.{ExchangeFilterSnapshot}
use maais.Orders.{PaperOrder}

pub record ExecutionFillRecord : Type 0 where
  pub id : ℕ
  pub order_intent_id : ℕ
  pub market_event_id : String
  pub fill_at : Datetime
  pub quantity : Decimal
  pub price : Decimal
  pub liquidity_role : String
  pub fee : Decimal
  pub fee_asset : String
  pub spread_cost : Decimal
  pub depth_slippage : Decimal
  pub latency_slippage : Decimal
  pub total_slippage : Decimal

unfoldable pub make_fill_record : ExecutionFillRecord → Result ExecutionFillRecord
make_fill_record f = do
  raise_if (is_empty f.market_event_id || (is_empty f.liquidity_role || is_empty f.fee_asset))
      (value_error "market event, liquidity role, and fee asset are required")
  require_utc f.fill_at "fill_at"
  require_positive_decimal f.quantity "fill quantity"
  require_positive_decimal f.price "fill price"
  raise_if (lt f.fee zero_decimal) (value_error "fee must be nonnegative")
  raise_if (not (eq f.total_slippage (add (add f.spread_cost f.depth_slippage) f.latency_slippage)))
      (value_error "total slippage does not reconcile to its components")
  ok f

pub record PaperExecutionRecord : Type 0 where
  pub order : PaperOrder
  pub exchange_filters : ExchangeFilterSnapshot
  pub fills : List ExecutionFillRecord
  pub account : Option AccountState
  pub exit_plan : Option ExitPlan

-- The part of `validate` about the account.
unfoldable pub check_account : PaperOrder → Option AccountState → Result (Unit {0})
check_account order none = ok tt
check_account order (some account) =
    raise_if (not (order.experiment_id == account.experiment_id))
      (value_error "order and account experiment differ")

unfoldable pub check_reconciled : Option AccountState → Result (Unit {0})
check_reconciled none = ok tt
check_reconciled (some account) =
    raise_if (not (reconciles account)) (value_error "account does not reconcile")

-- The part of `validate` about the exit plan and the position that it guards.
unfoldable pub check_plan : String → Option AccountState → Option ExitPlan → Result (Unit {0})
check_plan symbol account none = ok tt
check_plan symbol none (some plan) = raise_if true (value_error "AssertionError")
check_plan symbol (some account) (some plan) = do
  position ← Account.position account symbol
  raise_if (not (plan.position_id == position.position_id))
      (value_error "exit plan position identity differs")
  raise_if (not (is_flat position) && not (eq plan.quantity (quantity_of position)))
      (value_error "exit plan quantity differs from position")
  raise_if (is_flat position && not (is_closed plan.status))
      (value_error "flat position requires a closed exit plan")

unfoldable pub validate : PaperExecutionRecord → Result (Unit {0})
unfolding check_account check_reconciled check_plan
validate r = do
  check_account r.order r.account
  raise_if (not (str_eq r.order.symbol r.exchange_filters.symbol))
      (value_error "order and exchange filter symbol differ")
  raise_if (any (λ f. not (f.order_intent_id == r.order.order_id)) r.fills)
      (value_error "fill order identity differs")
  raise_if (not (eq (sum (map (λ f. f.quantity) r.fills)) r.order.filled_quantity))
      (value_error "fill projection does not match order filled quantity")
  raise_if (not (is_nil r.fills) && is_none r.account)
      (value_error "filled execution requires account state")
  raise_if (is_none r.account && is_some r.exit_plan)
      (value_error "exit plan requires account state")
  check_reconciled r.account
  check_plan r.order.symbol r.account r.exit_plan

pub record FundingRecord : Type 0 where
  pub id : ℕ
  pub experiment_id : ℕ
  pub position_id : ℕ
  pub market_event_id : String
  pub funding_at : Datetime
  pub observed_at : Datetime
  pub rate : Decimal
  pub rate_type : String
  pub mark_price : Decimal
  pub notional : Decimal
  pub amount : Decimal

unfoldable pub make_funding_record : FundingRecord → Result FundingRecord
make_funding_record f = do
  raise_if (is_empty f.market_event_id) (value_error "market_event_id is required")
  require_utc f.funding_at "funding_at"
  require_utc f.observed_at "observed_at"
  raise_if (before f.observed_at f.funding_at)
      (value_error "funding cannot be observed before its venue timestamp")
  raise_if (not (str_eq f.rate_type "Regular" || str_eq f.rate_type "Special"))
      (value_error "funding rate_type must be Regular or Special")
  require_positive_decimal f.mark_price "funding mark price"
  require_positive_decimal f.notional "funding notional"
  ok f
