-- ===== src/Broker/Commands.antt =====
-- maais/execution/paper/broker.py: the commands, the broker's settings, and what an entry and
-- an exit share.
use maais.Base.{
  ℕ, Bool, not, ◌&&◌, ◌==◌, String, str_eq, List, [], ◌∷◌, none, some, text_length, Result, ok,
  ◌>>=◌, ◌>>◌, raise_if, value_error,
}
use maais.Decimal.{Decimal, zero_decimal, eq}
use maais.Domain.{PaperOrderSide, Datetime, buy, sell, is_buy}
use maais.Market.{BookSnapshot}
use maais.Clock.{OrderEligibility}
use maais.Authorization.{AuthorizationClaims, ExecutionCapability, Signer}
use maais.Filters.{ExchangeFilterSnapshot, PreparedOrder}
use maais.Orders
use maais.Orders.{PaperOrder, OrderRequest, authorize, accept}
use maais.Fills.{MarketFillRequest, PaperFill, make_request, fill}
use maais.Positions.{quantity_of}
use maais.Account.{AccountState, lookup}
use maais.Exits.{ExitPlan, ExitIntent}
use maais.Records.{ExecutionFillRecord, PaperExecutionRecord, make_fill_record}

pub record MarketEntryCommand : Type 0 where
  pub order_id : ℕ
  pub fill_id : ℕ
  pub position_id : ℕ
  pub exit_plan_id : ℕ
  pub experiment_id : ℕ
  pub decision_cycle_id : ℕ
  pub proposal_id : ℕ
  pub gate_chain_hash : String
  pub client_order_id : String
  pub symbol : String
  pub side : PaperOrderSide
  pub requested_quantity : Decimal
  pub approved_quantity : Decimal
  pub approved_notional : Decimal
  pub decision_executable_price : Decimal
  pub decision_completed_at : Datetime
  pub execution_latency : ℕ
  pub created_at : Datetime
  pub expires_at : Datetime
  pub taker_fee_rate : Decimal
  pub expected_loss_fraction : Decimal
  pub expected_gain_fraction : Decimal
  pub capability : ExecutionCapability
  pub exchange_filters : ExchangeFilterSnapshot

unfoldable pub make_entry_command : MarketEntryCommand → Result MarketEntryCommand
make_entry_command c = do
  raise_if (not (text_length c.gate_chain_hash == 64))
      (value_error "gate_chain_hash must be a SHA-256 hex digest")
  ok c

pub record MarketExitCommand : Type 0 where
  pub order_id : ℕ
  pub fill_id : ℕ
  pub experiment_id : ℕ
  pub proposal_id : ℕ
  pub client_order_id : String
  pub symbol : String
  pub decision_executable_price : Decimal
  pub execution_latency : ℕ
  pub created_at : Datetime
  pub expires_at : Datetime
  pub taker_fee_rate : Decimal
  pub intent : ExitIntent
  pub exchange_filters : ExchangeFilterSnapshot

-- `PaperBrokerResult`.
pub record PaperBrokerResult : Type 0 where
  pub outcome : PaperExecutionRecord
  pub fill : PaperFill

abbrev pub same_side : PaperOrderSide → PaperOrderSide → Bool
same_side buy side = is_buy side
same_side sell side = not (is_buy side)

-- `actual_claims == expected_claims`.
abbrev pub claims_match : MarketEntryCommand → Decimal → AuthorizationClaims → Bool
claims_match c quantity claims =
    claims.experiment_id == c.experiment_id
    && (claims.decision_cycle_id == c.decision_cycle_id
        && (claims.proposal_id == c.proposal_id
            && (str_eq claims.gate_chain_hash c.gate_chain_hash
                && (str_eq claims.symbol c.symbol
                    && (same_side claims.side c.side
                        && (eq claims.quantity quantity
                            && eq claims.approved_notional c.approved_notional))))))

-- `account.position(symbol).quantity if symbol in account.positions else Decimal("0")`.
abbrev pub held_quantity : AccountState → String → Decimal
held_quantity a symbol = elim (lookup symbol a.positions) [
  | none ↦ zero_decimal
  | some p ↦ quantity_of p
]

-- The settings of a `PaperBroker`: the signatures of its authorizer, the age of books in
-- microseconds that its fill engine allows, and the hash of commands.
pub record PaperBroker : Type 0 where
  pub sign : Signer
  pub max_book_age : ℕ
  pub entry_hash : MarketEntryCommand → PreparedOrder → OrderEligibility → String
  pub exit_hash : MarketExitCommand → ExitPlan → PreparedOrder → OrderEligibility → String

-- `order.authorize(at).accept(at)` on a new order.
unfoldable pub placed_order : OrderRequest → Datetime → Result PaperOrder
placed_order r at = do
  order ← Orders.create r
  authorized ← authorize order at
  accept authorized at

-- The stored form of a fill.
unfoldable pub stored_fill : ℕ → ℕ → String → PaperFill → Result ExecutionFillRecord
stored_fill fill_id order_id currency f = make_fill_record (record {
  id = fill_id;
  order_intent_id = order_id;
  market_event_id = f.market_event_id;
  fill_at = f.fill_at;
  quantity = f.quantity;
  price = f.price;
  liquidity_role = f.liquidity_role;
  fee = f.fee;
  fee_asset = currency;
  spread_cost = f.spread_cost;
  depth_slippage = f.depth_slippage;
  latency_slippage = f.latency_slippage;
  total_slippage = f.total_slippage;
})

-- `MarketFillRequest(...)` and then `self._market_fills.fill`.
unfoldable pub market_fill : ℕ → MarketFillRequest → List BookSnapshot → Result PaperFill
market_fill max_book_age r books = make_request r >>= λ request. fill max_book_age request books

abbrev pub outcome_of :
    PaperOrder
    → ExchangeFilterSnapshot
    → ExecutionFillRecord
    → AccountState
    → ExitPlan
    → PaperExecutionRecord
outcome_of order filters stored account plan = record {
  order = order;
  exchange_filters = filters;
  fills = stored ∷ [];
  account = some account;
  exit_plan = some plan;
}
