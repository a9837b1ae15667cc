-- ===== src/Broker/Tests.antt =====
-- One coin bought at the first eligible ask, and the same coin sold when its plan has triggered.
use maais.Base.{is_ascii, ℕ, ◌≡◌, refl, true, none, some, String, List, [], ◌∷◌}
use maais.Returns.{is_ok, value_of, value_of-ok}
use maais.Base.Int.{◌+ℤ◌, ◌-ℤ◌, ◌*ℤ◌}
use maais.Decimal.{
  max_coefficient, unit, whole, fraction, zero_decimal, round, round_from, half_even, add, sub, mul,
  div, sum, negate,
}
use maais.Domain.{Datetime, buy, sell, long, market}
use maais.Market.{BookLevel, BookSnapshot, midpoint, best_bid, best_ask}
use maais.Clock.{eligibility}
use maais.Authorization.{AuthorizationClaims, compare_digest, verify}
use maais.Filters
use maais.Filters.{ExchangeFilterSnapshot}
use maais.Orders
use maais.Fills
use maais.Positions
use maais.Positions.{PositionState, PositionLot}
use maais.Account
use maais.Account.{AccountState}
use maais.Exits
use maais.Exits.{ExitPlan, triggered, target}
use maais.Records
use maais.Broker.Commands.{
  PaperBroker, PaperBrokerResult, MarketEntryCommand, MarketExitCommand, placed_order, stored_fill,
  market_fill,
}
use maais.Broker.Entering.{execute_market_entry, entry_plan, settle_entry}
use maais.Broker.Leaving.{execute_market_exit, settle_exit}
use maais.Broker.Entry.{Entered, execute_market_entry-Entered}
use maais.Broker.Exit.{Exited, execute_market_exit-Exited}

abbrev digest : String
digest = "0123456789abcdef0123456789abcdef0123456789abcdef0123456789abcdef"

abbrev instant : ℕ → Datetime
instant t = record { micros = t; utc = true }

signed-is_ascii : is_ascii "signed" ≡ true
unfolding is_ascii
signed-is_ascii = refl

abbrev broker : PaperBroker
broker = record {
  sign = record { signature = λ claims. "signed"; ascii = λ claims. signed-is_ascii };
  max_book_age = 10;
  entry_hash = λ c prepared e. digest;
  exit_hash = λ c plan prepared e. digest;
}

abbrev level : ℕ → ℕ → BookLevel
level price quantity = record { price = whole price; quantity = whole quantity }

abbrev book : String → ℕ → BookSnapshot
book event_id t = record {
  event_id = event_id;
  symbol = "BTCUSDT";
  venue_event_at = instant t;
  observed_at = instant t;
  sequence = t;
  bids = level 99 4 ∷ [];
  asks = level 101 4 ∷ [];
  mark_price = whole 100;
}

-- The first book is seen before the order is eligible.
abbrev books : List BookSnapshot
books = book "late" 40 ∷ book "early" 20 ∷ book "first" 30 ∷ []

abbrev filters : ExchangeFilterSnapshot
filters = record {
  symbol = "BTCUSDT";
  status = "TRADING";
  price_tick = fraction 5 1;
  quantity_step = fraction 1 1;
  minimum_quantity = fraction 1 1;
  maximum_quantity = whole 1000;
  minimum_notional = whole 5;
  supported_order_types = market ∷ [];
  captured_at = instant 5;
}

abbrev claims : AuthorizationClaims
claims = record {
  experiment_id = 1;
  decision_cycle_id = 2;
  proposal_id = 3;
  gate_chain_hash = digest;
  symbol = "BTCUSDT";
  side = buy;
  quantity = whole 1;
  approved_notional = whole 200;
  issued_at = instant 10;
  expires_at = instant 100;
}

abbrev account : AccountState
account = record {
  experiment_id = 1;
  initial_capital = whole 1000;
  currency = "USDT";
  leverage = 1;
  cash_balance = whole 1000;
  peak_equity = whole 1000;
  positions = [];
  version = 0;
  updated_at = none;
}

abbrev entry : MarketEntryCommand
entry = record {
  order_id = 4;
  fill_id = 5;
  position_id = 6;
  exit_plan_id = 7;
  experiment_id = 1;
  decision_cycle_id = 2;
  proposal_id = 3;
  gate_chain_hash = digest;
  client_order_id = "entry";
  symbol = "BTCUSDT";
  side = buy;
  requested_quantity = whole 1;
  approved_quantity = whole 1;
  approved_notional = whole 200;
  decision_executable_price = whole 100;
  decision_completed_at = instant 10;
  execution_latency = 15;
  created_at = instant 11;
  expires_at = instant 90;
  taker_fee_rate = zero_decimal;
  expected_loss_fraction = fraction 1 1;
  expected_gain_fraction = fraction 2 1;
  capability = record { claims = claims; signature = "signed" };
  exchange_filters = filters;
}

entered : is_ok (execute_market_entry broker entry account books none) ≡ true
unfolding execute_market_entry settle_entry market_fill placed_order stored_fill entry_plan verify
    compare_digest is_ascii eligibility Filters.prepare Filters.price_order
    Filters.quantize_quantity Filters.multiple Filters.integral_floor Orders.create Orders.authorize
    Orders.accept Orders.apply_fill Fills.make_request Fills.fill Fills.eligible_book
    Fills.sort_books Fills.insert_book Fills.fill_from Fills.walk Fills.walk_levels Fills.make_slice
    Fills.make_fill midpoint best_bid best_ask Account.apply_fill Account.fill_outcome
    Account.position_to_open Account.lookup Account.raise_peak Account.insert Account.reconciles
    Account.margin_residual Account.cash_residual Account.equity_residual Account.expected_cash
    Account.total Account.position Positions.empty_position Positions.open_fill
    Positions.average_entry_of Positions.unrealized_pnl Positions.gross_notional
    Positions.lots_quantity Exits.create Exits.levels Exits.make_plan Records.make_fill_record
    Records.validate Records.check_account Records.check_reconciled Records.check_plan sum add sub
    mul div whole fraction unit round round_from max_coefficient half_even ◌+ℤ◌ ◌-ℤ◌ ◌*ℤ◌ negate
entered = refl

abbrev entry_result : PaperBrokerResult
entry_result = value_of (execute_market_entry broker entry account books none) entered

execute_market_entry-Entered_example :
    Entered broker entry account books entry_result entry_result.fill
execute_market_entry-Entered_example =
    execute_market_entry-Entered broker entry account books none
      (value_of-ok (execute_market_entry broker entry account books none) entered)

abbrev lot : PositionLot
lot = record {
  lot_id = 5;
  opening_fill_id = 5;
  opened_at = instant 30;
  entry_price = whole 100;
  original_quantity = whole 1;
  remaining_quantity = whole 1;
  opening_fee = zero_decimal;
  remaining_opening_fee = zero_decimal;
  funding = zero_decimal;
}

abbrev held : PositionState
held = record {
  position_id = 6;
  experiment_id = 1;
  symbol = "BTCUSDT";
  side = long;
  mark_price = whole 100;
  average_entry = whole 100;
  realized_pnl = zero_decimal;
  fees = zero_decimal;
  funding = zero_decimal;
  lots = lot ∷ [];
  opened_at = some (instant 30);
  closed_at = none;
  version = 1;
}

abbrev holding : AccountState
holding = record account { positions = ("BTCUSDT", held) ∷ [] }

abbrev plan : ExitPlan
plan = record {
  plan_id = 7;
  position_id = 6;
  side = long;
  quantity = whole 1;
  average_entry = whole 100;
  expected_loss_fraction = fraction 1 1;
  expected_gain_fraction = fraction 2 1;
  stop_price = whole 90;
  target_price = whole 120;
  maximum_bars = 60;
  bars_elapsed = 0;
  opposite_signal_streak = 0;
  status = triggered;
  created_at = instant 1;
  changed_at = instant 10;
  version = 2;
  trigger_reason = some target;
  triggered_at = some (instant 10);
  trigger_price = some (whole 121);
  trigger_executable_price = some (whole 120);
}

abbrev leaving : MarketExitCommand
leaving = record {
  order_id = 8;
  fill_id = 9;
  experiment_id = 1;
  proposal_id = 3;
  client_order_id = "exit";
  symbol = "BTCUSDT";
  decision_executable_price = whole 120;
  execution_latency = 15;
  created_at = instant 11;
  expires_at = instant 90;
  taker_fee_rate = zero_decimal;
  intent = record {
    position_id = 6;
    side = sell;
    order_type = market;
    quantity = whole 1;
    reduce_only = true;
    reason = target;
    triggered_at = instant 10;
    trigger_price = some (whole 121);
  };
  exchange_filters = filters;
}

left : is_ok (execute_market_exit broker leaving holding plan books) ≡ true
unfolding execute_market_exit settle_exit market_fill placed_order stored_fill eligibility
    Filters.prepare Filters.price_order Filters.quantize_quantity Filters.multiple
    Filters.integral_floor Orders.create Orders.authorize Orders.accept Orders.apply_fill
    Fills.make_request Fills.fill Fills.eligible_book Fills.sort_books Fills.insert_book
    Fills.fill_from Fills.walk Fills.walk_levels Fills.make_slice Fills.make_fill midpoint best_bid
    best_ask Account.apply_fill Account.fill_outcome Account.position_to_reduce Account.lookup
    Account.raise_peak Account.insert Account.reconciles Account.margin_residual
    Account.cash_residual Account.equity_residual Account.expected_cash Account.total
    Account.position Positions.close_fill Positions.close_lots Positions.close_round
    Positions.close_lot Positions.average_entry_of Positions.unrealized_pnl Positions.gross_notional
    Positions.lots_quantity Exits.close Exits.make_plan Records.make_fill_record Records.validate
    Records.check_account Records.check_reconciled Records.check_plan sum add sub mul div whole
    fraction unit round round_from max_coefficient half_even ◌+ℤ◌ ◌-ℤ◌ ◌*ℤ◌ negate
left = refl

abbrev exit_result : PaperBrokerResult
exit_result = value_of (execute_market_exit broker leaving holding plan books) left

execute_market_exit-Exited_example :
    Exited broker leaving holding plan books exit_result exit_result.fill
execute_market_exit-Exited_example =
    execute_market_exit-Exited broker leaving holding plan books
      (value_of-ok (execute_market_exit broker leaving holding plan books) left)
