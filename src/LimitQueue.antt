-- ===== src/LimitQueue.antt =====
-- maais/execution/paper/orders.py: the queue position of a resting limit order, advanced by the
-- trades that are observed.
pub mod Safety
pub mod Amounts
pub mod History
mod Tests
use maais.Base.{
  ℕ, Bool, not, ◌||◌, ◌&&◌, List, [], ◌∷◌, String, Result, ok, ◌>>◌, raise_if, value_error, str_eq,
  if◌then◌else◌, leb,
}
use maais.Decimal.{Decimal, zero_decimal, add, sub, mul, min, lt, le, eq, whole, fraction}
use maais.Domain.{
  PaperOrderSide, PaperOrderStatus, accepted, partially_filled, filled, expired, Datetime, is_buy,
  at_most, require_utc, require_positive_decimal,
}
use maais.Market.{BookLevel, BookSnapshot, TradePrint}
use maais.Orders.{is_terminal}

pub record LimitFill : Type 0 where
  pub market_event_id : String
  pub fill_at : Datetime
  pub quantity : Decimal
  pub price : Decimal
  pub fee : Decimal

pub record LimitQueueState : Type 0 where
  pub order_id : ℕ
  pub symbol : String
  pub side : PaperOrderSide
  pub limit_price : Decimal
  pub requested_quantity : Decimal
  pub filled_quantity : Decimal
  pub queue_ahead : Decimal
  pub eligible_after : Datetime
  pub expires_at : Datetime
  pub maker_fee_rate : Decimal
  pub status : PaperOrderStatus
  pub last_sequence : ℕ

unfoldable pub remaining_quantity : LimitQueueState → Decimal
remaining_quantity s = sub s.requested_quantity s.filled_quantity

-- The quantity resting at a price, or nothing.
resting_at : Decimal → List BookLevel → Decimal
resting_at price [] = zero_decimal
resting_at price (level ∷ levels) =
    if eq level.price price then level.quantity else resting_at price levels

unfoldable pub from_book :
    ℕ
    → PaperOrderSide
    → Decimal
    → Decimal
    → Datetime
    → Datetime
    → Decimal
    → BookSnapshot
    → Result LimitQueueState
unfolding resting_at
from_book order_id side limit_price quantity eligible_after expires_at maker_fee_rate book = do
  require_positive_decimal limit_price "limit_price"
  require_positive_decimal quantity "quantity"
  require_utc eligible_after "eligible_after"
  require_utc expires_at "expires_at"
  raise_if (at_most expires_at eligible_after) (value_error "expires_at must follow eligible_after")
  raise_if (lt maker_fee_rate zero_decimal || lt (whole 1) maker_fee_rate)
      (value_error "maker_fee_rate must be a finite Decimal in [0, 1]")
  ok (record {
    order_id = order_id;
    symbol = book.symbol;
    side = side;
    limit_price = limit_price;
    requested_quantity = quantity;
    filled_quantity = zero_decimal;
    queue_ahead = resting_at limit_price (if is_buy side then book.bids else book.asks);
    eligible_after = eligible_after;
    expires_at = expires_at;
    maker_fee_rate = maker_fee_rate;
    status = accepted;
    last_sequence = book.sequence;
  })

pub record LimitQueueAdvance : Type 0 where
  pub state : LimitQueueState
  pub fills : List LimitFill

-- `qualifies`: the trade went through the limit price against the order.
unfoldable pub qualifies : LimitQueueState → TradePrint → Bool
qualifies s t =
    (is_buy s.side && (str_eq t.aggressor_side "sell" && lt t.price s.limit_price))
    || (not (is_buy s.side) && (str_eq t.aggressor_side "buy" && lt s.limit_price t.price))

-- What a trade takes from the queue ahead of the order.
unfoldable pub consumed : LimitQueueState → TradePrint → Decimal
consumed s t = if lt zero_decimal s.queue_ahead then min s.queue_ahead t.quantity else zero_decimal

-- The queue ahead and the trade's rest, after what was consumed.
unfoldable pub queue_after : LimitQueueState → TradePrint → Decimal
queue_after s t =
    if lt zero_decimal s.queue_ahead then sub s.queue_ahead (consumed s t) else s.queue_ahead

unfoldable pub trade_after : LimitQueueState → TradePrint → Decimal
trade_after s t =
    if lt zero_decimal s.queue_ahead then sub t.quantity (consumed s t) else t.quantity

-- The order takes a tenth of what the trade has left.
unfoldable pub fill_quantity : LimitQueueState → TradePrint → Decimal
unfolding trade_after remaining_quantity
fill_quantity s t = min (remaining_quantity s) (mul (trade_after s t) (fraction 1 1))

-- The part of `advance_limit_queue` after the trade has qualified.
take_fill : LimitQueueState → TradePrint → LimitQueueAdvance
take_fill s t =
    let quantity = fill_quantity s t in
    let cumulative = add s.filled_quantity quantity in
    if le quantity zero_decimal
    then record {
      state = record s { queue_ahead = queue_after s t; last_sequence = t.sequence };
      fills = [];
    }
    else record {
      state = record s {
        filled_quantity = cumulative;
        queue_ahead = queue_after s t;
        status = if eq cumulative s.requested_quantity then filled else partially_filled;
        last_sequence = t.sequence;
      };
      fills =
          record {
            market_event_id = t.event_id;
            fill_at = t.observed_at;
            quantity = quantity;
            price = t.price;
            fee = mul (mul quantity t.price) s.maker_fee_rate;
          }
          ∷ [];
    }

unfoldable pub advance_limit_queue : LimitQueueState → TradePrint → LimitQueueAdvance
unfolding take_fill qualifies fill_quantity queue_after consumed
advance_limit_queue s t =
    if is_terminal s.status
    then record { state = s; fills = [] }
    else if not (str_eq t.symbol s.symbol)
    then record { state = s; fills = [] }
    else if at_most s.expires_at t.observed_at
    then record { state = record s { status = expired; last_sequence = t.sequence }; fills = [] }
    else if at_most t.observed_at s.eligible_after || leb t.sequence s.last_sequence
    then record { state = s; fills = [] }
    else if not (qualifies s t)
    then record { state = record s { last_sequence = t.sequence }; fills = [] }
    else take_fill s t
