-- ===== src/LimitQueue/Safety.antt =====
-- When a resting limit order fills, and that it waits for the queue ahead of it.
use maais.Base.{
  ◌≢◌, ◌*◌, ◌/◌, ◌^◌, ◌≤◌, ◌<◌, ◌≡◌, inl, inr, false, Bool-cases, [], All, length, eq_iff, arith,
}
use maais.Base.Int.{◌≤ℤ◌, ◌<ℤ◌}
use maais.Decimal.{zero_decimal, le, mul, fraction, unit}
use maais.Decimal.Products.{sub_self, mul-nonpos}
use maais.Domain.{PaperOrderSide, buy, sell}
use maais.Market.{TradePrint}
use maais.Orders.{is_terminal}
use maais.LimitQueue.{
  LimitFill, LimitQueueState, consumed, queue_after, trade_after, fill_quantity,
  advance_limit_queue,
}

-- The trade went strictly through the limit price, from the other side.
abbrev pub WentThrough : PaperOrderSide → LimitQueueState → TradePrint → Type 0
WentThrough buy s t = (t.aggressor_side ≡ "sell") × (t.price <ℤ s.limit_price)
WentThrough sell s t = (t.aggressor_side ≡ "buy") × (s.limit_price <ℤ t.price)

-- What a fill rests on, and what it says.
pub record Justified (s : LimitQueueState) (t : TradePrint) (f : LimitFill) : Type 0 where
  pub was_open : is_terminal s.status ≡ false
  pub same_symbol : t.symbol ≡ s.symbol
  pub was_eligible : s.eligible_after.micros < t.observed_at.micros
  pub not_expired : t.observed_at.micros < s.expires_at.micros
  pub was_newer : s.last_sequence < t.sequence
  pub went_through : WentThrough s.side s t
  pub some_quantity : zero_decimal <ℤ f.quantity
  pub at_trade_price : f.price ≡ t.price
  pub at_trade_time : f.fill_at ≡ t.observed_at
  pub of_trade : f.market_event_id ≡ t.event_id
  pub priced_fee : f.fee ≡ mul (mul f.quantity f.price) s.maker_fee_rate

-- An advance fills at most once, and only on a trade in the order's symbol, after the order became
-- eligible and before it expired, newer than the last one seen, that went strictly through the
-- limit price from the other side; the fill has the trade's price, time and identity.
pub advance_limit_queue-Justified :
    (s : LimitQueueState) (t : TradePrint)
    → (length (advance_limit_queue s t).fills ≤ 1)
      × All (Justified s t) (advance_limit_queue s t).fills
unfolding advance_limit_queue
advance_limit_queue-Justified s t =
    ground (
      arith,
      eq_iff t.symbol s.symbol,
      eq_iff t.aggressor_side "sell",
      eq_iff t.aggressor_side "buy",
    )

-- What a trade has left after the queue took it all is nothing.
rest_of_fill :
    (s : LimitQueueState) (t : TradePrint)
    → zero_decimal <ℤ fill_quantity s t
    → zero_decimal <ℤ trade_after s t
unfolding fill_quantity fraction
rest_of_fill s t h = elim (Bool-cases (le (trade_after s t) zero_decimal)) [
  | inl none_left ↦
      absurd (ground (arith, mul-nonpos (trade_after s t) (1 * (unit / 10 ^ 1)) (ground arith)))
  | inr some_left ↦ ground arith
]

queue_is_served :
    (s : LimitQueueState) (t : TradePrint)
    → zero_decimal <ℤ fill_quantity s t
    → queue_after s t ≤ℤ zero_decimal
unfolding queue_after trade_after consumed
queue_is_served s t h =
    ground (arith, rest_of_fill s t h, sub_self s.queue_ahead, sub_self t.quantity)

-- Price-time priority: a fill leaves nothing of the queue that was ahead of the order.
pub fill_empties_queue :
    (s : LimitQueueState) (t : TradePrint)
    → (advance_limit_queue s t).fills ≢ []
    → (advance_limit_queue s t).state.queue_ahead ≤ℤ zero_decimal
unfolding advance_limit_queue
fill_empties_queue s t h = ground (arith, queue_is_served s t)
