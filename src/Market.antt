-- ===== src/Market.antt =====
-- maais/execution/paper/market.py: order-book snapshots and trade prints. `make_*` is a constructor
-- call with its `__post_init__`. A sequence number is a natural number, so the guard against a
-- negative one has nothing to refuse.
use maais.Base.{
  ℕ, Bool, false, not, ◌||◌, List, [], ◌∷◌, String, Result, ok, ◌>>◌, raise_if, value_error,
  is_empty, is_nil, str_eq,
}
use maais.Decimal.{Decimal, zero_decimal, add, div, le, whole}
use maais.Domain.{Datetime, before, require_utc, require_positive_decimal}

pub record BookLevel : Type 0 where
  pub price : Decimal
  pub quantity : Decimal

unfoldable pub make_level : Decimal → Decimal → Result BookLevel
make_level price quantity = do
  require_positive_decimal price "level price"
  require_positive_decimal quantity "level quantity"
  ok (record { price = price; quantity = quantity })

pub record BookSnapshot : Type 0 where
  pub event_id : String
  pub symbol : String
  pub venue_event_at : Datetime
  pub observed_at : Datetime
  pub sequence : ℕ
  pub bids : List BookLevel
  pub asks : List BookLevel
  pub mark_price : Decimal

-- `any(left <= right for left, right in zip(prices, prices[1:]))`.
unfoldable pub not_descending : List BookLevel → Bool
not_descending [] = false
not_descending (left ∷ []) = false
not_descending (left ∷ right ∷ rest) = le left.price right.price || not_descending (right ∷ rest)

-- `any(left >= right for left, right in zip(prices, prices[1:]))`.
unfoldable pub not_ascending : List BookLevel → Bool
not_ascending [] = false
not_ascending (left ∷ []) = false
not_ascending (left ∷ right ∷ rest) = le right.price left.price || not_ascending (right ∷ rest)

-- `levels[0].price`; a snapshot has levels on both sides.
abbrev pub first_price : List BookLevel → Decimal
first_price [] = zero_decimal
first_price (level ∷ rest) = level.price

unfoldable pub best_bid : BookSnapshot → Decimal
best_bid b = first_price b.bids

unfoldable pub best_ask : BookSnapshot → Decimal
best_ask b = first_price b.asks

unfoldable pub midpoint : BookSnapshot → Decimal
unfolding best_bid best_ask
midpoint b = div (add (best_bid b) (best_ask b)) (whole 2)

unfoldable pub make_book : BookSnapshot → Result BookSnapshot
unfolding best_bid best_ask not_descending not_ascending
make_book b = do
  raise_if (is_empty b.event_id || is_empty b.symbol)
      (value_error "event_id and symbol are required")
  require_utc b.venue_event_at "venue_event_at"
  require_utc b.observed_at "observed_at"
  raise_if (before b.observed_at b.venue_event_at)
      (value_error "venue_event_at cannot follow observed_at")
  raise_if (is_nil b.bids || is_nil b.asks) (value_error "both bid and ask depth are required")
  raise_if (not_descending b.bids) (value_error "bids must be strictly descending")
  raise_if (not_ascending b.asks) (value_error "asks must be strictly ascending")
  raise_if (le (best_ask b) (best_bid b)) (value_error "book must not be crossed or locked")
  require_positive_decimal b.mark_price "mark_price"
  ok b

pub record TradePrint : Type 0 where
  pub event_id : String
  pub symbol : String
  pub venue_event_at : Datetime
  pub observed_at : Datetime
  pub sequence : ℕ
  pub price : Decimal
  pub quantity : Decimal
  pub aggressor_side : String

unfoldable pub make_trade : TradePrint → Result TradePrint
make_trade t = do
  raise_if (is_empty t.event_id || is_empty t.symbol)
      (value_error "event_id and symbol are required")
  require_utc t.venue_event_at "venue_event_at"
  require_utc t.observed_at "observed_at"
  raise_if (before t.observed_at t.venue_event_at)
      (value_error "venue_event_at cannot follow observed_at")
  require_positive_decimal t.price "trade price"
  require_positive_decimal t.quantity "trade quantity"
  raise_if (not (str_eq t.aggressor_side "buy" || str_eq t.aggressor_side "sell"))
      (value_error "aggressor_side must be buy or sell")
  ok t
