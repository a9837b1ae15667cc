-- ===== src/Filters.antt =====
-- maais/execution/paper/filters.py: an order fitted to the exchange's filters.
pub mod Limits
mod Tests
use maais.Base.{
  suc, ◌+◌, ◌-◌, ◌*◌, ◌/◌, Bool, true, false, not, List, Option, none, some, String, Result, ok,
  ◌>>=◌, ◌>>◌, raise_if, or_raise, value_error, filter_rejection, is_empty, is_nil, str_eq, any,
  if◌then◌else◌,
}
use maais.Base.Int.{pos, negsuc}
use maais.Decimal.{Decimal, unit, mul, div, lt, negative}
use maais.Domain.{
  PaperOrderSide, PaperOrderType, market, limit, stop_market, Datetime, is_buy, is_limit,
  require_utc, require_positive_decimal,
}

-- `to_integral_value` with ROUND_FLOOR and with ROUND_CEILING.
unfoldable pub integral_floor : Decimal → Decimal
unfolding unit
integral_floor (pos n) = pos (n / unit * unit)
integral_floor (negsuc n) = negative ((n / unit + 1) * unit)

unfoldable pub integral_ceiling : Decimal → Decimal
unfolding unit
integral_ceiling (pos n) = pos ((n + unit - 1) / unit * unit)
integral_ceiling (negsuc n) = negative (suc n / unit * unit)

-- `_multiple`.
unfoldable pub multiple : Decimal → Decimal → Bool → Decimal
unfolding integral_floor integral_ceiling
multiple value increment floor =
    let units = div value increment in
    mul (if floor then integral_floor units else integral_ceiling units) increment

pub record PreparedOrder : Type 0 where
  pub symbol : String
  pub side : PaperOrderSide
  pub order_type : PaperOrderType
  pub requested_quantity : Decimal
  pub approved_quantity : Decimal
  pub quantity : Decimal
  pub price : Option Decimal
  pub notional : Decimal

pub record ExchangeFilterSnapshot : Type 0 where
  pub symbol : String
  pub status : String
  pub price_tick : Decimal
  pub quantity_step : Decimal
  pub minimum_quantity : Decimal
  pub maximum_quantity : Decimal
  pub minimum_notional : Decimal
  pub supported_order_types : List PaperOrderType
  pub captured_at : Datetime

unfoldable pub make_filters : ExchangeFilterSnapshot → Result ExchangeFilterSnapshot
make_filters s = do
  raise_if (is_empty s.symbol) (value_error "symbol is required")
  require_positive_decimal s.price_tick "price_tick"
  require_positive_decimal s.quantity_step "quantity_step"
  require_positive_decimal s.minimum_quantity "minimum_quantity"
  require_positive_decimal s.maximum_quantity "maximum_quantity"
  require_positive_decimal s.minimum_notional "minimum_notional"
  raise_if (lt s.maximum_quantity s.minimum_quantity)
      (value_error "minimum_quantity cannot exceed maximum_quantity")
  raise_if (is_nil s.supported_order_types) (value_error "supported_order_types cannot be empty")
  require_utc s.captured_at "captured_at"
  ok s

unfoldable pub quantize_quantity : ExchangeFilterSnapshot → Decimal → Result Decimal
quantize_quantity s value = do
  require_positive_decimal value "requested_quantity"
  ok (multiple value s.quantity_step true)

unfoldable pub quantize_price : ExchangeFilterSnapshot → PaperOrderSide → Decimal → Result Decimal
quantize_price s side value = do
  require_positive_decimal value "price"
  ok (multiple value s.price_tick (is_buy side))

abbrev pub same_type : PaperOrderType → PaperOrderType → Bool
same_type market market = true
same_type limit limit = true
same_type stop_market stop_market = true
same_type _ _ = false

pub record OrderArguments : Type 0 where
  pub side : PaperOrderSide
  pub order_type : PaperOrderType
  pub requested_quantity : Decimal
  pub approved_quantity : Decimal
  pub price : Option Decimal
  pub approved_notional : Decimal

-- The price that the order carries, and its notional.
unfoldable pub price_order :
    ExchangeFilterSnapshot → OrderArguments → Decimal → Result (Option Decimal × Decimal)
unfolding quantize_price
price_order s a quantity =
    if is_limit a.order_type
    then (do
      price ← or_raise a.price (filter_rejection "limit_price_required")
      quantized ← quantize_price s a.side price
      ok (some quantized, mul quantity quantized))
    else (do
      price ← or_raise a.price (filter_rejection "validation_price_required")
      require_positive_decimal price "price"
      ok (none, mul quantity price))

unfoldable pub prepare : ExchangeFilterSnapshot → OrderArguments → Result PreparedOrder
unfolding price_order quantize_quantity
prepare s a = do
  raise_if (not (str_eq s.status "TRADING")) (filter_rejection "symbol_not_trading")
  raise_if (not (any (same_type a.order_type) s.supported_order_types))
      (filter_rejection "unsupported_order_type")
  require_positive_decimal a.approved_quantity "approved_quantity"
  require_positive_decimal a.approved_notional "approved_notional"
  raise_if (lt a.approved_quantity a.requested_quantity)
      (filter_rejection "approved_quantity_exceeded")
  quantity ← quantize_quantity s a.requested_quantity
  raise_if (lt quantity s.minimum_quantity) (filter_rejection "quantity_below_minimum")
  raise_if (lt s.maximum_quantity quantity) (filter_rejection "quantity_above_maximum")
  (price, notional) ← price_order s a quantity
  raise_if (lt notional s.minimum_notional) (filter_rejection "notional_below_minimum")
  raise_if (lt a.approved_notional notional) (filter_rejection "approved_notional_exceeded")
  ok (record {
    symbol = s.symbol;
    side = a.side;
    order_type = a.order_type;
    requested_quantity = a.requested_quantity;
    approved_quantity = a.approved_quantity;
    quantity = quantity;
    price = price;
    notional = notional;
  })
