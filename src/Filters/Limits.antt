-- ===== src/Filters/Limits.antt =====
-- A prepared order is inside the exchange's filters and the approval.
use maais.Base.{◌≡◌, true, false, some, none, str_eq, any, ok, arith, if◌then◌else◌}
use maais.Decimal.{Decimal, mul, lt, le, zero_decimal}
use maais.Domain.{is_limit, is_buy}
use maais.Filters.{
  PreparedOrder, ExchangeFilterSnapshot, OrderArguments, multiple, quantize_quantity,
  quantize_price, price_order, prepare, same_type,
}

-- The price of an order: a limit order has the tick that the side rounds to, and its notional is at
-- that price; another order has none, and its notional is at the price that was given.
abbrev pub Priced : ExchangeFilterSnapshot → OrderArguments → PreparedOrder → Decimal → Type 0
Priced s a o given =
    if is_limit a.order_type
    then (o.price ≡ some (multiple given s.price_tick (is_buy a.side)))
      × (o.notional ≡ mul o.quantity (multiple given s.price_tick (is_buy a.side)))
    else (o.price ≡ none) × (o.notional ≡ mul o.quantity given)

-- The bounds that hold of a prepared order.
pub record Within (s : ExchangeFilterSnapshot) (a : OrderArguments) (o : PreparedOrder)
    : Type 0 where
  pub same_symbol : o.symbol ≡ s.symbol
  pub same_side : o.side ≡ a.side
  pub trading : str_eq s.status "TRADING" ≡ true
  pub supported : any (same_type a.order_type) s.supported_order_types ≡ true
  pub approved : lt a.approved_quantity a.requested_quantity ≡ false
  pub rounded_down : o.quantity ≡ multiple a.requested_quantity s.quantity_step true
  pub not_below : lt o.quantity s.minimum_quantity ≡ false
  pub not_above : lt s.maximum_quantity o.quantity ≡ false
  pub worth_enough : lt o.notional s.minimum_notional ≡ false
  pub within_approval : lt a.approved_notional o.notional ≡ false
  pub positive_request : le a.requested_quantity zero_decimal ≡ false

-- An order that is prepared is for a trading symbol and a supported type, its quantity is the
-- requested one rounded to the step and lies between the exchange's bounds, its notional is at
-- least the exchange's minimum and at most the approved one.
pub prepare-Within :
    (s : ExchangeFilterSnapshot) (a : OrderArguments) {o : PreparedOrder}
    → prepare s a ≡ ok o
    → Within s a o
unfolding prepare quantize_quantity
prepare-Within s a {o} h = ground (arith, h)

-- With the price `given`, a limit order that is prepared carries it rounded to the tick, down for a
-- buy and up for a sell, and is worth its quantity at that price; any other order carries no price
-- and is worth its quantity at `given`.
pub prepare-Priced :
    (s : ExchangeFilterSnapshot) (a : OrderArguments) (given : Decimal) {o : PreparedOrder}
    → a.price ≡ some given
    → prepare s a ≡ ok o
    → Priced s a o given
unfolding prepare quantize_quantity price_order quantize_price
prepare-Priced s a given {o} p h = ground (arith, h)
