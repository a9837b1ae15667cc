-- ===== src/Filters/Tests.antt =====
-- A limit order of 2.57 at 100.3, with steps of a tenth and ticks of a half.
use maais.Base.{◌≡◌, refl, true, some, [], ◌∷◌, ok}
use maais.Decimal.{max_coefficient, unit, whole, fraction, round, round_from, half_even, mul, div}
use maais.Domain.{limit, buy}
use maais.Filters.{
  PreparedOrder, ExchangeFilterSnapshot, OrderArguments, integral_floor, multiple,
  quantize_quantity, quantize_price, price_order, prepare,
}
use maais.Filters.Limits.{Within, Priced, prepare-Within, prepare-Priced}

abbrev snapshot : ExchangeFilterSnapshot
snapshot = record {
  symbol = "BTCUSDT";
  status = "TRADING";
  price_tick = fraction 5 1;
  quantity_step = fraction 1 1;
  minimum_quantity = fraction 1 1;
  maximum_quantity = whole 1000;
  minimum_notional = whole 5;
  supported_order_types = limit ∷ [];
  captured_at = record { micros = 0; utc = true };
}

abbrev order : OrderArguments
order = record {
  side = buy;
  order_type = limit;
  requested_quantity = fraction 257 2;
  approved_quantity = whole 3;
  price = some (fraction 1003 1);
  approved_notional = whole 300;
}

abbrev prepared : PreparedOrder
prepared = record {
  symbol = "BTCUSDT";
  side = buy;
  order_type = limit;
  requested_quantity = fraction 257 2;
  approved_quantity = whole 3;
  quantity = fraction 25 1;
  price = some (whole 100);
  notional = whole 250;
}

prepare-order : prepare snapshot order ≡ ok prepared
unfolding prepare price_order quantize_quantity quantize_price multiple integral_floor mul div whole
    fraction unit round round_from max_coefficient half_even
prepare-order = refl

prepare-Within_example : Within snapshot order prepared
prepare-Within_example = prepare-Within snapshot order prepare-order

prepare-Priced_example : Priced snapshot order prepared (fraction 1003 1)
prepare-Priced_example = prepare-Priced snapshot order (fraction 1003 1) refl prepare-order
