-- ===== src/Positions.antt =====
-- maais/execution/paper/positions.py: a one-way position as lots, closed first in, first out.
pub mod Lots
pub mod Close
mod Tests
use maais.Base.{
  ℕ, ◌+◌, Bool, true, false, not, ◌||◌, ◌&&◌, List, [], ◌∷◌, ◌++◌, Option, none, some, String,
  Result, ok, ◌>>◌, raise_if, value_error, is_empty, if◌then◌else◌, map,
}
use maais.Decimal.{Decimal, zero_decimal, add, sub, mul, div, min, lt, le, eq, sum}
use maais.Domain.{
  Direction, long, short, neutral, Datetime, is_long, is_short, require_utc,
  require_positive_decimal, require_nonnegative,
}

pub record PositionLot : Type 0 where
  pub lot_id : ℕ
  pub opening_fill_id : ℕ
  pub opened_at : Datetime
  pub entry_price : Decimal
  pub original_quantity : Decimal
  pub remaining_quantity : Decimal
  pub opening_fee : Decimal
  pub remaining_opening_fee : Decimal
  pub funding : Decimal

pub record PositionState : Type 0 where
  pub position_id : ℕ
  pub experiment_id : ℕ
  pub symbol : String
  pub side : Direction
  pub mark_price : Decimal
  pub average_entry : Decimal
  pub realized_pnl : Decimal
  pub fees : Decimal
  pub funding : Decimal
  pub lots : List PositionLot
  pub opened_at : Option Datetime
  pub closed_at : Option Datetime
  pub version : ℕ

unfoldable pub empty_position : ℕ → ℕ → String → Result PositionState
empty_position position_id experiment_id symbol = do
  raise_if (is_empty symbol) (value_error "symbol is required")
  ok (record {
    position_id = position_id;
    experiment_id = experiment_id;
    symbol = symbol;
    side = neutral;
    mark_price = zero_decimal;
    average_entry = zero_decimal;
    realized_pnl = zero_decimal;
    fees = zero_decimal;
    funding = zero_decimal;
    lots = [];
    opened_at = none;
    closed_at = none;
    version = 0;
  })

unfoldable pub lots_quantity : List PositionLot → Decimal
lots_quantity lots = sum (map (λ lot. lot.remaining_quantity) lots)

abbrev pub quantity_of : PositionState → Decimal
quantity_of p = lots_quantity p.lots

abbrev pub is_flat : PositionState → Bool
is_flat p = eq (quantity_of p) zero_decimal

-- The gain of `size` at `price` over an entry, on one side.
abbrev pub gain : Bool → Decimal → Decimal → Decimal → Decimal
gain long_side price entry size =
    if long_side then mul (sub price entry) size else mul (sub entry price) size

unfoldable pub unrealized_pnl : PositionState → Decimal
unrealized_pnl p =
    if is_flat p
    then zero_decimal
    else sum (
        map (λ lot. gain (is_long p.side) p.mark_price lot.entry_price lot.remaining_quantity)
          p.lots)

unfoldable pub gross_notional : PositionState → Decimal
gross_notional p = mul (quantity_of p) p.mark_price

-- The lots' entry prices, weighted and averaged over `quantity`.
unfoldable pub average_entry_of : List PositionLot → Decimal → Decimal
average_entry_of lots quantity =
    div (sum (map (λ lot. mul lot.entry_price lot.remaining_quantity) lots)) quantity

abbrev pub is_directed : Direction → Bool
is_directed side = is_long side || is_short side

-- `self.side is not side`.
abbrev pub other_side : Direction → Direction → Bool
other_side long long = false
other_side short short = false
other_side neutral neutral = false
other_side _ _ = true

unfoldable pub open_fill :
    PositionState → ℕ → Direction → Decimal → Decimal → Decimal → Datetime → Result PositionState
open_fill p fill_id side quantity price fee fill_at = do
  raise_if (not (is_directed side)) (value_error "opening side must be long or short")
  raise_if (not (is_flat p) && other_side p.side side)
      (value_error "one-way position can only scale in the same direction")
  require_positive_decimal quantity "quantity"
  require_positive_decimal price "price"
  require_nonnegative fee "fee"
  require_utc fill_at "fill_at"
  let lots =
      p.lots
      ++ record {
        lot_id = fill_id;
        opening_fill_id = fill_id;
        opened_at = fill_at;
        entry_price = price;
        original_quantity = quantity;
        remaining_quantity = quantity;
        opening_fee = fee;
        remaining_opening_fee = fee;
        funding = zero_decimal;
      }
        ∷ []
  ok (record p {
    side = side;
    mark_price = price;
    average_entry = average_entry_of lots (add (quantity_of p) quantity);
    fees = add p.fees fee;
    lots = lots;
    opened_at = if not (is_flat p) then p.opened_at else some fill_at;
    closed_at = none;
    version = p.version + 1;
  })

-- What is still to be closed, and what has been realized.
pub record Closing : Type 0 where
  pub remaining_to_close : Decimal
  pub realized : Decimal

-- A lot after `closing` of it is closed, with its share of the opening fee.
unfoldable pub close_lot : Decimal → PositionLot → PositionLot
close_lot closing lot = record lot {
  remaining_quantity = sub lot.remaining_quantity closing;
  remaining_opening_fee =
      sub lot.remaining_opening_fee
        (div (mul lot.remaining_opening_fee closing) lot.remaining_quantity);
}

-- One round of the loop of `close_fill`.
unfoldable pub close_round : Bool → Decimal → Closing → PositionLot → Closing × PositionLot
unfolding close_lot
close_round long_side price c lot =
    let closing = min lot.remaining_quantity c.remaining_to_close in
    if le c.remaining_to_close zero_decimal || le lot.remaining_quantity zero_decimal
    then (c, lot)
    else (
      record {
        remaining_to_close = sub c.remaining_to_close closing;
        realized = add c.realized (gain long_side price lot.entry_price closing);
      },
      close_lot closing lot,
    )

-- The loop of `close_fill` over the lots, oldest first.
unfoldable pub close_lots : Bool → Decimal → Closing → List PositionLot → Closing × List PositionLot
close_lots long_side price c [] = (c, [])
close_lots long_side price c (lot ∷ lots) =
    let round = close_round long_side price c lot in
    let rest = close_lots long_side price round.0 lots in (rest.0, round.1 ∷ rest.1)

unfoldable pub close_fill :
    PositionState → Decimal → Decimal → Decimal → Datetime → Result PositionState
close_fill p quantity price fee fill_at = do
  require_positive_decimal quantity "quantity"
  require_positive_decimal price "price"
  require_nonnegative fee "fee"
  require_utc fill_at "fill_at"
  raise_if (is_flat p || lt (quantity_of p) quantity)
      (value_error "close quantity exceeds open quantity")
  let closed =
      close_lots (is_long p.side) price
        (record { remaining_to_close = quantity; realized = zero_decimal }) p.lots
  let remaining = sub (quantity_of p) quantity
  let some_left = lt zero_decimal remaining
  ok (record p {
    side = if some_left then p.side else neutral;
    mark_price = price;
    average_entry = if some_left then average_entry_of closed.1 remaining else zero_decimal;
    realized_pnl = add p.realized_pnl closed.0.realized;
    fees = add p.fees fee;
    lots = closed.1;
    closed_at = if some_left then none else some fill_at;
    version = p.version + 1;
  })

unfoldable pub mark : PositionState → Decimal → Result PositionState
mark p price = do
  require_positive_decimal price "mark price"
  ok (record p { mark_price = price; version = p.version + 1 })

abbrev pub fund_lot : Decimal → Decimal → PositionLot → PositionLot
fund_lot amount quantity lot =
    if lt zero_decimal lot.remaining_quantity
    then record lot { funding = add lot.funding (div (mul amount lot.remaining_quantity) quantity) }
    else lot

unfoldable pub apply_funding : PositionState → Decimal → Result PositionState
apply_funding p amount = do
  raise_if (is_flat p) (value_error "cannot apply funding to a flat position")
  ok (record p {
    funding = add p.funding amount;
    lots = map (fund_lot amount (quantity_of p)) p.lots;
    version = p.version + 1;
  })
