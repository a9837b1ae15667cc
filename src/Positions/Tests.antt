-- ===== src/Positions/Tests.antt =====
-- A long position of two lots, three and five tenths.
use maais.Base.{
  ℕ, ◌≡◌, refl, true, none, some, inr, List, [], ◌∷◌, err, Ensures, value_error, arith,
}
use maais.Decimal.{max_coefficient, unit, whole, zero_decimal}
use maais.Decimal.Grid.{units}
use maais.Domain.{Datetime, long, short}
use maais.Positions.{PositionLot, PositionState, open_fill, close_fill}
use maais.Positions.Lots.{total, consume}
use maais.Positions.Close.{
  IsOnGrid, Closed, Opened, close_fill-Closed, close_fill-too_much, open_fill-Opened,
  open_fill-opposite,
}

abbrev noon : Datetime
noon = record { micros = 43200000000; utc = true }

abbrev lot : ℕ → ℕ → ℕ → PositionLot
lot id price n = record {
  lot_id = id;
  opening_fill_id = id;
  opened_at = noon;
  entry_price = whole price;
  original_quantity = units 63 n;
  remaining_quantity = units 63 n;
  opening_fee = whole 1;
  remaining_opening_fee = whole 1;
  funding = zero_decimal;
}

abbrev open_lots : List ℕ
open_lots = 3 ∷ 5 ∷ []

abbrev position : PositionState
position = record {
  position_id = 1;
  experiment_id = 2;
  symbol = "BTCUSDT";
  side = long;
  mark_price = whole 110;
  average_entry = whole 100;
  realized_pnl = zero_decimal;
  fees = whole 2;
  funding = zero_decimal;
  lots = lot 7 100 3 ∷ lot 8 104 5 ∷ [];
  opened_at = some noon;
  closed_at = none;
  version = 2;
}

position-IsOnGrid : IsOnGrid 63 open_lots position
unfolding total max_coefficient
position-IsOnGrid = record { holds = (refl, (refl, tt)); fits = omega arith }

-- Four tenths take the first lot and one tenth of the second.
consume-open_lots : consume 4 open_lots ≡ 0 ∷ 4 ∷ []
unfolding consume
consume-open_lots = refl

close_fill-Closed_example :
    Ensures
      (Closed 63 4 open_lots position noon)
      (close_fill position (units 63 4) (whole 110) (whole 1) noon)
unfolding whole unit total
close_fill-Closed_example =
    close_fill-Closed 63 4 open_lots position (whole 110) (whole 1) noon position-IsOnGrid refl refl
      refl (omega arith) (omega arith)

close_fill-too_much_example :
    close_fill position (units 63 9) (whole 110) (whole 1) noon
    ≡ err (value_error "close quantity exceeds open quantity")
unfolding whole unit total
close_fill-too_much_example =
    close_fill-too_much 63 9 open_lots position (whole 110) (whole 1) noon position-IsOnGrid refl
      refl refl (omega arith)

open_fill-Opened_example :
    Ensures
      (Opened 63 2 open_lots position long (whole 111) noon)
      (open_fill position 9 long (units 63 2) (whole 111) (whole 1) noon)
unfolding whole unit total max_coefficient
open_fill-Opened_example =
    open_fill-Opened 63 2 open_lots position 9 long (whole 111) (whole 1) noon position-IsOnGrid
      refl refl refl refl (omega arith) (inr refl) (omega arith)

open_fill-opposite_example :
    open_fill position 9 short (units 63 2) (whole 111) (whole 1) noon
    ≡ err (value_error "one-way position can only scale in the same direction")
unfolding whole unit total
open_fill-opposite_example =
    open_fill-opposite 63 2 open_lots position 9 short (whole 111) (whole 1) noon position-IsOnGrid
      refl refl refl refl (omega arith) (omega arith) (λ e. cc e)
