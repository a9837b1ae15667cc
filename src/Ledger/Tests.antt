-- ===== src/Ledger/Tests.antt =====
-- Two lots of three and five tenths, and a third one that is opened at the time of the second.
use maais.Base.{
  ℕ, ◌≡◌, refl, true, String, List, [], ◌∷◌, inl, Ensures, err, value_error, map, arith,
}
use maais.Decimal.{max_coefficient, unit, whole, zero_decimal}
use maais.Decimal.Grid.{units}
use maais.Domain.{Datetime}
use maais.Fills.Walk.{visible}
use maais.Ledger.{
  LotData, Lots, queue_at, Opening, Closing, insert_lot, lot_of, close_position, open_lot,
}
use maais.Ledger.Queue.{leftover}
use maais.Ledger.Close.{ClosedAt, close_position-ClosedAt, close_position-too_much}
use maais.Ledger.Order.{OpenedAt, open_lot-OpenedAt}

abbrev instant : ℕ → Datetime
instant t = record { micros = t; utc = true }

abbrev lot : String → ℕ → ℕ → ℕ → LotData
lot id price n t = record {
  trade_id = id;
  asset = "BTCUSDT";
  side = "long";
  entry_price = whole price;
  original_size = units 63 n;
  remaining_size = units 63 n;
  entry_fees = whole 1;
  strategy_id = "momentum";
  opened_at = instant t;
}

abbrev queue : List LotData
queue = lot "a" 100 3 10 ∷ lot "b" 104 5 20 ∷ []

abbrev state : Lots
state = (("BTCUSDT", "long"), queue) ∷ []

abbrev closing : ℕ → Closing
closing q = record {
  asset = "BTCUSDT";
  side = "long";
  close_size = units 63 q;
  exit_price = whole 110;
  exit_fees = whole 1;
  funding_paid_received = zero_decimal;
  exchange_rate = whole 1;
  closed_at = instant 30;
}

abbrev new_id : ℕ → String
new_id n = "trade"

-- Four tenths empty the first lot and leave four of the second.
leftover-four : leftover 4 (3 ∷ 5 ∷ []) ≡ 4 ∷ []
unfolding leftover
leftover-four = refl

close_position-ClosedAt_example :
    Ensures (ClosedAt 63 4 (3 ∷ 5 ∷ []) state (closing 4)) (close_position new_id state (closing 4))
unfolding whole unit units max_coefficient visible queue_at
close_position-ClosedAt_example =
    close_position-ClosedAt new_id 63 4 (3 ∷ 5 ∷ []) state (closing 4)
      (refl, refl, (refl, refl, tt)) refl (omega arith) refl (omega arith)

close_position-too_much_example :
    close_position new_id state (closing 9) ≡ err (value_error "Cannot close: not enough available")
unfolding whole unit units max_coefficient visible queue_at
close_position-too_much_example =
    close_position-too_much new_id 63 9 (3 ∷ 5 ∷ []) state (closing 9)
      (refl, refl, (refl, refl, tt)) refl (omega arith) refl (omega arith)

abbrev opening : Opening
opening = record {
  asset = "BTCUSDT";
  side = "long";
  size = units 63 2;
  entry_price = whole 105;
  entry_fees = whole 1;
  strategy_id = "momentum";
  opened_at = instant 20;
  trade_id = "c";
}

open_lot-OpenedAt_example : Ensures (OpenedAt state opening) (open_lot state opening)
unfolding units queue_at
open_lot-OpenedAt_example = open_lot-OpenedAt state opening (inl refl) refl ((refl, tt), (tt, tt))

-- A lot that is opened at the time of another one goes in front of it: the last in is closed first.
insert_lot-opening :
    map (λ l. l.trade_id) (insert_lot (lot_of opening) queue) ≡ "a" ∷ "c" ∷ "b" ∷ []
unfolding insert_lot
insert_lot-opening = refl
