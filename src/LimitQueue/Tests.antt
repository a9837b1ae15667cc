-- ===== src/LimitQueue/Tests.antt =====
-- A bid for twenty steps behind three times ten, and two trades through its limit.
use maais.Base.{true, ℕ, ◌+◌, ◌≤◌, ◌≡◌, ◌≢◌, refl, [], ◌∷◌, All, length, arith}
use maais.Base.Int.{◌≤ℤ◌}
use maais.Decimal.{max_coefficient, whole, fraction, zero_decimal, unit, add, sub, mul}
use maais.Decimal.Grid.{units}
use maais.Domain.{Datetime, buy, accepted}
use maais.Market.{TradePrint}
use maais.LimitQueue.{LimitQueueState, advance_limit_queue}
use maais.LimitQueue.Safety.{Justified, advance_limit_queue-Justified, fill_empties_queue}
use maais.LimitQueue.Amounts.{IsValid}
use maais.LimitQueue.History.{advance_all, advance_all-IsValid, FillsTotal}

abbrev at : ℕ → Datetime
at n = record { micros = n; utc = true }

abbrev state : LimitQueueState
state = record {
  order_id = 1;
  symbol = "BTCUSDT";
  side = buy;
  limit_price = whole 100;
  requested_quantity = units 60 20;
  filled_quantity = units 60 0;
  queue_ahead = units 61 3;
  eligible_after = at 10;
  expires_at = at 90;
  maker_fee_rate = fraction 2 4;
  status = accepted;
  last_sequence = 4;
}

abbrev trade : ℕ → ℕ → TradePrint
trade n quantity = record {
  event_id = "trade";
  symbol = "BTCUSDT";
  venue_event_at = at (n + 10);
  observed_at = at (n + 10);
  sequence = n;
  price = whole 99;
  quantity = units 61 quantity;
  aggressor_side = "sell";
}

-- The first trade leaves five for the order after the queue, the second one more than it needs.
advance_all-state :
    let r = advance_all state (trade 5 8 ∷ trade 6 40 ∷ []) in
    (r.state.filled_quantity ≡ units 60 20) × (length r.fills ≡ 2)
unfolding advance_all advance_limit_queue add sub mul units whole fraction unit
advance_all-state = (refl, refl)

state-IsValid : IsValid 60 20 0 3 state
unfolding max_coefficient
state-IsValid = record {
  fits = omega arith;
  positive = omega arith;
  ordered = refl;
  executed = refl;
  queued = refl;
  queue_fits = omega arith;
  staged = refl;
}

advance_all-IsValid_example :
    (d : ℕ) × (a : ℕ) × IsValid 60 20
      (0 + d)
      a
      (advance_all state (trade 5 8 ∷ trade 6 40 ∷ [])).state
    × FillsTotal 60 (advance_all state (trade 5 8 ∷ trade 6 40 ∷ [])).fills d
    × (a ≤ 3)
unfolding max_coefficient
advance_all-IsValid_example =
    advance_all-IsValid 60 20 0 3 state (trade 5 8 ∷ trade 6 40 ∷ []) state-IsValid
      ((8, refl, omega arith), ((40, refl, omega arith), tt))

advance_limit_queue-Justified_example :
    (length (advance_limit_queue state (trade 5 8)).fills ≤ 1)
    × All (Justified state (trade 5 8)) (advance_limit_queue state (trade 5 8)).fills
advance_limit_queue-Justified_example = advance_limit_queue-Justified state (trade 5 8)

some_fill : (advance_limit_queue state (trade 5 8)).fills ≢ []
unfolding advance_limit_queue add sub mul units whole fraction unit
some_fill h = cc h

fill_empties_queue_example :
    (advance_limit_queue state (trade 5 8)).state.queue_ahead ≤ℤ zero_decimal
fill_empties_queue_example = fill_empties_queue state (trade 5 8) some_fill
