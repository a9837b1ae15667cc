-- ===== src/Ledger.antt =====
-- maais/compliance/fifo_ledger.py and the two records of maais/compliance/schemas.py that it uses:
-- open lots for each asset and side, closed oldest first. The defaults of `opened_at`, `closed_at`
-- and of new trade ids come from outside, so they are arguments; the state after a raise is not
-- modelled.
pub mod Queue
pub mod Close
pub mod Order
mod Tests
use maais.Base.{
  ℕ, suc, zero, ◌+◌, Bool, not, ◌||◌, ◌&&◌, List, [], ◌∷◌, ◌++◌, Option, none, some, String, Result,
  ok, ◌>>=◌, ◌>>◌, raise_if, value_error, arithmetic_error, is_nil, str_eq, map, foldl, any, keep,
  if◌then◌else◌,
}
use maais.Decimal.{Decimal, zero_decimal, add, sub, mul, div, min, lt, le, eq, sum}
use maais.Domain.{Datetime, before}

pub record LotData : Type 0 where
  pub trade_id : String
  pub asset : String
  pub side : String
  pub entry_price : Decimal
  pub original_size : Decimal
  pub remaining_size : Decimal
  pub entry_fees : Decimal
  pub strategy_id : String
  pub opened_at : Datetime

pub record TradeRecordData : Type 0 where
  pub trade_id : String
  pub timestamp : Datetime
  pub asset : String
  pub entry_price : Decimal
  pub exit_price : Decimal
  pub position_size : Decimal
  pub fees : Decimal
  pub funding_paid_received : Decimal
  pub profit_loss : Decimal
  pub exchange_rate : Decimal
  pub strategy_id : String
  pub position_side : String
  pub entry_lot_id : String

unfoldable pub pnl : String → (entry_price exit_price size fees funding : Decimal) → Decimal
pnl side entry_price exit_price size fees funding =
    let gross =
      if str_eq side "long"
      then mul (sub exit_price entry_price) size
      else mul (sub entry_price exit_price) size in
    add (sub gross fees) funding

-- `_lots`: a queue for each asset and side, in insertion order.
abbrev pub Lots : Type 0
Lots = List ((String × String) × List LotData)

unfoldable pub queue_at : String → String → Lots → List LotData
queue_at asset side [] = []
queue_at asset side ((key, queue) ∷ rest) =
    if str_eq key.0 asset && str_eq key.1 side then queue else queue_at asset side rest

unfoldable pub set_queue : String → String → List LotData → Lots → Lots
set_queue asset side queue [] = ((asset, side), queue) ∷ []
set_queue asset side queue ((key, old) ∷ rest) =
    if str_eq key.0 asset && str_eq key.1 side
    then (key, queue) ∷ rest
    else (key, old) ∷ set_queue asset side queue rest

-- `sorted(..., key=lambda item: item.opened_at)`, which is stable.
unfoldable pub insert_lot : LotData → List LotData → List LotData
insert_lot lot [] = lot ∷ []
insert_lot lot (first ∷ rest) =
    if before first.opened_at lot.opened_at then first ∷ insert_lot lot rest else lot ∷ first ∷ rest

unfoldable pub sort_lots : List LotData → List LotData
unfolding insert_lot
sort_lots [] = []
sort_lots (lot ∷ lots) = insert_lot lot (sort_lots lots)

unfoldable pub load_lots : Lots → List LotData → Lots
unfolding sort_lots queue_at set_queue
load_lots state lots =
    foldl
      (λ (s : Lots) (lot : LotData).
        set_queue lot.asset lot.side (queue_at lot.asset lot.side s ++ lot ∷ []) s)
      state (sort_lots lots)

pub record Opening : Type 0 where
  pub asset : String
  pub side : String
  pub size : Decimal
  pub entry_price : Decimal
  pub entry_fees : Decimal
  pub strategy_id : String
  pub opened_at : Datetime
  pub trade_id : String

abbrev pub lot_of : Opening → LotData
lot_of o = record {
  trade_id = o.trade_id;
  asset = o.asset;
  side = o.side;
  entry_price = o.entry_price;
  original_size = o.size;
  remaining_size = o.size;
  entry_fees = o.entry_fees;
  strategy_id = o.strategy_id;
  opened_at = o.opened_at;
}

-- The new lot is put in front of the queue before the stable sort.
unfoldable pub open_lot : Lots → Opening → Result Lots
unfolding queue_at set_queue sort_lots
open_lot state o = do
  raise_if (not (str_eq o.side "long" || str_eq o.side "short"))
      (value_error "side must be 'long' or 'short'")
  raise_if (le o.size zero_decimal) (value_error "size must be positive")
  ok (set_queue o.asset o.side (sort_lots (lot_of o ∷ queue_at o.asset o.side state)) state)

pub record Closing : Type 0 where
  pub asset : String
  pub side : String
  pub close_size : Decimal
  pub exit_price : Decimal
  pub exit_fees : Decimal
  pub funding_paid_received : Decimal
  pub exchange_rate : Decimal
  pub closed_at : Datetime

-- The record of one match; the ids of new records come from `new_id`, by their number.
unfoldable pub record_of : Closing → String → LotData → Decimal → TradeRecordData
unfolding pnl
record_of c trade_id lot matched =
    let match_ratio = div matched c.close_size in
    let allocated_funding = mul c.funding_paid_received match_ratio in
    let fees =
      add (mul lot.entry_fees (div matched lot.original_size)) (mul c.exit_fees match_ratio) in
    record {
      trade_id = trade_id;
      timestamp = c.closed_at;
      asset = c.asset;
      entry_price = lot.entry_price;
      exit_price = c.exit_price;
      position_size = matched;
      fees = fees;
      funding_paid_received = allocated_funding;
      profit_loss = pnl c.side lot.entry_price c.exit_price matched fees allocated_funding;
      exchange_rate = c.exchange_rate;
      strategy_id = lot.strategy_id;
      position_side = c.side;
      entry_lot_id = lot.trade_id;
    }

-- The `while` loop on fuel: the rounds still allowed, the number of records made, what is left to
-- close and the queue. Dividing by the original size of an empty lot raises.
unfoldable pub close_loop :
    (ℕ → String)
    → Closing
    → ℕ
    → ℕ
    → Decimal
    → List LotData
    → Result (List TradeRecordData × List LotData)
close_loop new_id c zero made remaining queue = ok ([], queue)
close_loop new_id c (suc fuel) made remaining [] = ok ([], [])
close_loop new_id c (suc fuel) made remaining (lot ∷ rest) =
    let matched = min lot.remaining_size remaining in
    let left = sub lot.remaining_size matched in
    let popped = close_loop new_id c fuel (made + 1) (sub remaining matched) rest in
    let kept =
      close_loop new_id c fuel (made + 1) (sub remaining matched)
        (record lot { remaining_size = left } ∷ rest) in
    if le remaining zero_decimal then ok ([], lot ∷ rest) else (do
      raise_if (eq lot.original_size zero_decimal) (arithmetic_error "division by zero")
      (records, queue) ← if eq left zero_decimal then popped else kept
      ok (record_of c (new_id made) lot matched ∷ records, queue))

abbrev pub open_size : List LotData → Decimal
open_size queue = sum (map (λ lot. lot.remaining_size) queue)

-- Each round empties a lot but the last, so one round more than there are lots is enough.
abbrev pub rounds : List LotData → ℕ
rounds [] = 1
rounds (lot ∷ lots) = suc (rounds lots)

unfoldable pub close_position : (ℕ → String) → Lots → Closing → Result (List TradeRecordData × Lots)
unfolding queue_at set_queue close_loop
close_position new_id state c = do
  let queue = queue_at c.asset c.side state
  raise_if (is_nil queue) (value_error "No open lots")
  raise_if (lt (open_size queue) c.close_size) (value_error "Cannot close: not enough available")
  (records, queue_left) ← close_loop new_id c (rounds queue) 0 c.close_size queue
  ok (records, set_queue c.asset c.side queue_left state)

unfoldable pub get_open_size : Lots → String → String → Decimal
unfolding queue_at
get_open_size state asset side = open_size (queue_at asset side state)

unfoldable pub get_open_lots : Lots → String → String → List LotData
unfolding queue_at
get_open_lots state asset side = queue_at asset side state

unfoldable pub all_open_positions : Lots → List ((String × String) × Decimal)
all_open_positions state =
    map (λ (entry : (String × String) × List LotData). (entry.0, open_size entry.1))
      (keep
        (λ (entry : (String × String) × List LotData).
          any (λ (lot : LotData). lt zero_decimal lot.remaining_size) entry.1)
        state)
