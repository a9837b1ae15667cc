-- ===== src/Account.antt =====
-- maais/execution/paper/account.py: the paper account, as cash and a position for each symbol.
pub mod Calls
pub mod Steps
pub mod History
mod Tests
use maais.Base.{
  ℕ, ◌+◌, Bool, not, ◌||◌, ◌&&◌, List, [], ◌∷◌, Option, none, some, String, Result, ok, ◌>>=◌, ◌>>◌,
  raise_if, or_raise, value_error, lookup_error, insufficient_margin, arithmetic_error, is_empty,
  str_eq, ltb, ◌==◌, if◌then◌else◌, map,
}
use maais.Decimal.{Decimal, zero_decimal, add, sub, mul, div, negate, max, lt, le, eq, sum, whole}
use maais.Domain.{
  PaperOrderSide, PositionEffect, long, short, Datetime, is_buy, is_long, is_open, require_utc,
  require_positive_decimal,
}
use maais.Positions
use maais.Positions.{PositionState, empty_position, open_fill, close_fill, is_flat, quantity_of}

-- A dict from symbols, in insertion order.
abbrev pub PositionMap : Type 0
PositionMap = List (String × PositionState)

unfoldable pub lookup : String → PositionMap → Option PositionState
lookup k [] = none
lookup k ((j, p) ∷ rest) = if str_eq j k then some p else lookup k rest

-- `positions[symbol] = position`.
unfoldable pub insert : String → PositionState → PositionMap → PositionMap
insert k p [] = (k, p) ∷ []
insert k p ((j, q) ∷ rest) = if str_eq j k then (k, p) ∷ rest else (j, q) ∷ insert k p rest

pub record AccountState : Type 0 where
  pub experiment_id : ℕ
  pub initial_capital : Decimal
  pub currency : String
  pub leverage : ℕ
  pub cash_balance : Decimal
  pub peak_equity : Decimal
  pub positions : PositionMap
  pub version : ℕ
  pub updated_at : Option Datetime

unfoldable pub create : ℕ → Decimal → String → ℕ → Result AccountState
create experiment_id initial_capital currency leverage = do
  require_positive_decimal initial_capital "initial_capital"
  raise_if (is_empty currency) (value_error "currency is required")
  raise_if (leverage == 0 || ltb 5 leverage) (value_error "leverage must be between 1 and 5")
  ok (record {
    experiment_id = experiment_id;
    initial_capital = initial_capital;
    currency = currency;
    leverage = leverage;
    cash_balance = initial_capital;
    peak_equity = initial_capital;
    positions = [];
    version = 0;
    updated_at = none;
  })

unfoldable pub position : AccountState → String → Result PositionState
position a symbol = or_raise (lookup symbol a.positions) (lookup_error "no position for symbol")

-- A sum over `self.positions.values()`.
unfoldable pub total : (PositionState → Decimal) → PositionMap → Decimal
total f positions = sum (map (λ (entry : String × PositionState). f entry.1) positions)

abbrev pub realized_pnl : AccountState → Decimal
realized_pnl a = total (λ p. p.realized_pnl) a.positions

abbrev pub unrealized_pnl : AccountState → Decimal
unrealized_pnl a = total Positions.unrealized_pnl a.positions

abbrev pub fees : AccountState → Decimal
fees a = total (λ p. p.fees) a.positions

abbrev pub funding : AccountState → Decimal
funding a = total (λ p. p.funding) a.positions

abbrev pub gross_notional : AccountState → Decimal
gross_notional a = total Positions.gross_notional a.positions

abbrev pub used_margin : AccountState → Decimal
used_margin a = div (gross_notional a) (whole a.leverage)

abbrev pub equity : AccountState → Decimal
equity a = add a.cash_balance (unrealized_pnl a)

abbrev pub free_margin : AccountState → Decimal
free_margin a = sub (equity a) (used_margin a)

unfoldable pub drawdown : AccountState → Decimal
drawdown a =
    if le a.peak_equity zero_decimal
    then zero_decimal
    else max zero_decimal (div (sub a.peak_equity (equity a)) a.peak_equity)

pub record AccountSnapshot : Type 0 where
  pub cash_balance : Decimal
  pub equity : Decimal
  pub used_margin : Decimal
  pub free_margin : Decimal
  pub gross_notional : Decimal
  pub unrealized_pnl : Decimal
  pub realized_pnl : Decimal
  pub fees : Decimal
  pub funding : Decimal
  pub peak_equity : Decimal
  pub drawdown : Decimal

unfoldable pub snapshot : AccountState → AccountSnapshot
snapshot a = record {
  cash_balance = a.cash_balance;
  equity = equity a;
  used_margin = used_margin a;
  free_margin = free_margin a;
  gross_notional = gross_notional a;
  unrealized_pnl = unrealized_pnl a;
  realized_pnl = realized_pnl a;
  fees = fees a;
  funding = funding a;
  peak_equity = a.peak_equity;
  drawdown = drawdown a;
}

-- The residuals of `reconcile`: cash, equity and margin.
unfoldable pub expected_cash : AccountState → Decimal
expected_cash a = add (sub (add a.initial_capital (realized_pnl a)) (fees a)) (funding a)

unfoldable pub cash_residual : AccountState → Decimal
unfolding expected_cash
cash_residual a = sub a.cash_balance (expected_cash a)

unfoldable pub equity_residual : AccountState → Decimal
equity_residual a = sub (equity a) (add a.cash_balance (unrealized_pnl a))

unfoldable pub margin_residual : AccountState → Decimal
margin_residual a =
    sub (used_margin a)
      (total (λ p. div (mul (quantity_of p) p.mark_price) (whole a.leverage)) a.positions)

-- `reconcile().ok`.
unfoldable pub reconciles : AccountState → Bool
unfolding cash_residual equity_residual margin_residual
reconciles a =
    eq (cash_residual a) zero_decimal
    && (eq (equity_residual a) zero_decimal && eq (margin_residual a) zero_decimal)

pub record FillArguments : Type 0 where
  pub fill_id : ℕ
  pub position_id : ℕ
  pub symbol : String
  pub side : PaperOrderSide
  pub position_effect : PositionEffect
  pub quantity : Decimal
  pub price : Decimal
  pub fee : Decimal
  pub fill_at : Datetime

-- The position that an opening fill scales: the open one, a flat one, or a new one.
unfoldable pub position_to_open : AccountState → FillArguments → Result PositionState
position_to_open a f = elim (lookup f.symbol a.positions) [
  | none ↦ empty_position f.position_id a.experiment_id f.symbol
  | some current ↦
      raise_if (not (is_flat current) && not (current.position_id == f.position_id))
        (value_error "position_id does not match the open position")
      >> ok current
]

-- The position that a reducing fill closes.
unfoldable pub position_to_reduce : AccountState → FillArguments → Result PositionState
position_to_reduce a f = do
  current ←
      or_raise (lookup f.symbol a.positions) (value_error "reduce-only fill has no open quantity")
  raise_if (is_flat current) (value_error "reduce-only fill has no open quantity")
  raise_if (if is_long current.side then is_buy f.side else not (is_buy f.side))
      (value_error "reduce-only fill side does not close the position")
  ok current

-- The candidate position and the cash that the fill leaves.
unfoldable pub fill_outcome : AccountState → FillArguments → Result (PositionState × Decimal)
unfolding position_to_open position_to_reduce
fill_outcome a f =
    if is_open f.position_effect
    then (do
      current ← position_to_open a f
      candidate ←
          open_fill current f.fill_id (if is_buy f.side then long else short) f.quantity f.price
            f.fee f.fill_at
      ok (candidate, sub a.cash_balance f.fee))
    else (do
      current ← position_to_reduce a f
      candidate ← close_fill current f.quantity f.price f.fee f.fill_at
      let realized_delta = sub candidate.realized_pnl current.realized_pnl
      ok (candidate, sub (add a.cash_balance realized_delta) f.fee))

-- `replace(candidate, peak_equity=max(self.peak_equity, candidate.equity))`.
unfoldable pub raise_peak : Decimal → AccountState → AccountState
raise_peak peak candidate = record candidate { peak_equity = max peak (equity candidate) }

unfoldable pub apply_fill : AccountState → FillArguments → Result AccountState
unfolding fill_outcome raise_peak
apply_fill a f = do
  require_positive_decimal f.quantity "quantity"
  require_positive_decimal f.price "price"
  raise_if (lt f.fee zero_decimal) (value_error "fee must be a nonnegative finite Decimal")
  require_utc f.fill_at "fill_at"
  (candidate_position, cash) ← fill_outcome a f
  let candidate = raise_peak a.peak_equity (record a {
    cash_balance = cash;
    positions = insert f.symbol candidate_position a.positions;
    version = a.version + 1;
    updated_at = some f.fill_at;
  })
  raise_if (is_open f.position_effect && lt (free_margin candidate) zero_decimal)
      (insufficient_margin "paper account has insufficient free margin")
  raise_if (not (reconciles candidate))
      (arithmetic_error "account reconciliation failed after fill")
  ok candidate

unfoldable pub mark : AccountState → String → Decimal → Datetime → Result AccountState
unfolding position raise_peak
mark a symbol price observed_at = do
  require_utc observed_at "observed_at"
  current ← position a symbol
  marked ← Positions.mark current price
  ok (
      raise_peak a.peak_equity (record a {
        positions = insert symbol marked a.positions;
        version = a.version + 1;
        updated_at = some observed_at;
      }))

-- A long position pays a positive rate, a short one receives it.
unfoldable pub funding_amount : PositionState → Decimal → Decimal
funding_amount p rate =
    let signed = mul (Positions.gross_notional p) rate in
    if is_long p.side then negate signed else signed

unfoldable pub apply_funding : AccountState → String → Decimal → Datetime → Result AccountState
unfolding position raise_peak funding_amount
apply_funding a symbol rate observed_at = do
  require_utc observed_at "observed_at"
  current ← position a symbol
  raise_if (is_flat current) (value_error "cannot apply funding to a flat position")
  let amount = funding_amount current rate
  funded ← Positions.apply_funding current amount
  let candidate = raise_peak a.peak_equity (record a {
    cash_balance = add a.cash_balance amount;
    positions = insert symbol funded a.positions;
    version = a.version + 1;
    updated_at = some observed_at;
  })
  raise_if (not (reconciles candidate))
      (arithmetic_error "account reconciliation failed after funding")
  ok candidate
