-- ===== src/Broker/Closing.antt =====
-- What a reducing fill of the whole position leaves in the account.
use maais.Base.{◌≡◌, true, String, some, ok, arith, ap, sym, ◌∙◌}
use maais.Decimal.{Decimal, eq}
use maais.Decimal.Products.{sub_self}
use maais.Domain.{Datetime, neutral, reduces}
use maais.Positions.{PositionState, quantity_of, close_fill}
use maais.Account
use maais.Account.{
  AccountState, FillArguments, free_margin, fill_outcome, lookup, insert, raise_peak, reconciles,
  position,
}
use maais.Account.History.{apply_fill-FilledAs}
use maais.Account.Steps.{lookup-insert}

pub equal_decimals : (a b : Decimal) → eq a b ≡ true → a ≡ b
equal_decimals a b h = ground (arith, h)

-- The position that a reducing fill closes, and the one that it leaves.
fill_outcome-closed :
    (a : AccountState) (f : FillArguments) (p : PositionState) {o : PositionState × Decimal}
    → f.position_effect ≡ reduces
    → lookup f.symbol a.positions ≡ some p
    → f.quantity ≡ quantity_of p
    → fill_outcome a f ≡ ok o
    → (o.0.side ≡ neutral) × (o.0.closed_at ≡ some f.fill_at)
unfolding fill_outcome Account.position_to_reduce close_fill
fill_outcome-closed a f p effect found same h =
    ground (arith, h, effect, found, same, sub_self (quantity_of p))

-- A position that a fill at `at` has ended.
pub record Ended (a : AccountState) (symbol : String) (at : Datetime) : Type 0 where
  pub p : PositionState
  pub held : lookup symbol a.positions ≡ some p
  pub no_side : p.side ≡ neutral
  pub closed_then : p.closed_at ≡ some at

pub apply_fill-Ended :
    (a : AccountState) (f : FillArguments) (p : PositionState) {b : AccountState}
    → f.position_effect ≡ reduces
    → lookup f.symbol a.positions ≡ some p
    → f.quantity ≡ quantity_of p
    → Account.apply_fill a f ≡ ok b
    → Ended b f.symbol f.fill_at
unfolding raise_peak
apply_fill-Ended a f p effect found same h =
    let so = apply_fill-FilledAs a f h in
    let (neutral_side, closed) = fill_outcome-closed a f p effect found same so.filled in
    record {
      p = so.outcome.0;
      held =
          ap (λ (x : AccountState). lookup f.symbol x.positions) (sym so.same)
          ∙ lookup-insert f.symbol so.outcome.0 a.positions;
      no_side = neutral_side;
      closed_then = closed;
    }
