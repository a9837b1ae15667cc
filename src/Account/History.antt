-- ===== src/Account/History.antt =====
-- What the calls of an account keep, one by one and over a history.
use maais.Base.{
  ◌+◌, ◌≡◌, refl, Bool, true, false, not, ◌&&◌, Option, some, none, List, [], ◌∷◌, All, String,
  str_eq, Error, Result, ok, err, raise_if, or_raise, returned, ok-injective, value_error,
  lookup_error, insufficient_margin, arithmetic_error, arith, ap, subst, ◌∙◌,
}
use maais.Base.Int.{◌≤ℤ◌}
use maais.Decimal.{Decimal, zero_decimal, add, eq, lt}
use maais.Domain.{Datetime, is_open, require_utc, require_positive_decimal}
use maais.Positions
use maais.Positions.{PositionState, is_flat}
use maais.Account.{
  lookup, insert, AccountState, free_margin, raise_peak, FillArguments, position, expected_cash,
  cash_residual, reconciles, funding_amount, fill_outcome, apply_fill, mark, apply_funding,
}
use maais.Account.Calls.{Call, fills, marks, funds, symbol_of, perform, perform_all, account_after}
use maais.Account.Steps.{Kept, raised-Kept, total-insert}

-- The cash is what the capital, the results, the fees and the funding make it.
abbrev pub CashReconciles : AccountState → Type 0
CashReconciles a = eq (cash_residual a) zero_decimal ≡ true

found_position :
    (a : AccountState) (symbol : String) {p : PositionState}
    → position a symbol ≡ ok p
    → lookup symbol a.positions ≡ some p
unfolding position
found_position a symbol {p} h = read (lookup symbol a.positions) h
  where
    read :
        (x : Option PositionState)
        → or_raise x (lookup_error "no position for symbol") ≡ ok p
        → x ≡ some p
    read none e = cc
    read (some q) e = ap some (ok-injective e)

-- A mark changes none of the sums that reconcile the cash.
abbrev SameSums : PositionState → PositionState → Type 0
SameSums p q = (q.realized_pnl ≡ p.realized_pnl) × (q.fees ≡ p.fees) × (q.funding ≡ p.funding)

mark-SameSums :
    (p : PositionState) (price : Decimal) {q : PositionState}
    → Positions.mark p price ≡ ok q
    → SameSums p q
unfolding Positions.mark
mark-SameSums p price h = ground (arith, h)

cash_residual-insert :
    (a : AccountState) (symbol : String) (p q : PositionState) (b : AccountState)
    → lookup symbol a.positions ≡ some p
    → SameSums p q
    → b.positions ≡ insert symbol q a.positions
    → b.initial_capital ≡ a.initial_capital
    → b.cash_balance ≡ a.cash_balance
    → cash_residual b ≡ cash_residual a
unfolding cash_residual expected_cash
cash_residual-insert a symbol p q b found same m i e =
    rw
      (
        m,
        i,
        e,
        total-insert (λ r. r.realized_pnl) symbol p q a.positions found same.0,
        total-insert (λ r. r.fees) symbol p q a.positions found same.1,
        total-insert (λ r. r.funding) symbol p q a.positions found same.2,
      )
      refl

-- The accounts after a mark, a funding and a fill, before the peak is raised.
abbrev marked_account : AccountState → String → PositionState → Datetime → AccountState
marked_account a symbol q at = record a {
  positions = insert symbol q a.positions;
  version = a.version + 1;
  updated_at = some at;
}

abbrev funded_account : AccountState → String → PositionState → Decimal → Datetime → AccountState
funded_account a symbol q amount at = record a {
  cash_balance = add a.cash_balance amount;
  positions = insert symbol q a.positions;
  version = a.version + 1;
  updated_at = some at;
}

abbrev pub filled_account : AccountState → FillArguments → PositionState × Decimal → AccountState
filled_account a f outcome = record a {
  cash_balance = outcome.1;
  positions = insert f.symbol outcome.0 a.positions;
  version = a.version + 1;
  updated_at = some f.fill_at;
}

-- What every call keeps: what `Kept` lists, and that the cash reconciles.
abbrev pub Sound : String → AccountState → AccountState → Type 0
Sound symbol a b = Kept symbol a b × (CashReconciles a → CashReconciles b)

mark-Sound :
    (a : AccountState) (symbol : String) (price : Decimal) (at : Datetime) {b : AccountState}
    → mark a symbol price at ≡ ok b
    → Sound symbol a b
unfolding mark raise_peak
mark-Sound a symbol price at {b} h =
    let (u, utc, h1) = returned (require_utc at "observed_at") _ h in
    let (p, found, h2) = returned (position a symbol) _ h1 in
    let (q, marked, h3) = returned (Positions.mark p price) _ h2 in
    subst (Sound symbol a) (ok-injective h3) (
      raised-Kept symbol q a (marked_account a symbol q at) refl refl refl refl refl refl,
      λ cash.
          ap (λ (z : Decimal). eq z zero_decimal)
            (cash_residual-insert a symbol p q
              (raise_peak a.peak_equity (marked_account a symbol q at))
              (found_position a symbol found) (mark-SameSums p price marked) refl refl refl)
          ∙ cash,
    )

reconciles-CashReconciles : (a : AccountState) → reconciles a ≡ true → CashReconciles a
unfolding reconciles
reconciles-CashReconciles a h = ground (arith, h)

abbrev funding_failed : Error
funding_failed = arithmetic_error "account reconciliation failed after funding"

abbrev fill_failed : Error
fill_failed = arithmetic_error "account reconciliation failed after fill"

abbrev margin_failed : Error
margin_failed = insufficient_margin "paper account has insufficient free margin"

abbrev fee_refused : Error
fee_refused = value_error "fee must be a nonnegative finite Decimal"

passed : (b : Bool) (e : Error) {u : Unit {0}} → raise_if (not b) e ≡ ok u → b ≡ true
passed true e h = refl
passed false e h = cc

unraised :
    (b c : Bool) (e : Error) {u : Unit {0}} → raise_if (b && c) e ≡ ok u → b ≡ true → c ≡ false
unraised true true e h t = cc
unraised true false e h t = refl
unraised false c e h t = cc

apply_funding-Sound :
    (a : AccountState) (symbol : String) (rate : Decimal) (at : Datetime) {b : AccountState}
    → apply_funding a symbol rate at ≡ ok b
    → Sound symbol a b
unfolding apply_funding raise_peak
apply_funding-Sound a symbol rate at {b} h =
    let (u, utc, h1) = returned (require_utc at "observed_at") _ h in
    let (p, found, h2) = returned (position a symbol) _ h1 in
    let (v, held, h3) =
      returned (raise_if (is_flat p) (value_error "cannot apply funding to a flat position")) _
        h2 in
    let (q, funded, h4) = returned (Positions.apply_funding p (funding_amount p rate)) _ h3 in
    let b = raise_peak a.peak_equity (funded_account a symbol q (funding_amount p rate) at) in
    let (w, checked, h5) = returned (raise_if (not (reconciles b)) funding_failed) _ h4 in
    subst (Sound symbol a) (ok-injective h5) (
      raised-Kept symbol q a (funded_account a symbol q (funding_amount p rate) at) refl refl refl
          refl refl refl,
      λ cash. reconciles-CashReconciles b (passed (reconciles b) funding_failed checked),
    )

-- The outcome behind an account that a fill returns, and what was checked of it.
pub record FilledAs (a : AccountState) (f : FillArguments) (b : AccountState) : Type 0 where
  pub outcome : PositionState × Decimal
  pub filled : fill_outcome a f ≡ ok outcome
  pub same : raise_peak a.peak_equity (filled_account a f outcome) ≡ b
  pub margin : is_open f.position_effect ≡ true → lt (free_margin b) zero_decimal ≡ false
  pub checked : reconciles b ≡ true

pub apply_fill-FilledAs :
    (a : AccountState) (f : FillArguments) {b : AccountState}
    → apply_fill a f ≡ ok b
    → FilledAs a f b
unfolding apply_fill raise_peak
apply_fill-FilledAs a f {b} h =
    let (u1, quantity, h1) = returned (require_positive_decimal f.quantity "quantity") _ h in
    let (u2, price, h2) = returned (require_positive_decimal f.price "price") _ h1 in
    let (u3, fee, h3) = returned (raise_if (lt f.fee zero_decimal) fee_refused) _ h2 in
    let (u4, utc, h4) = returned (require_utc f.fill_at "fill_at") _ h3 in
    let (outcome, filled, h5) = returned (fill_outcome a f) _ h4 in
    let c = raise_peak a.peak_equity (filled_account a f outcome) in
    let short_of_margin = lt (free_margin c) zero_decimal in
    let (u5, margin, h6) =
      returned (raise_if (is_open f.position_effect && short_of_margin) margin_failed) _ h5 in
    let (u6, checked, h7) = returned (raise_if (not (reconciles c)) fill_failed) _ h6 in
    subst (FilledAs a f) (ok-injective h7) (record {
      outcome = outcome;
      filled = filled;
      same = refl;
      margin = unraised (is_open f.position_effect) short_of_margin margin_failed margin;
      checked = passed (reconciles c) fill_failed checked;
    })

apply_fill-Sound :
    (a : AccountState) (f : FillArguments) {b : AccountState}
    → apply_fill a f ≡ ok b
    → Sound f.symbol a b
unfolding raise_peak
apply_fill-Sound a f {b} h =
    let so = apply_fill-FilledAs a f h in
    (
      subst (Kept f.symbol a) so.same (
          raised-Kept f.symbol so.outcome.0 a (filled_account a f so.outcome) refl refl refl refl
            refl refl),
      λ cash. reconciles-CashReconciles b so.checked,
    )

-- Each call that returns keeps the account's experiment, capital, currency and leverage and the positions in other symbols, does not lower
-- the peak of the equity, which it leaves at the equity or above, counts the version and leaves the
-- cash reconciled if it was.
pub perform-Sound :
    (a : AccountState) (c : Call) {b : AccountState} → perform a c ≡ ok b → Sound (symbol_of c) a b
unfolding perform
perform-Sound a (fills f) h = apply_fill-Sound a f h
perform-Sound a (marks symbol price at) h = mark-Sound a symbol price at h
perform-Sound a (funds symbol rate at) h = apply_funding-Sound a symbol rate at h

-- An opening fill that returns leaves no negative free margin.
pub apply_fill-has_margin :
    (a : AccountState) (f : FillArguments) {b : AccountState}
    → apply_fill a f ≡ ok b
    → is_open f.position_effect ≡ true
    → lt (free_margin b) zero_decimal ≡ false
apply_fill-has_margin a f h opens = (apply_fill-FilledAs a f h).margin opens

-- The state after a history, against the one before it.
pub record Maintained (cs : List Call) (a b : AccountState) : Type 0 where
  pub capital : b.initial_capital ≡ a.initial_capital
  pub leverage : b.leverage ≡ a.leverage
  pub peak : a.peak_equity ≤ℤ b.peak_equity
  pub cash : CashReconciles a → CashReconciles b
  pub untouched :
      (other : String)
      → All (λ c. str_eq (symbol_of c) other ≡ false) cs
      → lookup other b.positions ≡ lookup other a.positions

after-Maintained :
    (a : AccountState) (c : Call) (r : Result AccountState)
    → perform a c ≡ r
    → Maintained (c ∷ []) a (account_after a r)
after-Maintained a c (ok b) h =
    let (kept, cash) = perform-Sound a c h in
    record {
      capital = kept.same_capital;
      leverage = kept.same_leverage;
      peak = kept.peak_kept;
      cash = cash;
      untouched = λ other g. kept.others_kept other g.0;
    }
after-Maintained a c (err e) h = record {
  capital = refl;
  leverage = refl;
  peak = omega arith;
  cash = λ g. g;
  untouched = λ other g. refl;
}

-- Over any history of fills, marks and funding, calls that raise included, the cash reconciles if it
-- did at the start, the peak of the equity never falls, capital and leverage stay, and a symbol that
-- no call names keeps its position.
pub perform_all-Maintained :
    (a : AccountState) (cs : List Call) → Maintained cs a (perform_all a cs)
unfolding perform_all
perform_all-Maintained a [] = record {
  capital = refl;
  leverage = refl;
  peak = omega arith;
  cash = λ g. g;
  untouched = λ other g. refl;
}
perform_all-Maintained a (c ∷ cs) =
    let first = after-Maintained a c (perform a c) refl in
    let rest = perform_all-Maintained (account_after a (perform a c)) cs in
    record {
      capital = rest.capital ∙ first.capital;
      leverage = rest.leverage ∙ first.leverage;
      peak = omega (arith, first.peak, rest.peak);
      cash = λ g. rest.cash (first.cash g);
      untouched = λ other g. rest.untouched other g.1 ∙ first.untouched other (g.0, tt);
    }
