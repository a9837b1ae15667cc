-- ===== src/Account/Steps.antt =====
-- What every call of an account keeps.
use maais.Base.{
  ◌+◌, ◌≡◌, refl, Bool, true, false, Bool-cases, inl, inr, if◌then◌else◌, Option, some, [], ◌∷◌,
  map, foldl, String, str_eq, eq_iff, arith, ap, ◌∙◌,
}
use maais.Base.Int.{◌≤ℤ◌}
use maais.Decimal.{Decimal, zero_decimal, add, max, sum}
use maais.Positions.{PositionState}
use maais.Account.{PositionMap, lookup, insert, AccountState, equity, raise_peak, total}

pub max-left : (a b : Decimal) → a ≤ℤ max a b
max-left a b = ground arith

pub max-right : (a b : Decimal) → b ≤ℤ max a b
max-right a b = ground arith

other_symbol : (i k j : String) → str_eq i k ≡ true → str_eq k j ≡ false → str_eq i j ≡ false
other_symbol i k j here other = ground (arith, eq_iff i k)

pub lookup-insert_other :
    (k j : String) (p : PositionState) (m : PositionMap)
    → str_eq k j ≡ false
    → lookup j (insert k p m) ≡ lookup j m
unfolding lookup insert
lookup-insert_other k j p [] h = rw h refl
lookup-insert_other k j p ((i, q) ∷ rest) h = elim (Bool-cases (str_eq i k)) [
  | inl here ↦ rw (here, h, other_symbol i k j here h) refl
  | inr later ↦ rw later (
      ap (λ (x : Option PositionState). if str_eq i j then some q else x)
        (lookup-insert_other k j p rest h))
]

pub lookup-insert :
    (k : String) (p : PositionState) (m : PositionMap) → lookup k (insert k p m) ≡ some p
unfolding lookup insert
lookup-insert k p [] = ground (arith, eq_iff k k)
lookup-insert k p ((i, q) ∷ rest) = ground (arith, eq_iff k k, lookup-insert k p rest)

found_here :
    (b : Bool) (r p : PositionState) (x : Option PositionState)
    → b ≡ true
    → (if b then some r else x) ≡ some p
    → r ≡ p
found_here true r p x t h = cc
found_here false r p x t h = cc

found_later :
    (b : Bool) (r p : PositionState) (x : Option PositionState)
    → b ≡ false
    → (if b then some r else x) ≡ some p
    → x ≡ some p
found_later true r p x t h = cc
found_later false r p x t h = h

-- A field that the new position does not change keeps its sum.
sum_from-insert :
    (f : PositionState → Decimal) (k : String) (p q : PositionState) (m : PositionMap) (a : Decimal)
    → lookup k m ≡ some p
    → f q ≡ f p
    → foldl add a (map (λ (entry : String × PositionState). f entry.1) (insert k q m))
      ≡ foldl add a (map (λ (entry : String × PositionState). f entry.1) m)
unfolding lookup insert
sum_from-insert f k p q [] a h g = cc
sum_from-insert f k p q ((j, r) ∷ rest) a h g = elim (Bool-cases (str_eq j k)) [
  | inl here ↦ rw (here, g, found_here _ r p (lookup k rest) here h) refl
  | inr later ↦
      rw later
        (sum_from-insert f k p q rest (add a (f r)) (found_later _ r p (lookup k rest) later h) g)
]

pub total-insert :
    (f : PositionState → Decimal) (k : String) (p q : PositionState) (m : PositionMap)
    → lookup k m ≡ some p
    → f q ≡ f p
    → total f (insert k q m) ≡ total f m
unfolding total sum
total-insert f k p q m h g = sum_from-insert f k p q m zero_decimal h g

-- What a call of an account keeps: its terms, the positions in other symbols, and the sums that
-- reconcile its cash; the peak never falls and covers the equity, and the version counts the call.
pub record Kept (symbol : String) (a b : AccountState) : Type 0 where
  pub same_experiment : b.experiment_id ≡ a.experiment_id
  pub same_capital : b.initial_capital ≡ a.initial_capital
  pub same_currency : b.currency ≡ a.currency
  pub same_leverage : b.leverage ≡ a.leverage
  pub next_version : b.version ≡ a.version + 1
  pub peak_kept : a.peak_equity ≤ℤ b.peak_equity
  pub peak_covers : equity b ≤ℤ b.peak_equity
  pub others_kept :
      (other : String)
      → str_eq symbol other ≡ false
      → lookup other b.positions ≡ lookup other a.positions

-- A candidate account after the peak was raised.
pub raised-Kept :
    (symbol : String) (p : PositionState) (a c : AccountState)
    → c.experiment_id ≡ a.experiment_id
    → c.initial_capital ≡ a.initial_capital
    → c.currency ≡ a.currency
    → c.leverage ≡ a.leverage
    → c.version ≡ a.version + 1
    → c.positions ≡ insert symbol p a.positions
    → Kept symbol a (raise_peak a.peak_equity c)
unfolding raise_peak
raised-Kept symbol p a c e i u l v m = record {
  same_experiment = e;
  same_capital = i;
  same_currency = u;
  same_leverage = l;
  next_version = v;
  peak_kept = max-left a.peak_equity (equity c);
  peak_covers = max-right a.peak_equity (equity c);
  others_kept = λ other h. ap (lookup other) m ∙ lookup-insert_other symbol other p a.positions h;
}
