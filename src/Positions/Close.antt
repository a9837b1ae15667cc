-- ===== src/Positions/Close.antt =====
-- What opening and closing fills do to a position on the grid of its quantities.
use maais.Base.{
  ℕ, ◌+◌, ◌-◌, ◌≤◌, ◌<◌, ◌≡◌, ◌≢◌, refl, ◌==◌, true, false, ◌⊎◌, none, some, List, [], ◌∷◌, ◌++◌,
  err, Ensures, value_error, ap, ◌∙◌, arith, ltb,
}
use maais.Decimal.{Decimal, max_coefficient, zero_decimal, sub, le, lt}
use maais.Decimal.Grid.{units, sub-units, lt-units, eq_zero-units, le_zero-units, lt_zero-units}
use maais.Domain.{Direction, neutral, Datetime, is_long}
use maais.Positions.{
  PositionState, PositionLot, Closing, lots_quantity, quantity_of, is_flat, is_directed, close_lots,
  close_fill, open_fill,
}
use maais.Positions.Lots.{
  Holds, Holds-append, total, total-append, consume, total-consume, lots_quantity-Holds,
  close_lots-Holds,
}

-- A position whose lots hold `ns` steps each.
pub record IsOnGrid (k : ℕ) (ns : List ℕ) (p : PositionState) : Type 0 where
  pub holds : Holds k p.lots ns
  pub fits : total ns ≤ max_coefficient

pub quantity-IsOnGrid :
    (k : ℕ) (ns : List ℕ) (p : PositionState) → IsOnGrid k ns p → quantity_of p ≡ units k (total ns)
quantity-IsOnGrid k ns p v = lots_quantity-Holds k p.lots ns v.holds v.fits

-- What a closing fill of `q` steps leaves: the oldest lots are taken first, the position keeps its
-- side while something is left and is flat and closed at the fill's time otherwise.
pub record Closed (k q : ℕ) (ns : List ℕ) (p : PositionState) (fill_at : Datetime)
    (p' : PositionState) : Type 0 where
  pub taken : Holds k p'.lots (consume q ns)
  pub remaining : quantity_of p' ≡ units k (total ns - q)
  pub kept : q < total ns → (p'.side ≡ p.side) × (p'.closed_at ≡ none)
  pub ended : q ≡ total ns → (p'.side ≡ neutral) × (p'.closed_at ≡ some fill_at)
  pub next_version : p'.version ≡ p.version + 1

module _ (k q : ℕ) (ns : List ℕ) (p : PositionState) (price fee : Decimal) (fill_at : Datetime)
    (v : IsOnGrid k ns p) (priced : le price zero_decimal ≡ false)
    (charged : lt fee zero_decimal ≡ false) (utc : fill_at.utc ≡ true) where
  flat_units : is_flat p ≡ (total ns == 0)
  flat_units = rw (quantity-IsOnGrid k ns p v) (eq_zero-units k (total ns))

  more_units : lt (quantity_of p) (units k q) ≡ ltb (total ns) q
  more_units = rw (quantity-IsOnGrid k ns p v) (lt-units k (total ns) q)

  -- What the loop returns for this fill.
  loop : Closing × List PositionLot
  loop =
      close_lots (is_long p.side) price
        (record { remaining_to_close = units k q; realized = zero_decimal }) p.lots

  module _ (within : q ≤ total ns) where
    taken_lots : Holds k loop.1 (consume q ns)
    unfolding loop
    taken_lots =
        (close_lots-Holds k q (is_long p.side) price _ p.lots ns v.holds v.fits
          (omega (arith, v.fits)) refl).0

    left_quantity : lots_quantity loop.1 ≡ units k (total ns - q)
    left_quantity =
        lots_quantity-Holds k loop.1 (consume q ns) taken_lots
          (omega (arith, total-consume q ns, v.fits))
        ∙ ap (units k) (total-consume q ns)

    left_units : lt zero_decimal (sub (quantity_of p) (units k q)) ≡ ltb 0 (total ns - q)
    left_units =
        rw (quantity-IsOnGrid k ns p v, sub-units k (total ns) q within v.fits)
          (lt_zero-units k (total ns - q))

  -- On a position whose lots are on the grid, a fill in UTC of a positive quantity that the position
  -- holds, at a positive price and with no negative fee, returns: the oldest lots are taken first,
  -- the quantity falls by the fill's, the side stays while something is left, and otherwise the
  -- position is neutral and closed at the fill's time.
  pub close_fill-Closed :
      0 < q
      → q ≤ total ns
      → Ensures (Closed k q ns p fill_at) (close_fill p (units k q) price fee fill_at)
  unfolding close_fill loop
  close_fill-Closed pos within = ground (
    arith,
    le_zero-units k q,
    flat_units,
    more_units,
    left_units within,
    left_quantity within,
    taken_lots within,
  )

  -- With such a position, price, fee and time, a quantity beyond what the position holds is refused.
  pub close_fill-too_much :
      total ns < q
      → close_fill p (units k q) price fee fill_at
        ≡ err (value_error "close quantity exceeds open quantity")
  unfolding close_fill
  close_fill-too_much more = ground (arith, le_zero-units k q, flat_units, more_units)

-- What an opening fill of `q` steps leaves: a new lot behind the others, on the fill's side; the
-- position counts as opened by this fill only if it was flat.
pub record Opened (k q : ℕ) (ns : List ℕ) (p : PositionState) (side : Direction) (price : Decimal)
    (fill_at : Datetime) (p' : PositionState) : Type 0 where
  pub added : Holds k p'.lots (ns ++ q ∷ [])
  pub grown : quantity_of p' ≡ units k (total ns + q)
  pub on_side : p'.side ≡ side
  pub marked : p'.mark_price ≡ price
  pub reopened : total ns ≡ 0 → p'.opened_at ≡ some fill_at
  pub stays_open : 0 < total ns → p'.opened_at ≡ p.opened_at
  pub not_closed : p'.closed_at ≡ none
  pub next_version : p'.version ≡ p.version + 1

module _ (k q : ℕ) (ns : List ℕ) (p : PositionState) (fill_id : ℕ) (side : Direction)
    (price fee : Decimal) (fill_at : Datetime) (v : IsOnGrid k ns p)
    (priced : le price zero_decimal ≡ false) (charged : lt fee zero_decimal ≡ false)
    (utc : fill_at.utc ≡ true) (directed : is_directed side ≡ true) (pos : 0 < q) where
  flat_now : is_flat p ≡ (total ns == 0)
  flat_now = rw (quantity-IsOnGrid k ns p v) (eq_zero-units k (total ns))

  new_lot : PositionLot
  new_lot = record {
    lot_id = fill_id;
    opening_fill_id = fill_id;
    opened_at = fill_at;
    entry_price = price;
    original_quantity = units k q;
    remaining_quantity = units k q;
    opening_fee = fee;
    remaining_opening_fee = fee;
    funding = zero_decimal;
  }

  lots_after : Holds k (p.lots ++ new_lot ∷ []) (ns ++ q ∷ [])
  unfolding new_lot
  lots_after = Holds-append k p.lots ns _ q v.holds refl

  quantity_after :
      total ns + q ≤ max_coefficient
      → lots_quantity (p.lots ++ new_lot ∷ []) ≡ units k (total ns + q)
  quantity_after small =
      lots_quantity-Holds k (p.lots ++ new_lot ∷ []) (ns ++ q ∷ []) lots_after
        (omega (arith, total-append ns q))
      ∙ ap (units k) (total-append ns q)

  -- On a position whose lots are on the grid, a fill in UTC of a positive quantity, at a positive price,
  -- with no negative fee and on the position's side, or long or short on a flat position, returns
  -- while the sum fits 28 digits: a new lot goes behind the others, the quantity grows by the fill's,
  -- and the position is opened at the fill's time only if it was flat.
  pub open_fill-Opened :
      (total ns ≡ 0) ⊎ (p.side ≡ side)
      → total ns + q ≤ max_coefficient
      → Ensures
          (Opened k q ns p side price fill_at)
          (open_fill p fill_id side (units k q) price fee fill_at)
  unfolding open_fill new_lot
  open_fill-Opened compatible small =
      ground (arith, le_zero-units k q, flat_now, lots_after, quantity_after small)

  -- With such a position, price, fee and time, a position that is not flat refuses a fill on the other
  -- side.
  pub open_fill-opposite :
      0 < total ns
      → p.side ≢ side
      → open_fill p fill_id side (units k q) price fee fill_at
        ≡ err (value_error "one-way position can only scale in the same direction")
  unfolding open_fill
  open_fill-opposite some_open other = ground (arith, flat_now)
