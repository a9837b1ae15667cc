-- ===== src/Fills/Walk.antt =====
-- The depth walk takes the levels in order, on the grid of their quantities.
use Prim.Native.Nat.{min}
use maais.Base.{
  ℕ, zero, suc, ◌+◌, ◌-◌, ◌≤◌, ◌<◌, ◌≡◌, refl, true, false, List, [], ◌∷◌, Result, ok, err, Ensures,
  ◌>>=◌, ◌>>◌, raise_if, fill_rejection, some, String, arith, ap, subst, sym, ◌∙◌, ltb,
}
use maais.Decimal
use maais.Decimal.{Decimal, max_coefficient, zero_decimal, sub, le, lt}
use maais.Decimal.Grid.{units, sub-units, le_zero-units, lt_zero-units, min-units}
use maais.Market.{BookLevel}
use maais.Fills.{FillSlice, make_slice, walk_levels, walk}

-- Levels with a positive price and `n` steps each.
abbrev pub Depth : ℕ → List BookLevel → List ℕ → Type 0
Depth k [] [] = Unit
Depth k (l ∷ ls) (n ∷ ns) =
    (l.quantity ≡ units k n)
    × (le l.price zero_decimal ≡ false)
    × (0 < n)
    × (n ≤ max_coefficient)
    × Depth k ls ns
Depth k [] (n ∷ ns) = ⊥
Depth k (l ∷ ls) [] = ⊥

unfoldable pub visible : List ℕ → ℕ
visible [] = 0
visible (n ∷ ns) = n + visible ns

-- What each level gives to an order of `q` steps, until it is served.
unfoldable pub shares : ℕ → List ℕ → List ℕ
shares q [] = []
shares zero (n ∷ ns) = []
shares (suc q) (n ∷ ns) = min n (suc q) ∷ shares (suc q - n) ns

-- The slices take these shares at the levels' prices, from the best level on.
abbrev pub Sliced : ℕ → List BookLevel → List FillSlice → List ℕ → Type 0
Sliced k ls [] [] = Unit
Sliced k (l ∷ ls) (s ∷ ss) (m ∷ ms) =
    (s.price ≡ l.price) × (s.quantity ≡ units k m) × Sliced k ls ss ms
Sliced k [] (s ∷ ss) (m ∷ ms) = ⊥
Sliced k ls [] (m ∷ ms) = ⊥
Sliced k ls (s ∷ ss) [] = ⊥

-- The shares serve the order as far as the depth goes.
pub visible-shares : (q : ℕ) (ns : List ℕ) → visible (shares q ns) ≡ min q (visible ns)
unfolding visible shares
visible-shares zero [] = omega arith
visible-shares (suc q) [] = omega arith
visible-shares zero (n ∷ ns) = omega arith
visible-shares (suc q) (n ∷ ns) = omega (arith, visible-shares (suc q - n) ns)

abbrev Walked : ℕ → ℕ → List BookLevel → List ℕ → Decimal × List FillSlice → Type 0
Walked k q ls ns r = (r.0 ≡ units k (q - visible ns)) × Sliced k ls r.1 (shares q ns)

make_slice-taken :
    (price quantity : Decimal)
    → le price zero_decimal ≡ false
    → le quantity zero_decimal ≡ false
    → make_slice price quantity ≡ ok (record { price = price; quantity = quantity })
unfolding make_slice
make_slice-taken price quantity h k = ground arith

-- One level that is needed and gives a slice.
abbrev rest_of : FillSlice → Result (Decimal × List FillSlice) → Result (Decimal × List FillSlice)
rest_of s r = r >>= λ x. ok (x.0, s ∷ x.1)

step_eq :
    (r : Decimal) (l : BookLevel) (ls : List BookLevel)
    → le r zero_decimal ≡ false
    → make_slice l.price (Decimal.min l.quantity r)
      ≡ ok (record { price = l.price; quantity = Decimal.min l.quantity r })
    → walk_levels r (l ∷ ls)
      ≡ rest_of
          (record { price = l.price; quantity = Decimal.min l.quantity r })
          (walk_levels (sub r (Decimal.min l.quantity r)) ls)
unfolding walk_levels
step_eq r l ls h k = rw (h, k) refl

served_eq :
    (r : Decimal) (l : BookLevel) (ls : List BookLevel)
    → le r zero_decimal ≡ true
    → walk_levels r (l ∷ ls) ≡ ok (r, [])
unfolding walk_levels
served_eq r l ls h = rw h refl

nil_eq : (r : Decimal) → walk_levels r [] ≡ ok (r, [])
unfolding walk_levels
nil_eq r = refl

extend :
    (k q n : ℕ) (l : BookLevel) (ls : List BookLevel) (ns : List ℕ) (s : FillSlice)
    (r : Result (Decimal × List FillSlice))
    → s.price ≡ l.price
    → s.quantity ≡ units k (min n (suc q))
    → Ensures (Walked k (suc q - n) ls ns) r
    → Ensures (Walked k (suc q) (l ∷ ls) (n ∷ ns)) (rest_of s r)
unfolding visible shares
extend k q n l ls ns s (ok x) a b h = (h.0 ∙ ap (units k) (omega arith), (a, b, h.1))
extend k q n l ls ns s (err e) a b h = absurd h

-- The quantity that a level gives, on the grid.
give_eq :
    (k q n : ℕ) (l : BookLevel)
    → l.quantity ≡ units k n
    → Decimal.min l.quantity (units k q) ≡ units k (min n q)
give_eq k q n l h = rw h (min-units k n q)

left_eq :
    (k q n : ℕ) (l : BookLevel)
    → l.quantity ≡ units k n
    → q ≤ max_coefficient
    → sub (units k q) (Decimal.min l.quantity (units k q)) ≡ units k (q - n)
left_eq k q n l h small =
    rw (give_eq k q n l h)
      (sub-units k q (min n q) (omega arith) small ∙ ap (units k) (omega arith))

positive_units : (k m : ℕ) → 0 < m → le (units k m) zero_decimal ≡ false
positive_units k m h = le_zero-units k m ∙ ground arith

pub walk_levels-Walked :
    (k q : ℕ) (ls : List BookLevel) (ns : List ℕ)
    → Depth k ls ns
    → q ≤ max_coefficient
    → Ensures (Walked k q ls ns) (walk_levels (units k q) ls)
unfolding visible shares
walk_levels-Walked k q [] [] h small =
    subst (Ensures (Walked k q [] [])) (sym (nil_eq (units k q))) (ap (units k) (omega arith), tt)
walk_levels-Walked k zero (l ∷ ls) (n ∷ ns) h small =
    subst (Ensures (Walked k zero (l ∷ ls) (n ∷ ns)))
      (sym (served_eq (units k 0) l ls (le_zero-units k 0 ∙ ground arith)))
      (ap (units k) (omega arith), tt)
walk_levels-Walked k (suc q) (l ∷ ls) (n ∷ ns) h small =
    let give = give_eq k (suc q) n l h.0 in
    subst (Ensures (Walked k (suc q) (l ∷ ls) (n ∷ ns)))
      (sym (
        step_eq (units k (suc q)) l ls (positive_units k (suc q) (omega arith)) (
          make_slice-taken l.price (Decimal.min l.quantity (units k (suc q))) h.1 (
            ap (λ z. le z zero_decimal) give
            ∙ positive_units k (min n (suc q)) (omega (arith, h.2))))))
      (extend k q n l ls ns
        (record { price = l.price; quantity = Decimal.min l.quantity (units k (suc q)) })
        (walk_levels (sub (units k (suc q)) (Decimal.min l.quantity (units k (suc q)))) ls) refl
        give
        (subst (λ (z : Decimal). Ensures (Walked k (suc q - n) ls ns) (walk_levels z ls))
          (sym (left_eq k (suc q) n l h.0 small))
          (walk_levels-Walked k (suc q - n) ls ns h.4 (omega arith))))
walk_levels-Walked k q [] (n ∷ ns) h small = absurd h
walk_levels-Walked k q (l ∷ ls) [] h small = absurd h

ltb-false : (m : ℕ) → m ≡ 0 → ltb 0 m ≡ false
ltb-false m h = ground arith

ltb-true : (m : ℕ) → 0 < m → ltb 0 m ≡ true
ltb-true m h = ground arith

-- What `walk` makes of the result of the loop.
deliver : Decimal × List FillSlice → String → Result (List FillSlice)
deliver x id =
    raise_if (lt zero_decimal x.0) (fill_rejection "insufficient_visible_depth" (some id)) >> ok x.1

deliver_enough :
    (k q : ℕ) (ls : List BookLevel) (ns : List ℕ) (id : String)
    (r : Result (Decimal × List FillSlice))
    → q ≤ visible ns
    → Ensures (Walked k q ls ns) r
    → Ensures (λ slices. Sliced k ls slices (shares q ns)) (r >>= λ x. deliver x id)
unfolding deliver
deliver_enough k q ls ns id (ok x) h w =
    rw (w.0, lt_zero-units k (q - visible ns), ltb-false (q - visible ns) (omega arith)) w.1
deliver_enough k q ls ns id (err e) h w = absurd w

deliver_short :
    (k q : ℕ) (ls : List BookLevel) (ns : List ℕ) (id : String)
    (r : Result (Decimal × List FillSlice))
    → visible ns < q
    → Ensures (Walked k q ls ns) r
    → (r >>= λ x. deliver x id) ≡ err (fill_rejection "insufficient_visible_depth" (some id))
unfolding deliver
deliver_short k q ls ns id (ok x) h w =
    rw (w.0, lt_zero-units k (q - visible ns), ltb-true (q - visible ns) (omega arith)) refl
deliver_short k q ls ns id (err e) h w = absurd w

-- With positive prices and at least one step of quantity at each level, an order within the
-- visible depth is walked successfully: each level from the best on gives the smaller of its
-- quantity and what is left, at its own price, and no level after that is touched.
pub walk-Sliced :
    (k q : ℕ) (ls : List BookLevel) (ns : List ℕ) (id : String)
    → Depth k ls ns
    → q ≤ max_coefficient
    → q ≤ visible ns
    → Ensures (λ slices. Sliced k ls slices (shares q ns)) (walk ls (units k q) id)
unfolding walk deliver
walk-Sliced k q ls ns id h small enough =
    deliver_enough k q ls ns id (walk_levels (units k q) ls) enough
      (walk_levels-Walked k q ls ns h small)

-- With positive prices and at least one step of quantity at each level, an order of more steps than
-- the visible depth is rejected, with the id of the book's event.
pub walk-insufficient :
    (k q : ℕ) (ls : List BookLevel) (ns : List ℕ) (id : String)
    → Depth k ls ns
    → q ≤ max_coefficient
    → visible ns < q
    → walk ls (units k q) id ≡ err (fill_rejection "insufficient_visible_depth" (some id))
unfolding walk deliver
walk-insufficient k q ls ns id h small short =
    deliver_short k q ls ns id (walk_levels (units k q) ls) short
      (walk_levels-Walked k q ls ns h small)
