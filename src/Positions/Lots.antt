-- ===== src/Positions/Lots.antt =====
-- The lots of a position as whole numbers of steps, and how closing takes them oldest first.
use Prim.Native.Nat.{min}
use maais.Base.{
  ℕ, ◌+◌, ◌-◌, ◌≤◌, ◌≡◌, Bool, ◌||◌, Bool-cases, inl, inr, List, [], ◌∷◌, ◌++◌, map, foldl, arith,
  subst, ap, ◌∙◌, leb,
}
use maais.Decimal.{Decimal, max_coefficient, zero_decimal, add, le, sum}
use maais.Decimal.Grid.{units, add-units, sub-units, le_zero-units, min-units, units-zero}
use maais.Positions.{PositionLot, Closing, lots_quantity, close_round, close_lots}

-- The open steps of each lot, oldest first.
abbrev pub Holds : ℕ → List PositionLot → List ℕ → Type 0
Holds k [] [] = Unit
Holds k (lot ∷ lots) (n ∷ ns) = (lot.remaining_quantity ≡ units k n) × Holds k lots ns
Holds k [] (n ∷ ns) = ⊥
Holds k (lot ∷ lots) [] = ⊥

unfoldable pub total : List ℕ → ℕ
total [] = 0
total (n ∷ ns) = n + total ns

-- First in, first out: `q` steps are taken from the front.
unfoldable pub consume : ℕ → List ℕ → List ℕ
consume q [] = []
consume q (n ∷ ns) = (n - q) ∷ consume (q - n) ns

pub total-consume : (q : ℕ) (ns : List ℕ) → total (consume q ns) ≡ total ns - q
unfolding total consume
total-consume q [] = omega arith
total-consume q (n ∷ ns) = omega (arith, total-consume (q - n) ns)

pub total-append : (ns : List ℕ) (n : ℕ) → total (ns ++ n ∷ []) ≡ total ns + n
unfolding total
total-append [] n = omega arith
total-append (m ∷ ns) n = omega (arith, total-append ns n)

pub Holds-append :
    (k : ℕ) (lots : List PositionLot) (ns : List ℕ) (lot : PositionLot) (n : ℕ)
    → Holds k lots ns
    → lot.remaining_quantity ≡ units k n
    → Holds k (lots ++ lot ∷ []) (ns ++ n ∷ [])
Holds-append k [] [] lot n h e = (e, tt)
Holds-append k (l ∷ lots) (m ∷ ns) lot n h e = (h.0, Holds-append k lots ns lot n h.1 e)
Holds-append k [] (m ∷ ns) lot n h e = absurd h
Holds-append k (l ∷ lots) [] lot n h e = absurd h

sum_from-Holds :
    (k a : ℕ) (lots : List PositionLot) (ns : List ℕ)
    → Holds k lots ns
    → a + total ns ≤ max_coefficient
    → foldl add (units k a) (map (λ lot. lot.remaining_quantity) lots) ≡ units k (a + total ns)
unfolding total
sum_from-Holds k a [] [] h small = ap (units k) (omega arith)
sum_from-Holds k a (lot ∷ lots) (n ∷ ns) h small =
    rw (h.0, add-units k a n (omega arith))
      (sum_from-Holds k (a + n) lots ns h.1 (omega arith) ∙ ap (units k) (omega arith))
sum_from-Holds k a [] (m ∷ ns) h small = absurd h
sum_from-Holds k a (l ∷ lots) [] h small = absurd h

-- The quantity of a position is the exact sum of its lots.
pub lots_quantity-Holds :
    (k : ℕ) (lots : List PositionLot) (ns : List ℕ)
    → Holds k lots ns
    → total ns ≤ max_coefficient
    → lots_quantity lots ≡ units k (total ns)
unfolding lots_quantity sum
lots_quantity-Holds k lots ns h small =
    subst
      (λ (z : Decimal). foldl add z (map (λ lot. lot.remaining_quantity) lots) ≡ units k (total ns))
      (units-zero k) (sum_from-Holds k 0 lots ns h (omega arith) ∙ ap (units k) (omega arith))

-- One round takes what it can of a lot.
close_round-units :
    (k q n : ℕ) (long_side : Bool) (price : Decimal) (c : Closing) (lot : PositionLot)
    → lot.remaining_quantity ≡ units k n
    → c.remaining_to_close ≡ units k q
    → n ≤ max_coefficient
    → q ≤ max_coefficient
    → let r = close_round long_side price c lot in
      (r.0.remaining_to_close ≡ units k (q - n)) × (r.1.remaining_quantity ≡ units k (n - q))
unfolding close_round
close_round-units k q n long_side price c lot h e small fits =
    elim (Bool-cases (leb q 0 || leb n 0)) [
      | inl skip ↦
          rw (tests, skip) (e ∙ ap (units k) (ground arith), h ∙ ap (units k) (ground arith))
      | inr taken ↦
          rw (tests, taken)
            (rw (h, e, min-units k n q)
              (
                sub-units k q (min n q) (omega arith) fits ∙ ap (units k) (omega arith),
                sub-units k n (min n q) (omega arith) small ∙ ap (units k) (omega arith),
              ))
    ]
  where
    tests :
        (le c.remaining_to_close zero_decimal || le lot.remaining_quantity zero_decimal)
        ≡ (leb q 0 || leb n 0)
    tests = rw (h, e, le_zero-units k q, le_zero-units k n)

-- The loop takes the lots as `consume` does, and has closed what they hold.
pub close_lots-Holds :
    (k q : ℕ) (long_side : Bool) (price : Decimal) (c : Closing) (lots : List PositionLot)
    (ns : List ℕ)
    → Holds k lots ns
    → total ns ≤ max_coefficient
    → q ≤ max_coefficient
    → c.remaining_to_close ≡ units k q
    → Holds k (close_lots long_side price c lots).1 (consume q ns)
      × ((close_lots long_side price c lots).0.remaining_to_close ≡ units k (q - total ns))
unfolding close_lots total consume
close_lots-Holds k q long_side price c [] [] h small fits e = (tt, e ∙ ap (units k) (omega arith))
close_lots-Holds k q long_side price c (lot ∷ lots) (n ∷ ns) h small fits e =
    let (left, rest) = close_round-units k q n long_side price c lot h.0 e (omega arith) fits in
    let (held, closed) =
      close_lots-Holds k (q - n) long_side price (close_round long_side price c lot).0 lots ns h.1
        (omega arith) (omega arith) left in
    ((rest, held), closed ∙ ap (units k) (omega arith))
close_lots-Holds k q long_side price c [] (m ∷ ns) h small fits e = absurd h
close_lots-Holds k q long_side price c (l ∷ lots) [] h small fits e = absurd h
