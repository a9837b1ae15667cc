-- ===== src/Ledger/Order.antt =====
-- The order of the lots of a queue: by the time at which they were opened.
use maais.Base.{
  ◌≡◌, refl, false, not, ◌||◌, str_eq, eq_iff, Bool-cases, inl, inr, ◌⊎◌, List, [], ◌∷◌, All,
  Ensures, String, arith,
}
use maais.Decimal.{zero_decimal, le}
use maais.Domain.{before}
use maais.Ledger.{LotData, Lots, Opening, lot_of, queue_at, insert_lot, sort_lots, open_lot}
use maais.Ledger.Close.{same_key, queue_at-set_queue, queue_at-set_queue_other}

-- No lot was opened before one that stands in front of it.
abbrev pub IsOrdered : List LotData → Type 0
IsOrdered [] = Unit
IsOrdered (first ∷ rest) =
    All (λ lot. before lot.opened_at first.opened_at ≡ false) rest × IsOrdered rest

All-insert :
    (P : LotData → Type 0) (lot : LotData) (lots : List LotData)
    → P lot
    → All P lots
    → All P (insert_lot lot lots)
unfolding insert_lot
All-insert P lot [] h g = (h, tt)
All-insert P lot (first ∷ rest) h g = elim (Bool-cases (before first.opened_at lot.opened_at)) [
  | inl later ↦ rw later (g.0, All-insert P lot rest h g.1)
  | inr here ↦ rw here (h, g)
]

not_before_trans :
    (lot first : LotData) (rest : List LotData)
    → before first.opened_at lot.opened_at ≡ false
    → All (λ l. before l.opened_at first.opened_at ≡ false) rest
    → All (λ l. before l.opened_at lot.opened_at ≡ false) rest
not_before_trans lot first [] h g = tt
not_before_trans lot first (l ∷ rest) h g =
    (ground (arith, h, g.0), not_before_trans lot first rest h g.1)

insert-IsOrdered :
    (lot : LotData) (lots : List LotData) → IsOrdered lots → IsOrdered (insert_lot lot lots)
unfolding insert_lot
insert-IsOrdered lot [] h = (tt, tt)
insert-IsOrdered lot (first ∷ rest) h = elim (Bool-cases (before first.opened_at lot.opened_at)) [
  | inl later ↦ rw later (
    All-insert (λ l. before l.opened_at first.opened_at ≡ false) lot rest (ground (arith, later))
        h.0,
    insert-IsOrdered lot rest h.1,
  )
  | inr here ↦ rw here ((here, not_before_trans lot first rest here h.0), h)
]

sort-IsOrdered : (lots : List LotData) → IsOrdered (sort_lots lots)
unfolding sort_lots
sort-IsOrdered [] = tt
sort-IsOrdered (lot ∷ lots) = insert-IsOrdered lot (sort_lots lots) (sort-IsOrdered lots)

-- A sorted queue is left as it is by another sort.
insert_first :
    (lot : LotData) (lots : List LotData)
    → All (λ l. before l.opened_at lot.opened_at ≡ false) lots
    → insert_lot lot lots ≡ lot ∷ lots
unfolding insert_lot
insert_first lot [] h = refl
insert_first lot (first ∷ rest) h = rw h.0 refl

sort_ordered : (lots : List LotData) → IsOrdered lots → sort_lots lots ≡ lots
unfolding sort_lots
sort_ordered [] h = refl
sort_ordered (lot ∷ lots) h = rw (sort_ordered lots h.1) (insert_first lot lots h.0)

-- What opening a lot does: its queue stays ordered and gains the lot, in front of the lots that were
-- not opened before it; other assets and sides are kept.
pub record OpenedAt (state : Lots) (o : Opening) (r : Lots) : Type 0 where
  pub ordered : IsOrdered (queue_at o.asset o.side r)
  pub placed : queue_at o.asset o.side r ≡ insert_lot (lot_of o) (queue_at o.asset o.side state)
  pub others_kept :
      (asset side : String)
      → same_key o.asset o.side asset side ≡ false
      → queue_at asset side r ≡ queue_at asset side state

abbrev pub IsSide : String → Type 0
IsSide side = (side ≡ "long") ⊎ (side ≡ "short")

known-IsSide :
    (side : String) → IsSide side → not (str_eq side "long" || str_eq side "short") ≡ false
known-IsSide side h = ground (arith, eq_iff side "long", eq_iff side "short")

-- Opening a lot of positive size, long or short, on a queue ordered by opening time returns: the queue
-- stays ordered, the lot stands behind those opened before it and in front of all others, those of
-- the same time included, and the lots of other assets and sides are kept.
pub open_lot-OpenedAt :
    (state : Lots) (o : Opening)
    → IsSide o.side
    → le o.size zero_decimal ≡ false
    → IsOrdered (queue_at o.asset o.side state)
    → Ensures (OpenedAt state o) (open_lot state o)
unfolding open_lot
open_lot-OpenedAt state o side size ordered =
    let queue = insert_lot (lot_of o) (queue_at o.asset o.side state) in
    let same = queue_at-set_queue o.asset o.side queue state in
    rw (known-IsSide o.side side, size, sort_ordered (queue_at o.asset o.side state) ordered)
      (record {
        ordered = rw same (insert-IsOrdered (lot_of o) (queue_at o.asset o.side state) ordered);
        placed = same;
        others_kept =
            λ asset s other. queue_at-set_queue_other o.asset o.side asset s queue state other;
      })
