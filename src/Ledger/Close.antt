-- ===== src/Ledger/Close.antt =====
-- What closing does to the ledger: the queue of its asset and side, and no other.
use maais.Base.{
  ℕ, ◌+◌, ◌-◌, ◌≤◌, ◌<◌, ◌≡◌, refl, Bool, true, false, ◌&&◌, if◌then◌else◌, Bool-cases, inl, inr,
  List, [], ◌∷◌, map, foldl, Result, ok, err, Ensures, ◌>>=◌, value_error, String, str_eq, eq_iff,
  is_nil, arith, ap, subst, sym, ◌∙◌, ltb,
}
use maais.Decimal.{Decimal, max_coefficient, add, lt, sum}
use maais.Decimal.Grid.{units, add-units, lt-units, units-zero}
use maais.Fills.Walk.{visible, shares}
use maais.Ledger.{
  LotData, TradeRecordData, Lots, Closing, queue_at, set_queue, close_loop, rounds, open_size,
  close_position, get_open_size,
}
use maais.Ledger.Queue.{Held, Recorded, Closed, leftover, visible-leftover, close_loop-Closed}

abbrev pub same_key : (asset side asset' side' : String) → Bool
same_key asset side asset' side' = str_eq asset asset' && str_eq side side'

pub queue_at-set_queue :
    (asset side : String) (queue : List LotData) (state : Lots)
    → queue_at asset side (set_queue asset side queue state) ≡ queue
unfolding queue_at set_queue
queue_at-set_queue asset side queue [] = ground (arith, eq_iff asset asset, eq_iff side side)
queue_at-set_queue asset side queue ((key, old) ∷ rest) =
    elim (Bool-cases (str_eq key.0 asset && str_eq key.1 side)) [
      | inl here ↦ rw (here, here) refl
      | inr later ↦ rw (later, later) (queue_at-set_queue asset side queue rest)
    ]

other_key :
    (x y asset side asset' side' : String)
    → same_key x y asset side ≡ true
    → same_key asset side asset' side' ≡ false
    → same_key x y asset' side' ≡ false
other_key x y asset side asset' side' here other = ground (arith, eq_iff x asset, eq_iff y side)

pub queue_at-set_queue_other :
    (asset side asset' side' : String) (queue : List LotData) (state : Lots)
    → same_key asset side asset' side' ≡ false
    → queue_at asset' side' (set_queue asset side queue state) ≡ queue_at asset' side' state
unfolding queue_at set_queue
queue_at-set_queue_other asset side asset' side' queue [] h = rw h refl
queue_at-set_queue_other asset side asset' side' queue ((key, old) ∷ rest) h =
    elim (Bool-cases (same_key key.0 key.1 asset side)) [
      | inl here ↦ rw (here, other_key key.0 key.1 asset side asset' side' here h) refl
      | inr later ↦ rw later (
          ap (λ (q : List LotData). if same_key key.0 key.1 asset' side' then old else q)
            (queue_at-set_queue_other asset side asset' side' queue rest h))
    ]

sum_from-Held :
    (k a : ℕ) (lots : List LotData) (ns : List ℕ)
    → Held k lots ns
    → a + visible ns ≤ max_coefficient
    → foldl add (units k a) (map (λ lot. lot.remaining_size) lots) ≡ units k (a + visible ns)
unfolding visible
sum_from-Held k a [] [] h small = ap (units k) (omega arith)
sum_from-Held k a (lot ∷ lots) (n ∷ ns) h small =
    rw (h.0, add-units k a n (omega arith))
      (sum_from-Held k (a + n) lots ns h.2 (omega arith) ∙ ap (units k) (omega arith))
sum_from-Held k a [] (m ∷ ns) h small = absurd h
sum_from-Held k a (l ∷ lots) [] h small = absurd h

open_size-Held :
    (k : ℕ) (lots : List LotData) (ns : List ℕ)
    → Held k lots ns
    → visible ns ≤ max_coefficient
    → open_size lots ≡ units k (visible ns)
unfolding sum
open_size-Held k lots ns h small =
    subst
      (λ (z : Decimal). foldl add z (map (λ lot. lot.remaining_size) lots) ≡ units k (visible ns))
      (units-zero k) (sum_from-Held k 0 lots ns h (omega arith) ∙ ap (units k) (omega arith))

too_much-Held :
    (k q : ℕ) (ns : List ℕ) (lots : List LotData) (size : Decimal)
    → Held k lots ns
    → visible ns ≤ max_coefficient
    → size ≡ units k q
    → lt (open_size lots) size ≡ ltb (visible ns) q
too_much-Held k q ns lots size h small e =
    rw (open_size-Held k lots ns h small, e) (lt-units k (visible ns) q)

-- What closing `q` steps does: one record for each lot that was taken from, oldest first, with what
-- was taken; the lots keep the rest; the open size falls by `q`; other assets and sides are kept.
pub record ClosedAt (k q : ℕ) (ns : List ℕ) (state : Lots) (c : Closing)
    (r : List TradeRecordData × Lots) : Type 0 where
  pub recorded : Recorded k (queue_at c.asset c.side state) r.0 (shares q ns)
  pub held : Held k (queue_at c.asset c.side r.1) (leftover q ns)
  pub still_open : get_open_size r.1 c.asset c.side ≡ units k (visible ns - q)
  pub others_kept :
      (asset side : String)
      → same_key c.asset c.side asset side ≡ false
      → queue_at asset side r.1 ≡ queue_at asset side state

-- The state after the loop.
abbrev stored : Lots → Closing → List TradeRecordData × List LotData → List TradeRecordData × Lots
stored state c x = (x.0, set_queue c.asset c.side x.1 state)

stored-ClosedAt :
    (k q : ℕ) (ns : List ℕ) (state : Lots) (c : Closing)
    (r : Result (List TradeRecordData × List LotData))
    → visible ns ≤ max_coefficient
    → q ≤ visible ns
    → Ensures (Closed k q (queue_at c.asset c.side state) ns) r
    → Ensures (ClosedAt k q ns state c) (r >>= λ x. ok (stored state c x))
unfolding get_open_size
stored-ClosedAt k q ns state c (ok x) small enough h =
    let same = queue_at-set_queue c.asset c.side x.1 state in
    record {
      recorded = h.0;
      held = rw same h.1;
      still_open = rw same (
          open_size-Held k x.1 (leftover q ns) h.1 (omega (arith, visible-leftover q ns enough))
          ∙ ap (units k) (visible-leftover q ns enough));
      others_kept =
          λ asset side other. queue_at-set_queue_other c.asset c.side asset side x.1 state other;
    }
stored-ClosedAt k q ns state c (err e) small enough h = absurd h

-- When the lots of an asset and side are on the grid, none opened empty, closing a size of at most what
-- they hold returns: it makes one record for each lot taken from, oldest first, with the lot's id,
-- entry price and the size taken; the open size falls by the size closed, and the lots of other
-- assets and sides are kept.
pub close_position-ClosedAt :
    (new_id : ℕ → String) (k q : ℕ) (ns : List ℕ) (state : Lots) (c : Closing)
    → Held k (queue_at c.asset c.side state) ns
    → is_nil (queue_at c.asset c.side state) ≡ false
    → visible ns ≤ max_coefficient
    → c.close_size ≡ units k q
    → q ≤ visible ns
    → Ensures (ClosedAt k q ns state c) (close_position new_id state c)
unfolding close_position
close_position-ClosedAt new_id k q ns state c held some_lots small size enough =
    rw
      (
        some_lots,
        too_much-Held k q ns (queue_at c.asset c.side state) c.close_size held small size,
        within,
      )
      (stored-ClosedAt k q ns state c _ small enough (
        subst
          (λ (z : Decimal). Ensures (Closed k q (queue_at c.asset c.side state) ns) (
            close_loop new_id c (rounds (queue_at c.asset c.side state)) 0 z
              (queue_at c.asset c.side state)))
          (sym size)
          (close_loop-Closed new_id c k q 0 (queue_at c.asset c.side state) ns held small
            (omega arith))))
  where
    within : ltb (visible ns) q ≡ false
    within = ground (arith, enough)

-- When the lots of an asset and side are on the grid, a size beyond what they hold is refused.
pub close_position-too_much :
    (new_id : ℕ → String) (k q : ℕ) (ns : List ℕ) (state : Lots) (c : Closing)
    → Held k (queue_at c.asset c.side state) ns
    → is_nil (queue_at c.asset c.side state) ≡ false
    → visible ns ≤ max_coefficient
    → c.close_size ≡ units k q
    → visible ns < q
    → close_position new_id state c ≡ err (value_error "Cannot close: not enough available")
unfolding close_position
close_position-too_much new_id k q ns state c held some_lots small size more =
    rw
      (
        some_lots,
        too_much-Held k q ns (queue_at c.asset c.side state) c.close_size held small size,
        beyond,
      )
      refl
  where
    beyond : ltb (visible ns) q ≡ true
    beyond = ground (arith, more)
