-- ===== src/LimitQueue/Amounts.antt =====
-- The quantities of a resting limit order, where those of the book and of the trades are multiples
-- of ten steps of the order's grid, so that a tenth of a trade is on the grid.
use Prim.Native.Nat.{min}
use maais.Base.{
  ℕ, suc, ◌+◌, ◌-◌, ◌≤◌, ◌<◌, ◌≡◌, inl, inr, refl, false, not, ◌||◌, str_eq, Bool-cases, if_cases,
  ap, ◌∙◌, List, [], ◌∷◌, arith, if◌then◌else◌, leb, ◌==◌, subst,
}
use maais.Decimal.{max_coefficient, zero_decimal, le, eq, sub, add}
use maais.Decimal.Grid.{
  units, add-units, sub-units, eq-units, le_zero-units, lt_zero-units, min-units, units-zero,
}
use maais.Decimal.Products.{mul-tenth}
use maais.Domain.{at_most, partially_filled, filled, expired}
use maais.Market.{TradePrint}
use maais.Orders.{is_terminal}
use maais.Orders.Invariant.{Stage, le_of_Stage}
use maais.Orders.History.{lt_of_Stage}
use maais.LimitQueue.{
  LimitFill, LimitQueueState, LimitQueueAdvance, consumed, queue_after, trade_after, fill_quantity,
  take_fill, qualifies, advance_limit_queue, remaining_quantity,
}

-- `total` steps are ordered and `done` of them filled, with `ahead` times ten steps in the queue.
pub record IsValid (k total done ahead : ℕ) (s : LimitQueueState) : Type 0 where
  pub fits : total ≤ max_coefficient
  pub positive : 0 < total
  pub ordered : s.requested_quantity ≡ units k total
  pub executed : s.filled_quantity ≡ units k done
  pub queued : s.queue_ahead ≡ units (suc k) ahead
  pub queue_fits : ahead ≤ max_coefficient
  pub staged : Stage s.status total done

-- The fills of one advance come to `d` steps.
abbrev pub FillsBy : ℕ → ℕ → List LimitFill → Type 0
FillsBy k d [] = d ≡ 0
FillsBy k d (f ∷ []) = f.quantity ≡ units k d
FillsBy k d (f ∷ g ∷ fs) = ⊥

-- What an advance leaves: some more steps filled, by its fills, and a queue that has not grown.
pub record Advanced (k total done ahead : ℕ) (r : LimitQueueAdvance) : Type 0 where
  pub newly : ℕ
  pub still_ahead : ℕ
  pub keeps : IsValid k total (done + newly) still_ahead r.state
  pub by_fills : FillsBy k newly r.fills
  pub shrinks : still_ahead ≤ ahead

module _ (k total done ahead x : ℕ) (s : LimitQueueState) (t : TradePrint)
    (v : IsValid k total done ahead s) (traded : t.quantity ≡ units (suc k) x)
    (fits : x ≤ max_coefficient) (done_le : done ≤ total) where
  consumed-units : consumed s t ≡ units (suc k) (min ahead x)
  unfolding consumed
  consumed-units =
      rw (v.queued, traded, min-units (suc k) ahead x)
        (ground (arith, lt_zero-units (suc k) ahead, units-zero (suc k)))

  queue_rest : sub s.queue_ahead (consumed s t) ≡ units (suc k) (ahead - x)
  queue_rest =
      rw
        (consumed-units, v.queued, sub-units (suc k) ahead (min ahead x) (omega arith) v.queue_fits)
        (ap (units (suc k)) (omega arith))

  trade_rest : sub t.quantity (consumed s t) ≡ units (suc k) (x - ahead)
  trade_rest =
      rw (consumed-units, traded, sub-units (suc k) x (min ahead x) (omega arith) fits)
        (ap (units (suc k)) (omega arith))

  queue_units : queue_after s t ≡ units (suc k) (ahead - x)
  unfolding queue_after
  queue_units = rw (queue_rest, v.queued, lt_zero-units (suc k) ahead) (ground arith)

  trade_units : trade_after s t ≡ units (suc k) (x - ahead)
  unfolding trade_after
  trade_units = rw (trade_rest, v.queued, lt_zero-units (suc k) ahead, traded) (ground arith)

  fill_units : fill_quantity s t ≡ units k (min (total - done) (x - ahead))
  unfolding fill_quantity remaining_quantity
  fill_units =
      rw
        (
          trade_units,
          v.ordered,
          v.executed,
          mul-tenth k (x - ahead) (omega (arith, fits)),
          sub-units k total done done_le v.fits,
        )
        (min-units k (total - done) (x - ahead))

  -- The steps that the trade can fill.
  share : ℕ
  share = min (total - done) (x - ahead)

  no_fill : le (fill_quantity s t) zero_decimal ≡ leb share 0
  unfolding share
  no_fill = rw fill_units (le_zero-units k (min (total - done) (x - ahead)))

  sum_units : add s.filled_quantity (fill_quantity s t) ≡ units k (done + share)
  unfolding share
  sum_units =
      rw (fill_units, v.executed)
        (add-units k done (min (total - done) (x - ahead)) (omega (arith, v.fits, done_le)))

  complete_units :
      eq (add s.filled_quantity (fill_quantity s t)) s.requested_quantity ≡ (done + share == total)
  complete_units = rw (sum_units, v.ordered) (eq-units k (done + share) total)

  share-le : share ≤ total - done
  unfolding share
  share-le = omega arith

  fill-Stage :
      0 < share
      → Stage (if done + share == total then filled else partially_filled) total (done + share)
  fill-Stage h = ground (arith, share-le, done_le)

  take_fill-IsValid : IsValid k total (done + share) (ahead - x) (take_fill s t).state
  unfolding take_fill
  take_fill-IsValid = elim (Bool-cases (leb share 0)) [
    | inl none_left ↦
        rw (no_fill, none_left)
          (record {
            fits = v.fits;
            positive = v.positive;
            ordered = v.ordered;
            executed = v.executed ∙ ap (units k) (ground arith);
            queued = queue_units;
            queue_fits = omega (arith, v.queue_fits);
            staged = subst (Stage s.status total) (ground arith) v.staged;
          })
    | inr some_left ↦
        rw (no_fill, some_left)
          (record {
            fits = v.fits;
            positive = v.positive;
            ordered = v.ordered;
            executed = sum_units;
            queued = queue_units;
            queue_fits = omega (arith, v.queue_fits);
            staged = rw complete_units (fill-Stage (ground arith));
          })
  ]

  take_fill-FillsBy : FillsBy k share (take_fill s t).fills
  unfolding take_fill share
  take_fill-FillsBy = elim (Bool-cases (leb share 0)) [
    | inl none_left ↦ rw (no_fill, none_left) (ground arith)
    | inr some_left ↦ rw (no_fill, some_left) fill_units
  ]

  take_fill-Advanced : Advanced k total done ahead (take_fill s t)
  take_fill-Advanced = record {
    newly = share;
    still_ahead = ahead - x;
    keeps = take_fill-IsValid;
    by_fills = take_fill-FillsBy;
    shrinks = omega arith;
  }

-- One observed trade keeps the order valid.
pub advance-Advanced :
    (k total done ahead x : ℕ) (s : LimitQueueState) (t : TradePrint)
    → IsValid k total done ahead s
    → t.quantity ≡ units (suc k) x
    → x ≤ max_coefficient
    → Advanced k total done ahead (advance_limit_queue s t)
unfolding advance_limit_queue
advance-Advanced k total done ahead x s t v traded fits =
    if_cases (Advanced k total done ahead) (is_terminal s.status) (λ _. quiet)
      λ open_now.
        if_cases (Advanced k total done ahead) (not (str_eq t.symbol s.symbol)) (λ _. quiet)
          λ _.
            if_cases (Advanced k total done ahead) (at_most s.expires_at t.observed_at)
              (λ _. over open_now)
              λ _.
                if_cases (Advanced k total done ahead)
                  (at_most t.observed_at s.eligible_after || leb t.sequence s.last_sequence)
                  (λ _. quiet)
                  λ _.
                    if_cases (Advanced k total done ahead) (not (qualifies s t)) (λ _. seen)
                      λ _.
                        take_fill-Advanced k total done ahead x s t v traded fits
                          (le_of_Stage s.status v.staged)
  where
    still : IsValid k total (done + 0) ahead s
    still = subst (λ (n : ℕ). IsValid k total n ahead s) (omega arith) v

    unfilled :
        {u : LimitQueueState}
        → IsValid k total (done + 0) ahead u
        → Advanced k total done ahead (record { state = u; fills = [] })
    unfilled h = record {
      newly = 0;
      still_ahead = ahead;
      keeps = h;
      by_fills = refl;
      shrinks = omega arith;
    }

    quiet : Advanced k total done ahead (record { state = s; fills = [] })
    quiet = unfilled still

    seen :
        Advanced k total done ahead
          (record { state = record s { last_sequence = t.sequence }; fills = [] })
    seen = unfilled (ground arith)

    over :
        is_terminal s.status ≡ false
        → Advanced k total done ahead (record {
          state = record s { status = expired; last_sequence = t.sequence };
          fills = [];
        })
    over h =
        let room = lt_of_Stage s.status total done v.positive h v.staged in unfilled (ground arith)
