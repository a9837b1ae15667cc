-- ===== src/Orders/Invariant.antt =====
-- What holds of a paper order between two calls: its filled quantity fits its status, and its
-- events are numbered from 1 and replay to its state.
use maais.Base.{
  ℕ, sym, ◌∙◌, subst, suc, ◌+◌, ◌-◌, ◌≤◌, ◌<◌, ◌≡◌, refl, inl, inr, List, [], ◌∷◌, ◌++◌, ok, arith,
  ltb, ◌==◌, if◌then◌else◌, length, length-append, true, Bool-cases,
}
use maais.Decimal.{Decimal, max_coefficient, lt, eq, add, sub, zero_decimal}
use maais.Decimal.Grid.{units, add-units, sub-units, lt-units, eq-units, le_zero-units}
use maais.Domain.{
  PaperOrderStatus, created, authorized, accepted, partially_filled, filled, canceled, rejected,
  expired, Datetime,
}
use maais.Orders.{
  PaperOrder, OrderTransition, EventBody, order_created, order_authorized, order_accepted,
  order_filled, order_partially_filled, order_canceled, order_expired, order_rejected, can_fill,
  apply_fill,
}
use maais.Orders.Calls.{Call, fills}

-- How much can be filled in each status, in units of the quantity step.
abbrev pub Stage : PaperOrderStatus → ℕ → ℕ → Type 0
Stage created total done = done ≡ 0
Stage authorized total done = done ≡ 0
Stage accepted total done = done ≡ 0
Stage partially_filled total done = (0 < done) × (done < total)
Stage filled total done = done ≡ total
Stage canceled total done = done < total
Stage rejected total done = done < total
Stage expired total done = done < total

-- The events are numbered one after the other.
abbrev pub Numbered : ℕ → List OrderTransition → Type 0
Numbered n [] = Unit
Numbered n (e ∷ es) = (e.sequence ≡ n) × Numbered (suc n) es

-- The status and the filled quantity that an event leaves.
abbrev pub replay_body : PaperOrderStatus × Decimal → EventBody → PaperOrderStatus × Decimal
replay_body (s, d) order_created = (created, zero_decimal)
replay_body (s, d) order_authorized = (authorized, d)
replay_body (s, d) order_accepted = (accepted, d)
replay_body (s, d) order_canceled = (canceled, d)
replay_body (s, d) order_expired = (expired, d)
replay_body (s, d) (order_filled q cumulative) = (filled, cumulative)
replay_body (s, d) (order_partially_filled q cumulative) = (partially_filled, cumulative)
replay_body (s, d) (order_rejected reason) = (rejected, d)

unfoldable pub replay :
    PaperOrderStatus × Decimal → List OrderTransition → PaperOrderStatus × Decimal
replay s [] = s
replay s (e ∷ es) = replay (replay_body s e.body) es

-- The order is for `total` steps of 10^k quanta, of which `done` are filled.
pub record IsValid (k total done : ℕ) (o : PaperOrder) : Type 0 where
  pub positive : 0 < total
  pub fits : total ≤ max_coefficient
  pub ordered : o.quantity ≡ units k total
  pub executed : o.filled_quantity ≡ units k done
  pub staged : Stage o.status total done
  pub numbered : Numbered 1 o.events
  pub versioned : o.version ≡ length o.events
  pub replayed : replay (created, zero_decimal) o.events ≡ (o.status, o.filled_quantity)

Numbered-append :
    (n : ℕ) (es : List OrderTransition) (e : OrderTransition)
    → Numbered n es
    → e.sequence ≡ n + length es
    → Numbered n (es ++ e ∷ [])
Numbered-append n [] e h q = (omega arith, tt)
Numbered-append n (d ∷ es) e h q = (h.0, Numbered-append (suc n) es e h.1 (omega arith))

replay-append :
    (s : PaperOrderStatus × Decimal) (es : List OrderTransition) (e : OrderTransition)
    → replay s (es ++ e ∷ []) ≡ replay_body (replay s es) e.body
unfolding replay
replay-append s [] e = refl
replay-append s (d ∷ es) e = replay-append (replay_body s d.body) es e

-- The coefficient of a call's fill; other calls fill nothing.
abbrev pub OnGrid : ℕ → ℕ → Call → Type 0
OnGrid k x (fills quantity at) = quantity ≡ units k x
OnGrid k x _ = x ≡ 0

same : {a b : PaperOrder} → ok a ≡ ok b → a ≡ b
same e = cc

pub le_of_Stage : (s : PaperOrderStatus) {total done : ℕ} → Stage s total done → done ≤ total
le_of_Stage created h = omega arith
le_of_Stage authorized h = omega arith
le_of_Stage accepted h = omega arith
le_of_Stage partially_filled h = omega arith
le_of_Stage filled h = omega arith
le_of_Stage canceled h = omega arith
le_of_Stage rejected h = omega arith
le_of_Stage expired h = omega arith

module _ (k total done : ℕ) (o : PaperOrder) (v : IsValid k total done o) where
  -- A move to a status that the new amount fits, with the event that replays to it.
  pub advance-IsValid :
      (s : PaperOrderStatus) (x : ℕ) (d : Decimal) (at : Datetime) (body : EventBody)
      → Stage s total x
      → d ≡ units k x
      → replay_body (o.status, o.filled_quantity) body ≡ (s, d)
      → IsValid k total x (record o {
        status = s;
        version = o.version + 1;
        events = o.events ++ record { sequence = o.version + 1; event_at = at; body = body } ∷ [];
        filled_quantity = d;
      })
  advance-IsValid s x d at body stage amount move = record {
    positive = v.positive;
    fits = v.fits;
    ordered = v.ordered;
    executed = amount;
    staged = stage;
    numbered = Numbered-append 1 o.events _ v.numbered (omega (arith, v.versioned));
    versioned = omega (arith, v.versioned, length-append {0} o.events);
    replayed = rw (replay-append, v.replayed) move;
  }

  pub done_le : done ≤ total
  done_le = le_of_Stage o.status v.staged

  remaining_units : sub o.quantity o.filled_quantity ≡ units k (total - done)
  remaining_units = rw (v.ordered, v.executed) (sub-units k total done done_le v.fits)

  module _ (x : ℕ) (within : x ≤ total - done) where
    filled_units : add o.filled_quantity (units k x) ≡ units k (done + x)
    filled_units = rw v.executed (add-units k done x (omega (arith, v.fits, done_le)))

    complete_units : eq (add o.filled_quantity (units k x)) o.quantity ≡ (done + x == total)
    complete_units = rw (filled_units, v.ordered) (eq-units k (done + x) total)

  too_much : (x : ℕ) → lt (sub o.quantity o.filled_quantity) (units k x) ≡ ltb (total - done) x
  too_much x = rw remaining_units (lt-units k (total - done) x)

  -- The order after a fill of `x` steps.
  filled_with : ℕ → Datetime → PaperOrder
  filled_with x at =
      let complete = done + x == total in
      record o {
        status = if complete then filled else partially_filled;
        version = o.version + 1;
        events =
            o.events
            ++ record {
              sequence = o.version + 1;
              event_at = at;
              body =
                  if complete
                  then order_filled (units k x) (units k (done + x))
                  else order_partially_filled (units k x) (units k (done + x));
            }
              ∷ [];
        filled_quantity = units k (done + x);
      }

  -- A fill within what remains is taken, and its sums are exact.
  fill_taken :
      (x : ℕ) (at : Datetime)
      → can_fill o.status ≡ true
      → at.utc ≡ true
      → 0 < x
      → x ≤ total - done
      → apply_fill o (units k x) at ≡ ok (filled_with x at)
  unfolding apply_fill filled_with
  fill_taken x at able utc p within =
      ground (arith, le_zero-units k x, too_much x, filled_units x within, complete_units x within)

  -- A fill that is taken meets all four conditions.
  fill_needs :
      (x : ℕ) (at : Datetime) {o' : PaperOrder}
      → apply_fill o (units k x) at ≡ ok o'
      → (can_fill o.status ≡ true) × (at.utc ≡ true) × (0 < x) × (x ≤ total - done)
  unfolding apply_fill
  fill_needs x at e = ground (arith, le_zero-units k x, too_much x)

  filled_with-IsValid :
      (x : ℕ) (at : Datetime)
      → 0 < x
      → x ≤ total - done
      → IsValid k total (done + x) (filled_with x at)
  unfolding filled_with
  filled_with-IsValid x at p within = elim (Bool-cases (done + x == total)) [
    | inl last ↦
        rw last
          (advance-IsValid filled (done + x) (units k (done + x)) at _ (ground arith) refl refl)
    | inr more ↦ rw more (
        advance-IsValid partially_filled (done + x) (units k (done + x)) at _
          (omega arith, ground (arith, done_le)) refl refl)
  ]

  pub fill-IsValid :
      (x : ℕ) (at : Datetime) {o' : PaperOrder}
      → apply_fill o (units k x) at ≡ ok o'
      → IsValid k total (done + x) o'
  fill-IsValid x at {o'} e =
      let (able, utc, p, within) = fill_needs x at e in
      subst (IsValid k total (done + x)) (same (sym (fill_taken x at able utc p within) ∙ e))
        (filled_with-IsValid x at p within)
