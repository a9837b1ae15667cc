-- ===== src/Orders/History.antt =====
-- Every history of calls on a paper order, from its creation.
use maais.Base.{
  ℕ, ◌+◌, ◌≤◌, ◌<◌, ◌≡◌, refl, List, [], ◌∷◌, ◌++◌, Result, ok, err, arith, All, false, ◌∙◌, subst,
  sym, String,
}
use maais.Decimal.{max_coefficient, zero_decimal, le}
use maais.Decimal.Grid.{units, units-zero, le_zero-units}
use maais.Domain.{
  PaperOrderStatus, Datetime, created, authorized, accepted, partially_filled, filled, canceled,
  rejected, expired,
}
use maais.Orders.{
  PaperOrder, EventBody, OrderRequest, create, transition, is_terminal, authorize, accept, cancel,
  expire, reject, order_created, order_authorized, order_accepted, order_canceled, order_expired,
  order_rejected,
}
use maais.Orders.Calls.{
  Call, authorizes, accepts, cancels, expires, fills, rejects, perform, perform_all, after,
}
use maais.Orders.Invariant.{
  IsValid, Stage, OnGrid, replay, replay_body, advance-IsValid, fill-IsValid,
}

-- An order that is not terminal has room left.
pub lt_of_Stage :
    (s : PaperOrderStatus) (total done : ℕ)
    → 0 < total
    → is_terminal s ≡ false
    → Stage s total done
    → done < total
lt_of_Stage created total done p h g = omega arith
lt_of_Stage authorized total done p h g = omega arith
lt_of_Stage accepted total done p h g = omega arith
lt_of_Stage partially_filled total done p h g = g.1
lt_of_Stage filled total done p h g = cc
lt_of_Stage canceled total done p h g = cc
lt_of_Stage rejected total done p h g = cc
lt_of_Stage expired total done p h g = cc

module _ (o : PaperOrder) (at : Datetime) {o' : PaperOrder} where
  authorize_moves :
      authorize o at ≡ ok o'
      → (o.status ≡ created) × (transition o authorized order_authorized at ≡ ok o')
  unfolding authorize
  authorize_moves e = ground arith

  accept_moves :
      accept o at ≡ ok o'
      → (o.status ≡ authorized) × (transition o accepted order_accepted at ≡ ok o')
  unfolding accept
  accept_moves e = ground arith

  reject_moves :
      (reason : String)
      → reject o at reason ≡ ok o'
      → transition o rejected (order_rejected reason) at ≡ ok o'
  unfolding reject
  reject_moves reason e = ground arith

  cancel_moves : cancel o at ≡ ok o' → transition o canceled order_canceled at ≡ ok o'
  unfolding cancel
  cancel_moves e = e

  expire_moves : expire o at ≡ ok o' → transition o expired order_expired at ≡ ok o'
  unfolding expire
  expire_moves e = e

  transition_open :
      (s : PaperOrderStatus) (body : EventBody)
      → transition o s body at ≡ ok o'
      → is_terminal o.status ≡ false
  unfolding transition
  transition_open s body e = ground arith

module _ (k total done : ℕ) (o : PaperOrder) (v : IsValid k total done o) where
  transition-IsValid :
      (s : PaperOrderStatus) (body : EventBody) (at : Datetime) {o' : PaperOrder}
      → Stage s total done
      → replay_body (o.status, o.filled_quantity) body ≡ (s, o.filled_quantity)
      → transition o s body at ≡ ok o'
      → IsValid k total done o'
  unfolding transition
  transition-IsValid s body at {o'} stage move e =
      subst (IsValid k total done) (moved e)
        (advance-IsValid k total done o v s done o.filled_quantity at body stage v.executed move)
    where
      moved :
          transition o s body at ≡ ok o'
          → record o {
            status = s;
            version = o.version + 1;
            events =
                o.events ++ record { sequence = o.version + 1; event_at = at; body = body } ∷ [];
          }
            ≡ o'
      moved h = ground arith

  idle : {x : ℕ} {o' : PaperOrder} → x ≡ 0 → IsValid k total done o' → IsValid k total (done + x) o'
  idle {x = x} {o' = o'} z h = subst (λ (t : ℕ). IsValid k total t o') (omega arith) h

  room :
      (s : PaperOrderStatus) (body : EventBody) (at : Datetime) {o' : PaperOrder}
      → transition o s body at ≡ ok o'
      → done < total
  room s body at e =
      lt_of_Stage o.status total done v.positive (transition_open o at s body e) v.staged

  -- A call that returns keeps the order valid, and fills what it says.
  pub call-IsValid :
      (x : ℕ) (c : Call) {o' : PaperOrder}
      → OnGrid k x c
      → perform o c ≡ ok o'
      → IsValid k total (done + x) o'
  unfolding perform
  call-IsValid x (fills q at) g e = fill-IsValid k total done o v x at (rw (← g) e)
  call-IsValid x (authorizes at) g e =
      let (now, moved) = authorize_moves o at e in
      idle g (transition-IsValid authorized order_authorized at (rw now at v.staged) refl moved)
  call-IsValid x (accepts at) g e =
      let (now, moved) = accept_moves o at e in
      idle g (transition-IsValid accepted order_accepted at (rw now at v.staged) refl moved)
  call-IsValid x (cancels at) g e = idle g (
      transition-IsValid canceled order_canceled at
        (room canceled order_canceled at (cancel_moves o at e)) refl (cancel_moves o at e))
  call-IsValid x (expires at) g e = idle g (
      transition-IsValid expired order_expired at
        (room expired order_expired at (expire_moves o at e)) refl (expire_moves o at e))
  call-IsValid x (rejects at reason) g e =
      let moved = reject_moves o at reason e in
      idle g (
        transition-IsValid rejected (order_rejected reason) at
          (room rejected (order_rejected reason) at moved) refl moved)

create_makes :
    (r : OrderRequest) {o : PaperOrder}
    → create r ≡ ok o
    → (le r.quantity zero_decimal ≡ false)
      × (o.quantity ≡ r.quantity)
      × ((o.filled_quantity ≡ zero_decimal)
          × (o.status ≡ created)
          × (o.version ≡ 1)
          × (o.events
              ≡ record { sequence = 1; event_at = r.created_at; body = order_created } ∷ []))
unfolding create
create_makes r e = ground arith

-- A new order is valid, with nothing filled.
pub create-IsValid :
    (k total : ℕ) (r : OrderRequest) {o : PaperOrder}
    → r.quantity ≡ units k total
    → total ≤ max_coefficient
    → create r ≡ ok o
    → IsValid k total 0 o
unfolding replay
create-IsValid k total r {o} q fits e =
    let (p, quantity, fresh) = create_makes r e in
    let positive = le_zero-units k total in
    record {
      positive = ground arith;
      fits = fits;
      ordered = quantity ∙ q;
      executed = fresh.0 ∙ sym (units-zero k);
      staged = rw (fresh.1);
      numbered = rw (fresh.3) (refl, tt);
      versioned = rw (fresh.2, fresh.3);
      replayed = rw (fresh.0, fresh.1, fresh.3);
    }

-- The fills of a history, in units of the grid.
abbrev pub AllOnGrid : ℕ → List Call → Type 0
AllOnGrid k = All (λ c. (x : ℕ) × OnGrid k x c)

perform_all-IsValid :
    (k total done : ℕ) (o : PaperOrder) (cs : List Call)
    → AllOnGrid k cs
    → IsValid k total done o
    → (done' : ℕ) × IsValid k total done' (perform_all o cs)
unfolding perform_all
perform_all-IsValid k total done o [] g v = (done, v)
perform_all-IsValid k total done o (c ∷ cs) g v =
    step (λ done' o'. perform_all-IsValid k total done' o' cs g.1) (perform o c) refl
  where
    step :
        ((done' : ℕ) (o' : PaperOrder)
          → IsValid k total done' o'
          → (last : ℕ) × IsValid k total last (perform_all o' cs))
        → (r : Result PaperOrder) → perform o c ≡ r
        → (last : ℕ) × IsValid k total last (perform_all (after o r) cs)
    step rest (ok o') e = rest (done + g.0.0) o' (call-IsValid k total done o v g.0.0 c g.0.1 e)
    step rest (err x) e = rest done o v

-- After any calls at all on a new order of `total` steps, whose fills are multiples of the step,
-- what is filled is between nothing and the whole and fits the status: none before a fill, a
-- proper part while partially filled, all of it exactly when filled. The version counts the
-- events, these are numbered from 1 without a gap, and replaying them from the first gives the
-- status and the filled quantity of the order.
pub perform_all-create-IsValid :
    (k total : ℕ) (r : OrderRequest) {o : PaperOrder} (cs : List Call)
    → r.quantity ≡ units k total
    → total ≤ max_coefficient
    → create r ≡ ok o
    → AllOnGrid k cs
    → (done : ℕ) × IsValid k total done (perform_all o cs)
perform_all-create-IsValid k total r {o} cs q fits e g =
    perform_all-IsValid k total 0 o cs g (create-IsValid k total r q fits e)
