-- ===== src/Orders/Moves.antt =====
-- What one call does to a paper order, whatever its quantities are.
use maais.Base.{
  if◌then◌else◌, ◌+◌, ◌≡◌, refl, List, [], ◌∷◌, ◌++◌, Result, ok, err, arith, true, false,
}
use maais.Decimal.{add, eq}
use maais.Domain.{PaperOrderStatus, created, filled, canceled, rejected, expired, Datetime}
use maais.Orders.{
  PaperOrder, EventBody, order_authorized, order_accepted, order_canceled, order_expired,
  order_rejected, order_filled, order_partially_filled, is_terminal, authorize, accept, apply_fill,
  cancel, expire, reject,
}
use maais.Orders.Calls.{
  Call, authorizes, accepts, cancels, expires, fills, rejects, perform, perform_all, after,
  can_move,
}

-- The event that records a call, and its time.
abbrev pub body_of : PaperOrder → Call → EventBody
body_of o (authorizes at) = order_authorized
body_of o (accepts at) = order_accepted
body_of o (cancels at) = order_canceled
body_of o (expires at) = order_expired
body_of o (rejects at reason) = order_rejected reason
body_of o (fills q at) =
    let cumulative = add o.filled_quantity q in
    if eq cumulative o.quantity
    then order_filled q cumulative
    else order_partially_filled q cumulative

abbrev pub time_of : Call → Datetime
time_of (authorizes at) = at
time_of (accepts at) = at
time_of (cancels at) = at
time_of (expires at) = at
time_of (rejects at reason) = at
time_of (fills q at) = at

-- What a call leaves of an order: all that its creation fixed stays, its version grows by one, and one event with
-- that number is appended.
pub record Appends (o : PaperOrder) (c : Call) (o' : PaperOrder) : Type 0 where
  pub appended :
      o'.events
      ≡ o.events
        ++ record { sequence = o.version + 1; event_at = time_of c; body = body_of o c } ∷ []
  pub next_version : o'.version ≡ o.version + 1
  pub same_order : o'.order_id ≡ o.order_id
  pub same_symbol : o'.symbol ≡ o.symbol
  pub same_side : o'.side ≡ o.side
  pub same_quantity : o'.quantity ≡ o.quantity
  pub same_price : o'.limit_price ≡ o.limit_price
  pub same_reduce_only : o'.reduce_only ≡ o.reduce_only
  pub same_experiment_id : o'.experiment_id ≡ o.experiment_id
  pub same_proposal_id : o'.proposal_id ≡ o.proposal_id
  pub same_client_order_id : o'.client_order_id ≡ o.client_order_id
  pub same_command_hash : o'.command_hash ≡ o.command_hash
  pub same_order_type : o'.order_type ≡ o.order_type
  pub same_position_effect : o'.position_effect ≡ o.position_effect
  pub same_created_at : o'.created_at ≡ o.created_at
  pub same_expires_at : o'.expires_at ≡ o.expires_at

-- A call that returns follows an arrow of the state machine: created, authorized, accepted, then
-- partial fills and the fill, and from each of these to canceled, rejected or expired.
pub perform-can_move :
    (o : PaperOrder) (c : Call) {o' : PaperOrder}
    → perform o c ≡ ok o'
    → can_move o.status o'.status ≡ true
unfolding perform authorize accept apply_fill cancel expire reject
perform-can_move o (authorizes at) e = ground arith
perform-can_move o (accepts at) e = ground arith
perform-can_move o (fills q at) e = ground arith
perform-can_move o (cancels at) e = ground arith
perform-can_move o (expires at) e = ground arith
perform-can_move o (rejects at reason) e = ground arith

-- A call that returns keeps every field of the order but its filled quantity, its status, its version
-- and its events; it appends one event, numbered by the new version, which grows by one.
pub perform-Appends :
    (o : PaperOrder) (c : Call) {o' : PaperOrder} → perform o c ≡ ok o' → Appends o c o'
unfolding perform authorize accept apply_fill cancel expire reject
perform-Appends o (authorizes at) e = ground arith
perform-Appends o (fills q at) e = ground arith
perform-Appends o _ e = ground arith

not-can_move_terminal : (s t : PaperOrderStatus) → is_terminal s ≡ true → can_move s t ≡ false
not-can_move_terminal filled t h = refl
not-can_move_terminal canceled t h = refl
not-can_move_terminal rejected t h = refl
not-can_move_terminal expired t h = refl
not-can_move_terminal created t h = cc
not-can_move_terminal _ t h = cc

-- A filled, canceled, rejected or expired order refuses every call, so no later history changes it.
pub perform_all-terminal :
    (o : PaperOrder) (cs : List Call) → is_terminal o.status ≡ true → perform_all o cs ≡ o
unfolding perform_all
perform_all-terminal o [] h = refl
perform_all-terminal o (c ∷ cs) h = step (perform o c) refl (perform_all-terminal o cs h)
  where
    step :
        (r : Result PaperOrder)
        → perform o c ≡ r
        → perform_all o cs ≡ o
        → perform_all (after o r) cs ≡ o
    step (ok o') e rest = cc (perform-can_move o c e, not-can_move_terminal o.status o'.status h)
    step (err x) e rest = rest
