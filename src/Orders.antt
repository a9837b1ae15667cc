-- ===== src/Orders.antt =====
-- maais/execution/paper/orders.py: the event-sourced state machine of a paper order.
pub mod Calls
pub mod Invariant
pub mod History
pub mod Moves
mod Tests
use maais.Base.{
  text_length, ℕ, ◌+◌, Bool, true, false, not, ◌||◌, Option, none, some, List, [], ◌∷◌, ◌++◌,
  String, is_empty, is_some, if◌then◌else◌, ◌==◌, Result, ok, err, ◌>>=◌, ◌>>◌, raise_if, or_raise,
  value_error, illegal_transition,
}
use maais.Decimal.{Decimal, zero_decimal, lt, le, eq, add, sub}
use maais.Domain.{
  PaperOrderSide, PaperOrderType, PaperOrderStatus, PositionEffect, created, authorized, accepted,
  partially_filled, filled, canceled, rejected, expired, Datetime, is_limit, is_open, at_most,
  require_utc, require_positive_decimal,
}

-- `OrderTransition.event_type` with the payload of that event. The members of the created payload
-- are the order's own fields.
pub data EventBody : Type 0 where
  order_created order_authorized order_accepted order_canceled order_expired : EventBody
  order_filled order_partially_filled : Decimal → Decimal → EventBody
  order_rejected : String → EventBody

pub record OrderTransition : Type 0 where
  pub sequence : ℕ
  pub event_at : Datetime
  pub body : EventBody

pub record PaperOrder : Type 0 where
  pub order_id : ℕ
  pub experiment_id : ℕ
  pub proposal_id : ℕ
  pub client_order_id : String
  pub command_hash : String
  pub symbol : String
  pub side : PaperOrderSide
  pub order_type : PaperOrderType
  pub position_effect : PositionEffect
  pub quantity : Decimal
  pub filled_quantity : Decimal
  pub limit_price : Option Decimal
  pub reduce_only : Bool
  pub status : PaperOrderStatus
  pub created_at : Datetime
  pub expires_at : Datetime
  pub version : ℕ
  pub events : List OrderTransition

-- The keyword arguments of `create`.
pub record OrderRequest : Type 0 where
  pub order_id : ℕ
  pub experiment_id : ℕ
  pub proposal_id : ℕ
  pub client_order_id : String
  pub command_hash : String
  pub symbol : String
  pub side : PaperOrderSide
  pub order_type : PaperOrderType
  pub position_effect : PositionEffect
  pub quantity : Decimal
  pub limit_price : Option Decimal
  pub reduce_only : Bool
  pub open_quantity : Decimal
  pub created_at : Datetime
  pub expires_at : Datetime

-- `status in TERMINAL_ORDER_STATUSES`.
abbrev pub is_terminal : PaperOrderStatus → Bool
is_terminal filled = true
is_terminal canceled = true
is_terminal rejected = true
is_terminal expired = true
is_terminal created = false
is_terminal authorized = false
is_terminal accepted = false
is_terminal partially_filled = false

unfoldable pub remaining_quantity : PaperOrder → Decimal
remaining_quantity o = sub o.quantity o.filled_quantity

-- The checks of a limit price against the order's type.
check_limit_price : PaperOrderType → Option Decimal → Result (Unit {0})
check_limit_price order_type limit_price =
    if is_limit order_type
    then (do
      price ← or_raise limit_price (value_error "limit orders require limit_price")
      require_positive_decimal price "limit_price")
    else raise_if (is_some limit_price) (value_error "non-limit orders cannot have limit_price")

-- The checks of `reduce_only` against the position effect.
check_reduce_only : PositionEffect → Bool → Decimal → Decimal → Result (Unit {0})
check_reduce_only effect reduce_only quantity open_quantity =
    if is_open effect
    then raise_if reduce_only (value_error "open position effect cannot be reduce_only")
    else (do
      raise_if (not reduce_only) (value_error "reduce position effect requires reduce_only")
      raise_if (lt open_quantity quantity)
          (value_error "reduce-only quantity exceeds open quantity"))

unfoldable pub create : OrderRequest → Result PaperOrder
unfolding check_limit_price check_reduce_only
create r = do
  raise_if (is_empty r.client_order_id || is_empty r.symbol)
      (value_error "client_order_id and symbol are required")
  raise_if (not (text_length r.command_hash == 64))
      (value_error "command_hash must be a SHA-256 hex digest")
  require_positive_decimal r.quantity "quantity"
  require_utc r.created_at "created_at"
  require_utc r.expires_at "expires_at"
  raise_if (at_most r.expires_at r.created_at) (value_error "expires_at must follow created_at")
  check_limit_price r.order_type r.limit_price
  check_reduce_only r.position_effect r.reduce_only r.quantity r.open_quantity
  ok (record {
    order_id = r.order_id;
    experiment_id = r.experiment_id;
    proposal_id = r.proposal_id;
    client_order_id = r.client_order_id;
    command_hash = r.command_hash;
    symbol = r.symbol;
    side = r.side;
    order_type = r.order_type;
    position_effect = r.position_effect;
    quantity = r.quantity;
    filled_quantity = zero_decimal;
    limit_price = r.limit_price;
    reduce_only = r.reduce_only;
    status = created;
    created_at = r.created_at;
    expires_at = r.expires_at;
    version = 1;
    events = record { sequence = 1; event_at = r.created_at; body = order_created } ∷ [];
  })

-- `_transition`.
transition : PaperOrder → PaperOrderStatus → EventBody → Datetime → Result PaperOrder
transition o status body event_at = do
  require_utc event_at "event_at"
  raise_if (is_terminal o.status) (illegal_transition "order is terminal")
  ok (record o {
    status = status;
    version = o.version + 1;
    events = o.events ++ record { sequence = o.version + 1; event_at = event_at; body = body } ∷ [];
  })

abbrev is_created : PaperOrderStatus → Bool
is_created created = true
is_created _ = false

abbrev is_authorized : PaperOrderStatus → Bool
is_authorized authorized = true
is_authorized _ = false

abbrev pub can_fill : PaperOrderStatus → Bool
can_fill accepted = true
can_fill partially_filled = true
can_fill _ = false

unfoldable pub authorize : PaperOrder → Datetime → Result PaperOrder
unfolding transition
authorize o event_at = do
  raise_if (not (is_created o.status)) (illegal_transition "only created orders can be authorized")
  transition o authorized order_authorized event_at

unfoldable pub accept : PaperOrder → Datetime → Result PaperOrder
unfolding transition
accept o event_at = do
  raise_if (not (is_authorized o.status))
      (illegal_transition "only authorized orders can be accepted")
  transition o accepted order_accepted event_at

unfoldable pub apply_fill : PaperOrder → Decimal → Datetime → Result PaperOrder
unfolding transition remaining_quantity
apply_fill o quantity event_at = do
  raise_if (not (can_fill o.status)) (illegal_transition "order cannot fill from current status")
  require_positive_decimal quantity "fill quantity"
  raise_if (lt (remaining_quantity o) quantity)
      (value_error "fill quantity exceeds remaining quantity")
  let next_filled = add o.filled_quantity quantity
  let complete = eq next_filled o.quantity
  let next_status = if complete then filled else partially_filled
  let body =
      if complete
      then order_filled quantity next_filled
      else order_partially_filled quantity next_filled
  transitioned ← transition o next_status body event_at
  ok (record transitioned { filled_quantity = next_filled })

unfoldable pub cancel : PaperOrder → Datetime → Result PaperOrder
unfolding transition
cancel o event_at = transition o canceled order_canceled event_at

unfoldable pub expire : PaperOrder → Datetime → Result PaperOrder
unfolding transition
expire o event_at = transition o expired order_expired event_at

unfoldable pub reject : PaperOrder → Datetime → String → Result PaperOrder
unfolding transition
reject o event_at reason = do
  raise_if (is_empty reason) (value_error "rejection reason is required")
  transition o rejected (order_rejected reason) event_at
