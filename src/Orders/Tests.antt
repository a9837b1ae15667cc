-- ===== src/Orders/Tests.antt =====
-- A paper order of ten steps of 0.1, filled in two parts.
use maais.Base.{◌≡◌, refl, none, List, [], ◌∷◌, ok, true, false, arith, ℕ}
use maais.Decimal.{max_coefficient, add, sub}
use maais.Decimal.Grid.{units}
use maais.Domain.{Datetime, buy, market, opens, filled, canceled, created, authorized}
use maais.Orders.{
  OrderRequest, PaperOrder, create, authorize, accept, apply_fill, cancel, order_created,
  order_authorized,
}
use maais.Orders.Calls.{Call, authorizes, accepts, cancels, fills, perform, perform_all, can_move}
use maais.Orders.Invariant.{IsValid}
use maais.Orders.History.{perform_all-create-IsValid}
use maais.Orders.Moves.{Appends, perform-can_move, perform-Appends, perform_all-terminal}

abbrev noon : Datetime
noon = record { micros = 43200000000; utc = true }

abbrev later : Datetime
later = record { micros = 43200000500; utc = true }

abbrev request : OrderRequest
request = record {
  order_id = 1;
  experiment_id = 2;
  proposal_id = 3;
  client_order_id = "paper-1";
  command_hash = "0123456789abcdef0123456789abcdef0123456789abcdef0123456789abcdef";
  symbol = "BTCUSDT";
  side = buy;
  order_type = market;
  position_effect = opens;
  quantity = units 63 10;
  limit_price = none;
  reduce_only = false;
  open_quantity = units 63 0;
  created_at = noon;
  expires_at = later;
}

-- The order that `create` returns.
abbrev new_order : PaperOrder
new_order = record {
  order_id = 1;
  experiment_id = 2;
  proposal_id = 3;
  client_order_id = "paper-1";
  command_hash = "0123456789abcdef0123456789abcdef0123456789abcdef0123456789abcdef";
  symbol = "BTCUSDT";
  side = buy;
  order_type = market;
  position_effect = opens;
  quantity = units 63 10;
  filled_quantity = units 63 0;
  limit_price = none;
  reduce_only = false;
  status = created;
  created_at = noon;
  expires_at = later;
  version = 1;
  events = record { sequence = 1; event_at = noon; body = order_created } ∷ [];
}

create-request : create request ≡ ok new_order
unfolding create units
create-request = refl

abbrev history : List Call
history =
    authorizes noon
    ∷ accepts noon
    ∷ fills (units 63 4) noon
    ∷ fills (units 63 7) noon
    ∷ fills (units 63 6) later
    ∷ cancels later
    ∷ []

-- The second fill is more than what remains, and the cancellation comes too late.
history_fills : let o = perform_all new_order history in (o.status ≡ filled) × (o.version ≡ 5)
unfolding perform_all perform units cancel apply_fill accept authorize sub add
history_fills = (refl, refl)

perform_all-create-IsValid_example : (done : ℕ) × IsValid 63 10 done (perform_all new_order history)
unfolding max_coefficient
perform_all-create-IsValid_example =
    perform_all-create-IsValid 63 10 request history refl (omega arith) create-request
      ((0, refl), ((0, refl), ((4, refl), ((7, refl), ((6, refl), ((0, refl), tt))))))

-- The order once it is authorized.
abbrev authorized_order : PaperOrder
authorized_order = record new_order {
  status = authorized;
  version = 2;
  events =
      record { sequence = 1; event_at = noon; body = order_created }
      ∷ record { sequence = 2; event_at = later; body = order_authorized }
      ∷ [];
}

authorize-new_order : perform new_order (authorizes later) ≡ ok authorized_order
unfolding perform authorize
authorize-new_order = refl

perform-can_move_example : can_move created authorized ≡ true
perform-can_move_example = perform-can_move new_order (authorizes later) authorize-new_order

perform-Appends_example : Appends new_order (authorizes later) authorized_order
perform-Appends_example = perform-Appends new_order (authorizes later) authorize-new_order

abbrev canceled_order : PaperOrder
canceled_order = record new_order { status = canceled; version = 2 }

perform_all-terminal_example : perform_all canceled_order history ≡ canceled_order
perform_all-terminal_example = perform_all-terminal canceled_order history refl
