-- ===== src/Broker/Steps.antt =====
-- What the calls that the broker composes give it.
use maais.Base.{
  ℕ, ◌≡◌, true, Option, none, some, List, ok, raise_if, or_raise, returned, ok-injective,
  fill_rejection, arith, ap, sym, subst, ◌∙◌, ltb, ◌-◌,
}
use maais.Decimal.{Decimal, zero_decimal}
use maais.Decimal.Grid.{IsExact}
use maais.Decimal.Rounding.{add_zero}
use maais.Domain.{Datetime, filled, accepted, before}
use maais.Market.{BookSnapshot}
use maais.Orders
use maais.Orders.{PaperOrder, OrderRequest, authorize, accept}
use maais.Fills.{
  MarketFillRequest, PaperFill, make_request, make_fill, fill, fill_from, eligible_book,
}
use maais.Fills.Book.{eligible_book-Chosen, Chosen}
use maais.Broker.Commands.{placed_order, market_fill}

-- A placed order is accepted, unfilled, and has the terms of its request.
pub record Placed (r : OrderRequest) (o : PaperOrder) : Type 0 where
  pub accepted_now : o.status ≡ accepted
  pub unfilled : o.filled_quantity ≡ zero_decimal
  pub same_quantity : o.quantity ≡ r.quantity
  pub same_symbol : o.symbol ≡ r.symbol
  pub same_id : o.order_id ≡ r.order_id
  pub same_experiment : o.experiment_id ≡ r.experiment_id
  pub same_side : o.side ≡ r.side
  pub same_reduce_only : o.reduce_only ≡ r.reduce_only
  pub same_expiry : o.expires_at ≡ r.expires_at

pub placed_order-Placed :
    (r : OrderRequest) (at : Datetime) {o : PaperOrder} → placed_order r at ≡ ok o → Placed r o
unfolding placed_order Orders.create authorize accept
placed_order-Placed r at h = ground (arith, h)

-- A fill of the whole quantity completes a placed order.
pub apply_fill-whole :
    (r : OrderRequest) (o : PaperOrder) (at : Datetime) {o' : PaperOrder}
    → Placed r o
    → IsExact o.quantity
    → Orders.apply_fill o o.quantity at ≡ ok o'
    → (o'.status ≡ filled)
      × (o'.filled_quantity ≡ o'.quantity)
      × (o'.quantity ≡ o.quantity)
      × (o'.symbol ≡ o.symbol)
      × (o'.side ≡ o.side)
      × (o'.reduce_only ≡ o.reduce_only)
unfolding Orders.apply_fill
apply_fill-whole r o at placed exact h = ground (arith, h, add_zero o.quantity exact)

-- The order that such a fill leaves.
pub record Completed (r : OrderRequest) (o : PaperOrder) : Type 0 where
  pub complete : o.status ≡ filled
  pub whole_quantity : o.filled_quantity ≡ r.quantity
  pub same_symbol : o.symbol ≡ r.symbol
  pub same_side : o.side ≡ r.side
  pub same_reduce_only : o.reduce_only ≡ r.reduce_only

pub apply_fill-Completed :
    (r : OrderRequest) (o : PaperOrder) (q : Decimal) (at : Datetime) {o' : PaperOrder}
    → Placed r o
    → IsExact r.quantity
    → q ≡ r.quantity
    → Orders.apply_fill o q at ≡ ok o'
    → Completed r o'
apply_fill-Completed r o q at {o'} placed exact same h =
    let whole =
      subst (λ (x : Decimal). Orders.apply_fill o x at ≡ ok o') (same ∙ sym placed.same_quantity)
        h in
    let (s, f, q', y, d, u) =
      apply_fill-whole r o at placed (subst IsExact (sym placed.same_quantity) exact) whole in
    record {
      complete = s;
      whole_quantity = f ∙ q' ∙ placed.same_quantity;
      same_symbol = y ∙ placed.same_symbol;
      same_side = d ∙ placed.same_side;
      same_reduce_only = u ∙ placed.same_reduce_only;
    }

-- A market fill is of the whole request, in its symbol and on its side, at a book that was observed
-- after the request became eligible.
pub record FilledBy (r : MarketFillRequest) (books : List BookSnapshot) (f : PaperFill)
    : Type 0 where
  pub whole_quantity : f.quantity ≡ r.quantity
  pub same_symbol : f.symbol ≡ r.symbol
  pub same_side : f.side ≡ r.side
  pub at_book_time : f.fill_at ≡ f.book.observed_at
  pub chosen : eligible_book r books ≡ some f.book
  pub eligible : before r.eligible_after f.fill_at ≡ true

fill_from-book :
    (r : MarketFillRequest) (b : BookSnapshot) {f : PaperFill}
    → fill_from r b ≡ ok f
    → (f.quantity ≡ r.quantity)
      × (f.symbol ≡ r.symbol)
      × (f.side ≡ r.side)
      × (f.fill_at ≡ b.observed_at)
      × (f.book ≡ b)
unfolding fill_from make_fill
fill_from-book r b h = ground (arith, h)

chosen_book :
    (x : Option BookSnapshot) {b : BookSnapshot}
    → or_raise x (fill_rejection "no_eligible_book" none) ≡ ok b
    → x ≡ some b
chosen_book none h = cc
chosen_book (some c) h = ap some (ok-injective h)

eligible_after :
    (r : MarketFillRequest) (books : List BookSnapshot) (b : BookSnapshot)
    → eligible_book r books ≡ some b
    → before r.eligible_after b.observed_at ≡ true
eligible_after r books b h =
    let found : Chosen r books (some b) = subst (Chosen r books) h (eligible_book-Chosen r books) in
    ground (arith, found.1)

fill-FilledBy :
    (age : ℕ) (r : MarketFillRequest) (books : List BookSnapshot) {f : PaperFill}
    → fill age r books ≡ ok f
    → FilledBy r books f
unfolding fill
fill-FilledBy age r books {f} h =
    let (b, listed, h1) =
      returned (or_raise (eligible_book r books) (fill_rejection "no_eligible_book" none)) _ h in
    let (u, fresh, h2) =
      returned
        (raise_if (ltb age (b.observed_at.micros - b.venue_event_at.micros))
          (fill_rejection "stale_book" (some b.event_id)))
        _ h1 in
    let found = chosen_book (eligible_book r books) listed in
    let (q, s, d, t, k) = fill_from-book r b h2 in
    record {
      whole_quantity = q;
      same_symbol = s;
      same_side = d;
      at_book_time = t ∙ ap (λ (c : BookSnapshot). c.observed_at) (sym k);
      chosen = found ∙ ap some (sym k);
      eligible =
          subst (λ (x : Datetime). before r.eligible_after x ≡ true) (sym t)
            (eligible_after r books b found);
    }

make_request-same : (r : MarketFillRequest) {q : MarketFillRequest} → make_request r ≡ ok q → q ≡ r
unfolding make_request
make_request-same r h = ground (arith, h)

pub market_fill-FilledBy :
    (age : ℕ) (r : MarketFillRequest) (books : List BookSnapshot) {f : PaperFill}
    → market_fill age r books ≡ ok f
    → FilledBy r books f
unfolding market_fill
market_fill-FilledBy age r books {f} h =
    let (q, made, h1) = returned (make_request r) _ h in
    subst (λ (x : MarketFillRequest). FilledBy x books f) (make_request-same r made)
      (fill-FilledBy age q books h1)
