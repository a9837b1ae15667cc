-- ===== src/Fills.antt =====
-- maais/execution/paper/fills.py: a market order walks the first eligible book.
pub mod Book
pub mod Walk
mod Tests
use maais.Base.{
  ℕ, ◌-◌, Bool, not, ◌||◌, ◌&&◌, List, [], ◌∷◌, Option, none, some, String, Result, ok, ◌>>=◌, ◌>>◌,
  raise_if, or_raise, value_error, fill_rejection, is_empty, is_nil, keep, str_eq, ltb, ◌==◌,
  if◌then◌else◌, map,
}
use maais.Decimal.{Decimal, zero_decimal, add, sub, mul, div, min, lt, le, eq, sum, whole}
use maais.Domain.{PaperOrderSide, Datetime, is_buy, before, require_utc, require_positive_decimal}
use maais.Market.{BookLevel, BookSnapshot, midpoint, first_price}

pub record MarketFillRequest : Type 0 where
  pub symbol : String
  pub side : PaperOrderSide
  pub quantity : Decimal
  pub eligible_after : Datetime
  pub decision_executable_price : Decimal
  pub taker_fee_rate : Decimal

unfoldable pub make_request : MarketFillRequest → Result MarketFillRequest
make_request r = do
  raise_if (is_empty r.symbol) (value_error "symbol is required")
  require_positive_decimal r.quantity "quantity"
  require_positive_decimal r.decision_executable_price "decision_executable_price"
  raise_if (lt r.taker_fee_rate zero_decimal || lt (whole 1) r.taker_fee_rate)
      (value_error "taker_fee_rate must be a finite Decimal in [0, 1]")
  require_utc r.eligible_after "eligible_after"
  ok r

pub record FillSlice : Type 0 where
  pub price : Decimal
  pub quantity : Decimal

unfoldable pub make_slice : Decimal → Decimal → Result FillSlice
make_slice price quantity = do
  require_positive_decimal price "fill slice price"
  require_positive_decimal quantity "fill slice quantity"
  ok (record { price = price; quantity = quantity })

pub record PaperFill : Type 0 where
  pub market_event_id : String
  pub symbol : String
  pub side : PaperOrderSide
  pub fill_at : Datetime
  pub quantity : Decimal
  pub price : Decimal
  pub notional : Decimal
  pub slices : List FillSlice
  pub liquidity_role : String
  pub fee : Decimal
  pub spread_cost : Decimal
  pub depth_slippage : Decimal
  pub latency_slippage : Decimal
  pub total_slippage : Decimal
  pub book : BookSnapshot

abbrev pub slice_quantity : List FillSlice → Decimal
slice_quantity slices = sum (map (λ s. s.quantity) slices)

-- `sum(item.quantity * item.price ...)`, as the validation of a fill adds it up.
abbrev pub slice_notional : List FillSlice → Decimal
slice_notional slices = sum (map (λ s. mul s.quantity s.price) slices)

unfoldable pub make_fill : PaperFill → Result PaperFill
make_fill f = do
  raise_if (is_empty f.market_event_id || is_empty f.symbol)
      (value_error "market_event_id and symbol are required")
  require_utc f.fill_at "fill_at"
  require_positive_decimal f.quantity "fill quantity"
  require_positive_decimal f.price "fill price"
  require_positive_decimal f.notional "fill notional"
  raise_if (lt f.fee zero_decimal) (value_error "fee must be nonnegative")
  raise_if
      (is_nil f.slices
        || (not (eq (slice_quantity f.slices) f.quantity)
            || not (eq (slice_notional f.slices) f.notional)))
      (value_error "fill slices do not reconcile to quantity and notional")
  raise_if (not (eq f.price (div f.notional f.quantity)))
      (value_error "fill price does not reconcile to notional and quantity")
  raise_if (not (eq f.total_slippage (add (add f.spread_cost f.depth_slippage) f.latency_slippage)))
      (value_error "total slippage does not reconcile to its components")
  raise_if
      (not (str_eq f.book.event_id f.market_event_id)
        || (not (str_eq f.book.symbol f.symbol)
            || not (f.book.observed_at.micros == f.fill_at.micros)))
      (value_error "fill identity differs from its source book")
  ok f

-- `sorted(..., key=lambda book: (book.observed_at, book.sequence))`, which is stable.
abbrev pub book_lt : BookSnapshot → BookSnapshot → Bool
book_lt a b =
    before a.observed_at b.observed_at
    || (a.observed_at.micros == b.observed_at.micros && ltb a.sequence b.sequence)

unfoldable pub insert_book : BookSnapshot → List BookSnapshot → List BookSnapshot
insert_book b [] = b ∷ []
insert_book b (c ∷ cs) = if book_lt c b then c ∷ insert_book b cs else b ∷ c ∷ cs

unfoldable pub sort_books : List BookSnapshot → List BookSnapshot
unfolding insert_book
sort_books [] = []
sort_books (b ∷ bs) = insert_book b (sort_books bs)

abbrev first_book : List BookSnapshot → Option BookSnapshot
first_book [] = none
first_book (b ∷ bs) = some b

abbrev pub is_eligible : MarketFillRequest → BookSnapshot → Bool
is_eligible r b = str_eq b.symbol r.symbol && before r.eligible_after b.observed_at

-- The book that a request is filled from.
unfoldable pub eligible_book : MarketFillRequest → List BookSnapshot → Option BookSnapshot
unfolding sort_books
eligible_book r books = first_book (sort_books (keep (is_eligible r) books))

-- The loop of `_walk`: what is left, and the slices in order.
unfoldable pub walk_levels : Decimal → List BookLevel → Result (Decimal × List FillSlice)
unfolding make_slice
walk_levels remaining [] = ok (remaining, [])
walk_levels remaining (level ∷ levels) =
    let quantity = min level.quantity remaining in
    let rest = walk_levels (sub remaining quantity) levels in
    if le remaining zero_decimal then ok (remaining, []) else (do
      slice ← make_slice level.price quantity
      (left, slices) ← rest
      ok (left, slice ∷ slices))

-- `_walk`.
unfoldable pub walk : List BookLevel → Decimal → String → Result (List FillSlice)
unfolding walk_levels
walk levels requested market_event_id = do
  (left, slices) ← walk_levels requested levels
  raise_if (lt zero_decimal left)
      (fill_rejection "insufficient_visible_depth" (some market_event_id))
  ok slices

abbrev pub levels_for : PaperOrderSide → BookSnapshot → List BookLevel
levels_for side book = if is_buy side then book.asks else book.bids

-- `a - b` for a buy, `b - a` for a sell.
abbrev pub against : PaperOrderSide → Decimal → Decimal → Decimal
against side a b = if is_buy side then sub a b else sub b a

-- The part of `fill` after the book has been chosen.
unfoldable pub fill_from : MarketFillRequest → BookSnapshot → Result PaperFill
unfolding walk make_fill
fill_from r book = do
  slices ← walk (levels_for r.side book) r.quantity book.event_id
  let notional = sum (map (λ s. mul s.price s.quantity) slices)
  let average_price = div notional r.quantity
  let first = first_price (levels_for r.side book)
  let spread = mul (against r.side first (midpoint book)) r.quantity
  let depth = mul (against r.side average_price first) r.quantity
  let latency = mul (against r.side first r.decision_executable_price) r.quantity
  make_fill (record {
    market_event_id = book.event_id;
    symbol = r.symbol;
    side = r.side;
    fill_at = book.observed_at;
    quantity = r.quantity;
    price = average_price;
    notional = notional;
    slices = slices;
    liquidity_role = "taker";
    fee = mul notional r.taker_fee_rate;
    spread_cost = spread;
    depth_slippage = depth;
    latency_slippage = latency;
    total_slippage = add (add spread depth) latency;
    book = book;
  })

-- `MarketFillEngine(max_book_age).fill`; the age is in microseconds.
unfoldable pub fill : ℕ → MarketFillRequest → List BookSnapshot → Result PaperFill
unfolding fill_from eligible_book
fill max_book_age r books = do
  book ← or_raise (eligible_book r books) (fill_rejection "no_eligible_book" none)
  raise_if (ltb max_book_age (book.observed_at.micros - book.venue_event_at.micros))
      (fill_rejection "stale_book" (some book.event_id))
  fill_from r book
