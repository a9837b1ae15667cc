-- ===== src/Fills/Tests.antt =====
-- Two books of one symbol, and asks of two and five steps of a tenth.
use maais.Base.{ℕ, ◌≡◌, refl, true, some, List, [], ◌∷◌, err, Ensures, fill_rejection, arith}
use maais.Decimal.{max_coefficient, unit, whole, zero_decimal}
use maais.Decimal.Grid.{units}
use maais.Domain.{Datetime, buy}
use maais.Market.{BookLevel, BookSnapshot}
use maais.Fills.{MarketFillRequest, insert_book, sort_books, eligible_book, walk}
use maais.Fills.Book.{Chosen, eligible_book-Chosen}
use maais.Fills.Walk.{visible, shares, Sliced, walk-Sliced, walk-insufficient}

abbrev instant : ℕ → Datetime
instant t = record { micros = t; utc = true }

abbrev ask : ℕ → ℕ → BookLevel
ask price n = record { price = whole price; quantity = units 63 n }

abbrev asks : List BookLevel
asks = ask 101 2 ∷ ask 103 5 ∷ []

abbrev book : ℕ → ℕ → BookSnapshot
book t sequence = record {
  event_id = "book";
  symbol = "BTCUSDT";
  venue_event_at = instant t;
  observed_at = instant t;
  sequence = sequence;
  bids = ask 99 4 ∷ [];
  asks = asks;
  mark_price = whole 100;
}

abbrev request : MarketFillRequest
request = record {
  symbol = "BTCUSDT";
  side = buy;
  quantity = units 63 6;
  eligible_after = instant 5;
  decision_executable_price = whole 100;
  taker_fee_rate = zero_decimal;
}

abbrev books : List BookSnapshot
books = book 9 2 ∷ book 4 1 ∷ book 7 8 ∷ book 7 3 ∷ []

eligible_book-books : eligible_book request books ≡ some (book 7 3)
unfolding eligible_book sort_books insert_book
eligible_book-books = refl

eligible_book-Chosen_example : Chosen request books (eligible_book request books)
eligible_book-Chosen_example = eligible_book-Chosen request books

-- Six steps take the first level whole and four steps of the second.
shares-six : shares 6 (2 ∷ 5 ∷ []) ≡ 2 ∷ 4 ∷ []
unfolding shares
shares-six = refl

walk-Sliced_example :
    Ensures
      (λ slices. Sliced 63 asks slices (shares 6 (2 ∷ 5 ∷ [])))
      (walk asks (units 63 6) "book")
unfolding whole unit max_coefficient visible
walk-Sliced_example =
    walk-Sliced 63 6 asks (2 ∷ 5 ∷ []) "book"
      (refl, refl, omega arith, omega arith, (refl, refl, omega arith, omega arith, tt))
      (omega arith) (omega arith)

walk-insufficient_example :
    walk asks (units 63 8) "book" ≡ err (fill_rejection "insufficient_visible_depth" (some "book"))
unfolding whole unit max_coefficient visible
walk-insufficient_example =
    walk-insufficient 63 8 asks (2 ∷ 5 ∷ []) "book"
      (refl, refl, omega arith, omega arith, (refl, refl, omega arith, omega arith, tt))
      (omega arith) (omega arith)
