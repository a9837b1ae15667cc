-- ===== src/Fills/Book.antt =====
-- The book that a market order is filled from is the first eligible one.
use maais.Base.{
  ◌≡◌, refl, true, false, inl, inr, Bool-cases, Option, none, some, List, [], ◌∷◌, keep, All,
  All-keep, In, In-keep, keep-nil, arith,
}
use maais.Market.{BookSnapshot}
use maais.Fills.{
  MarketFillRequest, book_lt, insert_book, sort_books, first_book, is_eligible, eligible_book,
}

book_lt_trans :
    (a b c : BookSnapshot) → book_lt a b ≡ false → book_lt b c ≡ false → book_lt a c ≡ false
book_lt_trans a b c h g = ground arith

book_lt-asymm : (a b : BookSnapshot) → book_lt a b ≡ true → book_lt b a ≡ false
book_lt-asymm a b h = ground arith

book_lt_irrefl : (a : BookSnapshot) → book_lt a a ≡ false
book_lt_irrefl a = ground arith

All-map {ℓ κ} :
    {A : Type ℓ} {P Q : A → Type κ} (xs : List A) → ((x : A) → P x → Q x) → All P xs → All Q xs
All-map [] f h = tt
All-map (x ∷ xs) f h = (f x h.0, All-map xs f h.1)

-- The head of a list stands in another and comes after none of its books.
abbrev HeadLeast : List BookSnapshot → List BookSnapshot → Type 0
HeadLeast bs [] = bs ≡ []
HeadLeast bs (h ∷ rest) = In h bs × All (λ c. book_lt c h ≡ false) bs

insert-HeadLeast :
    (b : BookSnapshot) (bs cs : List BookSnapshot)
    → HeadLeast bs cs
    → HeadLeast (b ∷ bs) (insert_book b cs)
unfolding insert_book
insert-HeadLeast b bs [] h = rw h (inl refl, (book_lt_irrefl b, tt))
insert-HeadLeast b bs (c ∷ cs) h = elim (Bool-cases (book_lt c b)) [
  | inl first ↦ rw first (inr h.0, (book_lt-asymm c b first, h.1))
  | inr later ↦
      rw later (inl refl, (book_lt_irrefl b, All-map bs (λ d g. book_lt_trans d c b g later) h.1))
]

sort-HeadLeast : (bs : List BookSnapshot) → HeadLeast bs (sort_books bs)
unfolding sort_books
sort-HeadLeast [] = refl
sort-HeadLeast (b ∷ bs) = insert-HeadLeast b bs (sort_books bs) (sort-HeadLeast bs)

-- The choice among the books for a request: one of them, in the request's symbol and observed after
-- it became eligible, and no eligible book was observed earlier, or at that time with a smaller
-- sequence; or none, when no book is eligible.
abbrev pub Chosen : MarketFillRequest → List BookSnapshot → Option BookSnapshot → Type 0
Chosen r books (some b) =
    In b books
    × (is_eligible r b ≡ true)
    × All (λ c. is_eligible r c ≡ true → book_lt c b ≡ false) books
Chosen r books none = All (λ c. is_eligible r c ≡ false) books

Chosen-first :
    (r : MarketFillRequest) (books sorted : List BookSnapshot)
    → HeadLeast (keep (is_eligible r) books) sorted
    → Chosen r books (first_book sorted)
Chosen-first r books [] h = keep-nil (is_eligible r) books h
Chosen-first r books (b ∷ bs) h =
    let (listed, eligible) = In-keep (is_eligible r) b books h.0 in
    (listed, eligible, All-keep (is_eligible r) (λ c. book_lt c b ≡ false) books h.1)

-- `fill` chooses the least eligible book by observation time and sequence, and finds none exactly
-- when no book is eligible.
pub eligible_book-Chosen :
    (r : MarketFillRequest) (books : List BookSnapshot) → Chosen r books (eligible_book r books)
unfolding eligible_book
eligible_book-Chosen r books = Chosen-first r books _ (sort-HeadLeast (keep (is_eligible r) books))
