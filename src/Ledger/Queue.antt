-- ===== src/Ledger/Queue.antt =====
-- What closing leaves of a queue on the grid of its sizes.
use Prim.Native.Nat.{min}
use maais.Base.{
  ℕ, zero, suc, ◌+◌, ◌-◌, ◌≤◌, ◌≡◌, refl, true, false, Bool-cases, inl, inr, if◌then◌else◌, List,
  [], ◌∷◌, Result, ok, err, Ensures, ◌>>=◌, String, arith, ap, subst, sym, ◌∙◌, leb, ◌==◌,
}
use maais.Decimal
use maais.Decimal.{Decimal, max_coefficient, zero_decimal, add, sub, le, lt, eq, sum}
use maais.Decimal.Grid.{units, sub-units, le_zero-units, eq_zero-units, min-units}
use maais.Fills.Walk.{visible, shares}
use maais.Ledger.{LotData, TradeRecordData, Closing, record_of, close_loop, rounds}

-- The open steps of each lot, oldest first; no lot was opened empty.
abbrev pub Held : ℕ → List LotData → List ℕ → Type 0
Held k [] [] = Unit
Held k (lot ∷ lots) (n ∷ ns) =
    (lot.remaining_size ≡ units k n) × (eq lot.original_size zero_decimal ≡ false) × Held k lots ns
Held k [] (n ∷ ns) = ⊥
Held k (lot ∷ lots) [] = ⊥

-- The steps that are still open after `q` steps were closed, oldest lots first.
unfoldable pub leftover : ℕ → List ℕ → List ℕ
leftover q [] = []
leftover zero (n ∷ ns) = n ∷ ns
leftover (suc q) (n ∷ ns) =
    let later = leftover (suc q - n) ns in if leb n (suc q) then later else (n - suc q) ∷ ns

-- One record for each lot that was taken from, with its id, its entry price and the steps taken.
abbrev pub Recorded : ℕ → List LotData → List TradeRecordData → List ℕ → Type 0
Recorded k lots [] [] = Unit
Recorded k (lot ∷ lots) (r ∷ rs) (m ∷ ms) =
    (r.entry_lot_id ≡ lot.trade_id)
    × (r.entry_price ≡ lot.entry_price)
    × (r.position_size ≡ units k m)
    × Recorded k lots rs ms
Recorded k [] (r ∷ rs) (m ∷ ms) = ⊥
Recorded k lots [] (m ∷ ms) = ⊥
Recorded k lots (r ∷ rs) [] = ⊥

pub visible-leftover :
    (q : ℕ) (ns : List ℕ) → q ≤ visible ns → visible (leftover q ns) ≡ visible ns - q
unfolding visible leftover
visible-leftover q [] h = omega arith
visible-leftover zero (n ∷ ns) h = omega arith
visible-leftover (suc q) (n ∷ ns) h = elim (Bool-cases (leb n (suc q))) [
  | inl all_of ↦ rw all_of (ground (arith, visible-leftover (suc q - n) ns))
  | inr some_of ↦ rw some_of (ground arith)
]

shares_zero : (ns : List ℕ) → shares 0 ns ≡ []
unfolding shares
shares_zero [] = refl
shares_zero (n ∷ ns) = refl

abbrev pub Closed : ℕ → ℕ → List LotData → List ℕ → List TradeRecordData × List LotData → Type 0
Closed k q lots ns r = Recorded k lots r.0 (shares q ns) × Held k r.1 (leftover q ns)

module _ (new_id : ℕ → String) (c : Closing) where
  stop :
      (fuel made : ℕ) (r : Decimal) (queue : List LotData)
      → le r zero_decimal ≡ true
      → close_loop new_id c fuel made r queue ≡ ok ([], queue)
  unfolding close_loop
  stop zero made r queue h = refl
  stop (suc fuel) made r [] h = refl
  stop (suc fuel) made r (lot ∷ rest) h = rw h refl

  drained : (fuel made : ℕ) (r : Decimal) → close_loop new_id c fuel made r [] ≡ ok ([], [])
  unfolding close_loop
  drained zero made r = refl
  drained (suc fuel) made r = refl

  -- The result of a round, from what the loop does afterwards.
  abbrev after :
      ℕ
      → LotData
      → Decimal
      → Result (List TradeRecordData × List LotData)
      → Result (List TradeRecordData × List LotData)
  after made lot matched r = r >>= λ x. ok (record_of c (new_id made) lot matched ∷ x.0, x.1)

  round_pops :
      (fuel made : ℕ) (r : Decimal) (lot : LotData) (rest : List LotData)
      → le r zero_decimal ≡ false
      → eq lot.original_size zero_decimal ≡ false
      → eq (sub lot.remaining_size (Decimal.min lot.remaining_size r)) zero_decimal ≡ true
      → close_loop new_id c (suc fuel) made r (lot ∷ rest)
        ≡ after made lot
            (Decimal.min lot.remaining_size r)
            (close_loop new_id c fuel (made + 1) (sub r (Decimal.min lot.remaining_size r)) rest)
  unfolding close_loop
  round_pops fuel made r lot rest h g e = rw (h, g, e) refl

  round_keeps :
      (fuel made : ℕ) (r : Decimal) (lot : LotData) (rest : List LotData)
      → le r zero_decimal ≡ false
      → eq lot.original_size zero_decimal ≡ false
      → eq (sub lot.remaining_size (Decimal.min lot.remaining_size r)) zero_decimal ≡ false
      → le (sub r (Decimal.min lot.remaining_size r)) zero_decimal ≡ true
      → close_loop new_id c (suc fuel) made r (lot ∷ rest)
        ≡ ok (
          record_of c (new_id made) lot (Decimal.min lot.remaining_size r) ∷ [],
          record lot { remaining_size = sub lot.remaining_size (Decimal.min lot.remaining_size r) }
              ∷ rest,
        )
  unfolding close_loop
  round_keeps fuel made r lot rest h g e f = rw (h, g, e, stop fuel (made + 1) _ _ f) refl

  after-Closed :
      (k q n made : ℕ) (lot : LotData) (rest : List LotData) (ns : List ℕ) (matched : Decimal)
      (r : Result (List TradeRecordData × List LotData))
      → matched ≡ units k (min n (suc q))
      → leb n (suc q) ≡ true
      → Ensures (Closed k (suc q - n) rest ns) r
      → Ensures (Closed k (suc q) (lot ∷ rest) (n ∷ ns)) (after made lot matched r)
  unfolding shares leftover record_of
  after-Closed k q n made lot rest ns matched (ok x) m all_of h =
      rw all_of ((refl, refl, m, h.0), h.1)
  after-Closed k q n made lot rest ns matched (err e) m all_of h = absurd h

  kept-Closed :
      (k q n made : ℕ) (lot : LotData) (rest : List LotData) (ns : List ℕ) (matched left : Decimal)
      → matched ≡ units k (min n (suc q))
      → left ≡ units k (n - suc q)
      → leb n (suc q) ≡ false
      → eq lot.original_size zero_decimal ≡ false
      → Held k rest ns
      → Closed k
          (suc q)
          (lot ∷ rest)
          (n ∷ ns)
          (record_of c (new_id made) lot matched ∷ [], record lot { remaining_size = left } ∷ rest)
  unfolding shares leftover record_of
  kept-Closed k q n made lot rest ns matched left m l some_of g h =
      rw (some_of, served, shares_zero ns) ((refl, refl, m, tt), (l, g, h))
    where
      served : suc q - n ≡ 0
      served = ground (arith, some_of)

  pub close_loop-Closed :
      (k q made : ℕ) (lots : List LotData) (ns : List ℕ)
      → Held k lots ns
      → visible ns ≤ max_coefficient
      → q ≤ max_coefficient
      → Ensures (Closed k q lots ns) (close_loop new_id c (rounds lots) made (units k q) lots)
  unfolding visible shares leftover
  close_loop-Closed k q made [] [] h small fits =
      subst (Ensures (Closed k q [] [])) (sym (drained 1 made (units k q))) (tt, tt)
  close_loop-Closed k zero made (lot ∷ lots) (n ∷ ns) h small fits =
      subst (Ensures (Closed k zero (lot ∷ lots) (n ∷ ns)))
        (sym (
          stop (rounds (lot ∷ lots)) made (units k 0) (lot ∷ lots)
            (le_zero-units k 0 ∙ ground arith)))
        (tt, h)
  close_loop-Closed k (suc q) made (lot ∷ lots) (n ∷ ns) h small fits =
      elim (Bool-cases (leb n (suc q))) [
        | inl all_of ↦
            subst (Ensures (Closed k (suc q) (lot ∷ lots) (n ∷ ns)))
              (sym (
                round_pops (rounds lots) made (units k (suc q)) lot lots some_remaining h.1
                  (empties ∙ ground (arith, all_of))))
              (after-Closed k q n made lot lots ns matched _ matched_eq all_of (
                subst
                  (λ (z : Decimal).
                    Ensures (Closed k (suc q - n) lots ns)
                      (close_loop new_id c (rounds lots) (made + 1) z lots))
                  (sym rest_eq)
                  (close_loop-Closed k (suc q - n) (made + 1) lots ns h.2 (omega arith)
                    (omega arith))))
        | inr some_of ↦
            subst (Ensures (Closed k (suc q) (lot ∷ lots) (n ∷ ns)))
              (sym (
                round_keeps (rounds lots) made (units k (suc q)) lot lots some_remaining h.1
                  (empties ∙ ground (arith, some_of))
                  (rw rest_eq (le_zero-units k (suc q - n) ∙ ground (arith, some_of)))))
              (kept-Closed k q n made lot lots ns matched _ matched_eq left_eq some_of h.1 h.2)
      ]
    where
      matched : Decimal
      matched = Decimal.min lot.remaining_size (units k (suc q))

      matched_eq : matched ≡ units k (min n (suc q))
      matched_eq = rw h.0 (min-units k n (suc q))

      left_eq : sub lot.remaining_size matched ≡ units k (n - suc q)
      left_eq =
          rw (matched_eq, h.0)
            (sub-units k n (min n (suc q)) (omega arith) (omega arith) ∙ ap (units k) (omega arith))

      empties : eq (sub lot.remaining_size matched) zero_decimal ≡ (n - suc q == 0)
      empties = rw left_eq (eq_zero-units k (n - suc q))

      some_remaining : le (units k (suc q)) zero_decimal ≡ false
      some_remaining = le_zero-units k (suc q) ∙ ground arith

      rest_eq : sub (units k (suc q)) matched ≡ units k (suc q - n)
      rest_eq =
          rw matched_eq
            (sub-units k (suc q) (min n (suc q)) (omega arith) fits ∙ ap (units k) (omega arith))
  close_loop-Closed k q made [] (n ∷ ns) h small fits = absurd h
  close_loop-Closed k q made (lot ∷ lots) [] h small fits = absurd h
