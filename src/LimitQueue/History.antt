-- ===== src/LimitQueue/History.antt =====
-- A resting limit order under any sequence of observed trades.
use maais.Base.{ℕ, suc, ◌+◌, ◌≤◌, ◌≡◌, refl, subst, List, [], ◌∷◌, ◌++◌, All, arith}
use maais.Decimal.{max_coefficient}
use maais.Decimal.Grid.{units}
use maais.Market.{TradePrint}
use maais.LimitQueue.{LimitFill, LimitQueueState, LimitQueueAdvance, advance_limit_queue}
use maais.LimitQueue.Amounts.{IsValid, FillsBy, advance-Advanced}

-- The state after the trades, and all fills in order.
unfoldable pub advance_all : LimitQueueState → List TradePrint → LimitQueueAdvance
advance_all s [] = record { state = s; fills = [] }
advance_all s (t ∷ ts) =
    let first = advance_limit_queue s t in
    let rest = advance_all first.state ts in
    record { state = rest.state; fills = first.fills ++ rest.fills }

-- The fills come to `d` steps.
abbrev pub FillsTotal : ℕ → List LimitFill → ℕ → Type 0
FillsTotal k [] d = d ≡ 0
FillsTotal k (f ∷ fs) d =
    (x : ℕ) × (y : ℕ) × (f.quantity ≡ units k x) × FillsTotal k fs y × (d ≡ x + y)

-- The trades' quantities are multiples of ten steps.
abbrev pub Traded : ℕ → List TradePrint → Type 0
Traded k = All (λ t. (x : ℕ) × (t.quantity ≡ units (suc k) x) × (x ≤ max_coefficient))

FillsTotal-append :
    (k : ℕ) (fs gs : List LimitFill) (d e : ℕ)
    → FillsBy k d fs
    → FillsTotal k gs e
    → FillsTotal k (fs ++ gs) (d + e)
FillsTotal-append k [] gs d e h g = subst (FillsTotal k gs) (omega arith) g
FillsTotal-append k (f ∷ []) gs d e h g = (d, e, h, g, refl)
FillsTotal-append k (f ∷ f' ∷ fs) gs d e h g = absurd h

-- After any trades whose quantities are multiples of ten steps, an order that was valid on the grid of
-- steps is valid: no more than it asks for is filled, `filled` exactly when all
-- of it is, the queue ahead has not grown, and the fills add up to what was filled on the way.
pub advance_all-IsValid :
    (k total done ahead : ℕ) (s : LimitQueueState) (ts : List TradePrint)
    → IsValid k total done ahead s
    → Traded k ts
    → (d : ℕ) × (a : ℕ) × IsValid k total (done + d) a (advance_all s ts).state
      × FillsTotal k (advance_all s ts).fills d
      × (a ≤ ahead)
unfolding advance_all
advance_all-IsValid k total done ahead s [] v g =
    (0, ahead, subst (λ (n : ℕ). IsValid k total n ahead s) (omega arith) v, refl, omega arith)
advance_all-IsValid k total done ahead s (t ∷ ts) v g =
    let r = advance_limit_queue s t in
    let one = advance-Advanced k total done ahead g.0.0 s t v g.0.1 g.0.2 in
    let (d, a, valid, sums, shrinks) =
      advance_all-IsValid k total (done + one.newly) one.still_ahead r.state ts one.keeps g.1 in
    (
      one.newly + d,
      a,
      subst (λ (n : ℕ). IsValid k total n a (advance_all r.state ts).state) (omega arith) valid,
      FillsTotal-append k r.fills (advance_all r.state ts).fills one.newly d one.by_fills sums,
      omega (arith, one.shrinks),
    )
