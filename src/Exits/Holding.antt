-- ===== src/Exits/Holding.antt =====
-- The holding limit of an exit plan, and what one closed bar or one mark price does to it.
use maais.Base.{
  ℕ, ◌+◌, ◌≤◌, ◌<◌, ◌≡◌, refl, ◌⊎◌, inl, inr, Bool, true, false, ◌&&◌, none, some, if◌then◌else◌,
  ok, List, [], ◌∷◌, All, arith, length, subst, sym,
}
use maais.Decimal.{Decimal, le, zero_decimal}
use maais.Domain.{Datetime, Direction}
use maais.Exits.{
  ExitPlan, ExitReason, active, triggered, maximum_hold, opposing_signal, opposes, create,
  observe_closed_bar,
}
use maais.Exits.Calls.{Call, bars, perform, perform_all, plan_after}

-- An active plan that its holding limit has not stopped.
pub record IsWaiting (p : ExitPlan) : Type 0 where
  pub is_active_plan : p.status ≡ active
  pub no_reason : p.trigger_reason ≡ none
  pub no_time : p.triggered_at ≡ none
  pub no_price : p.trigger_price ≡ none
  pub no_executable : p.trigger_executable_price ≡ none
  pub has_bars_left : p.bars_elapsed < p.maximum_bars
  pub streak_open : p.opposite_signal_streak < 2

-- A new plan is waiting.
pub create-IsWaiting :
    (plan_id position_id : ℕ) (side : Direction) (quantity entry loss gain : Decimal)
    (at : Datetime) (maximum : ℕ) {p : ExitPlan}
    → create plan_id position_id side quantity entry loss gain at maximum ≡ ok p
    → IsWaiting p × (p.bars_elapsed ≡ 0) × (p.maximum_bars ≡ maximum) × (p.created_at ≡ at)
unfolding create
create-IsWaiting plan_id position_id side quantity entry loss gain at maximum e = ground arith

-- A bar as the market gives it: UTC, not before the plan, with a positive price.
pub record Bar : Type 0 where
  pub decision : Direction
  pub approved : Bool
  pub closed_at : Datetime
  pub executable_price : Decimal

pub record IsSound (created_at : Datetime) (b : Bar) : Type 0 where
  pub is_utc : b.closed_at.utc ≡ true
  pub not_before : created_at.micros ≤ b.closed_at.micros
  pub priced : le b.executable_price zero_decimal ≡ false

abbrev pub call_of : Bar → Call
call_of b = bars b.decision b.approved b.closed_at b.executable_price

-- The streak of opposing signals after a bar.
abbrev pub streak_after : ExitPlan → Bar → ℕ
streak_after p b =
    if b.approved && opposes p.side b.decision then p.opposite_signal_streak + 1 else 0

-- The plan has been stopped for a reason, at a bar.
abbrev pub Stopped : ExitReason → Bar → ExitPlan → Type 0
Stopped reason b q =
    (q.status ≡ triggered)
    × (q.trigger_reason ≡ some reason)
    × (q.triggered_at ≡ some b.closed_at)
    × (q.trigger_executable_price ≡ some b.executable_price)

-- A second opposing bar in a row stops the plan, else the last bar of its holding time does, else it
-- goes on waiting with one bar less.
abbrev pub AfterBar : ExitPlan → Bar → ExitPlan → Type 0
AfterBar p b q =
    ((2 ≤ streak_after p b) × Stopped opposing_signal b q)
    ⊎ (((streak_after p b < 2) × (p.bars_elapsed + 1 ≡ p.maximum_bars) × Stopped maximum_hold b q)
        ⊎ (IsWaiting q
            × (q.bars_elapsed ≡ p.bars_elapsed + 1)
            × (q.maximum_bars ≡ p.maximum_bars)
            × (q.created_at ≡ p.created_at)
            × (q.opposite_signal_streak ≡ streak_after p b)))

-- A waiting plan takes a bar, closed in UTC, not before the plan was made and with a positive price, in
-- one of three ways: a second opposing decision in a row triggers
-- it, else the last bar of its holding time does, else it waits on, with the bar and the streak
-- counted.
pub bar_lem :
    (p : ExitPlan) (b : Bar)
    → IsWaiting p
    → IsSound p.created_at b
    → AfterBar p b (plan_after p (perform p (call_of b)))
unfolding perform observe_closed_bar
bar_lem p b w s = ground arith

-- A triggered plan refuses every bar.
bar_refused :
    (p : ExitPlan) (b : Bar) → p.status ≡ triggered → plan_after p (perform p (call_of b)) ≡ p
unfolding perform observe_closed_bar
bar_refused p b h = ground arith

unfoldable pub calls_of : List Bar → List Call
calls_of [] = []
calls_of (b ∷ bs) = call_of b ∷ calls_of bs

bars_refused :
    (p : ExitPlan) (bs : List Bar) → p.status ≡ triggered → (perform_all p (calls_of bs)).0 ≡ p
unfolding perform_all calls_of
bars_refused p [] h = refl
bars_refused p (b ∷ bs) h =
    subst (λ (q : ExitPlan). (perform_all q (calls_of bs)).0 ≡ p) (sym (bar_refused p b h))
      (bars_refused p bs h)

-- A waiting plan that sees as many sound bars as its holding time has left, or more, ends triggered:
-- the maximum holding time cannot be overrun.
pub holding_ends :
    (p : ExitPlan) (bs : List Bar)
    → IsWaiting p
    → All (IsSound p.created_at) bs
    → p.maximum_bars ≤ p.bars_elapsed + length bs
    → (perform_all p (calls_of bs)).0.status ≡ triggered
unfolding perform_all calls_of
holding_ends p [] w s h = absurd (omega (arith, w.has_bars_left))
holding_ends p (b ∷ bs) w s h = elim (bar_lem p b w s.0) [
  | inl (_, stopped) ↦ stops stopped.0
  | inr (inl (_, _, stopped)) ↦ stops stopped.0
  | inr (inr (w', elapsed, maximum, since, _)) ↦ holding_ends q bs w' (rw since s.1) (omega arith)
]
  where
    q : ExitPlan
    q = plan_after p (perform p (call_of b))

    stops : q.status ≡ triggered → (perform_all q (calls_of bs)).0.status ≡ triggered
    stops h = rw (bars_refused q bs h) h

-- A new plan with a holding time of `maximum` bars is triggered once it has seen that many bars, each
-- closed in UTC, not before the plan was made and with a positive price, whatever the decisions were.
pub create-holding_ends :
    (plan_id position_id : ℕ) (side : Direction) (quantity entry loss gain : Decimal)
    (at : Datetime) (maximum : ℕ) {p : ExitPlan} (bs : List Bar)
    → create plan_id position_id side quantity entry loss gain at maximum ≡ ok p
    → All (IsSound at) bs
    → maximum ≤ length bs
    → (perform_all p (calls_of bs)).0.status ≡ triggered
create-holding_ends plan_id position_id side quantity entry loss gain at maximum {p} bs e s enough =
    let (w, elapsed, most, since) =
      create-IsWaiting plan_id position_id side quantity entry loss gain at maximum e in
    holding_ends p bs w (rw since s) (omega arith)
