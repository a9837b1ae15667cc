-- ===== src/Clock.antt =====
-- maais/execution/paper/clock.py: which observed event an order may first act on.
pub mod First
mod Tests
use maais.Base.{
  ℕ, ◌+◌, Bool, ◌&&◌, ◌||◌, List, [], ◌∷◌, Option, none, some, String, Result, ok, ◌>>◌, raise_if,
  or_raise, value_error, lookup_error, is_empty, keep, ltb, leb, ◌==◌, if◌then◌else◌,
}
use maais.Domain.{Datetime, before, require_utc}

pub record OrderEligibility : Type 0 where
  pub decided_at : Datetime
  pub latency : ℕ  -- microseconds
  pub eligible_at : Datetime

pub record ObservedEvent : Type 0 where
  pub event_id : String
  pub observed_at : Datetime
  pub sequence : ℕ

unfoldable pub make_event : ObservedEvent → Result ObservedEvent
make_event e = do
  require_utc e.observed_at "observed_at"
  raise_if (is_empty e.event_id) (value_error "event_id is required")
  ok e

-- A latency is a natural number of microseconds, so only zero is refused.
unfoldable pub eligibility : Datetime → ℕ → Result OrderEligibility
eligibility decided_at latency = do
  require_utc decided_at "decided_at"
  raise_if (leb latency 0) (value_error "latency must be positive")
  ok (record {
    decided_at = decided_at;
    latency = latency;
    eligible_at = record { micros = decided_at.micros + latency; utc = decided_at.utc };
  })

-- The order of the keys `(observed_at, sequence)`.
abbrev pub key_lt : ObservedEvent → ObservedEvent → Bool
key_lt a b =
    before a.observed_at b.observed_at
    || (a.observed_at.micros == b.observed_at.micros && ltb a.sequence b.sequence)

-- Python's `min` with a key keeps the first of the smallest.
min_event : ObservedEvent → List ObservedEvent → ObservedEvent
min_event best [] = best
min_event best (e ∷ es) = min_event (if key_lt e best then e else best) es

unfoldable pub first_event : List ObservedEvent → Option ObservedEvent
unfolding min_event
first_event [] = none
first_event (e ∷ es) = some (min_event e es)

unfoldable pub first_eligible : OrderEligibility → List ObservedEvent → Result ObservedEvent
unfolding first_event
first_eligible eligibility events =
    or_raise (first_event (keep (λ e. before eligibility.eligible_at e.observed_at) events))
      (lookup_error "no eligible observed market event")
