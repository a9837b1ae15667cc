-- ===== src/Clock/Tests.antt =====
-- Two events at one instant, after one that comes too early.
use maais.Base.{ℕ, ◌≡◌, refl, true, List, [], ◌∷◌, ok}
use maais.Domain.{Datetime}
use maais.Clock.{OrderEligibility, ObservedEvent, first_eligible}
use maais.Clock.First.{Found, first_eligible-Found}

abbrev at : ℕ → Datetime
at n = record { micros = n; utc = true }

abbrev event : ℕ → ℕ → ObservedEvent
event n s = record { event_id = "event"; observed_at = at n; sequence = s }

abbrev eligible : OrderEligibility
eligible = record { decided_at = at 1; latency = 4; eligible_at = at 5 }

abbrev events : List ObservedEvent
events = event 9 3 ∷ event 5 1 ∷ event 7 2 ∷ event 7 1 ∷ []

first_eligible-events : first_eligible eligible events ≡ ok (event 7 1)
unfolding first_eligible
first_eligible-events = refl

first_eligible-Found_example : Found eligible events (first_eligible eligible events)
first_eligible-Found_example = first_eligible-Found eligible events
