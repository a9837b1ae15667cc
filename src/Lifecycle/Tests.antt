-- ===== src/Lifecycle/Tests.antt =====
-- Two heartbeats that are answered, and a third that is refused.
use maais.Base.{
  ◌≡◌, refl, true, some, List, [], ◌∷◌, ok, err, Error, false, map, ℕ, runtime_error,
  cancelled_error,
}
use maais.Lifecycle.{
  started, request_stop, fail, Tick, beat_time, calls, heartbeat_loop, wait_until_stopped,
}
use maais.Lifecycle.Rounds.{Runs, heartbeat_loop-Runs}

abbrev refused : Error
refused = runtime_error "heartbeat refused"

abbrev timed_out : ℕ → Tick
timed_out t = record {
  during_wait = [];
  waited = ok false;
  time = ok (record { micros = t; utc = true });
  during_beat = [];
  answer = ok tt;
}

abbrev ticks : List Tick
ticks =
    timed_out 30
    ∷ timed_out 60
    ∷ record (timed_out 90) { answer = err refused }
    ∷ timed_out 120
    ∷ []

heartbeat_loop-ticks : map (λ b. b.sequence) (heartbeat_loop started 0 ticks).beats ≡ 1 ∷ 2 ∷ 3 ∷ []
unfolding heartbeat_loop beat_time calls fail request_stop
heartbeat_loop-ticks = refl

heartbeat_loop-error :
    wait_until_stopped (heartbeat_loop started 0 ticks).state ≡ some (err refused)
unfolding heartbeat_loop beat_time calls fail request_stop wait_until_stopped
heartbeat_loop-error = refl

-- A wait that is cancelled fails the service.
abbrev cancelled : List Tick
cancelled = record (timed_out 30) { waited = err (cancelled_error "") } ∷ []

heartbeat_loop-cancelled :
    wait_until_stopped (heartbeat_loop started 0 cancelled).state ≡ some (err (cancelled_error ""))
unfolding heartbeat_loop beat_time calls fail request_stop wait_until_stopped
heartbeat_loop-cancelled = refl

heartbeat_loop-Runs_example : Runs started 0 ticks (heartbeat_loop started 0 ticks)
heartbeat_loop-Runs_example =
    heartbeat_loop-Runs started 0 ticks ((λ h. cc), ((λ h. cc), ((λ h. cc), ((λ h. cc), tt))))
