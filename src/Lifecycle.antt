-- ===== src/Lifecycle.antt =====
-- maais/platform/lifecycle.py: readiness, stopping and the heartbeat of a service. The backend, the
-- clock, the wait and the other tasks are given by what they did in a round, a `Tick`; the
-- registration of the service and the telemetry are left out.
pub mod Calls
pub mod Rounds
mod Tests
use maais.Base.{
  ℕ, ◌+◌, Bool, true, false, not, ◌||◌, ◌&&◌, List, [], ◌∷◌, Option, none, some, is_some, Result,
  ok, err, Error, ◌>>=◌, ◌>>◌, raise_if, runtime_error, if◌then◌else◌,
}
use maais.Domain.{Datetime, require_utc}

-- `ServiceLifecycle`; `stop_requested` is whether its event is set.
pub record ServiceLifecycle : Type 0 where
  pub is_ready : Bool
  pub stop_requested : Bool
  pub terminal_error : Option Error

abbrev pub started : ServiceLifecycle
started = record { is_ready = false; stop_requested = false; terminal_error = none }

unfoldable pub ready : ServiceLifecycle → Bool
ready s = s.is_ready && not s.stop_requested

unfoldable pub mark_ready : ServiceLifecycle → Result ServiceLifecycle
mark_ready s = do
  raise_if (s.stop_requested || is_some s.terminal_error)
      (runtime_error "stopped service cannot become ready")
  ok (record s { is_ready = true })

unfoldable pub request_stop : ServiceLifecycle → ServiceLifecycle
request_stop s = record s { is_ready = false; stop_requested = true }

-- `_fail`.
unfoldable pub fail : ServiceLifecycle → Error → ServiceLifecycle
unfolding request_stop
fail s e = request_stop (record s { terminal_error = some e })

-- `wait_until_stopped`: nothing while the event is not set, and then the terminal error, if any.
unfoldable pub wait_until_stopped : ServiceLifecycle → Option (Result (Unit {0}))
wait_until_stopped s =
    if not s.stop_requested
    then none
    else elim s.terminal_error [ none ↦ some (ok tt) | some e ↦ some (err e) ]

-- What the other tasks of the service call while the heartbeat waits: those of `mark_ready` that raise
-- do so in the caller.
pub data OtherCall : Type 0 where
  marks_ready requests_stop : OtherCall

abbrev called : ServiceLifecycle → Result ServiceLifecycle → ServiceLifecycle
called s (ok s') = s'
called s (err e) = s

abbrev pub call : ServiceLifecycle → OtherCall → ServiceLifecycle
call s marks_ready = called s (mark_ready s)
call s requests_stop = request_stop s

unfoldable pub calls : ServiceLifecycle → List OtherCall → ServiceLifecycle
unfolding mark_ready request_stop
calls s [] = s
calls s (c ∷ cs) = calls (call s c) cs

-- What one round of the heartbeat meets: the other tasks' calls during its wait, and what the wait
-- answers or raises; the time that the clock tells; the other tasks' calls while the backend is sent
-- the heartbeat, and what the backend does.
pub record Tick : Type 0 where
  pub during_wait : List OtherCall
  pub waited : Result Bool
  pub time : Result Datetime
  pub during_beat : List OtherCall
  pub answer : Result (Unit {0})

-- A heartbeat that the backend was sent.
pub record Beat : Type 0 where
  pub sequence : ℕ
  pub heartbeat_at : Datetime

-- The state after a loop, the heartbeats that it sent, what it raised and whether it has ended.
pub record Round : Type 0 where
  pub state : ServiceLifecycle
  pub beats : List Beat
  pub raised : Option Error
  pub ended : Bool

abbrev pub returned_from : ServiceLifecycle → Round
returned_from s = record { state = s; beats = []; raised = none; ended = true }

-- The handler of the loop: the error is kept, a stop is requested, and the error is raised again.
abbrev pub raised_from : ServiceLifecycle → List Beat → Error → Round
raised_from s beats e = record { state = fail s e; beats = beats; raised = some e; ended = true }

-- `_utc(clock(), "service heartbeat")`.
unfoldable pub beat_time : Tick → Result Datetime
beat_time t = do at ← t.time; require_utc at "service heartbeat"; ok at

-- The states after the wait of a round and after its heartbeat.
abbrev pub woken : ServiceLifecycle → Tick → ServiceLifecycle
woken s t = calls s t.during_wait

abbrev pub answered : ServiceLifecycle → Tick → ServiceLifecycle
answered s t = calls (woken s t) t.during_beat

-- A round from the backend's answer on, with the rounds after it.
abbrev pub after_beat : ServiceLifecycle → Beat → Round → Result (Unit {0}) → Round
after_beat s b rest (ok done) = record rest { beats = b ∷ rest.beats }
after_beat s b rest (err e) = raised_from s (b ∷ []) e

-- A round from the clock on.
abbrev pub after_clock : ServiceLifecycle → Tick → ℕ → Round → Result Datetime → Round
after_clock s t sequence rest (ok at) =
    after_beat (answered s t) (record { sequence = sequence; heartbeat_at = at }) rest t.answer
after_clock s t sequence rest (err e) = raised_from (woken s t) [] e

-- A round from the wait on.
abbrev pub after_wait : ServiceLifecycle → Tick → ℕ → Round → Result Bool → Round
after_wait s t sequence rest (ok true) = returned_from (woken s t)
after_wait s t sequence rest (ok false) = after_clock s t sequence rest (beat_time t)
after_wait s t sequence rest (err e) = raised_from (woken s t) [] e

-- `_heartbeat_loop` over the rounds, with the sequence so far. Where the rounds run out while no stop
-- is requested, the loop is waiting.
unfoldable pub heartbeat_loop : ServiceLifecycle → ℕ → List Tick → Round
unfolding beat_time calls fail request_stop
heartbeat_loop s sequence [] = record {
  state = s;
  beats = [];
  raised = none;
  ended = s.stop_requested;
}
heartbeat_loop s sequence (t ∷ ts) =
    let rest = heartbeat_loop (answered s t) (sequence + 1) ts in
    if s.stop_requested then returned_from s else after_wait s t (sequence + 1) rest t.waited

-- How the service ends: `reason_code` of the stop that is registered.
pub data StopReason : Type 0 where
  service_failed service_stopped : StopReason

unfoldable pub reason_code : Option Error → Option Error → StopReason
reason_code none none = service_stopped
reason_code body heartbeat = service_failed

-- What the end of the service raises: the body's error, and else that of the heartbeat, of the
-- registration of the stop or of closing the backend, the first of them.
unfoldable pub raised_at_end :
    Option Error → Option Error → Option Error → Option Error → Option Error
raised_at_end (some body) heartbeat stop close = some body
raised_at_end none (some heartbeat) stop close = some heartbeat
raised_at_end none none (some stop) close = some stop
raised_at_end none none none close = close
