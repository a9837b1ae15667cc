-- ===== src/Lifecycle/Rounds.antt =====
-- The heartbeat of a service, round by round.
use maais.Base.{
  ℕ, suc, ◌+◌, ◌≤◌, ◌≡◌, refl, Bool, true, false, if_cases, ◌||◌, List, [], ◌∷◌, length, any, All,
  none, some, Result, ok, err, Error, runtime_error, arith, sym, ap, ◌∙◌,
}
use maais.Domain.{Datetime}
use maais.Lifecycle.Calls.{stops, calls-stop, calls-error, answered-stop, answered-error}
use maais.Lifecycle.{
  ServiceLifecycle, ready, mark_ready, request_stop, fail, wait_until_stopped, calls, Tick, Beat,
  Round, beat_time, woken, answered, raised_from, after_beat, after_clock, after_wait,
  heartbeat_loop,
}

-- The sequence numbers follow `n`, one by one.
abbrev pub Numbered : ℕ → List Beat → Type 0
Numbered n [] = Unit
Numbered n (b ∷ bs) = (b.sequence ≡ n + 1) × Numbered (n + 1) bs

abbrev pub fails {ℓ} : {A : Type ℓ} → Result A → Bool
fails (ok a) = false
fails (err e) = true

abbrev pub answers_stop : Result Bool → Bool
answers_stop (ok b) = b
answers_stop (err e) = false

-- A round whose wait, clock or backend raises, where it comes that far.
abbrev pub raises : Tick → Bool
raises t = fails t.waited || (fails (beat_time t) || fails t.answer)

-- The round ends the loop: a stop was requested in it, its wait answers that one was, or it raises.
abbrev pub ends : Tick → Bool
ends t = stops t.during_wait || (stops t.during_beat || (answers_stop t.waited || raises t))

-- The wait answers that a stop was requested only if one was.
abbrev pub Truthful : Tick → Type 0
Truthful t = t.waited ≡ ok true → stops t.during_wait ≡ true

-- The service after the other tasks' calls of all rounds.
unfoldable pub after_calls : ServiceLifecycle → List Tick → ServiceLifecycle
unfolding calls
after_calls s [] = s
after_calls s (t ∷ ts) = after_calls (answered s t) ts

-- A state in which the service is over, with the error that a waiter gets.
pub record Over (s : ServiceLifecycle) (e : Error) : Type 0 where
  pub waiter : wait_until_stopped s ≡ some (err e)
  pub unready : ready s ≡ false
  pub stays : mark_ready s ≡ err (runtime_error "stopped service cannot become ready")

-- What a loop of the heartbeat has done.
pub record Runs (s : ServiceLifecycle) (n : ℕ) (ts : List Tick) (r : Round) : Type 0 where
  pub numbered : Numbered n r.beats
  pub bounded : length r.beats ≤ length ts
  pub ending : r.ended ≡ (s.stop_requested || any ends ts)
  pub waiting : r.ended ≡ false → (length r.beats ≡ length ts) × (r.state ≡ after_calls s ts)
  pub stopped : r.ended ≡ true → r.state.stop_requested ≡ true
  pub failed : (e : Error) → r.raised ≡ some e → Over r.state e
  pub quiet : any raises ts ≡ false → r.raised ≡ none
  pub clean : r.raised ≡ none → r.state.terminal_error ≡ s.terminal_error

fail-Over : (s : ServiceLifecycle) (e : Error) → Over (fail s e) e
unfolding fail request_stop wait_until_stopped ready mark_ready
fail-Over s e = record { waiter = refl; unready = refl; stays = refl }

fail-stopped : (s : ServiceLifecycle) (e : Error) → (fail s e).stop_requested ≡ true
unfolding fail request_stop
fail-stopped s e = refl

-- The handler's round, where the round has raised.
raised-Runs :
    (s s' : ServiceLifecycle) (n : ℕ) (t : Tick) (ts : List Tick) (e : Error) (bs : List Beat)
    → Numbered n bs
    → length bs ≤ 1
    → raises t ≡ true
    → Runs s n (t ∷ ts) (raised_from s' bs e)
raised-Runs s s' n t ts e bs numbered bounded h = record {
  numbered = numbered;
  bounded = omega (arith, bounded);
  ending = sym (
      ended_by s.stop_requested (stops t.during_wait) (stops t.during_beat) (answers_stop t.waited)
        (raises t) (any ends ts) h);
  waiting = λ open_yet. cc;
  stopped = λ over. fail-stopped s' e;
  failed = λ e' raised. rw⁻¹ (some_injective raised) (fail-Over s' e);
  quiet = λ none_raises. absurd (noisy (raises t) (any raises ts) h none_raises);
  clean = λ none_raised. cc;
}
  where
    ended_by : (a b c d r z : Bool) → r ≡ true → (a || ((b || (c || (d || r))) || z)) ≡ true
    ended_by a b c d r z h = ground (arith, h)

    noisy : (a z : Bool) → a ≡ true → (a || z) ≡ false → ⊥
    noisy a z h g = ground (arith, h, g)

    some_injective : {a b : Error} → some a ≡ some b → a ≡ b
    some_injective h = cc

-- The other branches of a round.
module _ (s : ServiceLifecycle) (n : ℕ) (t : Tick) (ts : List Tick) (rest : Round)
    (running : s.stop_requested ≡ false) (later : Runs (answered s t) (n + 1) ts rest) where
  beat-Runs :
      (at : Datetime)
      → t.waited ≡ ok false
      → beat_time t ≡ ok at
      → (x : Result (Unit {0})) → t.answer ≡ x
      → Runs s n
          (t ∷ ts)
          (after_beat (answered s t) (record { sequence = n + 1; heartbeat_at = at }) rest x)
  unfolding after_calls
  beat-Runs at waited told (err e) same =
      raised-Runs s (answered s t) n t ts e _ (refl, tt) (omega arith)
        (third (fails t.waited) (fails (beat_time t)) (fails t.answer) (ap fails same))
    where
      third : (a b c : Bool) → c ≡ true → (a || (b || c)) ≡ true
      third a b c h = ground (arith, h)
  beat-Runs at waited told (ok done) same = record {
    numbered = (refl, later.numbered);
    bounded = omega (arith, later.bounded);
    ending =
        later.ending
        ∙ ap (λ x. x || any ends ts) (answered-stop s t)
        ∙ ending_by s.stop_requested (stops t.during_wait) (stops t.during_beat)
            (answers_stop t.waited) (raises t) (any ends ts) (ap answers_stop waited) calm;
    waiting = λ open_yet. (ap suc (later.waiting open_yet).0, (later.waiting open_yet).1);
    stopped = later.stopped;
    failed = later.failed;
    quiet = λ none_raises. later.quiet (tail_of (raises t) (any raises ts) none_raises);
    clean = λ none_raised. later.clean none_raised ∙ answered-error s t;
  }
    where
      ending_by :
          (a b c d r z : Bool)
          → d ≡ false
          → r ≡ false
          → ((a || (b || c)) || z) ≡ (a || ((b || (c || (d || r))) || z))
      ending_by a b c d r z h g = ground (arith, h, g)

      none_of_three : (a b c : Bool) → a ≡ false → b ≡ false → c ≡ false → (a || (b || c)) ≡ false
      none_of_three a b c h1 h2 h3 = ground (arith, h1, h2, h3)

      calm : raises t ≡ false
      calm =
          none_of_three (fails t.waited) (fails (beat_time t)) (fails t.answer) (ap fails waited)
            (ap fails told) (ap fails same)

      tail_of : (a b : Bool) → (a || b) ≡ false → b ≡ false
      tail_of a b h = ground (arith, h)

  clock-Runs :
      t.waited ≡ ok false
      → (x : Result Datetime) → beat_time t ≡ x
      → Runs s n (t ∷ ts) (after_clock s t (n + 1) rest x)
  clock-Runs waited (ok at) told = beat-Runs at waited told t.answer refl
  clock-Runs waited (err e) told =
      raised-Runs s (woken s t) n t ts e [] tt (omega arith)
        (second (fails t.waited) (fails (beat_time t)) (fails t.answer) (ap fails told))
    where
      second : (a b c : Bool) → b ≡ true → (a || (b || c)) ≡ true
      second a b c h = ground (arith, h)

  wait-Runs :
      Truthful t
      → (x : Result Bool) → t.waited ≡ x
      → Runs s n (t ∷ ts) (after_wait s t (n + 1) rest x)
  wait-Runs truthful (ok false) same = clock-Runs same (beat_time t) refl
  wait-Runs truthful (err e) same =
      raised-Runs s (woken s t) n t ts e [] tt (omega arith) (rw same refl)
  wait-Runs truthful (ok true) same = record {
    numbered = tt;
    bounded = omega arith;
    ending = sym (
        ended_by s.stop_requested (stops t.during_wait) (stops t.during_beat)
          (answers_stop t.waited) (raises t) (any ends ts) (truthful same));
    waiting = λ open_yet. cc;
    stopped = λ over.
        calls-stop s t.during_wait ∙ either s.stop_requested (stops t.during_wait) (truthful same);
    failed = λ e raised. cc;
    quiet = λ none_raises. refl;
    clean = λ none_raised. calls-error s t.during_wait;
  }
    where
      ended_by : (a b c d r z : Bool) → b ≡ true → (a || ((b || (c || (d || r))) || z)) ≡ true
      ended_by a b c d r z h = ground (arith, h)

      either : (a b : Bool) → b ≡ true → (a || b) ≡ true
      either a b h = ground (arith, h)

-- From any state of a service, and whatever its rounds and its other tasks do, as long as a wait
-- answers that a stop was requested only if one was: the heartbeat numbers what it sends one by one and
-- sends at most one for each round. It ends exactly when a stop was requested before, or in one of the
-- rounds, or when in one of them the wait, the clock or the backend raises. While it has not ended it
-- has sent one heartbeat for each round, and only the other tasks have changed the service; once it has
-- ended a stop is requested. When it raised, a waiter gets that error, and the service is not ready and
-- cannot become ready again; when no round raises it raises nothing, and when it raised nothing it left
-- the terminal error as it was.
pub heartbeat_loop-Runs :
    (s : ServiceLifecycle) (n : ℕ) (ts : List Tick)
    → All Truthful ts
    → Runs s n ts (heartbeat_loop s n ts)
unfolding heartbeat_loop after_calls
heartbeat_loop-Runs s n [] truthful = record {
  numbered = tt;
  bounded = omega arith;
  ending = ground arith;
  waiting = λ open_yet. (refl, refl);
  stopped = λ over. over;
  failed = λ e raised. cc;
  quiet = λ none_raises. refl;
  clean = λ none_raised. refl;
}
heartbeat_loop-Runs s n (t ∷ ts) truthful =
    if_cases (Runs s n (t ∷ ts)) s.stop_requested
      (λ over. record {
        numbered = tt;
        bounded = omega arith;
        ending = rw over refl;
        waiting = λ open_yet. cc;
        stopped = λ ended. over;
        failed = λ e raised. cc;
        quiet = λ none_raises. refl;
        clean = λ none_raised. refl;
      })
      (λ running.
        wait-Runs s n t ts (heartbeat_loop (answered s t) (n + 1) ts) running
          (heartbeat_loop-Runs (answered s t) (n + 1) ts truthful.1) truthful.0 t.waited refl)
