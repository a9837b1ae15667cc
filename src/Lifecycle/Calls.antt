-- ===== src/Lifecycle/Calls.antt =====
-- What the other tasks of a service do to it while its heartbeat waits.
use maais.Base.{◌≡◌, refl, Bool, true, false, ◌||◌, List, [], ◌∷◌, arith, sym, ap, ◌∙◌}
use maais.Lifecycle.{
  ServiceLifecycle, mark_ready, request_stop, OtherCall, marks_ready, requests_stop, call, calls,
  Tick, woken, answered,
}

abbrev pub stops : List OtherCall → Bool
stops [] = false
stops (marks_ready ∷ cs) = stops cs
stops (requests_stop ∷ cs) = true

-- The other tasks' calls request a stop or leave it, and leave the terminal error.
call-stop :
    (s : ServiceLifecycle) (c : OtherCall)
    → (call s c).stop_requested ≡ (s.stop_requested || stops (c ∷ []))
unfolding mark_ready request_stop
call-stop s marks_ready = ground arith
call-stop s requests_stop = ground arith

stops-first : (c : OtherCall) (cs : List OtherCall) → stops (c ∷ cs) ≡ (stops (c ∷ []) || stops cs)
stops-first marks_ready cs = refl
stops-first requests_stop cs = refl

call-error : (s : ServiceLifecycle) (c : OtherCall) → (call s c).terminal_error ≡ s.terminal_error
unfolding mark_ready request_stop
call-error s marks_ready = ground arith
call-error s requests_stop = refl

or_assoc : (a b c : Bool) → ((a || b) || c) ≡ (a || (b || c))
or_assoc true b c = refl
or_assoc false b c = refl

pub calls-stop :
    (s : ServiceLifecycle) (cs : List OtherCall)
    → (calls s cs).stop_requested ≡ (s.stop_requested || stops cs)
unfolding calls
calls-stop s [] = ground arith
calls-stop s (c ∷ cs) =
    calls-stop (call s c) cs
    ∙ ap (λ x. x || stops cs) (call-stop s c)
    ∙ or_assoc s.stop_requested (stops (c ∷ [])) (stops cs)
    ∙ ap (λ x. s.stop_requested || x) (sym (stops-first c cs))

pub calls-error :
    (s : ServiceLifecycle) (cs : List OtherCall) → (calls s cs).terminal_error ≡ s.terminal_error
unfolding calls
calls-error s [] = refl
calls-error s (c ∷ cs) = calls-error (call s c) cs ∙ call-error s c

pub answered-stop :
    (s : ServiceLifecycle) (t : Tick)
    → (answered s t).stop_requested
      ≡ (s.stop_requested || (stops t.during_wait || stops t.during_beat))
answered-stop s t =
    calls-stop (woken s t) t.during_beat
    ∙ ap (λ x. x || stops t.during_beat) (calls-stop s t.during_wait)
    ∙ or_assoc s.stop_requested (stops t.during_wait) (stops t.during_beat)

pub answered-error :
    (s : ServiceLifecycle) (t : Tick) → (answered s t).terminal_error ≡ s.terminal_error
answered-error s t = calls-error (woken s t) t.during_beat ∙ calls-error s t.during_wait
