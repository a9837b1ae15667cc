-- ===== src/KillSwitch/Tests.antt =====
-- Two halts with a wrong and a right reset after them.
use maais.Base.{◌≡◌, refl, true, false, List, [], ◌∷◌}
use maais.Domain.{Datetime}
use maais.KillSwitch.{new_switch}
use maais.KillSwitch.Safety.{
  Call, halts, resets, perform_all, halted_after, halts_in, Agrees, perform_all-Agrees,
}

abbrev noon : Datetime
noon = record { micros = 43200000000; utc = true }

abbrev calls : List Call
calls = halts "drawdown" noon ∷ resets "please" ∷ halts "again" noon ∷ []

halted_after-calls : halted_after true calls ≡ true
unfolding halted_after
halted_after-calls = refl

perform_all-Agrees_example :
    Agrees (halted_after false calls) (halts_in calls) (perform_all new_switch calls)
perform_all-Agrees_example = perform_all-Agrees calls
