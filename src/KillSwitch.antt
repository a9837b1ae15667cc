-- ===== src/KillSwitch.antt =====
-- maais/monitoring/kill_switch.py: the global halt flag. The time of a call is an argument, and what
-- is logged is left out.
pub mod Safety
mod Tests
use maais.Base.{ℕ, ◌+◌, Bool, true, false, not, Option, none, some, String, str_eq, if◌then◌else◌}
use maais.Domain.{Datetime}

abbrev pub reset_reason_code : String
reset_reason_code = "MANUAL_RESET_CONFIRMED"

pub record KillSwitch : Type 0 where
  pub halted : Bool
  pub halt_reason : Option String
  pub halt_time : Option Datetime
  pub halt_count : ℕ

abbrev pub new_switch : KillSwitch
new_switch = record { halted = false; halt_reason = none; halt_time = none; halt_count = 0 }

unfoldable pub halt : KillSwitch → String → Datetime → KillSwitch
halt s reason now = record {
  halted = true;
  halt_reason = some reason;
  halt_time = some now;
  halt_count = s.halt_count + 1;
}

-- The switch after the call, and whether it succeeded.
unfoldable pub reset : KillSwitch → String → KillSwitch × Bool
reset s reason_code =
    if not (str_eq reason_code reset_reason_code)
    then (s, false)
    else if not s.halted
    then (s, true)
    else (record s { halted = false; halt_reason = none; halt_time = none }, true)

abbrev pub is_halted : KillSwitch → Bool
is_halted s = s.halted
