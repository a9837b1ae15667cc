-- ===== src/KillSwitch/Safety.antt =====
-- The halt flag over a history of calls.
use maais.Base.{
  ℕ, ◌+◌, ◌≡◌, refl, subst, Bool, true, false, not, ◌&&◌, is_some, String, str_eq, List, [], ◌∷◌,
  arith,
}
use maais.Domain.{Datetime}
use maais.KillSwitch.{KillSwitch, new_switch, reset_reason_code, halt, reset, is_halted}

pub data Call : Type 0 where
  halts : String → Datetime → Call
  resets : String → Call

unfoldable pub perform : KillSwitch → Call → KillSwitch
unfolding halt reset
perform s (halts reason now) = halt s reason now
perform s (resets reason_code) = (reset s reason_code).0

unfoldable pub perform_all : KillSwitch → List Call → KillSwitch
unfolding perform
perform_all s [] = s
perform_all s (c ∷ cs) = perform_all (perform s c) cs

-- Whether a history leaves the switch halted: the last halt came after the last reset that gave the
-- right code.
unfoldable pub halted_after : Bool → List Call → Bool
halted_after b [] = b
halted_after b (halts reason now ∷ cs) = halted_after true cs
halted_after b (resets code ∷ cs) = halted_after (b && not (str_eq code reset_reason_code)) cs

unfoldable pub halts_in : List Call → ℕ
halts_in [] = 0
halts_in (halts reason now ∷ cs) = 1 + halts_in cs
halts_in (resets code ∷ cs) = halts_in cs

-- The fields after a history, against the history alone; a reason and a time are kept exactly while
-- the switch is halted.
pub record Agrees (b : Bool) (n : ℕ) (s : KillSwitch) : Type 0 where
  pub is_halted_now : is_halted s ≡ b
  pub count : s.halt_count ≡ n
  pub reason_kept : is_some s.halt_reason ≡ b
  pub time_kept : is_some s.halt_time ≡ b

halt-Agrees :
    (b : Bool) (n : ℕ) (s : KillSwitch) (reason : String) (now : Datetime)
    → Agrees b n s
    → Agrees true (n + 1) (halt s reason now)
unfolding halt
halt-Agrees b n s reason now h = ground (arith, h)

reset-Agrees :
    (b : Bool) (n : ℕ) (s : KillSwitch) (code : String)
    → Agrees b n s
    → Agrees (b && not (str_eq code reset_reason_code)) n (reset s code).0
unfolding reset
reset-Agrees b n s code h = ground (arith, h)

perform_all_from :
    (b : Bool) (n : ℕ) (s : KillSwitch) (cs : List Call)
    → Agrees b n s
    → Agrees (halted_after b cs) (n + halts_in cs) (perform_all s cs)
unfolding perform_all halted_after halts_in
perform_all_from b n s [] h = subst (λ m. Agrees b m s) (omega arith) h
perform_all_from b n s (halts reason now ∷ cs) h =
    subst (λ m. Agrees (halted_after true cs) m (perform_all (halt s reason now) cs)) (omega arith)
      (perform_all_from true (n + 1) (halt s reason now) cs (halt-Agrees b n s reason now h))
perform_all_from b n s (resets code ∷ cs) h =
    perform_all_from (b && not (str_eq code reset_reason_code)) n (reset s code).0 cs
      (reset-Agrees b n s code h)

-- After any calls on a new switch it is halted exactly when a halt was called and no reset with the
-- reason code came after the last one; the count is that of the halts, and a reason and a time are
-- kept exactly while it is halted.
pub perform_all-Agrees :
    (cs : List Call) → Agrees (halted_after false cs) (halts_in cs) (perform_all new_switch cs)
perform_all-Agrees cs =
    subst (λ m. Agrees (halted_after false cs) m (perform_all new_switch cs)) (omega arith)
      (perform_all_from false 0 new_switch cs
        (record { is_halted_now = refl; count = refl; reason_kept = refl; time_kept = refl }))
