-- ===== src/Authorization/Tests.antt =====
-- A capability that is valid for ten microseconds.
use maais.Base.{ℕ, ◌≡◌, refl, true, ok, err, String, is_ascii, arith}
use maais.Decimal.{whole}
use maais.Domain.{Datetime, PaperOrderSide, buy, sell}
use maais.Authorization.{
  AuthorizationClaims, ExecutionCapability, Signer, not_ascii, compare_digest, issue, verify,
}
use maais.Authorization.Window.{Answers, verify-Answers, verify-issue}

abbrev instant : ℕ → Datetime
instant t = record { micros = t; utc = true }

abbrev claims : AuthorizationClaims
claims = record {
  experiment_id = 1;
  decision_cycle_id = 2;
  proposal_id = 3;
  gate_chain_hash = "hash";
  symbol = "BTCUSDT";
  side = buy;
  quantity = whole 1;
  approved_notional = whole 100;
  issued_at = instant 10;
  expires_at = instant 20;
}

abbrev digest_of : PaperOrderSide → String
digest_of buy = "b1"
digest_of sell = "5e"

digest_of-is_ascii : (side : PaperOrderSide) → is_ascii (digest_of side) ≡ true
unfolding is_ascii
digest_of-is_ascii buy = refl
digest_of-is_ascii sell = refl

abbrev sign : Signer
sign = record { signature = λ c. digest_of c.side; ascii = λ c. digest_of-is_ascii c.side }

abbrev capability : ExecutionCapability
capability = record { claims = claims; signature = "b1" }

-- A forged signature with a letter that is not ASCII.
verify-forged : verify sign (record capability { signature = "é1" }) (instant 20) ≡ err not_ascii
unfolding verify compare_digest is_ascii
verify-forged = refl

verify-Answers_example : Answers sign capability (instant 20) (verify sign capability (instant 20))
verify-Answers_example = verify-Answers sign capability (instant 20) refl

verify-issue_example : (true ≡ true) × (verify sign capability (instant 20) ≡ ok true)
unfolding issue
verify-issue_example =
    verify-issue sign claims true (instant 20) refl refl
      (record { issued = omega arith; unexpired = omega arith })
