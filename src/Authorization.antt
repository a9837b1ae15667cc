-- ===== src/Authorization.antt =====
-- maais/execution/paper/authorization.py: capabilities for one approved proposal. The signature of the
-- claims, the hexadecimal text of a keyed hash of their canonical form, is a parameter, of which the
-- code relies on its being ASCII.
pub mod Window
mod Tests
use maais.Base.{
  text_length, ℕ, Bool, false, not, ◌||◌, String, Result, ok, err, ◌>>=◌, ◌>>◌, raise_if,
  value_error, permission_error, type_error, Error, is_ascii, ◌&&◌, ◌≡◌, true, is_empty, str_eq,
  ◌==◌, if◌then◌else◌,
}
use maais.Decimal.{Decimal}
use maais.Domain.{PaperOrderSide, Datetime, before, require_utc, require_positive_decimal}

pub record AuthorizationClaims : Type 0 where
  pub experiment_id : ℕ
  pub decision_cycle_id : ℕ
  pub proposal_id : ℕ
  pub gate_chain_hash : String
  pub symbol : String
  pub side : PaperOrderSide
  pub quantity : Decimal
  pub approved_notional : Decimal
  pub issued_at : Datetime
  pub expires_at : Datetime

unfoldable pub make_claims : AuthorizationClaims → Result AuthorizationClaims
make_claims c = do
  raise_if (not (text_length c.gate_chain_hash == 64))
      (value_error "gate_chain_hash must be a SHA-256 hex digest")
  raise_if (is_empty c.symbol) (value_error "symbol is required")
  require_positive_decimal c.quantity "quantity"
  require_positive_decimal c.approved_notional "approved_notional"
  require_utc c.issued_at "issued_at"
  require_utc c.expires_at "expires_at"
  raise_if (not (before c.issued_at c.expires_at)) (value_error "expires_at must follow issued_at")
  ok c

pub record ExecutionCapability : Type 0 where
  pub claims : AuthorizationClaims
  pub signature : String

-- `_signature` with the authorizer's key.
pub record Signer : Type 0 where
  pub signature : AuthorizationClaims → String
  pub ascii : (claims : AuthorizationClaims) → is_ascii (signature claims) ≡ true

abbrev pub not_ascii : Error
not_ascii = type_error "comparing strings with non-ASCII characters is not supported"

-- `hmac.compare_digest` of two texts, as its documentation describes it.
unfoldable pub compare_digest : String → String → Result Bool
compare_digest a b = do raise_if (not (is_ascii a && is_ascii b)) not_ascii; ok (str_eq a b)

unfoldable pub issue : Signer → AuthorizationClaims → Bool → Result ExecutionCapability
issue sign claims all_gates_passed = do
  raise_if (not all_gates_passed)
      (permission_error "execution capability requires a passed gate chain")
  ok (record { claims = claims; signature = sign.signature claims })

unfoldable pub verify : Signer → ExecutionCapability → Datetime → Result Bool
unfolding compare_digest
verify sign capability at = do
  require_utc at "verification time"
  if before capability.claims.expires_at at || before at capability.claims.issued_at
      then ok false
      else compare_digest (sign.signature capability.claims) capability.signature
