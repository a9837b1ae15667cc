-- ===== src/Authorization/Window.antt =====
-- When a capability is valid.
use maais.Base.{◌≤◌, ◌≡◌, Bool, true, false, Result, ok, err, is_ascii, eq_iff, arith}
use maais.Domain.{Datetime}
use maais.Authorization.{
  AuthorizationClaims, ExecutionCapability, Signer, not_ascii, compare_digest, issue, verify,
}

-- A time inside the window of the claims, both ends included.
pub record InWindow (c : AuthorizationClaims) (at : Datetime) : Type 0 where
  pub issued : c.issued_at.micros ≤ at.micros
  pub unexpired : at.micros ≤ c.expires_at.micros

-- What a verification in UTC does: yes exactly inside the window and with the signature of the
-- claims, and an exception exactly inside the window with a text that is not ASCII.
abbrev pub Answers : Signer → ExecutionCapability → Datetime → Result Bool → Type 0
Answers sign k at (ok true) = InWindow k.claims at × (k.signature ≡ sign.signature k.claims)
Answers sign k at (ok false) =
    ((InWindow k.claims at × (k.signature ≡ sign.signature k.claims)) → ⊥)
    × (InWindow k.claims at → is_ascii k.signature ≡ true)
Answers sign k at (err e) = InWindow k.claims at × (is_ascii k.signature ≡ false) × (e ≡ not_ascii)

-- A verification at a time in UTC answers yes exactly when the time is in the window of the claims,
-- both ends included, and the capability has the claims' signature. It raises a type error exactly
-- when the time is in the window and the capability's signature is not ASCII; else it answers no.
pub verify-Answers :
    (sign : Signer) (k : ExecutionCapability) (at : Datetime)
    → at.utc ≡ true
    → Answers sign k at (verify sign k at)
unfolding verify compare_digest
verify-Answers sign k at utc =
    ground (arith, eq_iff (sign.signature k.claims) k.signature, sign.ascii k.claims)

-- A capability that was issued is verified at every time in UTC from its issue to its expiry, and was
-- issued only on a passed gate chain.
pub verify-issue :
    (sign : Signer) (c : AuthorizationClaims) (passed : Bool) (at : Datetime)
    {k : ExecutionCapability}
    → issue sign c passed ≡ ok k
    → at.utc ≡ true
    → InWindow c at
    → (passed ≡ true) × (verify sign k at ≡ ok true)
unfolding issue verify compare_digest
verify-issue sign c passed at h utc w =
    ground (arith, eq_iff (sign.signature c) (sign.signature c), sign.ascii c)
