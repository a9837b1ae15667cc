-- ===== src/Base/Raise.antt =====
-- Python exceptions as values: a call returns a result or the exception that it raises, by its
-- class and its message.
use Prim.Native.String.{String}
use mathlib.Core.Path.{◌≡◌, refl}
use mathlib.Core.Bool.{Bool, true, false}
use mathlib.Core.Option.{Option, none, some}

pub data Error : Type 0 where
  value_error runtime_error lookup_error arithmetic_error permission_error type_error :
      String → Error
  cancelled_error : String → Error
  illegal_transition insufficient_margin filter_rejection : String → Error
  fill_rejection exit_halt : String → Option String → Error

pub data Result {ℓ} (Value : Type ℓ) : Type ℓ where
  err : Error → Result Value
  ok : Value → Result Value

-- Total correctness: the call returns, and its value has the property.
abbrev pub Ensures {ℓ} : {Value : Type ℓ} → (Value → Type 0) → Result Value → Type 0
Ensures P (ok value) = P value
Ensures P (err raised) = ⊥

pub Ensures-map :
    {A : Type 0} (P Q : A → Type 0)
    → ((x : A) → P x → Q x)
    → (r : Result A) → Ensures P r
    → Ensures Q r
Ensures-map P Q f (ok a) h = f a h
Ensures-map P Q f (err e) h = absurd h

-- The statement after a call runs unless the call raises.
abbrev pub ◌>>=◌ {ℓ κ} :
    {Value : Type ℓ} {Next : Type κ} → Result Value → (Value → Result Next) → Result Next
err raised >>= next = err raised
ok value >>= next = next value

-- `if c: raise e`.
abbrev pub raise_if : Bool → Error → Result (Unit {0})
raise_if true e = err e
raise_if false e = ok tt

abbrev pub ◌>>◌ {κ} : {Next : Type κ} → Result (Unit {0}) → Result Next → Result Next
call >> next = call >>= λ _. next

infixl 5 ◌>>=◌ ◌>>◌
abbrev pub or_raise {ℓ} : {Value : Type ℓ} → Option Value → Error → Result Value
or_raise none e = err e
or_raise (some value) e = ok value

-- A statement that returns after a call: the call returned too.
pub returned {ℓ κ} :
    {Value : Type ℓ} {Next : Type κ} (call : Result Value) (next : Value → Result Next) {out : Next}
    → (call >>= next) ≡ ok out
    → (value : Value) × (call ≡ ok value) × (next value ≡ ok out)
returned (err raised) next h = cc
returned (ok value) next h = (value, refl, h)

pub ok-injective {ℓ} : {Value : Type ℓ} {a b : Value} → ok a ≡ ok b → a ≡ b
ok-injective h = cc
