-- ===== src/Returns.antt =====
-- The value of a call that is known to return, for the tests of the modules.
use maais.Base.{◌≡◌, refl, Bool, true, false, Result, ok, err}

abbrev pub is_ok {ℓ} : {A : Type ℓ} → Result A → Bool
is_ok (ok a) = true
is_ok (err e) = false

abbrev impossible {ℓ} : {A : Type ℓ} → false ≡ true → A
impossible h = cc

abbrev pub value_of {ℓ} : {A : Type ℓ} (x : Result A) → is_ok x ≡ true → A
value_of (ok a) h = a
value_of (err e) h = impossible h

pub value_of-ok {ℓ} : {A : Type ℓ} (x : Result A) (h : is_ok x ≡ true) → x ≡ ok (value_of x h)
value_of-ok (ok a) h = refl
value_of-ok (err e) h = cc
