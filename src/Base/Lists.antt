-- ===== src/Base/Lists.antt =====
-- Lists measured by native numbers, and predicates and tests over them.
use Prim.Native.Nat.{ℕ, suc, ◌+◌}
use mathlib.Core.Path.{◌≡◌, refl}
use Prim.Native.String.{String}
use mathlib.Core.Bool.{Bool, true, false, not, ◌&&◌, ◌||◌}
use mathlib.Core.Option.{Option, none, some}
use mathlib.Core.List.{List, [], ◌∷◌, ◌++◌}
use mathlib.Core.Logic.{◌⊎◌, inl, inr}
use native.Mathlib.Omega.{arith}
use maais.Base.Tests.{if◌then◌else◌, Bool-cases, str_eq}

module _ {ℓ} {A : Type ℓ} where
  abbrev pub length : List A → ℕ
  length [] = 0
  length (x ∷ xs) = suc (length xs)

  abbrev pub is_nil : List A → Bool
  is_nil [] = true
  is_nil (x ∷ xs) = false

  -- The elements that pass a test, in order: a Python comprehension with a condition.
  abbrev pub keep : (A → Bool) → List A → List A
  keep p [] = []
  keep p (x ∷ xs) = if p x then x ∷ keep p xs else keep p xs

  abbrev pub any : (A → Bool) → List A → Bool
  any p [] = false
  any p (x ∷ xs) = p x || any p xs

  abbrev pub all : (A → Bool) → List A → Bool
  all p [] = true
  all p (x ∷ xs) = p x && all p xs

  -- `sorted(xs, key=...)`, which is stable.
  unfoldable pub insert_by : (A → A → Bool) → A → List A → List A
  insert_by lt x [] = x ∷ []
  insert_by lt x (y ∷ ys) = let rest = insert_by lt x ys in if lt y x then y ∷ rest else x ∷ y ∷ ys

  unfoldable pub sort_by : (A → A → Bool) → List A → List A
  unfolding insert_by
  sort_by lt [] = []
  sort_by lt (x ∷ xs) = insert_by lt x (sort_by lt xs)

-- `mapping.get(name)`, for a dict from texts.
unfoldable pub get {ℓ} : {A : Type ℓ} → String → List (String × A) → Option A
get name [] = none
get name ((key, value) ∷ rest) = if str_eq key name then some value else get name rest

-- `len(set(texts)) == len(texts)`.
unfoldable pub is_unique : List String → Bool
is_unique [] = true
is_unique (x ∷ xs) = not (any (str_eq x) xs) && is_unique xs

module _ {ℓ} {A : Type ℓ} where
  pub length-append : (xs ys : List A) → length (xs ++ ys) ≡ length xs + length ys
  length-append [] ys = omega arith
  length-append (x ∷ xs) ys = omega (arith, length-append xs ys)

-- A predicate on each element.
abbrev pub All {ℓ κ} : {A : Type ℓ} → (A → Type κ) → List A → Type κ
All P [] = Unit
All P (x ∷ xs) = P x × All P xs

pub All-append {ℓ κ} :
    {A : Type ℓ} (P : A → Type κ) (xs ys : List A) → All P xs → All P ys → All P (xs ++ ys)
All-append P [] ys hx hy = hy
All-append P (x ∷ xs) ys hx hy = (hx.0, All-append P xs ys hx.1 hy)

-- Membership, as the place where the element stands.
abbrev pub In : {A : Type 0} → A → List A → Type 0
In a [] = ⊥
In a (x ∷ xs) = (a ≡ x) ⊎ In a xs

module _ {A : Type 0} (p : A → Bool) where
  -- What holds of the elements that are kept holds of those that pass the test.
  pub All-keep : (P : A → Type 0) (xs : List A) → All P (keep p xs) → All (λ x. p x ≡ true → P x) xs
  All-keep P [] h = tt
  All-keep P (x ∷ xs) h = elim (Bool-cases (p x)) [
    | inl passes ↦ let g : All P (x ∷ keep p xs) = rw passes at h in ((λ _. g.0), All-keep P xs g.1)
    | inr fails ↦ let g : All P (keep p xs) = rw fails at h in ((λ t. cc), All-keep P xs g)
  ]

  -- An element that is kept is one of the list, and passes the test.
  pub In-keep : (a : A) (xs : List A) → In a (keep p xs) → In a xs × (p a ≡ true)
  In-keep a [] h = absurd h
  In-keep a (x ∷ xs) h = elim (Bool-cases (p x)) [
    | inl passes ↦
        let g : In a (x ∷ keep p xs) = rw passes at h in
        elim g [
          | inl e ↦ (inl e, rw e passes)
          | inr later ↦ let found = In-keep a xs later in (inr found.0, found.1)
        ]
    | inr fails ↦
        let g : In a (keep p xs) = rw fails at h in
        let found = In-keep a xs g in (inr found.0, found.1)
  ]

  -- Nothing is kept exactly when nothing passes.
  pub keep-nil : (xs : List A) → keep p xs ≡ [] → All (λ x. p x ≡ false) xs
  keep-nil [] h = tt
  keep-nil (x ∷ xs) h = ground (arith, keep-nil xs)

module _ {A : Type 0} (f : A → Bool) where
  -- `any` is false exactly when the test is false everywhere.
  pub none_of : (xs : List A) → any f xs ≡ false → All (λ x. f x ≡ false) xs
  none_of [] h = tt
  none_of (x ∷ xs) h = ground (arith, h, none_of xs)

  pub none_in :
      (P : A → Type 0) → ((x : A) → P x → f x ≡ false) → (xs : List A) → All P xs → any f xs ≡ false
  none_in P g [] h = refl
  none_in P g (x ∷ xs) h = rw (g x h.0) (none_in P g xs h.1)

pub All-map :
    {A : Type 0} (P Q : A → Type 0) → ((x : A) → P x → Q x) → (xs : List A) → All P xs → All Q xs
All-map P Q f [] h = tt
All-map P Q f (x ∷ xs) h = (f x h.0, All-map P Q f xs h.1)

pub All-both :
    {A : Type 0} (P Q : A → Type 0) (xs : List A) → All P xs → All Q xs → All (λ x. P x × Q x) xs
All-both P Q [] h g = tt
All-both P Q (x ∷ xs) h g = ((h.0, g.0), All-both P Q xs h.1 g.1)
