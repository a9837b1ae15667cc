-- ===== src/Quality.antt =====
-- `QualityStatus` of maais/domain/enums.py, and what the gate results of maais/risk/official.py,
-- maais/monitoring/admission.py and maais/market_data/integrity/state_machine.py share: a check, its
-- status and the code of its reason. The JSON details of a gate are left out; a reason's code is a
-- constant, so the guard against an empty one has nothing to refuse.
use maais.Base.{
  ℕ, ◌==◌, ◌≡◌, refl, Bool, true, false, ◌&&◌, not, String, List, [], ◌∷◌, map, keep, is_nil,
  Option, none, some, is_none, arith,
}

pub data QualityStatus : Type 0 where
  passed failed not_applicable : QualityStatus

abbrev pub is_passed : QualityStatus → Bool
is_passed passed = true
is_passed failed = false
is_passed not_applicable = false

abbrev pub is_failed : QualityStatus → Bool
is_failed passed = false
is_failed failed = true
is_failed not_applicable = false

pub record Gate (Check : Type 0) : Type 0 where
  pub check : Check
  pub status : QualityStatus
  pub reason_code : String

module _ {Check : Type 0} where
  abbrev pub gate : Check → QualityStatus → String → Gate Check
  gate check status reason_code = record {
    check = check;
    status = status;
    reason_code = reason_code;
  }

  -- `PASSED if b else FAILED`, with a reason for each.
  abbrev pub verdict : Check → Bool → String → String → Gate Check
  verdict check true good bad = gate check passed good
  verdict check false good bad = gate check failed bad

  -- `all(item.status is PASSED for item in gates)`.
  unfoldable pub all_passed : List (Gate Check) → Bool
  all_passed [] = true
  all_passed (g ∷ gs) = is_passed g.status && all_passed gs

  -- The reason of the first gate that has not passed.
  unfoldable pub first_blocked : List (Gate Check) → Option String
  first_blocked [] = none
  first_blocked (g ∷ gs) =
      let rest = first_blocked gs in
      elim (is_passed g.status) [ true ↦ rest | false ↦ some g.reason_code ]

  -- `tuple(item.check for item in gates if item.status is not PASSED)`.
  unfoldable pub blocking : List (Gate Check) → List Check
  blocking gates = map (λ g. g.check) (keep (λ g. not (is_passed g.status)) gates)

  -- `tuple(item.check for item in gates) == checks`, for checks that are told apart by an index.
  unfoldable pub in_order : (Check → ℕ) → List Check → List (Gate Check) → Bool
  in_order index [] [] = true
  in_order index [] (g ∷ gs) = false
  in_order index (check ∷ checks) [] = false
  in_order index (check ∷ checks) (g ∷ gs) =
      index g.check == index check && in_order index checks gs

  -- Two tuples of checks are equal.
  unfoldable pub same_checks : (Check → ℕ) → List Check → List Check → Bool
  same_checks index [] [] = true
  same_checks index [] (b ∷ bs) = false
  same_checks index (a ∷ xs) [] = false
  same_checks index (a ∷ xs) (b ∷ bs) = index a == index b && same_checks index xs bs

  pub same_checks_refl :
      (index : Check → ℕ) (checks : List Check) → same_checks index checks checks ≡ true
  unfolding same_checks
  same_checks_refl index [] = refl
  same_checks_refl index (a ∷ xs) = ground (arith, same_checks_refl index xs)

  -- Nothing blocks exactly when all gates have passed.
  pub blocking-all_passed : (gates : List (Gate Check)) → is_nil (blocking gates) ≡ all_passed gates
  unfolding blocking all_passed
  blocking-all_passed [] = refl
  blocking-all_passed (g ∷ gs) = ground (arith, blocking-all_passed gs)

  pub first_blocked-all_passed :
      (gates : List (Gate Check)) → is_none (first_blocked gates) ≡ all_passed gates
  unfolding first_blocked all_passed
  first_blocked-all_passed [] = refl
  first_blocked-all_passed (g ∷ gs) = ground (arith, first_blocked-all_passed gs)
