-- ===== src/Integrity/Admitted.antt =====
-- Which frames are admitted, and which quarantine is an expected warm-up.
use maais.Base.{
  ℕ, ◌≡◌, ◌↔◌, refl, true, false, List, [], ◌∷◌, All, All-map, any, map, keep, keep-nil, is_nil,
  if◌then◌else◌, arith,
}
use maais.Quality.{is_passed}
use maais.Integrity.{IntegrityCheck, admitted, quarantined, IntegrityPolicy, IntegrityContext}
use maais.Integrity.Checks.{IntegrityResult}
use maais.Integrity.Assessment.{same, blocks, results_of, assess, evaluate}
use maais.Integrity.Trust.{Trustworthy, results-Trustworthy}

abbrev checks_of : List IntegrityResult → List IntegrityCheck
checks_of results = map (λ r. r.check) results

admitted_nil :
    (blocked : List IntegrityResult)
    → (if is_nil (checks_of blocked) then admitted else quarantined) ≡ admitted
    → blocked ≡ []
admitted_nil [] h = refl
admitted_nil (r ∷ rs) h = cc

module _ (p : IntegrityPolicy) where
  nothing_kept :
      (results : List IntegrityResult)
      → All (λ r. blocks p r ≡ false) results
      → keep (blocks p) results ≡ []
  nothing_kept [] h = refl
  nothing_kept (r ∷ rs) h = rw h.0 (nothing_kept rs h.1)

  assess_sound :
      (frame_id : ℕ) (results : List IntegrityResult)
      → (assess p frame_id results).admission ≡ admitted
      → All (λ r. blocks p r ≡ false) results
  unfolding assess
  assess_sound frame_id results h =
      keep-nil (blocks p) results (admitted_nil (keep (blocks p) results) h)

  assess_complete :
      (frame_id : ℕ) (results : List IntegrityResult)
      → All (λ r. blocks p r ≡ false) results
      → (assess p frame_id results).admission ≡ admitted
  unfolding assess
  assess_complete frame_id results h = rw (nothing_kept results h) refl

  required_passed :
      (r : IntegrityResult)
      → any (same r.check) p.required_checks ≡ true
      → blocks p r ≡ false
      → is_passed r.status ≡ true
  required_passed r required h = ground (arith, required, h)

  passed_open : (r : IntegrityResult) → is_passed r.status ≡ true → blocks p r ≡ false
  passed_open r h = ground (arith, h)

-- Under a policy that requires every check, a frame is admitted exactly when all eighteen checks have
-- passed on it.
pub evaluate-admitted :
    (p : IntegrityPolicy) (c : IntegrityContext)
    → ((check : IntegrityCheck) → any (same check) p.required_checks ≡ true)
    → ((evaluate p c).admission ≡ admitted) ↔ All (λ r. is_passed r.status ≡ true) (results_of p c)
unfolding evaluate
evaluate-admitted p c every = (
  λ h.
      All-map (λ r. blocks p r ≡ false) (λ r. is_passed r.status ≡ true)
        (λ r open_to. required_passed p r (every r.check) open_to) (results_of p c)
        (assess_sound p c.frame.frame_id (results_of p c) h),
  λ h. assess_complete p c.frame.frame_id (results_of p c) (
      All-map (λ r. is_passed r.status ≡ true) (λ r. blocks p r ≡ false) (λ r t. passed_open p r t)
        (results_of p c) h),
)

-- Under a policy that requires every check, an admitted frame has each required source, with an
-- allowed age that it does not exceed at the cutoff; its bar opens where the last one closed; its
-- sequences follow their rules; no source's time, unless it is a local observation, is skewed beyond
-- its limit; it is judged after its cutoff and within the allowed lag; the venue's clock agrees and
-- the book is recent; open and close lie between low and high, the volumes are not negative, the book
-- is not crossed and the symbol trades; the history is long enough and the return no outlier against
-- it; and the mark price is near the spot and the secondary price.
pub evaluate-Trustworthy :
    (p : IntegrityPolicy) (c : IntegrityContext)
    → ((check : IntegrityCheck) → any (same check) p.required_checks ≡ true)
    → (evaluate p c).admission ≡ admitted
    → Trustworthy p c
evaluate-Trustworthy p c every h = results-Trustworthy p c ((evaluate-admitted p c every).0 h)
