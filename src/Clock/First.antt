-- ===== src/Clock/First.antt =====
-- The first eligible event is the least of those observed after the order became eligible.
use maais.Base.{
  ◌≡◌, refl, true, false, ◌⊎◌, inl, inr, if◌then◌else◌, or_raise, ◌∙◌, List, [], ◌∷◌, Result, ok,
  err, lookup_error, keep, All, All-keep, In, In-keep, keep-nil, arith,
}
use maais.Domain.{before}
use maais.Clock.{OrderEligibility, ObservedEvent, key_lt, min_event, first_event, first_eligible}

-- The later of two events that are not out of order.
key_lt_trans :
    (a b c : ObservedEvent) → key_lt a b ≡ false → key_lt b c ≡ false → key_lt a c ≡ false
key_lt_trans a b c h g = ground arith

abbrev better : ObservedEvent → ObservedEvent → ObservedEvent
better best e = if key_lt e best then e else best

better-least :
    (best e : ObservedEvent)
    → (key_lt best (better best e) ≡ false)
      × (key_lt e (better best e) ≡ false)
      × ((better best e ≡ best) ⊎ (better best e ≡ e))
better-least best e = ground arith

min_event-least :
    (best : ObservedEvent) (es : List ObservedEvent)
    → (key_lt best (min_event best es) ≡ false) × All (λ d. key_lt d (min_event best es) ≡ false) es
unfolding min_event
min_event-least best [] = (ground arith, tt)
min_event-least best (e ∷ es) =
    let next = better best e in
    let (least, others) = min_event-least next es in
    let (before_best, before_e, _) = better-least best e in
    (
      key_lt_trans best next (min_event next es) before_best least,
      (key_lt_trans e next (min_event next es) before_e least, others),
    )

min_event-In : (best : ObservedEvent) (es : List ObservedEvent) → In (min_event best es) (best ∷ es)
unfolding min_event
min_event-In best [] = inl refl
min_event-In best (e ∷ es) = place (min_event-In (better best e) es) (better-least best e).2
  where
    place :
        {r : ObservedEvent}
        → In r (better best e ∷ es)
        → (better best e ≡ best) ⊎ (better best e ≡ e)
        → In r (best ∷ e ∷ es)
    place (inl p) (inl q) = inl (p ∙ q)
    place (inl p) (inr q) = inr (inl (p ∙ q))
    place (inr later) _ = inr (inr later)

-- What the search for an event returns: a listed event, observed strictly after the order became
-- eligible and not later, by time and then by sequence, than any other such event; or the lookup
-- error, when no listed event was observed after that instant.
abbrev pub Found : OrderEligibility → List ObservedEvent → Result ObservedEvent → Type 0
Found o es (ok e) =
    In e es
    × (before o.eligible_at e.observed_at ≡ true)
    × All (λ d. before o.eligible_at d.observed_at ≡ true → key_lt d e ≡ false) es
Found o es (err x) =
    (x ≡ lookup_error "no eligible observed market event")
    × All (λ d. before o.eligible_at d.observed_at ≡ false) es

Found-first :
    (o : OrderEligibility) (es kept : List ObservedEvent)
    → keep (λ d. before o.eligible_at d.observed_at) es ≡ kept
    → Found o es (or_raise (first_event kept) (lookup_error "no eligible observed market event"))
unfolding first_event
Found-first o es [] h = (refl, keep-nil (λ d. before o.eligible_at d.observed_at) es h)
Found-first o es (e ∷ kept) h =
    let later = λ (d : ObservedEvent). before o.eligible_at d.observed_at in
    let first = min_event e kept in
    let (least, others) = min_event-least e kept in
    let (listed, eligible) = In-keep later first es (rw h (min_event-In e kept)) in
    (listed, eligible, All-keep later (λ d. key_lt d first ≡ false) es (rw h (least, others)))

-- `first_eligible` finds the least event that was observed after the order became eligible, and
-- raises exactly when there is none.
pub first_eligible-Found :
    (o : OrderEligibility) (es : List ObservedEvent) → Found o es (first_eligible o es)
unfolding first_eligible
first_eligible-Found o es = Found-first o es _ refl
