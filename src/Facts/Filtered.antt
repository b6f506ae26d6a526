-- ===== src/Facts/Filtered.antt =====
-- Leaving out observations and ordering them can be done in either order.
use fineract_ai_reports.Prelude.{
  Bool-cases, string_eq, nat_eq, filter, All, int_eq, ◌≡◌, refl, sym, ap, ◌∙◌, inl, inr, Bool, true,
  false, List, [], ◌∷◌,
}
use fineract_ai_reports.Facts.{FactObservation}
use fineract_ai_reports.Facts.Ordered.{
  not_after, insert_observation, ordered, not_after_total, not_after_trans,
}

abbrev IsFirst : FactObservation → List FactObservation → Type 0
IsFirst o os = All (λ p. not_after o p ≡ true) os

abbrev IsOrdered : List FactObservation → Type 0
IsOrdered [] = Unit
IsOrdered (o ∷ os) = IsFirst o os × IsOrdered os

IsFirst-trans :
    (o p : FactObservation) (os : List FactObservation)
    → not_after o p ≡ true
    → IsFirst p os
    → IsFirst o os
IsFirst-trans o p [] h k = tt
IsFirst-trans o p (q ∷ os) h k = (not_after_trans o p q h k.0, IsFirst-trans o p os h k.1)

IsFirst-insert_observation :
    (x o : FactObservation) (os : List FactObservation)
    → not_after x o ≡ true
    → IsFirst x os
    → IsFirst x (insert_observation o os)
unfolding insert_observation
IsFirst-insert_observation x o [] h k = (h, tt)
IsFirst-insert_observation x o (p ∷ os) h k = elim (Bool-cases (not_after o p)) [
  | inl t ↦ rw t (h, k)
  | inr f ↦ rw f (k.0, IsFirst-insert_observation x o os h k.1)
]

insert_observation-IsOrdered :
    (o : FactObservation) (os : List FactObservation)
    → IsOrdered os
    → IsOrdered (insert_observation o os)
unfolding insert_observation
insert_observation-IsOrdered o [] h = (tt, tt)
insert_observation-IsOrdered o (p ∷ os) h = elim (Bool-cases (not_after o p)) [
  | inl t ↦ rw t ((t, IsFirst-trans o p os t h.0), h)
  | inr f ↦ rw f (
    IsFirst-insert_observation p o os (not_after_total o p f) h.0,
    insert_observation-IsOrdered o os h.1,
  )
]

ordered-IsOrdered : (os : List FactObservation) → IsOrdered (ordered os)
unfolding ordered
ordered-IsOrdered [] = tt
ordered-IsOrdered (o ∷ os) = insert_observation-IsOrdered o (ordered os) (ordered-IsOrdered os)

insert_observation_first :
    (o : FactObservation) (os : List FactObservation)
    → IsFirst o os
    → insert_observation o os ≡ o ∷ os
unfolding insert_observation
insert_observation_first o [] h = refl
insert_observation_first o (p ∷ os) h = rw h.0 refl

filter-IsFirst :
    (keep : FactObservation → Bool) (o : FactObservation) (os : List FactObservation)
    → IsFirst o os
    → IsFirst o (filter keep os)
filter-IsFirst keep o [] h = tt
filter-IsFirst keep o (p ∷ os) h = elim (Bool-cases (keep p)) [
  | inl t ↦ rw t (h.0, filter-IsFirst keep o os h.1)
  | inr f ↦ rw f (filter-IsFirst keep o os h.1)
]

filter-insert_kept :
    (keep : FactObservation → Bool) (o : FactObservation) (os : List FactObservation)
    → keep o ≡ true
    → IsOrdered os
    → filter keep (insert_observation o os) ≡ insert_observation o (filter keep os)
unfolding insert_observation
filter-insert_kept keep o [] kept h = rw kept refl
filter-insert_kept keep o (p ∷ os) kept h = elim (Bool-cases (not_after o p)) [
  | inl t ↦
      let front : IsFirst o (p ∷ os) = (t, IsFirst-trans o p os t h.0) in
      rw (t, kept)
        (sym (
          insert_observation_first o (filter keep (p ∷ os)) (filter-IsFirst keep o (p ∷ os) front)))
  | inr f ↦ elim (Bool-cases (keep p)) [
    | inl k ↦ rw (f, k) (rw f (ap (λ r. p ∷ r) (filter-insert_kept keep o os kept h.1)))
    | inr k ↦ rw (f, k) (filter-insert_kept keep o os kept h.1)
  ]
]

filter-insert_dropped :
    (keep : FactObservation → Bool) (o : FactObservation) (os : List FactObservation)
    → keep o ≡ false
    → filter keep (insert_observation o os) ≡ filter keep os
unfolding insert_observation
filter-insert_dropped keep o [] out = rw out refl
filter-insert_dropped keep o (p ∷ os) out = elim (Bool-cases (not_after o p)) [
  | inl t ↦ rw (t, out) refl
  | inr f ↦ elim (Bool-cases (keep p)) [
    | inl k ↦ rw (f, k) (ap (λ r. p ∷ r) (filter-insert_dropped keep o os out))
    | inr k ↦ rw (f, k) (filter-insert_dropped keep o os out)
  ]
]

pub filter-ordered :
    (keep : FactObservation → Bool) (os : List FactObservation)
    → filter keep (ordered os) ≡ ordered (filter keep os)
unfolding ordered
filter-ordered keep [] = refl
filter-ordered keep (o ∷ os) = elim (Bool-cases (keep o)) [
  | inl t ↦ rw t (
      filter-insert_kept keep o (ordered os) t (ordered-IsOrdered os)
      ∙ ap (insert_observation o) (filter-ordered keep os))
  | inr f ↦ rw f (filter-insert_dropped keep o (ordered os) f ∙ filter-ordered keep os)
]
