-- ===== src/Parameters/Valid.antt =====
-- Exactly which policies pass.
use fineract_ai_reports.Prelude.{
  Bool-cases, Option-cases, ◌==◌, ==→≡, ==_refl, string_eq, nat_eq, find, All, ◌∈◌, contains,
  contains→mem, mem→contains, ok, >>=-eq-ok, int_eq, String, ◌≡◌, refl, ◌↔◌, inl, inr, true, false,
  ◌||◌, some, List, [], ◌∷◌, arith,
}
use fineract_ai_reports.Knowledge.{parameter_type_eq, ParameterPolicy}
use fineract_ai_reports.Parameters.{
  is_present, takes_cap, is_miscapped, overrides_scope, check_policies, is_unfilled, check_required,
  validate_policies,
}

-- No name of the list is in `seen` or comes twice.
pub data AreFresh : List String → List ParameterPolicy → Type 0 where
  no_more : {seen : List String} → AreFresh seen []
  fresh :
      {seen : List String} {p : ParameterPolicy} {ps : List ParameterPolicy}
      → ¬ (p.name ∈ seen)
      → AreFresh (p.name ∷ seen) ps
      → AreFresh seen (p ∷ ps)

-- A cap stands on integers only, and the user may not replace the office scope.
abbrev pub IsBounded : ParameterPolicy → Type 0
IsBounded p =
    (is_present p.hard_cap ≡ true → takes_cap p.kind ≡ true)
    × (p.name ≡ "office_ids" → p.user_may_override ≡ false)

-- The first policy of that name is marked required or has a default.
abbrev pub IsFilled : List ParameterPolicy → String → Type 0
IsFilled policies name =
    (p : ParameterPolicy) × (find (λ (q : ParameterPolicy). q.name == name) policies ≡ some p)
    × ((p.required || is_present p.default) ≡ true)

check_policies→ :
    (seen : List String) (ps : List ParameterPolicy)
    → check_policies seen ps ≡ ok tt
    → AreFresh seen ps × All IsBounded ps
check_policies→ seen [] h = (no_more, tt)
check_policies→ seen (p ∷ ps) h = elim (Bool-cases (contains seen p.name)) [
  | inl old ↦ cc (rw old at h)
  | inr new ↦ elim (Bool-cases (is_miscapped p)) [
    | inl bad ↦ cc (rw (new, bad) at h)
    | inr capped ↦ elim (Bool-cases (overrides_scope p)) [
      | inl bad ↦ cc (rw (new, capped, bad) at h)
      | inr scoped ↦
          let (rest, bounded) =
            check_policies→ (p.name ∷ seen) ps (rw (new, capped, scoped) at h) in
          (
            fresh (λ m. let t = mem→contains seen p.name m in cc) rest,
            (bounds capped scoped, bounded),
          )
    ]
  ]
]
  where
    bounds : is_miscapped p ≡ false → overrides_scope p ≡ false → IsBounded p
    bounds c s = (
      λ cap. ground arith,
      λ e.
          let t : (p.name == "office_ids") ≡ true = rw e (==_refl {T = String} "office_ids") in
          ground arith,
    )

check_policies← :
    (seen : List String) (ps : List ParameterPolicy)
    → AreFresh seen ps
    → All IsBounded ps
    → check_policies seen ps ≡ ok tt
check_policies← seen [] f b = refl
check_policies← seen (p ∷ ps) (fresh new rest) (b, bs) = elim (Bool-cases (contains seen p.name)) [
  | inl old ↦ absurd (new (contains→mem seen p.name old))
  | inr n ↦ rw (n, capped, scoped) (check_policies← (p.name ∷ seen) ps rest bs)
]
  where
    capped : is_miscapped p ≡ false
    capped = elim (Bool-cases (is_present p.hard_cap)) [
      | inl t ↦ let k = b.0 t in ground arith
      | inr f ↦ ground arith
    ]

    scoped : overrides_scope p ≡ false
    scoped = elim (Bool-cases (p.name == "office_ids")) [
      | inl t ↦ let k = b.1 (==→≡ p.name "office_ids" t) in ground arith
      | inr f ↦ ground arith
    ]

check_required→ :
    (policies : List ParameterPolicy) (names : List String)
    → check_required policies names ≡ ok tt
    → All (IsFilled policies) names
check_required→ policies [] h = tt
check_required→ policies (name ∷ names) h =
    elim (Option-cases (find (λ (q : ParameterPolicy). q.name == name) policies)) [
      | inl missing ↦ cc (rw missing at h)
      | inr (p, found) ↦ elim (Bool-cases (is_unfilled p)) [
        | inl bad ↦ cc (rw (found, bad) at h)
        | inr good ↦
            ((p, found, ground arith), check_required→ policies names (rw (found, good) at h))
      ]
    ]

check_required← :
    (policies : List ParameterPolicy) (names : List String)
    → All (IsFilled policies) names
    → check_required policies names ≡ ok tt
check_required← policies [] h = refl
check_required← policies (name ∷ names) ((p, found, filled), rest) =
    let good : is_unfilled p ≡ false = ground arith in
    rw (found, good) (check_required← policies names rest)

-- Policies pass the validation exactly if no name comes twice, caps stand on integers only, the
-- user may not replace the office scope, and each parameter that the query requires has a policy
-- that is marked required or has a default.
pub validate_policies_exact :
    (policies : List ParameterPolicy) (names : List String)
    → (validate_policies policies names ≡ ok tt)
      ↔ (AreFresh [] policies × All IsBounded policies × All (IsFilled policies) names)
unfolding validate_policies
validate_policies_exact policies names = (
  λ h.
      let (u, first, rest) =
        >>=-eq-ok (check_policies [] policies) (λ _. check_required policies names) h in
      let (new, bounded) = check_policies→ [] policies first in
      (new, bounded, check_required→ policies names rest),
  λ h.
      let (new, bounded, filled) = h in
      rw (check_policies← [] policies new bounded) (check_required← policies names filled),
)
