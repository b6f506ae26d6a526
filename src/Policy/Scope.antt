-- ===== src/Policy/Scope.antt =====
-- Office scopes never widen: what a request may read lies in the principal's scope, and a
-- projection only narrows a restricted one.
use fineract_ai_reports.Prelude.{
  Bool-cases, nat_eq, string_eq, is_empty, ◌∈◌, contains, contains→mem, ok, ℤ, int_eq, ◌≡◌, inl,
  inr, ◌&&◌, ◌||◌, Option, none, some, List, [], ◌∷◌, arith, contains-filter, Result, err,
  >>=-eq-ok, false, true,
}
use fineract_ai_reports.Knowledge.{KnowledgeCatalog, parameter_type_eq}
use fineract_ai_reports.Policy.{
  PrincipalContext, intersect_office_scope, check_offices, effective_office_scope, ProjectionError,
  approved_ids,
}

check_offices-mem :
    (allowed requested : List ℤ) (x : ℤ)
    → check_offices allowed requested ≡ ok tt
    → x ∈ requested
    → x ∈ allowed
check_offices-mem allowed [] x h m = absurd m
check_offices-mem allowed (o ∷ rest) x h m = elim (Bool-cases (contains allowed o)) [
  | inl t ↦ elim m [
    | inl e ↦ rw e (contains→mem allowed o t)
    | inr k ↦ check_offices-mem allowed rest x (rw t at h) k
  ]
  | inr f ↦ cc (rw f at h)
]

-- Every office of an effective scope is an office of the principal, also where the request names
-- the offices.
pub effective_office_scope-mem :
    (p : PrincipalContext) (requested : Option (List ℤ)) (ids : List ℤ) (x : ℤ)
    → effective_office_scope p requested ≡ ok ids
    → x ∈ ids
    → x ∈ p.office_ids
unfolding effective_office_scope
effective_office_scope-mem p none ids x h m = elim (Bool-cases (is_empty p.office_ids)) [
  | inl t ↦ cc (rw t at h)
  | inr f ↦ let e : p.office_ids ≡ ids = cc (rw f at h) in rw e m
]
effective_office_scope-mem p (some r) ids x h m = elim (Bool-cases (is_empty p.office_ids)) [
  | inl t ↦ cc (rw t at h)
  | inr f ↦
      let (u, checked, e) = >>=-eq-ok (check_offices p.office_ids r) (λ _. ok r) (rw f at h) in
      let e' : r ≡ ids = cc in check_offices-mem p.office_ids r x checked (rw e' m)
]

-- An office is in the intersection exactly if the tenant has it and the principal is either
-- unrestricted or has it too.
pub contains-intersect :
    (p t : List ℤ) (x : ℤ)
    → contains (intersect_office_scope p t) x ≡ (contains t x && (is_empty p || contains p x))
unfolding intersect_office_scope
contains-intersect [] t x = ground arith
contains-intersect (o ∷ p) t x = contains-filter (λ i. contains (o ∷ p) i) t x

-- What a projection leaves behind: on success a non-empty scope, which for a restricted principal
-- holds exactly those of its own offices that the tenant has, the approved capabilities and the
-- sight of sensitive fields; on failure the principal as it was.
pub record Projects (p : PrincipalContext) (catalog : KnowledgeCatalog) (tenant : List ℤ)
    (out : PrincipalContext × Result (Unit {0}) ProjectionError) : Type 0 where
  pub unchanged : (e : ProjectionError) → out.1 ≡ err e → out.0 ≡ p
  pub granted : out.1 ≡ ok tt → is_empty out.0.office_ids ≡ false
  pub capabilities : out.1 ≡ ok tt → out.0.capability_ids ≡ approved_ids catalog
  pub sensitive : out.1 ≡ ok tt → out.0.can_view_pii ≡ true
  pub exact :
      (x : ℤ)
      → out.1 ≡ ok tt
      → contains out.0.office_ids x
        ≡ (contains tenant x && (is_empty p.office_ids || contains p.office_ids x))
