-- ===== src/Policy.antt =====
-- crates/chat/src/policy/authorization.rs over the principal of crates/core/src/auth/model.rs:
-- which capabilities, offices and sensitive fields a principal may reach. `&mut` principals are
-- returned; the office query of the Fineract database is an argument, its rows or its failure.
pub mod Scope
use fineract_ai_reports.Prelude.{
  if◌then◌else◌, ◌==◌, nat_eq, string_eq, is_empty, filter, any, contains, Result, ok, err, ◌>>=◌,
  ℤ, int_eq, ℕ, String, Bool, true, false, ◌||◌, not, Option, none, some, List, [], ◌∷◌, map,
}
use fineract_ai_reports.Knowledge.{CapabilityKnowledge, KnowledgeCatalog, parameter_type_eq}

pub record PrincipalContext : Type 0 where
  pub user_id : ℕ
  pub role : String
  pub capability_ids : List String
  pub office_ids : List ℤ
  pub can_view_pii : Bool
  pub legacy_api_key_id : Option ℕ

pub data AuthorizationError : Type 0 where
  capability_not_allowed : String → AuthorizationError
  missing_office_scope : AuthorizationError
  office_not_allowed : ℤ → AuthorizationError
  pii_not_allowed : AuthorizationError

-- An empty principal scope means that the principal is not restricted.
unfoldable pub intersect_office_scope : List ℤ → List ℤ → List ℤ
intersect_office_scope principal_office_ids tenant_office_ids =
    if is_empty principal_office_ids
    then tenant_office_ids
    else filter (λ office_id. contains principal_office_ids office_id) tenant_office_ids

unfoldable pub finalize_admin_projection :
    PrincipalContext
    → List String
    → List ℤ
    → PrincipalContext × Result (Unit {0}) AuthorizationError
finalize_admin_projection principal capabilities offices =
    if is_empty offices then (principal, err missing_office_scope) else (
      record principal { capability_ids = capabilities; office_ids = offices; can_view_pii = true },
      ok tt,
    )

-- What `project_admin_principal` may fail with: the database, or an empty scope.
pub data ProjectionError : Type 0 where
  database : ProjectionError
  authorization : AuthorizationError → ProjectionError

abbrev pub lift_error : Result (Unit {0}) AuthorizationError → Result (Unit {0}) ProjectionError
lift_error (ok u) = ok u
lift_error (err e) = err (authorization e)

abbrev pub approved : CapabilityKnowledge → Bool
approved capability = capability.status == "approved_mvp"

abbrev pub approved_ids : KnowledgeCatalog → List String
approved_ids catalog = map (λ c. c.id) (filter approved catalog.capabilities)

-- `rows` is the answer of `SELECT id FROM m_office`; `none` is a failed query.
unfoldable pub project_admin_principal :
    PrincipalContext
    → KnowledgeCatalog
    → Option (List ℤ)
    → PrincipalContext × Result (Unit {0}) ProjectionError
unfolding intersect_office_scope finalize_admin_projection
project_admin_principal principal catalog none = (principal, err database)
project_admin_principal principal catalog (some tenant_office_ids) =
    let offices = intersect_office_scope principal.office_ids tenant_office_ids in
    let (projected, result) = finalize_admin_projection principal (approved_ids catalog) offices in
    (projected, lift_error result)

unfoldable pub ensure_capability_allowed :
    PrincipalContext → String → Result (Unit {0}) AuthorizationError
ensure_capability_allowed principal capability =
    if any (λ allowed. allowed == capability) principal.capability_ids
    then ok tt
    else err (capability_not_allowed capability)

-- The loop over the requested offices: the first one outside the scope is the error.
abbrev pub check_offices : List ℤ → List ℤ → Result (Unit {0}) AuthorizationError
check_offices allowed [] = ok tt
check_offices allowed (office_id ∷ rest) =
    if not (contains allowed office_id)
    then err (office_not_allowed office_id)
    else check_offices allowed rest

unfoldable pub effective_office_scope :
    PrincipalContext → Option (List ℤ) → Result (List ℤ) AuthorizationError
effective_office_scope principal requested_office_ids =
    if is_empty principal.office_ids then err missing_office_scope else elim requested_office_ids [
      | some requested ↦ check_offices principal.office_ids requested >>= λ _. ok requested
      | none ↦ ok principal.office_ids
    ]

unfoldable pub ensure_pii_allowed : PrincipalContext → Bool → Result (Unit {0}) AuthorizationError
ensure_pii_allowed principal output_requires_pii =
    if not output_requires_pii || principal.can_view_pii then ok tt else err pii_not_allowed

abbrev is_ok : Result (Unit {0}) AuthorizationError → Bool
is_ok (ok u) = true
is_ok (err e) = false

unfoldable pub pii_output_allowed : PrincipalContext → Bool → Bool
unfolding ensure_pii_allowed
pii_output_allowed principal output_requires_pii =
    is_ok (ensure_pii_allowed principal output_requires_pii)
