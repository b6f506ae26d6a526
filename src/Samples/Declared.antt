-- ===== src/Samples/Declared.antt =====
-- Examples of Parameters.
use fineract_ai_reports.Prelude.{
  string_eq, nat_eq, ok, err, pos, int_eq, ◌≡◌, refl, true, false, none, some, [], ◌∷◌,
}
use fineract_ai_reports.Knowledge.{
  integer, integer_array, parameter_type_eq, authorized_scope_default, literal_int,
  from_catalog_default, ParameterPolicy,
}
use fineract_ai_reports.Parameters.{office_ids_must_not_allow_override, validate_policies}

abbrev limit_policy : ParameterPolicy
limit_policy = record {
  name = "limit";
  kind = integer;
  required = false;
  default = some (literal_int (pos 20));
  fill_when_missing = true;
  user_may_override = true;
  hard_cap = some (pos 100);
  user_required = false;
  resolution = from_catalog_default ∷ [];
  probe = none;
}

abbrev scope_policy : ParameterPolicy
scope_policy = record limit_policy {
  name = "office_ids";
  kind = integer_array;
  default = some authorized_scope_default;
  user_may_override = false;
  hard_cap = none;
}

accepts_policies : validate_policies (limit_policy ∷ scope_policy ∷ []) ("office_ids" ∷ []) ≡ ok tt
unfolding validate_policies
accepts_policies = refl

rejects_override :
    validate_policies (record scope_policy { user_may_override = true } ∷ []) []
    ≡ err office_ids_must_not_allow_override
unfolding validate_policies
rejects_override = refl
