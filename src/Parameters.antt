-- ===== src/Parameters.antt =====
-- crates/chat/src/knowledge/catalog/parameter_policy.rs: the validation of the declared policies of a
-- capability's parameters.
pub mod Valid
use fineract_ai_reports.Prelude.{
  if◌then◌else◌, ◌==◌, string_eq, nat_eq, find, contains, Result, ok, err, ok_or, ◌>>=◌, int_eq,
  String, Bool, true, false, ◌&&◌, not, Option, none, some, List, [], ◌∷◌,
}
use fineract_ai_reports.Knowledge.{
  ParameterType, integer, integer_array, parameter_type_eq, ParameterPolicy,
}

pub data PolicyValidationError : Type 0 where
  query_required_param_has_no_default : String → PolicyValidationError
  hard_cap_on_non_integer_type : String → PolicyValidationError
  office_ids_must_not_allow_override : PolicyValidationError
  duplicate_parameter_name : String → PolicyValidationError

abbrev pub is_present {ℓ} : {A : Type ℓ} → Option A → Bool
is_present none = false
is_present (some a) = true

abbrev pub takes_cap : ParameterType → Bool
takes_cap integer = true
takes_cap integer_array = true
takes_cap _ = false

abbrev pub is_miscapped : ParameterPolicy → Bool
is_miscapped p = is_present p.hard_cap && not (takes_cap p.kind)

abbrev pub overrides_scope : ParameterPolicy → Bool
overrides_scope p = (p.name == "office_ids") && p.user_may_override

-- The loop over the policies, with the names that it has seen
abbrev pub check_policies :
    List String → List ParameterPolicy → Result (Unit {0}) PolicyValidationError
check_policies seen [] = ok tt
check_policies seen (p ∷ ps) =
    if contains seen p.name
    then err (duplicate_parameter_name p.name)
    else if is_miscapped p
    then err (hard_cap_on_non_integer_type p.name)
    else if overrides_scope p
    then err office_ids_must_not_allow_override
    else check_policies (p.name ∷ seen) ps

abbrev pub is_unfilled : ParameterPolicy → Bool
is_unfilled p = not p.required && not (is_present p.default)

-- The loop over the parameters that the query requires
abbrev pub check_required :
    List ParameterPolicy → List String → Result (Unit {0}) PolicyValidationError
check_required policies [] = ok tt
check_required policies (name ∷ names) =
    ok_or (query_required_param_has_no_default name)
      (find (λ (p : ParameterPolicy). p.name == name) policies)
    >>= λ policy.
        (if is_unfilled policy
          then err (query_required_param_has_no_default policy.name)
          else check_required policies names)

unfoldable pub validate_policies :
    List ParameterPolicy → List String → Result (Unit {0}) PolicyValidationError
validate_policies policies query_required_names =
    check_policies [] policies >>= λ _. check_required policies query_required_names
