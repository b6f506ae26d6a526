-- ===== src/Workflow/Compile/Acquisition.antt =====
-- `acquisition_source` and `acquisition_inputs` of compile.rs: where the parameters of a capability's
-- query get their values. A map of facts is the list of its entries, each key once.
use fineract_ai_reports.Prelude.{
  if◌then◌else◌, ◌==◌, string_eq, nat_eq, is_empty, find, any, Result, ok, err, ◌>>=◌, int_eq,
  String, Bool, true, false, ◌&&◌, ◌||◌, Option, none, some, List, [], ◌∷◌,
}
use fineract_ai_reports.Knowledge.{
  parameter_type_eq, ConstraintField, ResolutionStrategy, from_authorized_scope,
  from_catalog_default, from_deterministic_extraction, from_verified_user_text,
  from_safe_prior_selection, from_prior_step, from_authorized_data_probe, by_clarifying, ProbeRef,
  ParameterPolicy, operator_eq, ordinary, exact_identifier, FilterSlot, DatasetRecipeFilter,
  DatasetRecipe, CapabilityKnowledge, DatasetKnowledge, KnowledgeCatalog,
}
use fineract_ai_reports.Facts.{field_beq}
use fineract_ai_reports.Workflow.Contract.{
  NodeId, node_id_eq, unsupported, BindingSource, authorized_scope, catalog_default,
  deterministic_extraction, verified_user_text, exact_sensitive_input, safe_prior_selection,
  prior_step,
}
use fineract_ai_reports.Workflow.Verify.{is_some, find_dataset}
use fineract_ai_reports.Workflow.Verify.Nodes.{}
use fineract_ai_reports.Workflow.Compile.{CompileError, unsupported, option_beq}
use fineract_ai_reports.Workflow.Compile.Probe.{Acquired, bound_to, acquire_probe, acquire_answer}

pub record AcquisitionFacts : Type 0 where
  pub deterministic : List ConstraintField
  pub verified_user : List ConstraintField
  pub safe_prior : List (String × NodeId)
  pub prior_steps : List (String × NodeId × String)

-- `AcquisitionFacts::default()`
abbrev pub no_facts : AcquisitionFacts
no_facts = record { deterministic = []; verified_user = []; safe_prior = []; prior_steps = [] }

abbrev pub has_field : List ConstraintField → ConstraintField → Bool
has_field fields field = any (λ f. field_beq f field) fields

abbrev pub fields_of : Option (String × List ConstraintField) → List ConstraintField
fields_of none = []
fields_of (some entry) = entry.1

-- `binding_fields`
unfoldable pub binding_fields : KnowledgeCatalog → String → List ConstraintField
binding_fields catalog parameter = fields_of (
    find (λ (entry : String × List ConstraintField). entry.0 == parameter)
      catalog.parameter_bindings)

abbrev pub all_strategies : List ResolutionStrategy
all_strategies =
    from_authorized_scope ∷ from_catalog_default ∷ from_deterministic_extraction
    ∷ from_verified_user_text ∷ from_safe_prior_selection ∷ from_prior_step
    ∷ from_authorized_data_probe ∷ by_clarifying ∷ []

abbrev pub is_exact_slot : DatasetKnowledge → String → Bool
is_exact_slot dataset filter_id =
    any
      (λ (slot : FilterSlot).
        (slot.id == filter_id)
        && elim slot.input_policy [ exact_identifier ↦ true | ordinary ↦ false ])
      dataset.filters

abbrev pub maps_exactly : String → DatasetRecipe → Option DatasetKnowledge → Bool
maps_exactly name recipe none = false
maps_exactly name recipe (some dataset) =
    any
      (λ (mapping : DatasetRecipeFilter).
        option_beq mapping.parameter (some name) && is_exact_slot dataset mapping.filter_id)
      recipe.filters

abbrev pub recipe_is_exact : String → KnowledgeCatalog → Option DatasetRecipe → Bool
recipe_is_exact name catalog none = false
recipe_is_exact name catalog (some recipe) =
    maps_exactly name recipe (find_dataset catalog recipe.dataset_id)

-- `is_exact_identifier_param`
unfoldable pub is_exact_identifier_param : CapabilityKnowledge → String → KnowledgeCatalog → Bool
is_exact_identifier_param capability name catalog =
    recipe_is_exact name catalog capability.dataset_recipe

-- What a strategy finds: nothing, or a binding
abbrev pub found : (ConstraintField → BindingSource) → Option ConstraintField → Option Acquired
found bind none = none
found bind (some field) = some (bound_to (bind field))

abbrev pub prior_selection : Option (String × NodeId) → Option Acquired
prior_selection none = none
prior_selection (some entry) = some (bound_to (safe_prior_selection entry.1))

abbrev pub prior_step_of : Option (String × NodeId × String) → Option Acquired
prior_step_of none = none
prior_step_of (some entry) = some (bound_to (prior_step entry.1 entry.2))

abbrev pub acquired : Result Acquired CompileError → Result (Option Acquired) CompileError
acquired r = r >>= λ a. ok (some a)

abbrev pub probe_arm :
    KnowledgeCatalog → NodeId → String → Option ProbeRef → Result (Option Acquired) CompileError
probe_arm catalog execute name none = ok none
probe_arm catalog execute name (some p) = acquired (acquire_probe catalog execute name p)

-- The match on one strategy
abbrev pub acquire_by :
    KnowledgeCatalog
    → AcquisitionFacts
    → NodeId
    → ParameterPolicy
    → ResolutionStrategy
    → Result (Option Acquired) CompileError
acquire_by catalog facts execute p from_authorized_scope =
    ok (if p.name == "office_ids" then some (bound_to authorized_scope) else none)
acquire_by catalog facts execute p from_catalog_default =
    ok (if is_some p.default then some (bound_to catalog_default) else none)
acquire_by catalog facts execute p from_deterministic_extraction = ok (
    found deterministic_extraction
      (find (has_field facts.deterministic) (binding_fields catalog p.name)))
acquire_by catalog facts execute p from_verified_user_text = ok (
    found verified_user_text (find (has_field facts.verified_user) (binding_fields catalog p.name)))
acquire_by catalog facts execute p from_safe_prior_selection =
    ok (prior_selection (find (λ (e : String × NodeId). e.0 == p.name) facts.safe_prior))
acquire_by catalog facts execute p from_prior_step =
    ok (prior_step_of (find (λ (e : String × NodeId × String). e.0 == p.name) facts.prior_steps))
acquire_by catalog facts execute p from_authorized_data_probe =
    probe_arm catalog execute p.name p.probe
acquire_by catalog facts execute p by_clarifying =
    if p.user_required || p.required then acquired (acquire_answer execute p.name) else ok none

-- The loop over the strategies; the first that finds a binding returns it.
abbrev pub acquire_from :
    KnowledgeCatalog
    → AcquisitionFacts
    → NodeId
    → ParameterPolicy
    → List ResolutionStrategy
    → Result Acquired CompileError
acquire_from catalog facts execute p [] = err unsupported
acquire_from catalog facts execute p (strategy ∷ rest) =
    acquire_by catalog facts execute p strategy >>= λ result. elim result [
      | some a ↦ ok a
      | none ↦ acquire_from catalog facts execute p rest
    ]

unfoldable pub acquisition_source :
    CapabilityKnowledge
    → ParameterPolicy
    → AcquisitionFacts
    → NodeId
    → KnowledgeCatalog
    → Result Acquired CompileError
unfolding is_exact_identifier_param acquire_probe acquire_answer binding_fields
acquisition_source capability p facts execute catalog =
    if is_exact_identifier_param capability p.name catalog
    then ok (bound_to exact_sensitive_input)
    else acquire_from catalog facts execute p
        (if is_empty p.resolution then all_strategies else p.resolution)
