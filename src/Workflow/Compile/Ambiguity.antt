-- ===== src/Workflow/Compile/Ambiguity.antt =====
-- `resolve_ambiguity` of crates/chat/src/assistant/workflow/compile.rs. Texts are compared as the
-- language compares them, by their characters.
use Prim.Native.String.{compare}
use Prim.Native.Nat.{Ordering}
use fineract_ai_reports.Prelude.{
  if◌then◌else◌, ◌==◌, string_eq, nat_eq, filter, find, all, filter_map, int_eq, String, Bool, true,
  false, ◌&&◌, ◌||◌, not, Option, none, some, List, [], ◌∷◌, map,
}
use fineract_ai_reports.Knowledge.{
  parameter_type_eq, ShapeRole, resolver, probe, ParameterPolicy, operator_eq, CapabilityKnowledge,
  ShapeOption, DatasetKnowledge, KnowledgeCatalog,
}
use fineract_ai_reports.Policy.{approved}
use fineract_ai_reports.Workflow.Compile.Acquisition.{AcquisitionFacts, has_field}
use fineract_ai_reports.Workflow.Compile.Comparison.{constraint_for}

pub data AmbiguityOutcome : Type 0 where
  select : String → Bool → AmbiguityOutcome
  probe_with : String → String → AmbiguityOutcome
  clarify : List (String × String) → AmbiguityOutcome
  unsupported_request : AmbiguityOutcome

-- The capability of an id, where it is approved
abbrev pub candidate_of : KnowledgeCatalog → String → Option CapabilityKnowledge
candidate_of catalog id =
    find (λ (c : CapabilityKnowledge). (c.id == id) && approved c) catalog.capabilities

abbrev pub comes_first : CapabilityKnowledge → CapabilityKnowledge → Bool
comes_first a b = elim (compare a.id b.id) [ Ordering.gt ↦ false | _ ↦ true ]

-- `sort_by`, which is stable
abbrev pub insert_by_id : CapabilityKnowledge → List CapabilityKnowledge → List CapabilityKnowledge
insert_by_id c [] = c ∷ []
insert_by_id c (x ∷ xs) =
    let rest = insert_by_id c xs in if comes_first c x then c ∷ x ∷ xs else x ∷ rest

abbrev pub sort_by_id : List CapabilityKnowledge → List CapabilityKnowledge
sort_by_id [] = []
sort_by_id (x ∷ xs) = insert_by_id x (sort_by_id xs)

-- `dedup_by`, after the last one that is kept
abbrev pub dedup_after : CapabilityKnowledge → List CapabilityKnowledge → List CapabilityKnowledge
dedup_after last [] = []
dedup_after last (x ∷ xs) = elim (x.id == last.id) [
  | true ↦ dedup_after last xs
  | false ↦ x ∷ dedup_after x xs
]

abbrev pub dedup_by_id : List CapabilityKnowledge → List CapabilityKnowledge
dedup_by_id [] = []
dedup_by_id (x ∷ xs) = x ∷ dedup_after x xs

unfoldable pub candidates : KnowledgeCatalog → List String → List CapabilityKnowledge
candidates catalog ids = dedup_by_id (sort_by_id (filter_map (candidate_of catalog) ids))

abbrev pub is_answered : AcquisitionFacts → ParameterPolicy → Bool
is_answered facts policy = not policy.required || (elim (constraint_for policy.name) [
  | none ↦ true
  | some f ↦ has_field facts.deterministic f || has_field facts.verified_user f
])

unfoldable pub is_fact_compatible : AcquisitionFacts → CapabilityKnowledge → Bool
unfolding constraint_for
is_fact_compatible facts c = all (is_answered facts) c.parameter_policies

abbrev pub is_probe_role : ShapeRole → Bool
is_probe_role resolver = true
is_probe_role probe = true
is_probe_role _ = false

abbrev pub first_shape : List ShapeOption → Option ShapeOption
first_shape shapes = find (λ (s : ShapeOption). is_probe_role s.role) shapes

-- `find_map` over the datasets
abbrev pub probe_shape : List DatasetKnowledge → Option (String × String)
probe_shape [] = none
probe_shape (d ∷ rest) =
    let later = probe_shape rest in
    elim (first_shape d.shapes) [ some s ↦ some (d.id, s.id) | none ↦ later ]

abbrev pub option_for : CapabilityKnowledge → String × String
option_for c = (c.id, elim c.display_name [ some name ↦ name | none ↦ c.id ])

-- What is left to do about several candidates, or none
abbrev pub ask_or_probe : List CapabilityKnowledge → Option (String × String) → AmbiguityOutcome
ask_or_probe [] probing = unsupported_request
ask_or_probe (c ∷ d ∷ rest) (some (dataset_id, shape_id)) = probe_with dataset_id shape_id
ask_or_probe cs probing = clarify (map option_for cs)

abbrev pub choose :
    List CapabilityKnowledge
    → List CapabilityKnowledge
    → Option (String × String)
    → AmbiguityOutcome
choose (c ∷ []) compatible probing = select c.id true
choose cs (c ∷ []) probing = select c.id true
choose cs compatible probing = ask_or_probe cs probing

-- `resolve_ambiguity`
unfoldable pub resolve_ambiguity :
    List String → AcquisitionFacts → KnowledgeCatalog → AmbiguityOutcome
unfolding candidates is_fact_compatible
resolve_ambiguity ids facts catalog =
    let found = candidates catalog ids in
    choose found (filter (is_fact_compatible facts) found) (probe_shape catalog.datasets)
