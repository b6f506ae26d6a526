-- ===== src/Workflow/Compile/Comparison.antt =====
-- `check_comparison_facts` of compile.rs: the sources of a comparison share scope and time.
use fineract_ai_reports.Prelude.{
  if◌then◌else◌, ◌==◌, string_eq, nat_eq, filter, find, find_last, all, Result, ok, err, ok_or,
  ◌>>=◌, int_eq, String, Bool, true, false, ◌&&◌, Option, none, some, List, [], ◌∷◌, ◌++◌, map,
}
use fineract_ai_reports.Knowledge.{
  parameter_type_eq, ConstraintField, limit_value, from_date, to_date, currency_code, client_id,
  product_ids, office_ids, operator_eq,
}
use fineract_ai_reports.Facts.{field_beq}
use fineract_ai_reports.Workflow.Contract.{
  NodeId, node_id_eq, comparison, grouped, single, NodeKind, compose_result, BindingSource,
  authorized_scope, catalog_default, deterministic_extraction, verified_user_text,
  exact_sensitive_input, safe_prior_selection, prior_step, authorized_data_probe, NodeInput,
  WorkflowNode, ExecutionWorkflow,
}
use fineract_ai_reports.Workflow.Compile.{CompileError, invalid_proposal, comparison_facts_diverge}

-- `constraint_for`
unfoldable pub constraint_for : String → Option ConstraintField
constraint_for parameter =
    if parameter == "client_id"
    then some client_id
    else if parameter == "office_ids"
    then some office_ids
    else if parameter == "product_ids"
    then some product_ids
    else if parameter == "currency_code"
    then some currency_code
    else if parameter == "from_date"
    then some from_date
    else if parameter == "to_date"
    then some to_date
    else if parameter == "limit"
    then some limit_value
    else none

abbrev pub is_scope_field : Option ConstraintField → Bool
is_scope_field (some client_id) = true
is_scope_field (some office_ids) = true
is_scope_field (some product_ids) = true
is_scope_field (some from_date) = true
is_scope_field (some to_date) = true
is_scope_field _ = false

-- `is_scope_or_temporal`
unfoldable pub is_scope_or_temporal : String → Bool
unfolding constraint_for
is_scope_or_temporal parameter = is_scope_field (constraint_for parameter)

abbrev pub source_beq : BindingSource → BindingSource → Bool
source_beq authorized_scope authorized_scope = true
source_beq catalog_default catalog_default = true
source_beq (deterministic_extraction f) (deterministic_extraction g) = field_beq f g
source_beq (verified_user_text f) (verified_user_text g) = field_beq f g
source_beq exact_sensitive_input exact_sensitive_input = true
source_beq (safe_prior_selection a) (safe_prior_selection b) = a == b
source_beq (prior_step a s) (prior_step b t) = (a == b) && (s == t)
source_beq (authorized_data_probe a s) (authorized_data_probe b t) = (a == b) && (s == t)
source_beq _ _ = false

abbrev pub bound_beq : Option BindingSource → Option BindingSource → Bool
bound_beq none none = true
bound_beq (some a) (some b) = source_beq a b
bound_beq _ _ = false

-- A map from parameters to their sources, by its insertions; the last one of a key counts.
abbrev pub Bound : Type 0
Bound = List (String × BindingSource)

abbrev pub source_in : Option (String × BindingSource) → Option BindingSource
source_in none = none
source_in (some entry) = some entry.1

abbrev pub bound : Bound → String → Option BindingSource
bound facts name = source_in (find_last (λ (entry : String × BindingSource). entry.0 == name) facts)

-- Two maps are equal if they have the same value at each of their keys.
abbrev pub facts_beq : Bound → Bound → Bool
facts_beq a b =
    all (λ (entry : String × BindingSource). bound_beq (bound a entry.0) (bound b entry.0)) (a ++ b)

unfoldable pub facts_of : WorkflowNode → Bound
unfolding is_scope_or_temporal
facts_of node =
    map (λ (input : NodeInput). (input.parameter, input.source))
      (filter (λ (input : NodeInput). is_scope_or_temporal input.parameter) node.inputs)

abbrev pub first_node : ExecutionWorkflow → NodeId → Option WorkflowNode
first_node workflow id = find (λ (node : WorkflowNode). node.id == id) workflow.nodes

-- The loop over the sources, with the facts of the first one once they are known
abbrev pub check_sources :
    ExecutionWorkflow → NodeId → Option Bound → List NodeId → Result (Unit {0}) CompileError
check_sources workflow id reference [] = ok tt
check_sources workflow id none (source ∷ rest) =
    ok_or invalid_proposal (first_node workflow source) >>= λ node.
    check_sources workflow id (some (facts_of node)) rest
check_sources workflow id (some reference) (source ∷ rest) =
    ok_or invalid_proposal (first_node workflow source) >>= λ node.
    (if facts_beq reference (facts_of node)
      then check_sources workflow id (some reference) rest
      else err (comparison_facts_diverge id))

abbrev pub compared : NodeKind → Option (List NodeId)
compared (compose_result compose) = elim compose.composition [
  | comparison ↦ some compose.sources
  | single ↦ none
  | grouped ↦ none
]
compared _ = none

abbrev pub check_compared :
    ExecutionWorkflow → NodeId → Option (List NodeId) → Result (Unit {0}) CompileError
check_compared workflow id none = ok tt
check_compared workflow id (some sources) = check_sources workflow id none sources

abbrev pub check_nodes : ExecutionWorkflow → List WorkflowNode → Result (Unit {0}) CompileError
check_nodes workflow [] = ok tt
check_nodes workflow (node ∷ nodes) =
    check_compared workflow node.id (compared node.kind) >>= λ _. check_nodes workflow nodes

unfoldable pub check_comparison_facts : ExecutionWorkflow → Result (Unit {0}) CompileError
unfolding facts_of
check_comparison_facts workflow = check_nodes workflow workflow.nodes
