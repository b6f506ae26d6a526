-- ===== src/Workflow/Verify/Nodes.antt =====
-- `verify_input` of verify.rs and what `verify` checks of one node.
use fineract_ai_reports.Prelude.{
  ltb, if◌then◌else◌, ◌==◌, string_eq, nat_eq, is_empty, find, any, contains, Result, ok, err,
  ◌>>=◌, int_eq, String, Bool, true, false, ◌&&◌, ◌||◌, not, Option, none, some, List, [], ◌∷◌,
}
use fineract_ai_reports.Knowledge.{
  ParameterType, integer_array, string, parameter_type_eq, QueryParameter, QueryKnowledge,
  KnowledgeCatalog,
}
use fineract_ai_reports.Policy.{PrincipalContext, missing_office_scope, ensure_capability_allowed}
use fineract_ai_reports.Workflow.Contract.{
  NodeId, node_id_eq, NodeKind, execute_query, cardinality_branch, clarification_interrupt,
  compose_result, BindingSource, authorized_scope, NodeInput, NodeOutputSlot, WorkflowNode,
  ExecutionWorkflow,
}
use fineract_ai_reports.Workflow.Compose.{sensitivity_rank, compose}
use fineract_ai_reports.Workflow.Budget.{node_of}
use fineract_ai_reports.Workflow.Redaction.{is_exact_sensitive}
use fineract_ai_reports.Workflow.Verify.{
  VerifyError, type_incompatible_binding, data_dependent_sql_identifier, missing_office_scope,
  sensitivity_widening, unreachable_or_orphan_node, dangling_resume, unbound_required_input,
  capability_not_permitted, WorkflowGraph, is_some, parameter_type, looks_like_sql_identifier,
  query_of, reject_if, verify_node_resources, verify_source, reject_any,
}

abbrev pub is_authorized_scope : BindingSource → Bool
is_authorized_scope authorized_scope = true
is_authorized_scope _ = false

abbrev pub has_type : Option ParameterType → ParameterType → Bool
has_type none kind = false
has_type (some t) kind = t == kind

-- The parameter of the query that the input names.
abbrev pub verify_parameter : NodeInput → Option QueryParameter → Result (Unit {0}) VerifyError
verify_parameter input none = ok tt
verify_parameter input (some parameter) =
    if not (has_type (parameter_type parameter.kind) input.kind)
    then err type_incompatible_binding
    else reject_if
        (parameter.required && is_exact_sensitive input.source && not (input.kind == string))
        unbound_required_input

abbrev pub kind_query : NodeKind → Option String
kind_query (execute_query exec) = exec.query_id
kind_query _ = none

abbrev pub parameters_of : Option QueryKnowledge → List QueryParameter
parameters_of none = []
parameters_of (some query) = query.parameters

abbrev pub node_parameters : WorkflowNode → KnowledgeCatalog → List QueryParameter
node_parameters node catalog = parameters_of (query_of catalog (kind_query node.kind))

unfoldable pub verify_input :
    NodeInput
    → WorkflowNode
    → ExecutionWorkflow
    → List NodeId
    → KnowledgeCatalog
    → Result (Unit {0}) VerifyError
unfolding looks_like_sql_identifier parameter_type
verify_input input consumer workflow topo catalog =
    if looks_like_sql_identifier input.parameter
    then err data_dependent_sql_identifier
    else if is_authorized_scope input.source
        && (not (input.parameter == "office_ids") || not (input.kind == integer_array))
    then err type_incompatible_binding
    else verify_source input.source input consumer workflow topo >>= λ _. verify_parameter input (
        find (λ (p : QueryParameter). p.name == input.parameter) (node_parameters consumer catalog))

abbrev pub referenced_nodes : NodeKind → List NodeId
referenced_nodes (cardinality_branch branch) =
    branch.source ∷ branch.zero_arm ∷ branch.one_arm ∷ branch.many_arm ∷ []
referenced_nodes (compose_result compose) = compose.sources
referenced_nodes _ = []

abbrev pub composes_nothing : NodeKind → Bool
composes_nothing (compose_result compose) = is_empty compose.sources
composes_nothing _ = false

abbrev pub binds_scope : NodeInput → Bool
binds_scope input = (input.parameter == "office_ids") && is_authorized_scope input.source

abbrev pub node_widens : WorkflowNode → ExecutionWorkflow → Bool
node_widens node workflow =
    let limit = sensitivity_rank workflow.output_contract.max_sensitivity in
    ltb limit (sensitivity_rank node.policy.max_sensitivity)
    || any (λ (output : NodeOutputSlot). ltb limit (sensitivity_rank output.sensitivity))
        node.outputs

abbrev pub is_permitted : PrincipalContext → Option String → Bool
is_permitted principal none = true
is_permitted principal (some capability) = elim (ensure_capability_allowed principal capability) [
  | ok u ↦ true
  | err e ↦ false
]

abbrev pub exec_capability : NodeKind → Option String
exec_capability (execute_query exec) = exec.capability_id
exec_capability _ = none

abbrev pub misses_parameter : WorkflowNode → KnowledgeCatalog → Bool
misses_parameter node catalog =
    any
      (λ (p : QueryParameter).
        p.required && not (any (λ (input : NodeInput). input.parameter == p.name) node.inputs))
      (node_parameters node catalog)

abbrev pub verify_inputs :
    List NodeInput
    → WorkflowNode
    → ExecutionWorkflow
    → List NodeId
    → KnowledgeCatalog
    → Result (Unit {0}) VerifyError
verify_inputs [] consumer workflow topo catalog = ok tt
verify_inputs (input ∷ rest) consumer workflow topo catalog =
    verify_input input consumer workflow topo catalog >>= λ _.
    verify_inputs rest consumer workflow topo catalog

abbrev pub dangles : WorkflowGraph → WorkflowNode → NodeKind → Bool
dangles graph node (clarification_interrupt interrupt) =
    not (graph.has_node interrupt.resume)
    || not (contains (graph.reachable_from node.id) interrupt.resume)
dangles graph node _ = false

-- The guards between a node's resources and its inputs.
abbrev pub node_guards :
    WorkflowNode
    → ExecutionWorkflow
    → PrincipalContext
    → KnowledgeCatalog
    → List (Bool × VerifyError)
node_guards node workflow principal catalog =
    (
      any (λ id. not (is_some (node_of workflow id))) (referenced_nodes node.kind)
          || composes_nothing node.kind,
      unreachable_or_orphan_node,
    )
    ∷ (ltb 0 node.budget.query_cost && not (any binds_scope node.inputs), missing_office_scope)
    ∷ (node_widens node workflow, sensitivity_widening)
    ∷ (node.policy.pii_required && not principal.can_view_pii, capability_not_permitted)
    ∷ (not (is_permitted principal node.policy.required_capability), capability_not_permitted)
    ∷ (not (is_permitted principal (exec_capability node.kind)), capability_not_permitted)
    ∷ (misses_parameter node catalog, unbound_required_input)
    ∷ []

-- The body of the loop over the nodes
unfoldable pub verify_node :
    WorkflowGraph
    → WorkflowNode
    → ExecutionWorkflow
    → List NodeId
    → PrincipalContext
    → KnowledgeCatalog
    → Result (Unit {0}) VerifyError
unfolding verify_node_resources verify_input sensitivity_rank ensure_capability_allowed
verify_node graph node workflow topo principal catalog =
    verify_node_resources node.kind catalog >>= λ _.
    reject_any (node_guards node workflow principal catalog) >>= λ _.
    verify_inputs node.inputs node workflow topo catalog >>= λ _.
    reject_if (dangles graph node node.kind) dangling_resume
