-- ===== src/Workflow/Compile/Whole.antt =====
-- `compile` and `compile_with_facts` of compile.rs. The new workflow's id is an argument.
use fineract_ai_reports.Prelude.{
  ltb, if◌then◌else◌, ◌==◌, string_eq, nat_eq, is_empty, filter, contains, Result, ok, err, ◌>>=◌,
  ℤ, pos, negsuc, int_eq, ℕ, ◌^◌, String, Bool, false, ◌&&◌, ◌||◌, not, Option, none, some, List,
  [], ◌∷◌, ◌++◌, map,
}
use fineract_ai_reports.Knowledge.{
  pii, parameter_type_eq, QueryParameter, QueryKnowledge, ParameterPolicy, operator_eq,
  CapabilityKnowledge, KnowledgeCatalog,
}
use fineract_ai_reports.Workflow.Contract.{
  NodeId, node_id_eq, WorkflowBudgets, fail_fast, OutputMode, table, scalar, comparison, grouped,
  not_found, success, unsupported, execute_query, complete, pure, execute_once, always,
  WorkflowEdge, NodeInput, WorkflowNode, ExecutionWorkflow,
}
use fineract_ai_reports.Workflow.Verify.{find_query}
use fineract_ai_reports.Workflow.Compile.{
  CompileError, unsupported, WorkflowProposal, approved_capability, recipe_dataset, recipe_shape,
}
use fineract_ai_reports.Workflow.Compile.Proposal.{check_capabilities, resolve_proposal_resources}
use fineract_ai_reports.Workflow.Compile.Iteration.{expand_iteration}
use fineract_ai_reports.Workflow.Compile.Probe.{
  open_policy, control_node, scope_input, unwrap_or, edge_to,
}
use fineract_ai_reports.Workflow.Compile.Acquisition.{
  AcquisitionFacts, no_facts, acquisition_source,
}
use fineract_ai_reports.Workflow.Compile.Comparison.{check_comparison_facts}

abbrev pub required_names : Option QueryKnowledge → List String
required_names none = []
required_names (some query) =
    map (λ (p : QueryParameter). p.name)
      (filter (λ (p : QueryParameter). p.required) query.parameters)

abbrev pub is_acquired : List String → ParameterPolicy → Bool
is_acquired names p = not (p.name == "office_ids") && (p.required || contains names p.name)

-- What the loop over the policies gathers
pub record Acquisition : Type 0 where
  pub inputs : List NodeInput
  pub nodes : List WorkflowNode
  pub edges : List WorkflowEdge

abbrev pub acquire_all :
    CapabilityKnowledge
    → AcquisitionFacts
    → NodeId
    → KnowledgeCatalog
    → List ParameterPolicy
    → Result Acquisition CompileError
acquire_all capability facts execute catalog [] =
    ok (record { inputs = []; nodes = []; edges = [] })
acquire_all capability facts execute catalog (p ∷ ps) =
    acquisition_source capability p facts execute catalog >>= λ a.
    acquire_all capability facts execute catalog ps >>= λ rest. ok (record {
      inputs = record { parameter = p.name; kind = p.kind; source = a.source } ∷ rest.inputs;
      nodes = a.nodes ++ rest.nodes;
      edges = a.edges ++ rest.edges;
    })

abbrev pub with_scope : Acquisition → Acquisition
with_scope a = record a { inputs = scope_input ∷ a.inputs }

unfoldable pub acquisition_inputs :
    CapabilityKnowledge
    → KnowledgeCatalog
    → AcquisitionFacts
    → NodeId
    → Result Acquisition CompileError
unfolding acquisition_source
acquisition_inputs capability catalog facts execute =
    let names = required_names (find_query catalog capability.query_id) in
    acquire_all capability facts execute catalog
      (filter (is_acquired names) capability.parameter_policies)
    >>= λ a. ok (with_scope a)

-- `output_mode`
unfoldable pub output_mode : String → OutputMode
output_mode value =
    if value == "scalar"
    then scalar
    else if value == "comparison"
    then comparison
    else if value == "grouped"
    then grouped
    else if value == "not_found"
    then not_found
    else table

abbrev pub query_timeout : Option QueryKnowledge → ℕ
query_timeout none = 5000
query_timeout (some query) = unwrap_or 5000 query.timeout_ms

-- `max_limit.unwrap_or(100).try_into().unwrap_or(100)`, into 32 bits
abbrev pub capped_rows : Option ℤ → ℕ
capped_rows none = 100
capped_rows (some (pos n)) = if ltb n (2 ^ 32) then n else 100
capped_rows (some (negsuc n)) = 100

abbrev pub execute_id : NodeId
execute_id = record { name = "execute_query" }

abbrev pub complete_id : NodeId
complete_id = record { name = "complete" }

abbrev pub execute_node_of :
    CapabilityKnowledge → KnowledgeCatalog → WorkflowBudgets → List NodeInput → WorkflowNode
execute_node_of capability catalog budgets inputs = record {
  id = execute_id;
  kind = execute_query (record {
    capability_id = some capability.id;
    dataset_id = recipe_dataset capability.dataset_recipe;
    shape_id = recipe_shape capability.dataset_recipe;
    query_id = some capability.query_id;
    iterate_over = none;
  });
  inputs = inputs;
  outputs = [];
  policy = open_policy (some capability.id);
  budget = record {
    timeout_ms = query_timeout (find_query catalog capability.query_id);
    row_cap = capped_rows capability.guards.max_limit;
    query_cost = 1;
  };
  idempotency = execute_once;
  retry = record { max_attempts = budgets.max_node_retries };
}

abbrev pub workflow_contract_version : ℕ
workflow_contract_version = 1

abbrev pub workflow_of :
    ℕ → ℕ → WorkflowBudgets → OutputMode → List WorkflowNode → List WorkflowEdge → ExecutionWorkflow
workflow_of id catalog_version budgets mode nodes edges = record {
  id = id;
  contract_version = workflow_contract_version;
  catalog_version = catalog_version;
  nodes = nodes;
  edges = edges;
  budgets = budgets;
  fail_policy = fail_fast;
  output_contract = record { mode = mode; allows_partial = false; max_sensitivity = pii };
}

-- The expansion and the check that end both ways of compiling
unfoldable pub finish : ExecutionWorkflow → KnowledgeCatalog → Result ExecutionWorkflow CompileError
unfolding expand_iteration check_comparison_facts
finish workflow catalog = expand_iteration workflow catalog >>= λ expanded.
    check_comparison_facts expanded >>= λ _. ok expanded

-- One capability: its query, then the end
abbrev pub capability_workflow :
    ℕ
    → ℕ
    → WorkflowBudgets
    → KnowledgeCatalog
    → CapabilityKnowledge
    → Acquisition
    → ExecutionWorkflow
capability_workflow id catalog_version budgets catalog capability a =
    workflow_of id catalog_version budgets (output_mode capability.output_mode)
      (a.nodes
        ++ (execute_node_of capability catalog budgets a.inputs
            ∷ control_node complete_id (complete (record { terminal = success })) pure
            ∷ []))
      (a.edges ++ edge_to execute_id complete_id always ∷ [])

-- `proposal.capability_ids.first()`, approved
abbrev pub first_capability :
    KnowledgeCatalog → List String → Result CapabilityKnowledge CompileError
first_capability catalog [] = err unsupported
first_capability catalog (id ∷ ids) = approved_capability catalog id

abbrev pub compile_capability :
    ℕ
    → WorkflowProposal
    → KnowledgeCatalog
    → ℕ
    → WorkflowBudgets
    → AcquisitionFacts
    → Result ExecutionWorkflow CompileError
compile_capability id proposal catalog catalog_version budgets facts =
    check_capabilities catalog proposal.capability_ids >>= λ _.
    first_capability catalog proposal.capability_ids >>= λ capability.
    acquisition_inputs capability catalog facts execute_id >>= λ a.
    finish (capability_workflow id catalog_version budgets catalog capability a) catalog

abbrev pub compile_proposal :
    ℕ
    → WorkflowProposal
    → KnowledgeCatalog
    → ℕ
    → WorkflowBudgets
    → Result ExecutionWorkflow CompileError
compile_proposal id proposal catalog catalog_version budgets =
    resolve_proposal_resources proposal catalog >>= λ _.
    finish (workflow_of id catalog_version budgets table proposal.nodes proposal.edges) catalog

unfoldable pub compile_with_facts :
    ℕ
    → WorkflowProposal
    → KnowledgeCatalog
    → ℕ
    → WorkflowBudgets
    → AcquisitionFacts
    → Result ExecutionWorkflow CompileError
unfolding finish resolve_proposal_resources acquisition_inputs approved_capability output_mode
compile_with_facts id proposal catalog catalog_version budgets facts =
    if is_empty proposal.nodes
    then compile_capability id proposal catalog catalog_version budgets facts
    else compile_proposal id proposal catalog catalog_version budgets

-- `compile`
unfoldable pub compile :
    ℕ
    → WorkflowProposal
    → KnowledgeCatalog
    → ℕ
    → WorkflowBudgets
    → Result ExecutionWorkflow CompileError
unfolding compile_with_facts
compile id proposal catalog catalog_version budgets =
    compile_with_facts id proposal catalog catalog_version budgets no_facts
