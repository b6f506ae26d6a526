-- ===== src/Samples/Values.antt =====
-- Small workflows, runs and rows that the examples share.
use fineract_ai_reports.Prelude.{
  nat_eq, string_eq, pos, int_eq, String, false, none, some, [], ◌∷◌, List,
}
use fineract_ai_reports.Knowledge.{
  pii, integer, parameter_type_eq, terminal, CapabilityKnowledge, ShapeOption, DatasetKnowledge,
  KnowledgeCatalog, operator_eq,
}
use fineract_ai_reports.Json.{null, integer, object, end, field}
use fineract_ai_reports.Policy.{PrincipalContext}
use fineract_ai_reports.Workflow.Contract.{
  node_id_eq, WorkflowBudgets, fail_fast, table, success, NodeKind, execute_query, complete,
  authorized_intersection, NodePolicy, NodeBudget, pure, EdgeCondition, always, WorkflowEdge,
  WorkflowNode, ExecutionWorkflow,
}
use fineract_ai_reports.Workflow.Ledger.{NodeRunStatus, WorkflowNodeRun}
use fineract_ai_reports.Workflow.Budget.{BudgetTotals}

abbrev pub sample_policy : NodePolicy
sample_policy = record {
  required_capability = none;
  office_scope = authorized_intersection;
  max_sensitivity = pii;
  pii_required = false;
}

abbrev pub node_named : String → NodeKind → NodeBudget → WorkflowNode
node_named name kind budget = record {
  id = record { name = name };
  kind = kind;
  inputs = [];
  outputs = [];
  policy = sample_policy;
  budget = budget;
  idempotency = pure;
  retry = record { max_attempts = 0 };
}

abbrev pub query_budget : NodeBudget
query_budget = record { timeout_ms = 5000; row_cap = 100; query_cost = 1 }

abbrev pub free_budget : NodeBudget
free_budget = record { timeout_ms = 0; row_cap = 0; query_cost = 0 }

abbrev pub query_node : String → WorkflowNode
query_node name =
    node_named name
      (execute_query (record {
        capability_id = none;
        dataset_id = none;
        shape_id = none;
        query_id = none;
        iterate_over = none;
      }))
      query_budget

abbrev pub complete_node_named : String → WorkflowNode
complete_node_named name = node_named name (complete (record { terminal = success })) free_budget

abbrev pub budgets_two : WorkflowBudgets
budgets_two = record {
  shared_timeout_ms = 10000;
  shared_row_cap = 150;
  max_query_count = 2;
  max_parallel_queries = 2;
  max_model_turns = 1;
  max_node_retries = 0;
}

abbrev pub edge_between : String → String → EdgeCondition → WorkflowEdge
edge_between a b condition = record {
  from = record { name = a };
  to = record { name = b };
  condition = condition;
}

abbrev pub two_steps : ExecutionWorkflow
two_steps = record {
  id = 7;
  contract_version = 1;
  catalog_version = 3;
  nodes = query_node "loans" ∷ complete_node_named "done" ∷ [];
  edges = edge_between "loans" "done" always ∷ [];
  budgets = budgets_two;
  fail_policy = fail_fast;
  output_contract = record { mode = table; allows_partial = false; max_sensitivity = pii };
}

abbrev pub run_named : String → NodeRunStatus → WorkflowNodeRun
run_named name status = record {
  id = 1;
  job_id = 5;
  workflow_id = 7;
  node_id = record { name = name };
  attempt = pos 0;
  status = status;
  output_json = some (object (field "row_count" (integer (pos 12)) end));
  provenance_json = null;
  rows_returned = pos 12;
  duration_ms = some (pos 40);
  started_at = none;
  finished_at = none;
}

abbrev pub consumed_little : BudgetTotals
consumed_little = record { queries = 0; rows = 10; ms = 100 }

abbrev pub officer : PrincipalContext
officer = record {
  user_id = 2;
  role = "user";
  capability_ids = "loans" ∷ [];
  office_ids = pos 1 ∷ pos 4 ∷ [];
  can_view_pii = false;
  legacy_api_key_id = none;
}

abbrev pub loans_capability : CapabilityKnowledge
loans_capability = record {
  id = "loans";
  status = "approved_mvp";
  query_id = "loans";
  output_mode = "table";
  display_name = none;
  dataset_recipe = none;
  parameter_policies = [];
  guards = record { max_limit = none };
}

abbrev pub small_catalog : KnowledgeCatalog
small_catalog = record {
  capabilities = loans_capability ∷ [];
  queries = [];
  parameter_bindings = [];
  datasets = [];
}

abbrev pub shape_named : String → List String → ShapeOption
shape_named id order_by = record {
  id = id;
  role = terminal;
  row_cap = none;
  grouped_by = none;
  produces = [];
  fragment = some "queries/fragment.sql";
  order_by = order_by;
  output_fields = [];
  parameters = [];
}

abbrev pub dataset_of : List ShapeOption → DatasetKnowledge
dataset_of shapes = record {
  id = "test.dataset";
  filters = [];
  entity = none;
  shapes = shapes;
  order_by = [];
  output_fields = [];
  parameters = [];
  timeout_ms = none;
}
