-- ===== src/Workflow/Schedule.antt =====
-- Which nodes of a workflow may start: `runnable`, `dependencies_satisfied` and
-- `edge_condition_matches` of crates/chat/src/assistant/workflow/run.rs.
pub mod Readiness
use fineract_ai_reports.Prelude.{
  if◌then◌else◌, ◌==◌, nat_eq, string_eq, is_empty, filter, any, contains, Result, ok, err, int_eq,
  Bool, true, false, ◌&&◌, ◌||◌, List,
}
use fineract_ai_reports.Workflow.Contract.{
  NodeId, node_id_eq, Cardinality, cardinality_beq, EdgeCondition, always, cardinality,
  clarification_answered, WorkflowEdge, WorkflowNode, ExecutionWorkflow,
}
use fineract_ai_reports.Workflow.Ledger.{
  is_active_status, WorkflowNodeRun, RunError, completed_ids, cardinality_for,
}

abbrev is_ok_and : Result Cardinality RunError → Cardinality → Bool
is_ok_and (ok actual) expected = cardinality_beq actual expected
is_ok_and (err e) expected = false

unfoldable pub edge_condition_matches : EdgeCondition → NodeId → List WorkflowNodeRun → Bool
edge_condition_matches always source runs = true
edge_condition_matches clarification_answered source runs = true
edge_condition_matches (cardinality expected) source runs =
    is_ok_and (cardinality_for runs source) expected

abbrev pub incoming_edges : WorkflowNode → ExecutionWorkflow → List WorkflowEdge
incoming_edges node workflow = filter (λ edge. edge.to == node.id) workflow.edges

abbrev pub edge_satisfied : List NodeId → List WorkflowNodeRun → WorkflowEdge → Bool
edge_satisfied done runs edge =
    contains done edge.from && edge_condition_matches edge.condition edge.from runs

abbrev pub is_started : WorkflowNode → List WorkflowNodeRun → Bool
is_started node runs = any (λ run. (run.node_id == node.id) && is_active_status run.status) runs

unfoldable pub is_runnable :
    WorkflowNode → ExecutionWorkflow → List WorkflowNodeRun → List NodeId → Bool
unfolding edge_condition_matches
is_runnable node workflow runs done =
    if contains done node.id || is_started node runs
    then false
    else let incoming = incoming_edges node workflow in
      is_empty incoming || any (edge_satisfied done runs) incoming

unfoldable pub dependencies_satisfied :
    WorkflowNode → ExecutionWorkflow → List WorkflowNodeRun → Bool
unfolding edge_condition_matches completed_ids
dependencies_satisfied node workflow runs =
    let done = completed_ids runs in
    let incoming = incoming_edges node workflow in
    is_empty incoming || any (edge_satisfied done runs) incoming

-- The candidates of one round of the loop, in the order of the workflow.
unfoldable pub runnable_nodes : ExecutionWorkflow → List WorkflowNodeRun → List WorkflowNode
unfolding is_runnable completed_ids
runnable_nodes workflow runs =
    filter (λ node. is_runnable node workflow runs (completed_ids runs)) workflow.nodes
