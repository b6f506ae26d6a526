-- ===== src/Workflow/Verify/Whole.antt =====
-- `verify` of verify.rs.
use fineract_ai_reports.Prelude.{
  ltb, nat_beq, if◌then◌else◌, string_eq, nat_eq, length, any, contains, Result, ok, ok_or, ◌>>=◌,
  int_eq, ℕ, ◌+◌, ◌%◌, ◌^◌, Bool, true, false, ◌||◌, not, List, [], ◌∷◌, map,
}
use fineract_ai_reports.Knowledge.{parameter_type_eq, KnowledgeCatalog}
use fineract_ai_reports.Policy.{PrincipalContext}
use fineract_ai_reports.Workflow.Contract.{
  NodeId, node_id_eq, fail_fast, continue_labelled, NodeKind, complete, WorkflowEdge, WorkflowNode,
  ExecutionWorkflow,
}
use fineract_ai_reports.Workflow.Budget.{}
use fineract_ai_reports.Workflow.Verify.{
  VerifyError, cycle, budget_exceeded, partial_results_not_permitted, unreachable_or_orphan_node,
  WorkflowGraph, reject_any,
}
use fineract_ai_reports.Workflow.Verify.Nodes.{verify_node}

-- A set that is collected from the ids

abbrev pub distinct : List NodeId → List NodeId
distinct [] = []
distinct (id ∷ ids) = let rest = distinct ids in if contains ids id then rest else id ∷ rest

abbrev pub ids_of : ExecutionWorkflow → List NodeId
ids_of workflow = map (λ (node : WorkflowNode). node.id) workflow.nodes

abbrev pub is_terminal_kind : NodeKind → Bool
is_terminal_kind (complete done) = true
is_terminal_kind _ = false

abbrev pub has_unknown_end : ExecutionWorkflow → WorkflowEdge → Bool
has_unknown_end workflow edge =
    not (contains (ids_of workflow) edge.from) || not (contains (ids_of workflow) edge.to)

abbrev pub is_malformed : WorkflowGraph → ExecutionWorkflow → Bool
is_malformed graph workflow =
    not (nat_beq (length (distinct (ids_of workflow))) (length workflow.nodes))
    || any (has_unknown_end workflow) workflow.edges
    || not (nat_beq (length graph.entry_nodes) 1)
    || not (any (λ (node : WorkflowNode). is_terminal_kind node.kind) workflow.nodes)

-- `entry_nodes().pop()`, once their number is known to be one
abbrev pub misses_node : WorkflowGraph → ExecutionWorkflow → List NodeId → Bool
misses_node graph workflow [] = true
misses_node graph workflow (entry ∷ rest) =
    not (nat_beq (length (graph.reachable_from entry)) (length workflow.nodes))

abbrev pub is_unlabelled : ExecutionWorkflow → Bool
is_unlabelled workflow = elim workflow.fail_policy [
  | continue_labelled ↦ not workflow.output_contract.allows_partial
  | fail_fast ↦ false
]

-- `sum()` in a type of `w` bits
abbrev pub wrapping_sum : ℕ → (WorkflowNode → ℕ) → List WorkflowNode → ℕ
wrapping_sum w cost [] = 0
wrapping_sum w cost (node ∷ nodes) = (cost node + wrapping_sum w cost nodes) % 2 ^ w

unfoldable pub over_budget : WorkflowGraph → ExecutionWorkflow → Bool
over_budget graph workflow =
    ltb workflow.budgets.max_query_count
      (wrapping_sum 16 (λ node. node.budget.query_cost) workflow.nodes)
    || ltb workflow.budgets.shared_row_cap
        (wrapping_sum 64 (λ node. node.budget.row_cap) workflow.nodes)
    || ltb workflow.budgets.shared_timeout_ms
        (wrapping_sum 64 (λ node. node.budget.timeout_ms) workflow.nodes)
    || nat_beq workflow.budgets.max_parallel_queries 0
    || ltb workflow.budgets.max_parallel_queries graph.max_runnable_width

abbrev pub verify_nodes :
    WorkflowGraph
    → List WorkflowNode
    → ExecutionWorkflow
    → List NodeId
    → PrincipalContext
    → KnowledgeCatalog
    → Result (Unit {0}) VerifyError
verify_nodes graph [] workflow topo principal catalog = ok tt
verify_nodes graph (node ∷ nodes) workflow topo principal catalog =
    verify_node graph node workflow topo principal catalog >>= λ _.
    verify_nodes graph nodes workflow topo principal catalog

pub record VerifiedWorkflow : Type 0 where
  pub workflow : ExecutionWorkflow

-- The guards before the loop over the nodes.
abbrev pub workflow_guards : WorkflowGraph → ExecutionWorkflow → List (Bool × VerifyError)
workflow_guards graph workflow =
    (graph.is_cyclic, cycle)
    ∷ (is_malformed graph workflow, unreachable_or_orphan_node)
    ∷ (misses_node graph workflow graph.entry_nodes, unreachable_or_orphan_node)
    ∷ (is_unlabelled workflow, partial_results_not_permitted)
    ∷ (over_budget graph workflow, budget_exceeded)
    ∷ []

-- `build` is `WorkflowGraph::new`.
unfoldable pub verify :
    (ExecutionWorkflow → WorkflowGraph)
    → ExecutionWorkflow
    → PrincipalContext
    → KnowledgeCatalog
    → Result VerifiedWorkflow VerifyError
unfolding verify_node over_budget
verify build workflow principal catalog =
    let graph = build workflow in
    reject_any (workflow_guards graph workflow) >>= λ _.
    ok_or cycle graph.topological_order >>= λ topo.
    verify_nodes graph workflow.nodes workflow topo principal catalog >>= λ _.
    ok (record { workflow = workflow })
