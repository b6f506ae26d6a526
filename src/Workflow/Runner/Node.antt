-- ===== src/Workflow/Runner/Node.antt =====
-- One node's run: `resolve_execution` and `execute_node` of crates/chat/src/assistant/workflow/run.rs.
use fineract_ai_reports.Prelude.{
  if◌then◌else◌, ◌==◌, string_eq, nat_eq, find, Result, ok, err, ok_or, ◌>>=◌, ℤ, pos, int_eq,
  non_negative, String, true, Option, none, some, List, [], ◌∷◌,
}
use fineract_ai_reports.Knowledge.{parameter_type_eq, operator_eq}
use fineract_ai_reports.Json.{Json, bool, text, object, Fields, end, field, get, as_str, and_then}
use fineract_ai_reports.Policy.{}
use fineract_ai_reports.Workflow.Contract.{
  NodeId, node_id_eq, NodeKind, resolve_entity, cardinality_branch, clarification_interrupt,
  compose_result, complete, WorkflowNode, ExecutionWorkflow,
}
use fineract_ai_reports.Workflow.Ledger.{
  WorkflowNodeRun, RunError, compose_source_missing, completed_run, cardinality_for, node_output,
  next_attempt,
}
use fineract_ai_reports.Workflow.Redaction.{persisted_output}
use fineract_ai_reports.Workflow.Compose.{ComposeSource, ComposeOutcome, compose}
use fineract_ai_reports.Workflow.State.{
  ClarificationPayload, Db, begin_node, complete_node, fail_node, record_sensitivity_drop,
}
use fineract_ai_reports.Workflow.State.Jobs.{}
use fineract_ai_reports.Workflow.State.Consumed.{add_budget_consumed}
use fineract_ai_reports.Workflow.Runner.{
  NodeExecution, completes_with, waits_for, fails, NodeBatchOutcome, completed_outcome,
  waiting_outcome, failed_outcome, cancelled_outcome, Answer, RunContext, check_node_policy,
  bindings_for, max_visible_sensitivity, cardinality_text,
}

-- The sources of a composition, in order; the first one that is missing is the error.
abbrev pub compose_sources :
    ExecutionWorkflow → List WorkflowNodeRun → List NodeId → Result (List ComposeSource) RunError
compose_sources workflow runs [] = ok []
compose_sources workflow runs (id ∷ ids) =
    ok_or compose_source_missing (find (λ (node : WorkflowNode). node.id == id) workflow.nodes)
    >>= λ source. node_output runs id >>= λ output. compose_sources workflow runs ids >>= λ rest.
        ok (record { output = output; output_slots = source.outputs } ∷ rest)

-- The composition is done, or the drop could not be recorded.
abbrev pub resolve_recorded :
    Json → Result (Unit {0}) RunError × Db → Result NodeExecution RunError × Db
resolve_recorded value (ok _, db) = (ok (completes_with value (pos 0)), db)
resolve_recorded value (err e, db) = (err e, db)

abbrev pub resolve_composed :
    RunContext
    → WorkflowNode
    → Db
    → Result ComposeOutcome RunError
    → Result NodeExecution RunError × Db
resolve_composed c node db (err e) = (err e, db)
resolve_composed c node db (ok outcome) =
    resolve_recorded outcome.value
      (record_sensitivity_drop c.job_id c.workflow.id node.id outcome.dropped_fields db)

-- The match on the node's kind
abbrev pub resolve_kind :
    RunContext
    → Answer
    → WorkflowNode
    → Fields
    → List WorkflowNodeRun
    → Db
    → NodeKind
    → Result NodeExecution RunError × Db
resolve_kind c a node bindings runs db (cardinality_branch branch) = (
  cardinality_for runs branch.source >>= λ actual.
      ok (
        completes_with (object (field "cardinality" (text (cardinality_text actual)) end)) (pos 0)),
  db,
)
resolve_kind c a node bindings runs db (complete done) =
    (ok (completes_with (object end) (pos 0)), db)
resolve_kind c a node bindings runs db (compose_result composed) = resolve_composed c node db (
    compose_sources c.workflow runs composed.sources >>= λ sources.
    compose composed.composition sources (max_visible_sensitivity c.principal))
resolve_kind c a node bindings runs db _ = (a.execute bindings, db)

unfoldable pub resolve_execution :
    RunContext
    → Answer
    → WorkflowNode
    → Fields
    → List WorkflowNodeRun
    → Db
    → Result NodeExecution RunError × Db
resolve_execution c a node bindings runs db = resolve_kind c a node bindings runs db node.kind

abbrev pub branch_decision : NodeKind → Json → Option String
branch_decision (cardinality_branch branch) output = and_then (get output "cardinality") as_str
branch_decision _ output = none

abbrev pub resolved_kind : NodeKind → Option String
resolved_kind (resolve_entity resolve) = some resolve.entity_kind
resolved_kind _ = none

-- What the runner sets on a clarification before it reports it.
abbrev pub locate_clarification :
    ExecutionWorkflow → WorkflowNode → ClarificationPayload → ClarificationPayload
locate_clarification workflow node clarification = record clarification {
  workflow_id = some workflow.id;
  node_id = some node.id.name;
  entity_kind = elim node.kind [
    | clarification_interrupt interrupt ↦
        and_then (find (λ (n : WorkflowNode). n.id == interrupt.option_source) workflow.nodes)
          (λ n. resolved_kind n.kind)
    | _ ↦ none
  ];
  resume_node_id = elim node.kind [
    | clarification_interrupt interrupt ↦ some interrupt.resume.name
    | _ ↦ none
  ];
}

-- The tail of a completed node, once `complete_node` has answered.
abbrev pub report_completed :
    RunContext
    → Answer
    → WorkflowNode
    → WorkflowNodeRun
    → Json
    → ℤ
    → Result (Unit {0}) RunError × Db
    → Result NodeBatchOutcome RunError × Db
report_completed c a node run output rows (err e, db) = (err e, db)
report_completed c a node run output rows (ok u, db) = (
  ok (
      completed_outcome (completed_run run a.elapsed (persisted_output node.inputs output) rows)
        (branch_decision node.kind output) node.id node.budget.query_cost),
  add_budget_consumed c.job_id (pos node.budget.query_cost) (pos (non_negative rows))
      (pos (non_negative a.elapsed)) db,
)

-- The match on the execution
abbrev pub finish_node :
    RunContext
    → Answer
    → WorkflowNode
    → WorkflowNodeRun
    → Result NodeExecution RunError × Db
    → Result NodeBatchOutcome RunError × Db
finish_node c a node run (err e, db) = (err e, db)
finish_node c a node run (ok (completes_with output rows), db) =
    report_completed c a node run output rows
      (complete_node run (persisted_output node.inputs output) rows a.elapsed a.now db)
finish_node c a node run (ok (waits_for clarification), db) =
    (ok (waiting_outcome node.id (locate_clarification c.workflow node clarification)), db)
finish_node c a node run (ok fails, db) = (ok failed_outcome, fail_node run a.elapsed a.now db)

abbrev pub policy_provenance : NodeId → Json
policy_provenance node =
    object (field "node_id" (text node.name) (field "policy_checked" (bool true) end))

-- After `begin_node`: the bindings, then the race of the execution against the cancellation.
abbrev pub continue_node :
    RunContext
    → Answer
    → WorkflowNode
    → List WorkflowNodeRun
    → WorkflowNodeRun × Db
    → Result Fields RunError
    → Result NodeBatchOutcome RunError × Db
continue_node c a node runs (run, db) (err e) = (err e, db)
continue_node c a node runs (run, db) (ok bindings) =
    if a.cancelled
    then (ok cancelled_outcome, fail_node run a.elapsed a.now db)
    else finish_node c a node run (resolve_execution c a node bindings runs db)

-- After the policy check
abbrev pub start_node :
    RunContext
    → Answer
    → WorkflowNode
    → List WorkflowNodeRun
    → Db
    → Result (Unit {0}) RunError
    → Result NodeBatchOutcome RunError × Db
start_node c a node runs db (err e) = (err e, db)
start_node c a node runs db (ok u) =
    continue_node c a node runs
      (begin_node a.run_id c.job_id c.workflow.id node.id (next_attempt runs node.id)
        (policy_provenance node.id) a.now db)
      (bindings_for node runs c.principal)

unfoldable pub execute_node :
    RunContext
    → Answer
    → WorkflowNode
    → List WorkflowNodeRun
    → Db
    → Result NodeBatchOutcome RunError × Db
execute_node c a node runs db =
    start_node c a node runs db (check_node_policy node c.principal c.catalog)
