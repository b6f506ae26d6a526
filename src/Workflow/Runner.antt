-- ===== src/Workflow/Runner.antt =====
-- What precedes a node's run: `check_node_policy` and `bindings_for` of
-- crates/chat/src/assistant/workflow/run.rs. What a run gets from outside, the executor's result,
-- the new id, the time and whether its batch was cancelled first, is its `Answer`.
pub mod Node
pub mod Loop
pub mod Rows
pub mod Guarded
pub mod Authorized
pub mod Outcomes
pub mod Reports
pub mod Rounds
pub mod Ends
pub mod Once
pub mod Spent
use fineract_ai_reports.Prelude.{
  if◌then◌else◌, ◌==◌, string_eq, nat_eq, any, Result, ok, err, ◌>>=◌, ℤ, int_eq, ℕ, String, Bool,
  ◌&&◌, Option, none, some, List, [], ◌∷◌,
}
use fineract_ai_reports.Knowledge.{
  Sensitivity, pii, filter_only, integer, parameter_type_eq, KnowledgeCatalog,
}
use fineract_ai_reports.Json.{
  Json, null, integer, array, Items, nil, cons, Fields, end, insert_field,
}
use fineract_ai_reports.Policy.{
  PrincipalContext, AuthorizationError, approved, ensure_capability_allowed, effective_office_scope,
  ensure_pii_allowed,
}
use fineract_ai_reports.Workflow.Contract.{
  NodeId, node_id_eq, NodeKind, execute_query, Cardinality, zero_rows, one_row, many_rows,
  BindingSource, authorized_scope, prior_step, authorized_data_probe, NodeInput, WorkflowNode,
  ExecutionWorkflow,
}
use fineract_ai_reports.Workflow.Ledger.{
  WorkflowNodeRun, RunError, capability_unavailable, policy_denied, output_slot,
}
use fineract_ai_reports.Workflow.Redaction.{is_exact_sensitive}
use fineract_ai_reports.Workflow.Compose.{}
use fineract_ai_reports.Workflow.State.{ClarificationPayload}
use fineract_ai_reports.Workflow.State.Jobs.{}

pub data NodeExecution : Type 0 where
  completes_with : Json → ℤ → NodeExecution
  waits_for : ClarificationPayload → NodeExecution
  fails : NodeExecution

pub data NodeBatchOutcome : Type 0 where
  -- the run, the branch decision, the node and its query cost
  completed_outcome : WorkflowNodeRun → Option String → NodeId → ℕ → NodeBatchOutcome
  waiting_outcome : NodeId → ClarificationPayload → NodeBatchOutcome
  failed_outcome : NodeBatchOutcome
  cancelled_outcome : NodeBatchOutcome

pub record Answer : Type 0 where
  pub run_id : ℕ
  pub now : ℕ
  pub elapsed : ℤ  -- i32
  pub cancelled : Bool
  pub execute : Fields → Result NodeExecution RunError

-- The arguments of `run`, and the runner's catalog.
pub record RunContext : Type 0 where
  pub job_id : ℕ
  pub user_id : ℕ
  pub principal : PrincipalContext
  pub workflow : ExecutionWorkflow
  pub catalog : KnowledgeCatalog

abbrev pub policy_result : {A : Type 0} → Result A AuthorizationError → Result A RunError
policy_result (ok a) = ok a
policy_result (err e) = err policy_denied

abbrev pub check_capability :
    Option String → PrincipalContext → KnowledgeCatalog → Result (Unit {0}) RunError
check_capability none principal catalog = ok tt
check_capability (some capability) principal catalog =
    if any (λ item. (item.id == capability) && approved item) catalog.capabilities
    then policy_result (ensure_capability_allowed principal capability)
    else err capability_unavailable

abbrev pub query_capability : NodeKind → Option String
query_capability (execute_query query) = query.capability_id
query_capability _ = none

unfoldable pub check_node_policy :
    WorkflowNode → PrincipalContext → KnowledgeCatalog → Result (Unit {0}) RunError
check_node_policy node principal catalog =
    check_capability node.policy.required_capability principal catalog >>= λ _.
    check_capability (query_capability node.kind) principal catalog >>= λ _.
    policy_result (ensure_pii_allowed principal node.policy.pii_required) >>= λ _.
    policy_result (effective_office_scope principal none) >>= λ _. ok tt

abbrev pub integer_items : List ℤ → Items
integer_items [] = nil
integer_items (n ∷ ns) = cons (integer n) (integer_items ns)

-- The value of one input; an exact sensitive input is skipped before this.
abbrev pub binding_value :
    BindingSource → List WorkflowNodeRun → PrincipalContext → Result Json RunError
binding_value authorized_scope runs principal =
    policy_result (effective_office_scope principal none) >>= λ ids. ok (array (integer_items ids))
binding_value (prior_step node slot) runs principal = output_slot runs node slot
binding_value (authorized_data_probe node slot) runs principal = output_slot runs node slot
binding_value _ runs principal = ok null

-- The loop over the inputs, with the map of `bindings`
pub bind_inputs :
    List NodeInput → List WorkflowNodeRun → PrincipalContext → Fields → Result Fields RunError
unfolding output_slot effective_office_scope
bind_inputs [] runs principal bindings = ok bindings
bind_inputs (input ∷ rest) runs principal bindings =
    if is_exact_sensitive input.source
    then bind_inputs rest runs principal bindings
    else binding_value input.source runs principal >>= λ value.
        bind_inputs rest runs principal (insert_field bindings input.parameter value)

unfoldable pub bindings_for :
    WorkflowNode → List WorkflowNodeRun → PrincipalContext → Result Fields RunError
unfolding bind_inputs
bindings_for node runs principal = bind_inputs node.inputs runs principal end

unfoldable pub max_visible_sensitivity : PrincipalContext → Sensitivity
max_visible_sensitivity principal = if principal.can_view_pii then pii else filter_only

abbrev pub cardinality_text : Cardinality → String
cardinality_text zero_rows = "zero"
cardinality_text one_row = "one"
cardinality_text many_rows = "many"
