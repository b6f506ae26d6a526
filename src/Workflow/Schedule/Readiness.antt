-- ===== src/Workflow/Schedule/Readiness.antt =====
-- When a node may start: its dependencies are satisfied and it has no completed or active run.
use fineract_ai_reports.Prelude.{
  Bool-cases, ◌==◌, nat_eq, string_eq, any, contains, int_eq, ◌≡◌, refl, inl, inr, Bool, ◌&&◌, ◌||◌,
  not, List, [], ◌∷◌, arith,
}
use fineract_ai_reports.Workflow.Contract.{NodeId, node_id_eq, WorkflowNode, ExecutionWorkflow}
use fineract_ai_reports.Workflow.Ledger.{
  is_active_status, WorkflowNodeRun, is_completed, completes, completed_ids,
}
use fineract_ai_reports.Workflow.Schedule.{is_runnable, dependencies_satisfied}

pub contains-completed_ids :
    (runs : List WorkflowNodeRun) (id : NodeId)
    → contains (completed_ids runs) id ≡ any (completes id) runs
unfolding completed_ids
contains-completed_ids [] id = refl
contains-completed_ids (run ∷ runs) id = elim (Bool-cases (is_completed run)) [
  | inl t ↦ ground (arith, contains-completed_ids runs id)
  | inr f ↦ ground (arith, contains-completed_ids runs id)
]

-- A run that keeps its node from starting (again): a completed, a running or a waiting one.
abbrev pub blocks : NodeId → WorkflowNodeRun → Bool
blocks id run = (run.node_id == id) && (is_completed run || is_active_status run.status)

any-blocks :
    (runs : List WorkflowNodeRun) (id : NodeId)
    → any (blocks id) runs ≡ (
        any (completes id) runs
        || any (λ run. (run.node_id == id) && is_active_status run.status) runs)
any-blocks [] id = refl
any-blocks (run ∷ runs) id = ground (arith, any-blocks runs id)

-- The scheduler starts a node exactly if the guard's own check of its dependencies passes and no
-- run of the node is completed, running or waiting.
pub is_runnable-eq :
    (node : WorkflowNode) (workflow : ExecutionWorkflow) (runs : List WorkflowNodeRun)
    → is_runnable node workflow runs (completed_ids runs)
      ≡ (not (any (blocks node.id) runs) && dependencies_satisfied node workflow runs)
unfolding is_runnable dependencies_satisfied
is_runnable-eq node workflow runs =
    ground (arith, contains-completed_ids runs node.id, any-blocks runs node.id)
