-- ===== src/Workflow/Budget/Resumed.antt =====
-- A resumed run starts its budget where the last one left it.
use fineract_ai_reports.Prelude.{
  nat_eq, string_eq, filter, filter-append, int_eq, ◌≡◌, refl, ◌∙◌, true, some, List, [], ◌∷◌, ◌++◌,
}
use fineract_ai_reports.Workflow.Contract.{node_id_eq, WorkflowNode, ExecutionWorkflow}
use fineract_ai_reports.Workflow.Ledger.{completed, WorkflowNodeRun, is_completed}
use fineract_ai_reports.Workflow.Budget.{
  BudgetTotals, no_budget, add_actual, node_of, add_run, add_runs, from_completed,
}

add_runs-append :
    (workflow : ExecutionWorkflow) (t : BudgetTotals) (xs ys : List WorkflowNodeRun)
    → add_runs workflow t (xs ++ ys) ≡ add_runs workflow (add_runs workflow t xs) ys
add_runs-append workflow t [] ys = refl
add_runs-append workflow t (x ∷ xs) ys = add_runs-append workflow (add_run workflow t x) xs ys

-- The ledger rebuilt from durable node runs, after a run of a known node has completed, is the
-- ledger before it with the node's query cost and the run's own rows and time added.
pub from_completed-snoc :
    (workflow : ExecutionWorkflow) (runs : List WorkflowNodeRun) (run : WorkflowNodeRun)
    (node : WorkflowNode)
    → run.status ≡ completed
    → node_of workflow run.node_id ≡ some node
    → from_completed workflow (runs ++ run ∷ [])
      ≡ add_actual (from_completed workflow runs) node.budget.query_cost run
unfolding from_completed add_actual
from_completed-snoc workflow runs run node done known =
    let d : is_completed run ≡ true = rw done in
    rw (filter-append is_completed runs (run ∷ []), d)
      (add_runs-append workflow no_budget (filter is_completed runs) (run ∷ []) ∙ rw known)
