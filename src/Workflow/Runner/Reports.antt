-- ===== src/Workflow/Runner/Reports.antt =====
-- Each outcome of a batch is about its own node.
use fineract_ai_reports.Prelude.{
  nat_beq, Bool-cases, ◌==◌, ==_refl, string_eq, nat_eq, Result, ok, err, Result-cases, ℤ, int_eq,
  ◌≡◌, refl, inl, inr, Bool, true, false, ◌&&◌, List, [], ◌∷◌, arith,
}
use fineract_ai_reports.Json.{Json, Fields}
use fineract_ai_reports.Workflow.Contract.{node_id_eq, WorkflowNode}
use fineract_ai_reports.Workflow.Ledger.{
  WorkflowNodeRun, RunError, completes, completed_run, next_attempt,
}
use fineract_ai_reports.Workflow.Budget.{}
use fineract_ai_reports.Workflow.Schedule.{}
use fineract_ai_reports.Workflow.Redaction.{persisted_output}
use fineract_ai_reports.Workflow.State.{Db, begin_node, complete_node}
use fineract_ai_reports.Workflow.State.Jobs.{}
use fineract_ai_reports.Workflow.Runner.{
  NodeExecution, completes_with, waits_for, fails, NodeBatchOutcome, completed_outcome,
  waiting_outcome, failed_outcome, cancelled_outcome, Answer, RunContext, check_node_policy,
  bindings_for,
}
use fineract_ai_reports.Workflow.Runner.Node.{
  resolve_execution, report_completed, finish_node, policy_provenance, continue_node, start_node,
  execute_node,
}
use fineract_ai_reports.Workflow.Runner.Loop.{execute_batch, collect}

-- An outcome that reports a completed run is about its own node.

abbrev pub is_report_of : WorkflowNode → NodeBatchOutcome → Bool
is_report_of node (completed_outcome run decision id query_cost) =
    completes node.id run && nat_beq query_cost node.budget.query_cost
is_report_of node (waiting_outcome id clarification) = id == node.id
is_report_of node failed_outcome = true
is_report_of node cancelled_outcome = true

abbrev pub IsReportOf : WorkflowNode → Result NodeBatchOutcome RunError → Type 0
IsReportOf node (ok o) = is_report_of node o ≡ true
IsReportOf node (err e) = Unit

report_completed-IsReportOf :
    (c : RunContext) (a : Answer) (node : WorkflowNode) (run : WorkflowNodeRun) (output : Json)
    (rows : ℤ) (x : Result (Unit {0}) RunError × Db)
    → run.node_id ≡ node.id
    → IsReportOf node (report_completed c a node run output rows x).0
unfolding completed_run
report_completed-IsReportOf c a node run output rows (err e, db) same = tt
report_completed-IsReportOf c a node run output rows (ok u, db) same =
    rw same (ground (arith, ==_refl node.id.name))

finish_node-IsReportOf :
    (c : RunContext) (a : Answer) (node : WorkflowNode) (run : WorkflowNodeRun)
    (x : Result NodeExecution RunError × Db)
    → run.node_id ≡ node.id
    → IsReportOf node (finish_node c a node run x).0
finish_node-IsReportOf c a node run (err e, db) same = tt
finish_node-IsReportOf c a node run (ok (completes_with output rows), db) same =
    report_completed-IsReportOf c a node run output rows
      (complete_node run (persisted_output node.inputs output) rows a.elapsed a.now db) same
finish_node-IsReportOf c a node run (ok (waits_for clarification), db) same = ==_refl node.id.name
finish_node-IsReportOf c a node run (ok fails, db) same = refl

continue_node-IsReportOf :
    (c : RunContext) (a : Answer) (node : WorkflowNode) (runs : List WorkflowNodeRun)
    (begun : WorkflowNodeRun × Db) (bindings : Result Fields RunError)
    → begun.0.node_id ≡ node.id
    → IsReportOf node (continue_node c a node runs begun bindings).0
unfolding resolve_execution
continue_node-IsReportOf c a node runs (run, db) (err e) same = tt
continue_node-IsReportOf c a node runs (run, db) (ok bindings) same =
    elim (Bool-cases a.cancelled) [
      | inl stopped ↦ rw stopped refl
      | inr live ↦
          rw live
            (finish_node-IsReportOf c a node run (resolve_execution c a node bindings runs db) same)
    ]

start_node-IsReportOf :
    (c : RunContext) (a : Answer) (node : WorkflowNode) (runs : List WorkflowNodeRun) (db : Db)
    (allowed : Result (Unit {0}) RunError)
    → IsReportOf node (start_node c a node runs db allowed).0
unfolding begin_node
start_node-IsReportOf c a node runs db (err e) = tt
start_node-IsReportOf c a node runs db (ok u) =
    continue_node-IsReportOf c a node runs
      (begin_node a.run_id c.job_id c.workflow.id node.id (next_attempt runs node.id)
        (policy_provenance node.id) a.now db)
      (bindings_for node runs c.principal) refl

pub execute_node-IsReportOf :
    (c : RunContext) (a : Answer) (node : WorkflowNode) (runs : List WorkflowNodeRun) (db : Db)
    → IsReportOf node (execute_node c a node runs db).0
unfolding execute_node
execute_node-IsReportOf c a node runs db =
    start_node-IsReportOf c a node runs db (check_node_policy node c.principal c.catalog)

-- The outcomes of a batch that returned no error, node by node.
abbrev pub are_reports_of : List WorkflowNode → List NodeBatchOutcome → Bool
are_reports_of [] [] = true
are_reports_of (node ∷ nodes) (o ∷ os) = is_report_of node o && are_reports_of nodes os
are_reports_of _ _ = false

abbrev pub AreReportsOf : List WorkflowNode → Result (List NodeBatchOutcome) RunError → Type 0
AreReportsOf nodes (ok os) = are_reports_of nodes os ≡ true
AreReportsOf nodes (err e) = Unit

collect-AreReportsOf :
    (node : WorkflowNode) (nodes : List WorkflowNode) (r : Result NodeBatchOutcome RunError)
    (rs : List (Result NodeBatchOutcome RunError))
    → IsReportOf node r
    → AreReportsOf nodes (collect rs)
    → AreReportsOf (node ∷ nodes) (collect (r ∷ rs))
collect-AreReportsOf node nodes (err e) rs h k = tt
collect-AreReportsOf node nodes (ok o) rs h k = elim (Result-cases (collect rs)) [
  | inl (os, good) ↦ rw good (let k' : are_reports_of nodes os ≡ true = rw good at k in rw (h, k'))
  | inr (e, bad) ↦ rw bad tt
]

pub execute_batch-AreReportsOf :
    (c : RunContext) (answers : WorkflowNode → Answer) (nodes : List WorkflowNode)
    (runs : List WorkflowNodeRun) (db : Db)
    → AreReportsOf nodes (collect (execute_batch c answers nodes runs db).0)
execute_batch-AreReportsOf c answers [] runs db = refl
execute_batch-AreReportsOf c answers (node ∷ nodes) runs db =
    let started = (execute_node c (answers node) node runs db).1 in
    collect-AreReportsOf node nodes (execute_node c (answers node) node runs db).0
      (execute_batch c answers nodes runs started).0
      (execute_node-IsReportOf c (answers node) node runs db)
      (execute_batch-AreReportsOf c answers nodes runs started)
