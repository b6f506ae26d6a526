-- ===== src/Samples/Runner.antt =====
-- Examples of Workflow/Runner: a workflow of a query and a terminal node, run to its end.
use fineract_ai_reports.Prelude.{
  string_eq, nat_eq, Result, ok, err, pos, int_eq, ℕ, ◌≡◌, refl, false, Option, none, some, [],
  Bool-cases, ◌==◌, ==→≡, ◌⊎◌, inl, inr, List, ◌∷◌, arith,
}
use fineract_ai_reports.Knowledge.{integer, parameter_type_eq}
use fineract_ai_reports.Json.{integer, object, end, field}
use fineract_ai_reports.Policy.{effective_office_scope, ensure_pii_allowed}
use fineract_ai_reports.Workflow.Contract.{node_id_eq, WorkflowNode}
use fineract_ai_reports.Workflow.Ledger.{
  RunError, state_failed, completed, WorkflowNodeRun, completed_run,
}
use fineract_ai_reports.Workflow.Budget.{
  BudgetTotals, no_budget, add_actual, from_completed, batch_of,
}
use fineract_ai_reports.Workflow.State.{Db, node_runs, begin_node, complete_node}
use fineract_ai_reports.Workflow.State.Jobs.{}
use fineract_ai_reports.Workflow.State.Consumed.{add_budget_consumed}
use fineract_ai_reports.Workflow.Runner.{
  completes_with, NodeBatchOutcome, completed_outcome, cancelled_outcome, Answer, RunContext,
  check_node_policy, bindings_for,
}
use fineract_ai_reports.Workflow.Runner.Node.{resolve_execution}
use fineract_ai_reports.Workflow.Runner.Reports.{}
use fineract_ai_reports.Workflow.Runner.Loop.{
  WorkflowRunOutcome, run_completed, Round, run_round, run_workflow, returned, next_round,
}
use fineract_ai_reports.Workflow.Runner.Rounds.{}
use fineract_ai_reports.Workflow.Runner.Ends.{run_workflow_ends}
use fineract_ai_reports.Workflow.Runner.Once.{
  Reaches, begins, goes_on, HasUniqueIds, AreOnce, Reaches-AreOnce,
}
use fineract_ai_reports.Workflow.Runner.Spent.{Reaches-from_completed}
use fineract_ai_reports.Workflow.Runner.Rows.{RowsHave}
use fineract_ai_reports.Workflow.Runner.Authorized.{IsAllowed, IsOld, run_workflow-IsAllowed}
use fineract_ai_reports.Samples.Values.{two_steps, officer, small_catalog, run_named}

abbrev context : RunContext
context = record {
  job_id = 5;
  user_id = 2;
  principal = officer;
  workflow = two_steps;
  catalog = small_catalog;
}

abbrev twelve_rows : ℕ → WorkflowNode → Answer
twelve_rows n node = record {
  run_id = n;
  now = n;
  elapsed = pos 40;
  cancelled = false;
  execute =
      λ bindings. ok (completes_with (object (field "row_count" (integer (pos 12)) end)) (pos 12));
}

abbrev empty_db : Db
empty_db = record { jobs = []; memory = []; node_runs = []; checkpoints = []; events = [] }

run_workflow_ends_example :
    (result : Result WorkflowRunOutcome RunError × Db) × (run_workflow context twelve_rows empty_db
      ≡ some result)
run_workflow_ends_example = run_workflow_ends context twelve_rows empty_db

abbrev ended :
    (result : Result WorkflowRunOutcome RunError × Db) × (run_workflow context twelve_rows empty_db
      ≡ some result)
ended = run_workflow_ends context twelve_rows empty_db

run_workflow-IsAllowed_example : RowsHave (λ id. IsOld empty_db id ⊎ IsAllowed context id) ended.0.1
run_workflow-IsAllowed_example =
    run_workflow-IsAllowed context twelve_rows empty_db ended.0.1 ended.0.0 ended.1

result_of : Option (Result WorkflowRunOutcome RunError × Db) → Result WorkflowRunOutcome RunError
result_of none = err state_failed
result_of (some result) = result.0

completes_two_steps : result_of (run_workflow context twelve_rows empty_db) ≡ ok run_completed
unfolding result_of run_workflow check_node_policy ensure_pii_allowed effective_office_scope
    bindings_for resolve_execution complete_node begin_node completed_run add_actual
    add_budget_consumed
completes_two_steps = refl

abbrev runs_of : Round → List WorkflowNodeRun
runs_of (returned result db) = []
runs_of (next_round runs consumed db) = runs

abbrev used_of : Round → BudgetTotals
used_of (returned result db) = no_budget
used_of (next_round runs consumed db) = consumed

abbrev db_of : Round → Db
db_of (returned result db) = db
db_of (next_round runs consumed db) = db

abbrev first_round : Round
first_round =
    run_round context (twelve_rows 0) (node_runs 5 7 empty_db)
      (from_completed two_steps (node_runs 5 7 empty_db)) empty_db

one_round :
    Reaches context twelve_rows empty_db 1
      (runs_of first_round)
      (used_of first_round)
      (db_of first_round)
unfolding run_round check_node_policy ensure_pii_allowed effective_office_scope bindings_for
    resolve_execution complete_node begin_node completed_run add_actual add_budget_consumed
    node_runs from_completed batch_of
one_round = goes_on begins refl

two_steps-HasUniqueIds : HasUniqueIds two_steps.nodes
two_steps-HasUniqueIds id = elim (Bool-cases ("loans" == id.name)) [
  | inl t ↦ rw (← ==→≡ "loans" id.name t) (omega arith)
  | inr f ↦ rw f (elim (Bool-cases ("done" == id.name)) [
    | inl t ↦ rw t (omega arith)
    | inr g ↦ rw g (omega arith)
  ])
]

Reaches-AreOnce_example : AreOnce (runs_of first_round)
unfolding node_runs
Reaches-AreOnce_example =
    Reaches-AreOnce context twelve_rows empty_db 1 (runs_of first_round) (used_of first_round)
      (db_of first_round) two_steps-HasUniqueIds (λ id. omega arith) one_round

Reaches-from_completed_example :
    used_of first_round ≡ from_completed two_steps (runs_of first_round)
Reaches-from_completed_example =
    Reaches-from_completed context twelve_rows empty_db 1 (runs_of first_round)
      (used_of first_round) (db_of first_round) two_steps-HasUniqueIds one_round

abbrev mixed : List NodeBatchOutcome
mixed =
    completed_outcome (run_named "loans" completed) none (record { name = "loans" }) 1
    ∷ cancelled_outcome
    ∷ []
