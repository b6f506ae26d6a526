-- ===== src/Workflow/Runner/Outcomes.antt =====
-- How the outcomes of a batch decide what a run returns.
use fineract_ai_reports.Prelude.{
  if◌then◌else◌, string_eq, nat_eq, any, ok, err, int_eq, Bool, true, false, Option, none, some,
  List, [], ◌∷◌,
}
use fineract_ai_reports.Json.{}
use fineract_ai_reports.Workflow.Contract.{NodeId, node_id_eq}
use fineract_ai_reports.Workflow.Ledger.{WorkflowNodeRun, RunError}
use fineract_ai_reports.Workflow.Budget.{BudgetTotals}
use fineract_ai_reports.Workflow.Schedule.{}
use fineract_ai_reports.Workflow.Schedule.Readiness.{}
use fineract_ai_reports.Workflow.State.{ClarificationPayload, Db}
use fineract_ai_reports.Workflow.Runner.{
  NodeBatchOutcome, completed_outcome, waiting_outcome, failed_outcome, cancelled_outcome,
}
use fineract_ai_reports.Workflow.Runner.Node.{}
use fineract_ai_reports.Workflow.Runner.Loop.{
  WorkflowRunOutcome, waiting_for_user_input, run_failed, Round, returned, next_round,
}
use fineract_ai_reports.Workflow.Runner.Ends.{}

abbrev pub is_failure : NodeBatchOutcome → Bool
is_failure failed_outcome = true
is_failure cancelled_outcome = true
is_failure _ = false

-- The first outcome of the batch that waits.
abbrev pub first_waiting : List NodeBatchOutcome → Option (NodeId × ClarificationPayload)
first_waiting [] = none
first_waiting (waiting_outcome id clarification ∷ os) = some (id, clarification)
first_waiting (completed_outcome run decision id cost ∷ os) = first_waiting os
first_waiting (failed_outcome ∷ os) = first_waiting os
first_waiting (cancelled_outcome ∷ os) = first_waiting os

abbrev or_else {ℓ} : {T : Type ℓ} → Option T → Option T → Option T
or_else none o = o
or_else (some v) o = some v

-- The answer that outcomes without an error lead to, `none` where the loop goes on.
abbrev pub answer_of : List NodeBatchOutcome → Option WorkflowRunOutcome
answer_of os = if any is_failure os then some run_failed else elim (first_waiting os) [
  | some (id, clarification) ↦ some (waiting_for_user_input id)
  | none ↦ none
]

-- A round has ended as `answer` says; a pause that the database refuses is an error.
pub data EndsAs : Option WorkflowRunOutcome → Round → Type 0 where
  continues :
      {runs : List WorkflowNodeRun} {used : BudgetTotals} {db : Db}
      → EndsAs none (next_round runs used db)
  answers_with :
      {answer : WorkflowRunOutcome} {db : Db} → EndsAs (some answer) (returned (ok answer) db)
  pause_refused :
      {id : NodeId} {e : RunError} {db : Db}
      → EndsAs (some (waiting_for_user_input id)) (returned (err e) db)
