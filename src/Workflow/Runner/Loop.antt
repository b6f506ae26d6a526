-- ===== src/Workflow/Runner/Loop.antt =====
-- `run` of crates/chat/src/assistant/workflow/run.rs: rounds that start a batch of runnable nodes
-- until the workflow completes, fails or waits for the user. The statements of the nodes of one
-- batch are taken in the order of the nodes. `fuel` counts rounds.
use fineract_ai_reports.Prelude.{
  if◌then◌else◌, string_eq, nat_eq, length, is_empty, any, contains, Result, ok, err, ◌>>=◌, int_eq,
  ℕ, zero, suc, String, Bool, true, false, ◌&&◌, Option, none, some, List, [], ◌∷◌, ◌++◌,
}
use fineract_ai_reports.Json.{}
use fineract_ai_reports.Workflow.Contract.{
  NodeId, node_id_eq, NodeKind, complete, Idempotency, execute_once, WorkflowNode,
  ExecutionWorkflow,
}
use fineract_ai_reports.Workflow.Ledger.{
  WorkflowNodeRun, RunError, execute_once_twice, completes, completed_ids,
}
use fineract_ai_reports.Workflow.Budget.{BudgetTotals, add_actual, from_completed, batch_of}
use fineract_ai_reports.Workflow.Schedule.{runnable_nodes}
use fineract_ai_reports.Workflow.State.{ClarificationPayload, Db, node_runs, record_branch_decision}
use fineract_ai_reports.Workflow.State.Jobs.{mark_workflow_paused}
use fineract_ai_reports.Workflow.Runner.{
  NodeBatchOutcome, completed_outcome, waiting_outcome, failed_outcome, cancelled_outcome, Answer,
  RunContext,
}
use fineract_ai_reports.Workflow.Runner.Node.{execute_node}

pub data WorkflowRunOutcome : Type 0 where
  run_completed : WorkflowRunOutcome
  waiting_for_user_input : NodeId → WorkflowRunOutcome
  run_failed : WorkflowRunOutcome

-- `join_all` over the batch: every node runs, whatever its siblings return.
abbrev pub execute_batch :
    RunContext
    → (WorkflowNode → Answer)
    → List WorkflowNode
    → List WorkflowNodeRun
    → Db
    → List (Result NodeBatchOutcome RunError) × Db
execute_batch c answers [] runs db = ([], db)
execute_batch c answers (node ∷ nodes) runs db =
    let (outcome, started) = execute_node c (answers node) node runs db in
    let (outcomes, after) = execute_batch c answers nodes runs started in
    (outcome ∷ outcomes, after)

-- `collect::<Result<Vec<_>>>()`: the first error, or every outcome
abbrev pub collect {ℓ} : {T E : Type ℓ} → List (Result T E) → Result (List T) E
collect [] = ok []
collect (r ∷ rs) = r >>= λ v. collect rs >>= λ vs. ok (v ∷ vs)

-- The variables of the loop over the outcomes.
pub record Settled : Type 0 where
  pub runs : List WorkflowNodeRun
  pub consumed : BudgetTotals
  pub failed : Bool
  pub waiting : Option (NodeId × ClarificationPayload)
  pub db : Db

abbrev pub get_or_insert {ℓ} : {T : Type ℓ} → Option T → T → Option T
get_or_insert none v = some v
get_or_insert (some w) v = some w

abbrev pub decide : RunContext → NodeId → Option String → Db → Db
decide c node none db = db
decide c node (some decision) db = record_branch_decision c.job_id c.workflow.id node decision db

abbrev pub settle : RunContext → Settled → NodeBatchOutcome → Settled
settle c s (completed_outcome run decision node query_cost) = record s {
  runs = s.runs ++ run ∷ [];
  consumed = add_actual s.consumed query_cost run;
  db = decide c node decision s.db;
}
settle c s (waiting_outcome node clarification) = record s {
  waiting = get_or_insert s.waiting (node, clarification);
}
settle c s failed_outcome = record s { failed = true }
settle c s cancelled_outcome = record s { failed = true }

abbrev pub settle_all : RunContext → Settled → List NodeBatchOutcome → Settled
settle_all c s [] = s
settle_all c s (outcome ∷ rest) = settle_all c (settle c s outcome) rest

pub data Round : Type 0 where
  returned : Result WorkflowRunOutcome RunError → Db → Round
  next_round : List WorkflowNodeRun → BudgetTotals → Db → Round

abbrev pub is_complete_kind : NodeKind → Bool
is_complete_kind (complete done) = true
is_complete_kind _ = false

abbrev pub is_finished : ExecutionWorkflow → List WorkflowNodeRun → Bool
is_finished workflow runs =
    any (λ node. is_complete_kind node.kind && contains (completed_ids runs) node.id) workflow.nodes

abbrev pub is_execute_once : Idempotency → Bool
is_execute_once execute_once = true
is_execute_once _ = false

abbrev pub reached_twice : List WorkflowNodeRun → WorkflowNode → Bool
reached_twice runs node = is_execute_once node.idempotency && any (completes node.id) runs

abbrev pub pause_round : NodeId → Result (Unit {0}) RunError × Db → Round
pause_round node (ok u, db) = returned (ok (waiting_for_user_input node)) db
pause_round node (err e, db) = returned (err e) db

-- The end of a round, once its outcomes are settled.
abbrev pub close_round : RunContext → Settled → Round
close_round c s = if s.failed then returned (ok run_failed) s.db else elim s.waiting [
  | some (node, clarification) ↦
      pause_round node
        (mark_workflow_paused c.job_id c.user_id c.workflow.id node clarification s.db)
  | none ↦ next_round s.runs s.consumed s.db
]

abbrev pub settle_collected :
    RunContext
    → List WorkflowNodeRun
    → BudgetTotals
    → Db
    → Result (List NodeBatchOutcome) RunError
    → Round
settle_collected c runs consumed db (err e) = returned (err e) db
settle_collected c runs consumed db (ok outcomes) = close_round c (
    settle_all c
      (record { runs = runs; consumed = consumed; failed = false; waiting = none; db = db })
      outcomes)

-- The body of the loop
unfoldable pub run_round :
    RunContext → (WorkflowNode → Answer) → List WorkflowNodeRun → BudgetTotals → Db → Round
unfolding execute_node runnable_nodes batch_of
run_round c answers runs consumed db =
    let candidates = runnable_nodes c.workflow runs in
    let batch = batch_of c.workflow.budgets consumed candidates in
    let (outcomes, after) = execute_batch c answers batch runs db in
    let started = settle_collected c runs consumed after (collect outcomes) in
    if is_empty candidates
    then returned (ok (if is_finished c.workflow runs then run_completed else run_failed)) db
    else if any (reached_twice runs) candidates
    then returned (err execute_once_twice) db
    else if is_empty batch
    then returned (ok run_failed) db
    else started

unfoldable pub run_loop :
    ℕ
    → RunContext
    → (ℕ → WorkflowNode → Answer)
    → ℕ
    → List WorkflowNodeRun
    → BudgetTotals
    → Db
    → Option (Result WorkflowRunOutcome RunError × Db)
unfolding run_round
run_loop zero c answers n runs consumed db = none
run_loop (suc fuel) c answers n runs consumed db = elim (run_round c (answers n) runs consumed db) [
  | returned result after ↦ some (result, after)
  | next_round more used after ↦ run_loop fuel c answers (suc n) more used after
]

-- A run of the loop needs one round more than the workflow has nodes.
abbrev pub round_limit : ExecutionWorkflow → ℕ
round_limit workflow = suc (length workflow.nodes)

unfoldable pub run_workflow :
    RunContext → (ℕ → WorkflowNode → Answer) → Db → Option (Result WorkflowRunOutcome RunError × Db)
unfolding node_runs from_completed run_loop
run_workflow c answers db =
    let runs = node_runs c.job_id c.workflow.id db in
    run_loop (round_limit c.workflow) c answers 0 runs (from_completed c.workflow runs) db
