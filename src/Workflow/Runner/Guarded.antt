-- ===== src/Workflow/Runner/Guarded.antt =====
-- What holds of the nodes that pass the policy check holds of every row that a run adds.
use fineract_ai_reports.Prelude.{
  Bool-cases, Option-cases, string_eq, nat_eq, ◌∈◌, Result, ok, err, ℤ, int_eq, ◌≡◌, refl, inl, inr,
  false, none, List, [], ◌∷◌, is_empty, any, ℕ, zero, suc, Option, some,
}
use fineract_ai_reports.Json.{Json, Fields}
use fineract_ai_reports.Policy.{}
use fineract_ai_reports.Workflow.Contract.{NodeId, node_id_eq, WorkflowNode}
use fineract_ai_reports.Workflow.Ledger.{WorkflowNodeRun, RunError, next_attempt}
use fineract_ai_reports.Workflow.Budget.{BudgetTotals, batch_of}
use fineract_ai_reports.Workflow.Schedule.{runnable_nodes}
use fineract_ai_reports.Workflow.State.{Db, begin_node, complete_node}
use fineract_ai_reports.Workflow.State.Jobs.{mark_workflow_paused}
use fineract_ai_reports.Workflow.State.Consumed.{add_budget_consumed}
use fineract_ai_reports.Workflow.Redaction.{persisted_output}
use fineract_ai_reports.Workflow.Runner.{
  NodeExecution, completes_with, waits_for, fails, NodeBatchOutcome, Answer, RunContext,
  check_node_policy, bindings_for,
}
use fineract_ai_reports.Workflow.Runner.Node.{
  resolve_execution, report_completed, finish_node, policy_provenance, continue_node, start_node,
  execute_node,
}
use fineract_ai_reports.Workflow.Runner.Reports.{}
use fineract_ai_reports.Workflow.Runner.Loop.{
  execute_batch, Settled, settle, settle_all, Round, returned, next_round, pause_round, close_round,
  settle_collected, WorkflowRunOutcome, collect, reached_twice, run_round, run_loop,
}
use fineract_ai_reports.Workflow.Runner.Rounds.{}
use fineract_ai_reports.Workflow.Runner.Ends.{runnable-pending, batch_of-mem, Round-cases}
use fineract_ai_reports.Workflow.Runner.Rows.{
  RowsHave, begin_node-RowsHave, complete_node-RowsHave, fail_node-RowsHave,
  mark_workflow_paused-RowsHave, resolve_execution-rows, settle-rows,
}

module _ (P : NodeId → Type 0) where
  report_completed-RowsHave :
      (c : RunContext) (a : Answer) (node : WorkflowNode) (run : WorkflowNodeRun) (output : Json)
      (rows : ℤ) (x : Result (Unit {0}) RunError × Db)
      → RowsHave P x.1
      → RowsHave P (report_completed c a node run output rows x).1
  unfolding add_budget_consumed
  report_completed-RowsHave c a node run output rows (err e, db) h = h
  report_completed-RowsHave c a node run output rows (ok u, db) h = h

  finish_node-RowsHave :
      (c : RunContext) (a : Answer) (node : WorkflowNode) (run : WorkflowNodeRun)
      (x : Result NodeExecution RunError × Db)
      → RowsHave P x.1
      → RowsHave P (finish_node c a node run x).1
  finish_node-RowsHave c a node run (err e, db) h = h
  finish_node-RowsHave c a node run (ok (completes_with output rows), db) h =
      report_completed-RowsHave c a node run output rows
        (complete_node run (persisted_output node.inputs output) rows a.elapsed a.now db)
        (complete_node-RowsHave P run (persisted_output node.inputs output) rows a.elapsed a.now db
          h)
  finish_node-RowsHave c a node run (ok (waits_for clarification), db) h = h
  finish_node-RowsHave c a node run (ok fails, db) h = fail_node-RowsHave P run a.elapsed a.now db h

  continue_node-RowsHave :
      (c : RunContext) (a : Answer) (node : WorkflowNode) (runs : List WorkflowNodeRun)
      (begun : WorkflowNodeRun × Db) (bindings : Result Fields RunError)
      → RowsHave P begun.1
      → RowsHave P (continue_node c a node runs begun bindings).1
  unfolding resolve_execution
  continue_node-RowsHave c a node runs (run, db) (err e) h = h
  continue_node-RowsHave c a node runs (run, db) (ok bindings) h = elim (Bool-cases a.cancelled) [
    | inl stopped ↦ rw stopped (fail_node-RowsHave P run a.elapsed a.now db h)
    | inr live ↦ rw live (
        finish_node-RowsHave c a node run (resolve_execution c a node bindings runs db)
          (rw (resolve_execution-rows c a node bindings runs db) h))
  ]

  start_node-RowsHave :
      (c : RunContext) (a : Answer) (node : WorkflowNode) (runs : List WorkflowNodeRun) (db : Db)
      (allowed : Result (Unit {0}) RunError)
      → (allowed ≡ ok tt → P node.id)
      → RowsHave P db
      → RowsHave P (start_node c a node runs db allowed).1
  start_node-RowsHave c a node runs db (err e) p h = h
  start_node-RowsHave c a node runs db (ok u) p h =
      let begun =
        begin_node a.run_id c.job_id c.workflow.id node.id (next_attempt runs node.id)
          (policy_provenance node.id) a.now db in
      continue_node-RowsHave c a node runs begun (bindings_for node runs c.principal) (
        begin_node-RowsHave P a.run_id c.job_id c.workflow.id node.id (next_attempt runs node.id)
          (policy_provenance node.id) a.now db (p refl) h)

  execute_batch-RowsHave :
      (c : RunContext) (answers : WorkflowNode → Answer) (nodes : List WorkflowNode)
      (runs : List WorkflowNodeRun) (db : Db)
      → ((node : WorkflowNode)
          → node ∈ nodes
          → check_node_policy node c.principal c.catalog ≡ ok tt
          → P node.id)
      → RowsHave P db
      → RowsHave P (execute_batch c answers nodes runs db).1
  unfolding execute_node
  execute_batch-RowsHave c answers [] runs db p h = h
  execute_batch-RowsHave c answers (node ∷ nodes) runs db p h =
      execute_batch-RowsHave c answers nodes runs (execute_node c (answers node) node runs db).1
        (λ n m. p n (inr m))
        (start_node-RowsHave c (answers node) node runs db
          (check_node_policy node c.principal c.catalog) (p node (inl refl)) h)

  settle_all-RowsHave :
      (c : RunContext) (s : Settled) (outcomes : List NodeBatchOutcome)
      → RowsHave P s.db
      → RowsHave P (settle_all c s outcomes).db
  settle_all-RowsHave c s [] h = h
  settle_all-RowsHave c s (o ∷ os) h =
      settle_all-RowsHave c (settle c s o) os (rw (settle-rows c s o) h)

  abbrev RoundHas : Round → Type 0
  RoundHas (returned result db) = RowsHave P db
  RoundHas (next_round runs consumed db) = RowsHave P db

  pause_round-RoundHas :
      (node : NodeId) (x : Result (Unit {0}) RunError × Db)
      → RowsHave P x.1
      → RoundHas (pause_round node x)
  pause_round-RoundHas node (ok u, db) h = h
  pause_round-RoundHas node (err e, db) h = h

  close_round-RoundHas :
      (c : RunContext) (s : Settled) → RowsHave P s.db → RoundHas (close_round c s)
  close_round-RoundHas c s h = elim (Bool-cases s.failed) [
    | inl f ↦ rw f h
    | inr f ↦ elim (Option-cases s.waiting) [
      | inl w ↦ rw (f, w) h
      | inr (v, w) ↦
          rw (f, w)
            (pause_round-RoundHas v.0
              (mark_workflow_paused c.job_id c.user_id c.workflow.id v.0 v.1 s.db)
              (mark_workflow_paused-RowsHave P c.job_id c.user_id c.workflow.id v.0 v.1 s.db h))
    ]
  ]

  settle_collected-RoundHas :
      (c : RunContext) (runs : List WorkflowNodeRun) (consumed : BudgetTotals) (db : Db)
      (r : Result (List NodeBatchOutcome) RunError)
      → RowsHave P db
      → RoundHas (settle_collected c runs consumed db r)
  settle_collected-RoundHas c runs consumed db (err e) h = h
  settle_collected-RoundHas c runs consumed db (ok os) h =
      let start : Settled = record {
        runs = runs;
        consumed = consumed;
        failed = false;
        waiting = none;
        db = db;
      } in
      close_round-RoundHas c (settle_all c start os) (settle_all-RowsHave c start os h)

  run_round-RoundHas :
      (c : RunContext) (answers : WorkflowNode → Answer) (runs : List WorkflowNodeRun)
      (consumed : BudgetTotals) (db : Db)
      → ((node : WorkflowNode)
          → node ∈ c.workflow.nodes
          → check_node_policy node c.principal c.catalog ≡ ok tt
          → P node.id)
      → RowsHave P db
      → RoundHas (run_round c answers runs consumed db)
  unfolding run_round
  run_round-RoundHas c answers runs consumed db p h =
      let candidates = runnable_nodes c.workflow runs in
      let batch = batch_of c.workflow.budgets consumed candidates in
      let after =
        settle_collected-RoundHas c runs consumed (execute_batch c answers batch runs db).1
          (collect (execute_batch c answers batch runs db).0)
          (execute_batch-RowsHave c answers batch runs db
            (λ node m.
              p node
                (runnable-pending c.workflow runs node
                  (batch_of-mem c.workflow.budgets consumed candidates node m)).0)
            h) in
      elim (Bool-cases (is_empty candidates)) [
        | inl e ↦ rw e h
        | inr e ↦ elim (Bool-cases (any (reached_twice runs) candidates)) [
          | inl t ↦ rw (e, t) h
          | inr t ↦ elim (Bool-cases (is_empty batch)) [
            | inl b ↦ rw (e, t, b) h
            | inr b ↦ rw (e, t, b) after
          ]
        ]
      ]

  abbrev pub ResultHas : Option (Result WorkflowRunOutcome RunError × Db) → Type 0
  ResultHas none = Unit
  ResultHas (some result) = RowsHave P result.1

  pub run_loop-ResultHas :
      (fuel : ℕ) (c : RunContext) (answers : ℕ → WorkflowNode → Answer) (n : ℕ)
      (runs : List WorkflowNodeRun) (consumed : BudgetTotals) (db : Db)
      → ((node : WorkflowNode)
          → node ∈ c.workflow.nodes
          → check_node_policy node c.principal c.catalog ≡ ok tt
          → P node.id)
      → RowsHave P db
      → ResultHas (run_loop fuel c answers n runs consumed db)
  unfolding run_loop
  run_loop-ResultHas zero c answers n runs consumed db p h = tt
  run_loop-ResultHas (suc fuel) c answers n runs consumed db p h =
      let kept = run_round-RoundHas c (answers n) runs consumed db p h in
      elim (Round-cases (run_round c (answers n) runs consumed db)) [
        | inl (result, after, e) ↦
            let kept' : RowsHave P after = rw e at kept in rw (e, run_loop) kept'
        | inr (more, used, after, e) ↦
            let kept' : RowsHave P after = rw e at kept in
            rw (e, run_loop) (run_loop-ResultHas fuel c answers (suc n) more used after p kept')
      ]
