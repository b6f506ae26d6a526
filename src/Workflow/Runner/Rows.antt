-- ===== src/Workflow/Runner/Rows.antt =====
-- What the statements of one node do to the table of node runs: no row changes its node.
use fineract_ai_reports.Prelude.{
  Bool-cases, ◌==◌, string_eq, nat_eq, All, All-append, Result, ok, err, ℤ, int_eq, ℕ, String, ◌≡◌,
  refl, ap, ◌∙◌, inl, inr, Bool, some, List, [], ◌∷◌, arith, ◌>>=◌, none,
}
use fineract_ai_reports.Json.{Json, Fields}
use fineract_ai_reports.Policy.{}
use fineract_ai_reports.Workflow.Contract.{
  NodeId, node_id_eq, WorkflowNode, NodeKind, resolve_entity, execute_query, cardinality_branch,
  clarification_interrupt, compose_result, complete,
}
use fineract_ai_reports.Workflow.Ledger.{failed, WorkflowNodeRun, RunError}
use fineract_ai_reports.Workflow.Budget.{}
use fineract_ai_reports.Workflow.Schedule.{}
use fineract_ai_reports.Workflow.State.{
  ClarificationPayload, Db, update_where, count_where, begin_node, is_running_row, complete_row,
  complete_node, fail_node, record_sensitivity_drop, record_branch_decision,
}
use fineract_ai_reports.Workflow.State.Jobs.{
  wait_row, is_interrupt_row, is_paused_job, mark_workflow_paused,
}
use fineract_ai_reports.Workflow.Redaction.{}
use fineract_ai_reports.Workflow.Compose.{ComposeOutcome, compose}
use fineract_ai_reports.Workflow.Runner.Loop.{Settled, settle}
use fineract_ai_reports.Workflow.Runner.{
  NodeBatchOutcome, completed_outcome, waiting_outcome, failed_outcome, cancelled_outcome, Answer,
  RunContext, max_visible_sensitivity,
}
use fineract_ai_reports.Workflow.Runner.Node.{
  compose_sources, resolve_recorded, resolve_composed, resolve_kind, resolve_execution,
}
use fineract_ai_reports.Workflow.Runner.Reports.{}
use fineract_ai_reports.Workflow.Runner.Loop.{Settled, settle}
use fineract_ai_reports.Workflow.Runner.Rounds.{}
use fineract_ai_reports.Workflow.Runner.Ends.{}

-- Every row of the table of node runs is of a node with `P`.
abbrev pub RowsHave : (NodeId → Type 0) → Db → Type 0
RowsHave P db = All (λ (run : WorkflowNodeRun). P run.node_id) db.node_runs

pub record_sensitivity_drop-rows :
    (job workflow : ℕ) (node : NodeId) (dropped : List String) (db : Db)
    → (record_sensitivity_drop job workflow node dropped db).1.node_runs ≡ db.node_runs
unfolding record_sensitivity_drop
record_sensitivity_drop-rows job workflow node dropped db = ground arith

resolve_recorded-same :
    (value : Json) (r : Result (Unit {0}) RunError × Db) → (resolve_recorded value r).1 ≡ r.1
resolve_recorded-same value (ok u, db) = refl
resolve_recorded-same value (err e, db) = refl

pub resolve_composed-rows :
    (c : RunContext) (node : WorkflowNode) (db : Db) (r : Result ComposeOutcome RunError)
    → (resolve_composed c node db r).1.node_runs ≡ db.node_runs
resolve_composed-rows c node db (err e) = refl
resolve_composed-rows c node db (ok outcome) =
    ap (λ (d : Db). d.node_runs)
      (resolve_recorded-same outcome.value
        (record_sensitivity_drop c.job_id c.workflow.id node.id outcome.dropped_fields db))
    ∙ record_sensitivity_drop-rows c.job_id c.workflow.id node.id outcome.dropped_fields db

module _ (P : NodeId → Type 0) where
  All-update_where :
      (test : WorkflowNodeRun → Bool) (change : WorkflowNodeRun → WorkflowNodeRun)
      (runs : List WorkflowNodeRun)
      → ((run : WorkflowNodeRun) → (change run).node_id ≡ run.node_id)
      → All (λ (run : WorkflowNodeRun). P run.node_id) runs
      → All (λ (run : WorkflowNodeRun). P run.node_id) (update_where test change runs)
  All-update_where test change [] same h = tt
  All-update_where test change (run ∷ runs) same h = elim (Bool-cases (test run)) [
    | inl t ↦ rw t (rw (same run) h.0, All-update_where test change runs same h.1)
    | inr f ↦ rw f (h.0, All-update_where test change runs same h.1)
  ]

  pub begin_node-RowsHave :
      (id job workflow : ℕ) (node : NodeId) (attempt : ℤ) (provenance : Json) (now : ℕ) (db : Db)
      → P node
      → RowsHave P db
      → RowsHave P (begin_node id job workflow node attempt provenance now db).1
  unfolding begin_node
  begin_node-RowsHave id job workflow node attempt provenance now db p h =
      All-append (λ (run : WorkflowNodeRun). P run.node_id) db.node_runs _ h (p, tt)

  pub complete_node-RowsHave :
      (run : WorkflowNodeRun) (output : Json) (rows duration : ℤ) (now : ℕ) (db : Db)
      → RowsHave P db
      → RowsHave P (complete_node run output rows duration now db).1
  unfolding complete_node
  complete_node-RowsHave run output rows duration now db h =
      let updated =
        All-update_where (is_running_row run.id) (complete_row output rows duration now)
          db.node_runs (λ r. refl) h in
      elim (Bool-cases (count_where (is_running_row run.id) db.node_runs == 1)) [
        | inl one ↦ rw one updated
        | inr other ↦ rw other updated
      ]

  pub fail_node-RowsHave :
      (run : WorkflowNodeRun) (duration : ℤ) (now : ℕ) (db : Db)
      → RowsHave P db
      → RowsHave P (fail_node run duration now db)
  unfolding fail_node
  fail_node-RowsHave run duration now db h =
      All-update_where (is_running_row run.id)
        (λ row. record row { status = failed; duration_ms = some duration; finished_at = some now })
        db.node_runs (λ r. refl) h

  pub mark_workflow_paused-RowsHave :
      (job user workflow : ℕ) (node : NodeId) (clarification : ClarificationPayload) (db : Db)
      → RowsHave P db
      → RowsHave P (mark_workflow_paused job user workflow node clarification db).1
  unfolding mark_workflow_paused
  mark_workflow_paused-RowsHave job user workflow node clarification db h =
      let updated =
        All-update_where (is_interrupt_row job workflow node) wait_row db.node_runs (λ r. refl) h in
      elim (Bool-cases (count_where (is_interrupt_row job workflow node) db.node_runs == 1)) [
        | inr other ↦ rw other h
        | inl one ↦ elim (Bool-cases (count_where (is_paused_job job user workflow) db.jobs == 1)) [
          | inr other ↦ rw (one, other) h
          | inl job ↦ rw (one, job) updated
        ]
      ]

resolve_kind-rows :
    (c : RunContext) (a : Answer) (node : WorkflowNode) (bindings : Fields)
    (runs : List WorkflowNodeRun) (db : Db) (kind : NodeKind)
    → (resolve_kind c a node bindings runs db kind).1.node_runs ≡ db.node_runs
resolve_kind-rows c a node bindings runs db (cardinality_branch branch) = refl
resolve_kind-rows c a node bindings runs db (complete done) = refl
resolve_kind-rows c a node bindings runs db (compose_result composed) =
    resolve_composed-rows c node db (
      compose_sources c.workflow runs composed.sources >>= λ sources.
      compose composed.composition sources (max_visible_sensitivity c.principal))
resolve_kind-rows c a node bindings runs db (resolve_entity resolve) = refl
resolve_kind-rows c a node bindings runs db (execute_query query) = refl
resolve_kind-rows c a node bindings runs db (clarification_interrupt interrupt) = refl

pub resolve_execution-rows :
    (c : RunContext) (a : Answer) (node : WorkflowNode) (bindings : Fields)
    (runs : List WorkflowNodeRun) (db : Db)
    → (resolve_execution c a node bindings runs db).1.node_runs ≡ db.node_runs
unfolding resolve_execution
resolve_execution-rows c a node bindings runs db =
    resolve_kind-rows c a node bindings runs db node.kind

pub settle-rows :
    (c : RunContext) (s : Settled) (o : NodeBatchOutcome)
    → (settle c s o).db.node_runs ≡ s.db.node_runs
unfolding record_branch_decision
settle-rows c s (completed_outcome run none id cost) = refl
settle-rows c s (completed_outcome run (some decision) id cost) = refl
settle-rows c s (waiting_outcome id clarification) = refl
settle-rows c s failed_outcome = refl
settle-rows c s cancelled_outcome = refl
