-- ===== src/Workflow/Runner/Rounds.antt =====
-- What one round of the loop does to the runs: every node of its batch gets one completed run.
use fineract_ai_reports.Prelude.{
  Bool-cases, Option-cases, string_eq, nat_eq, is_empty, any, Result, ok, err, int_eq, ℕ, String,
  ◌≡◌, refl, sym, ap, ◌∙◌, ◌≢◌, inl, inr, true, false, Option, none, some, List, [], ◌∷◌, ◌++◌,
  append-nil, append_assoc, arith,
}
use fineract_ai_reports.Json.{}
use fineract_ai_reports.Workflow.Contract.{NodeId, node_id_eq, WorkflowNode}
use fineract_ai_reports.Workflow.Ledger.{WorkflowNodeRun, RunError, completes}
use fineract_ai_reports.Workflow.Budget.{BudgetTotals, add_actual, batch_of}
use fineract_ai_reports.Workflow.Schedule.{runnable_nodes}
use fineract_ai_reports.Workflow.Redaction.{}
use fineract_ai_reports.Workflow.State.{ClarificationPayload, Db}
use fineract_ai_reports.Workflow.State.Jobs.{mark_workflow_paused}
use fineract_ai_reports.Workflow.Runner.{
  NodeBatchOutcome, completed_outcome, waiting_outcome, failed_outcome, cancelled_outcome, Answer,
  RunContext,
}
use fineract_ai_reports.Workflow.Runner.Node.{}
use fineract_ai_reports.Workflow.Runner.Loop.{
  execute_batch, collect, Settled, settle, settle_all, next_round, reached_twice, pause_round,
  close_round, settle_collected, run_round,
}
use fineract_ai_reports.Workflow.Runner.Reports.{
  are_reports_of, AreReportsOf, execute_batch-AreReportsOf,
}

-- A failure or a wait is not forgotten by the outcomes after it.

settle_all-failed :
    (c : RunContext) (s : Settled) (os : List NodeBatchOutcome)
    → s.failed ≡ true
    → (settle_all c s os).failed ≡ true
settle_all-failed c s [] h = h
settle_all-failed c s (o ∷ os) h = settle_all-failed c (settle c s o) os (ground arith)

settle_all-waiting :
    (c : RunContext) (s : Settled) (os : List NodeBatchOutcome) (w : NodeId × ClarificationPayload)
    → s.waiting ≡ some w
    → (settle_all c s os).waiting ≡ some w
settle_all-waiting c s [] w h = h
settle_all-waiting c s (o ∷ os) w h = settle_all-waiting c (settle c s o) os w (ground arith)

-- The runs that a round adds: one completed run per node of the batch, in its order.
pub data Completes : List WorkflowNode → List WorkflowNodeRun → Type 0 where
  none_left : Completes [] []
  one_more :
      {node : WorkflowNode} {run : WorkflowNodeRun} {nodes : List WorkflowNode}
      {runs : List WorkflowNodeRun}
      → completes node.id run ≡ true
      → Completes nodes runs
      → Completes (node ∷ nodes) (run ∷ runs)

unfoldable pub add_actuals : BudgetTotals → List WorkflowNode → List WorkflowNodeRun → BudgetTotals
add_actuals t (node ∷ nodes) (run ∷ runs) =
    add_actuals (add_actual t node.budget.query_cost run) nodes runs
add_actuals t _ _ = t

pub record Advances (nodes : List WorkflowNode) (s s' : Settled) : Type 0 where
  pub added : List WorkflowNodeRun
  pub runs : s'.runs ≡ s.runs ++ added
  pub consumed : s'.consumed ≡ add_actuals s.consumed nodes added
  pub done : Completes nodes added

reports_head :
    (node : WorkflowNode) (nodes : List WorkflowNode) (run : WorkflowNodeRun)
    (decision : Option String) (id : NodeId) (cost : ℕ) (os : List NodeBatchOutcome)
    → are_reports_of (node ∷ nodes) (completed_outcome run decision id cost ∷ os) ≡ true
    → ((completes node.id run ≡ true) × (cost ≡ node.budget.query_cost))
      × (are_reports_of nodes os ≡ true)
reports_head node nodes run decision id cost os h = ground arith

settle_all-Advances :
    (c : RunContext) (s : Settled) (nodes : List WorkflowNode) (os : List NodeBatchOutcome)
    → are_reports_of nodes os ≡ true
    → (settle_all c s os).failed ≡ false
    → (settle_all c s os).waiting ≡ none
    → Advances nodes s (settle_all c s os)
unfolding add_actuals
settle_all-Advances c s [] [] h f w = record {
  added = [];
  runs = sym (append-nil s.runs);
  consumed = refl;
  done = none_left;
}
settle_all-Advances c s [] (o ∷ os) h f w = cc
settle_all-Advances c s (node ∷ nodes) [] h f w = cc
settle_all-Advances c s (node ∷ nodes) (failed_outcome ∷ os) h f w =
    cc (settle_all-failed c (settle c s failed_outcome) os refl)
settle_all-Advances c s (node ∷ nodes) (cancelled_outcome ∷ os) h f w =
    cc (settle_all-failed c (settle c s cancelled_outcome) os refl)
settle_all-Advances c s (node ∷ nodes) (waiting_outcome id clarification ∷ os) h f w =
    elim (Option-cases s.waiting) [
      | inl e ↦ cc (
          settle_all-waiting c (settle c s (waiting_outcome id clarification)) os
            (id, clarification) (rw e))
      | inr (v, e) ↦
          cc (settle_all-waiting c (settle c s (waiting_outcome id clarification)) os v (rw e))
    ]
settle_all-Advances c s (node ∷ nodes) (completed_outcome run decision id cost ∷ os) h f w =
    let (good, more) = reports_head node nodes run decision id cost os h in
    let rest =
      settle_all-Advances c (settle c s (completed_outcome run decision id cost)) nodes os more f
        w in
    record {
      added = run ∷ rest.added;
      runs = rest.runs ∙ append_assoc s.runs (run ∷ []) rest.added;
      consumed =
          rest.consumed
          ∙ ap (λ cost. add_actuals (add_actual s.consumed cost run) nodes rest.added) good.1;
      done = one_more good.0 rest.done;
    }

pause_round_returns :
    (node : NodeId) (x : Result (Unit {0}) RunError × Db) (more : List WorkflowNodeRun)
    (used : BudgetTotals) (after : Db)
    → pause_round node x ≢ next_round more used after
pause_round_returns node (ok u, db) more used after = λ e. cc
pause_round_returns node (err e, db) more used after = λ e. cc

close_round_next :
    (c : RunContext) (s : Settled) (more : List WorkflowNodeRun) (used : BudgetTotals) (after : Db)
    → close_round c s ≡ next_round more used after
    → (s.failed ≡ false) × (s.waiting ≡ none) × (s.runs ≡ more) × (s.consumed ≡ used)
close_round_next c s more used after h = elim (Bool-cases s.failed) [
  | inl f ↦ cc (rw f at h)
  | inr f ↦ elim (Option-cases s.waiting) [
    | inl w ↦
        let k : next_round s.runs s.consumed s.db ≡ next_round more used after = rw (f, w) at h in
        (f, w, cc, cc)
    | inr (v, w) ↦ absurd (
        pause_round_returns v.0 (mark_workflow_paused c.job_id c.user_id c.workflow.id v.0 v.1 s.db)
          more used after (rw (f, w) at h))
  ]
]

-- What a round that goes on has done.
pub record GoesOn (c : RunContext) (runs : List WorkflowNodeRun) (consumed : BudgetTotals)
    (more : List WorkflowNodeRun) (used : BudgetTotals) : Type 0 where
  pub added : List WorkflowNodeRun
  pub started :
      is_empty (batch_of c.workflow.budgets consumed (runnable_nodes c.workflow runs)) ≡ false
  pub grown : more ≡ runs ++ added
  pub spent :
      used
      ≡ add_actuals consumed
          (batch_of c.workflow.budgets consumed (runnable_nodes c.workflow runs))
          added
  pub done : Completes (batch_of c.workflow.budgets consumed (runnable_nodes c.workflow runs)) added

settle_collected-Advances :
    (c : RunContext) (runs : List WorkflowNodeRun) (consumed : BudgetTotals)
    (nodes : List WorkflowNode) (db after : Db) (r : Result (List NodeBatchOutcome) RunError)
    (more : List WorkflowNodeRun) (used : BudgetTotals)
    → AreReportsOf nodes r
    → settle_collected c runs consumed db r ≡ next_round more used after
    → (added : List WorkflowNodeRun) × (more ≡ runs ++ added)
      × (used ≡ add_actuals consumed nodes added)
      × Completes nodes added
settle_collected-Advances c runs consumed nodes db after (err e) more used h k = cc
settle_collected-Advances c runs consumed nodes db after (ok os) more used h k =
    let start : Settled = record {
      runs = runs;
      consumed = consumed;
      failed = false;
      waiting = none;
      db = db;
    } in
    let (f, w, r, u) = close_round_next c (settle_all c start os) more used after k in
    let a = settle_all-Advances c start nodes os h f w in
    (a.added, sym r ∙ a.runs, sym u ∙ a.consumed, a.done)

-- A round that goes on to a next one has completed every node of a non-empty batch, and has added
-- what their runs used to the ledger.
pub run_round-GoesOn :
    (c : RunContext) (answers : WorkflowNode → Answer) (runs more : List WorkflowNodeRun)
    (consumed used : BudgetTotals) (db after : Db)
    → run_round c answers runs consumed db ≡ next_round more used after
    → GoesOn c runs consumed more used
unfolding run_round
run_round-GoesOn c answers runs more consumed used db after h =
    let candidates = runnable_nodes c.workflow runs in
    let batch = batch_of c.workflow.budgets consumed candidates in
    elim (Bool-cases (is_empty candidates)) [
      | inl e ↦ cc (rw e at h)
      | inr e ↦ elim (Bool-cases (any (reached_twice runs) candidates)) [
        | inl t ↦ cc (rw (e, t) at h)
        | inr t ↦ elim (Bool-cases (is_empty batch)) [
          | inl b ↦ cc (rw (e, t, b) at h)
          | inr b ↦
              let (added, grown, spent, done) =
                settle_collected-Advances c runs consumed batch
                  (execute_batch c answers batch runs db).1 after
                  (collect (execute_batch c answers batch runs db).0) more used
                  (execute_batch-AreReportsOf c answers batch runs db) (rw (e, t, b) at h) in
              record { added = added; started = b; grown = grown; spent = spent; done = done }
        ]
      ]
    ]
