-- ===== src/Workflow/Runner/Spent.antt =====
-- The ledger that the loop carries is the one that a new call of `run` would rebuild.
use fineract_ai_reports.Prelude.{
  ◌==◌, ==→≡, ==_refl, string_eq, nat_eq, find_last, ◌∈◌, int_eq, ℕ, ◌≤◌, ◌≡◌, refl, sym, ap, ◌∙◌,
  inl, inr, Bool, true, none, some, List, [], ◌∷◌, ◌++◌, append-nil, append_assoc, arith,
}
use fineract_ai_reports.Workflow.Contract.{node_id_eq, WorkflowNode, ExecutionWorkflow}
use fineract_ai_reports.Workflow.Ledger.{completed, WorkflowNodeRun, is_completed}
use fineract_ai_reports.Workflow.Budget.{
  BudgetTotals, add_actual, node_of, from_completed, batch_of,
}
use fineract_ai_reports.Workflow.Budget.Resumed.{from_completed-snoc}
use fineract_ai_reports.Workflow.Schedule.{runnable_nodes}
use fineract_ai_reports.Workflow.State.{Db, count_where}
use fineract_ai_reports.Workflow.Runner.{Answer, RunContext}
use fineract_ai_reports.Workflow.Runner.Node.{}
use fineract_ai_reports.Workflow.Runner.Reports.{}
use fineract_ai_reports.Workflow.Runner.Loop.{}
use fineract_ai_reports.Workflow.Runner.Rounds.{
  Completes, none_left, one_more, add_actuals, run_round-GoesOn,
}
use fineract_ai_reports.Workflow.Runner.Ends.{runnable-pending, batch_of-mem}
use fineract_ai_reports.Workflow.Runner.Once.{Reaches, begins, goes_on, HasUniqueIds}

find_last-none :
    {A : Type 0} (p : A → Bool) (xs : List A) → count_where p xs ≡ 0 → find_last p xs ≡ none
find_last-none p [] h = refl
find_last-none p (x ∷ xs) h = ground (arith, find_last-none p xs)

-- The only item that passes is the one that is found.
find_last_unique :
    {A : Type 0} (p : A → Bool) (xs : List A) (a : A)
    → a ∈ xs
    → p a ≡ true
    → count_where p xs ≤ 1
    → find_last p xs ≡ some a
find_last_unique p [] a m t h = absurd m
find_last_unique p (x ∷ xs) a (inl e) t h =
    let t' : p x ≡ true = rw (← e) t in
    let rest = find_last-none p xs (ground arith) in rw (rest, t', e) refl
find_last_unique p (x ∷ xs) a (inr m) t h =
    let rest = find_last_unique p xs a m t (ground arith) in rw rest refl

completed_status : (run : WorkflowNodeRun) → is_completed run ≡ true → run.status ≡ completed
completed_status run h = ground arith

add_actuals-from_completed :
    (workflow : ExecutionWorkflow) (t : BudgetTotals) (runs : List WorkflowNodeRun)
    (nodes : List WorkflowNode) (added : List WorkflowNodeRun)
    → ((node : WorkflowNode) → node ∈ nodes → node_of workflow node.id ≡ some node)
    → Completes nodes added
    → t ≡ from_completed workflow runs
    → add_actuals t nodes added ≡ from_completed workflow (runs ++ added)
unfolding add_actuals
add_actuals-from_completed workflow t runs [] [] known none_left h = rw (append-nil runs) h
add_actuals-from_completed workflow t runs (node ∷ nodes) (run ∷ added) known (one_more d rest) h =
    let same : run.node_id ≡ node.id = ==→≡ run.node_id node.id (ground arith) in
    let snoc =
      from_completed-snoc workflow runs run node (completed_status run (ground arith))
        (rw same (known node (inl refl))) in
    rw (← append_assoc runs (run ∷ []) added) (
      add_actuals-from_completed workflow (add_actual t node.budget.query_cost run)
        (runs ++ run ∷ []) nodes added (λ n m. known n (inr m)) rest
        (ap (λ u. add_actual u node.budget.query_cost run) h ∙ sym snoc))
add_actuals-from_completed workflow t runs [] (run ∷ added) known d h = elim d [ ]
add_actuals-from_completed workflow t runs (node ∷ nodes) [] known d h = elim d [ ]

-- Before each round, the totals that the loop carries are those that a new call of `run` would
-- rebuild from the runs completed so far, in a workflow whose node ids are unique.
pub Reaches-from_completed :
    (c : RunContext) (answers : ℕ → WorkflowNode → Answer) (start : Db) (n : ℕ)
    (runs : List WorkflowNodeRun) (consumed : BudgetTotals) (db : Db)
    → HasUniqueIds c.workflow.nodes
    → Reaches c answers start n runs consumed db
    → consumed ≡ from_completed c.workflow runs
Reaches-from_completed c answers start n runs consumed db unique begins = refl
Reaches-from_completed c answers start n more used after unique
      (goes_on {n = k} {runs = runs} {consumed = consumed} {db = db} before round) =
    let g = run_round-GoesOn c (answers k) runs more consumed used db after round in
    let candidates = runnable_nodes c.workflow runs in
    let batch = batch_of c.workflow.budgets consumed candidates in
    let known : (node : WorkflowNode) → node ∈ batch → node_of c.workflow node.id ≡ some node =
      λ node m.
        find_last_unique (λ (x : WorkflowNode). x.id == node.id) c.workflow.nodes node
          (runnable-pending c.workflow runs node
            (batch_of-mem c.workflow.budgets consumed candidates node m)).0
          (==_refl node.id) (unique node.id) in
    g.spent
    ∙ add_actuals-from_completed c.workflow consumed runs batch g.added known g.done
        (Reaches-from_completed c answers start k runs consumed db unique before)
    ∙ ap (from_completed c.workflow) (sym g.grown)
