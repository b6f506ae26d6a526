-- ===== src/Workflow/Runner/Ends.antt =====
-- The loop ends: every round that goes on completes a node of the workflow that was not completed.
use fineract_ai_reports.Prelude.{
  string_eq, nat_eq, is_empty, take, any, ◌∈◌, mem-filter, mem-append_left, int_eq, ℕ, zero, suc,
  ◌≤◌, ◌<◌, ◌≡◌, refl, inl, inr, Bool, true, false, not, List, [], ◌∷◌, ◌++◌, arith, length,
  any-append, Result, ◌⊎◌, some,
}
use fineract_ai_reports.Workflow.Contract.{
  node_id_eq, WorkflowBudgets, WorkflowNode, ExecutionWorkflow,
}
use fineract_ai_reports.Workflow.Ledger.{WorkflowNodeRun, completes, completed_ids, RunError}
use fineract_ai_reports.Workflow.Budget.{BudgetTotals, max_parallel, batch_of, from_completed}
use fineract_ai_reports.Workflow.Budget.Greedy.{batch_of-IsGreedy}
use fineract_ai_reports.Workflow.Schedule.{is_runnable, runnable_nodes}
use fineract_ai_reports.Workflow.Schedule.Readiness.{contains-completed_ids}
use fineract_ai_reports.Workflow.State.{count_where, Db, node_runs}
use fineract_ai_reports.Workflow.Runner.{Answer, RunContext}
use fineract_ai_reports.Workflow.Runner.Node.{}
use fineract_ai_reports.Workflow.Runner.Reports.{}
use fineract_ai_reports.Workflow.Runner.Loop.{
  WorkflowRunOutcome, Round, returned, next_round, reached_twice, run_round, run_loop, round_limit,
  run_workflow,
}
use fineract_ai_reports.Workflow.Runner.Rounds.{
  Completes, none_left, one_more, GoesOn, run_round-GoesOn,
}

-- The node has no completed run.
abbrev is_pending : List WorkflowNodeRun → WorkflowNode → Bool
is_pending runs node = not (any (completes node.id) runs)

count_where-le :
    {A : Type 0} (p q : A → Bool) (xs : List A)
    → ((x : A) → q x ≡ true → p x ≡ true)
    → count_where q xs ≤ count_where p xs
count_where-le p q [] imp = omega arith
count_where-le p q (x ∷ xs) imp = ground (arith, count_where-le p q xs imp, imp x)

count_where-lt :
    {A : Type 0} (p q : A → Bool) (xs : List A) (a : A)
    → ((x : A) → q x ≡ true → p x ≡ true)
    → a ∈ xs
    → p a ≡ true
    → q a ≡ false
    → count_where q xs < count_where p xs
count_where-lt p q [] a imp m t f = absurd m
count_where-lt p q (x ∷ xs) a imp (inl e) t f =
    let t' : p x ≡ true = rw (← e) t in
    let f' : q x ≡ false = rw (← e) f in rw (t', f') (omega (arith, count_where-le p q xs imp))
count_where-lt p q (x ∷ xs) a imp (inr m) t f =
    ground (arith, count_where-lt p q xs a imp m t f, imp x)

pub runnable-pending :
    (workflow : ExecutionWorkflow) (runs : List WorkflowNodeRun) (node : WorkflowNode)
    → node ∈ runnable_nodes workflow runs
    → (node ∈ workflow.nodes) × (is_pending runs node ≡ true)
unfolding runnable_nodes is_runnable
runnable-pending workflow runs node m =
    let (t, k) =
      mem-filter (λ node. is_runnable node workflow runs (completed_ids runs)) workflow.nodes m in
    (k, ground (arith, contains-completed_ids runs node.id))

take-mem : {A : Type 0} (n : ℕ) (xs : List A) (a : A) → a ∈ take n xs → a ∈ xs
take-mem zero xs a m = absurd m
take-mem (suc n) [] a m = absurd m
take-mem (suc n) (x ∷ xs) a (inl e) = inl e
take-mem (suc n) (x ∷ xs) a (inr m) = inr (take-mem n xs a m)

pub batch_of-mem :
    (budgets : WorkflowBudgets) (consumed : BudgetTotals) (nodes : List WorkflowNode)
    (node : WorkflowNode)
    → node ∈ batch_of budgets consumed nodes
    → node ∈ nodes
batch_of-mem budgets consumed nodes node m =
    let g = (batch_of-IsGreedy budgets consumed nodes).0 in
    take-mem (max_parallel budgets) nodes node
      (rw g.prefix (mem-append_left node (batch_of budgets consumed nodes) g.left m))

Completes-any :
    (nodes : List WorkflowNode) (added : List WorkflowNodeRun) (node : WorkflowNode)
    → Completes nodes added
    → node ∈ nodes
    → any (completes node.id) added ≡ true
Completes-any [] added node none_left m = absurd m
Completes-any (n ∷ nodes) [] node d m = elim d [ ]
Completes-any (n ∷ nodes) (run ∷ added) node (one_more t rest) (inl e) = rw (e, t) refl
Completes-any (n ∷ nodes) (run ∷ added) node (one_more t rest) (inr m) =
    ground (arith, Completes-any nodes added node rest m)

-- A list that is not empty has a first item.
first : {A : Type 0} (xs : List A) → is_empty xs ≡ false → (a : A) × (a ∈ xs)
first [] h = cc
first (x ∷ xs) h = (x, inl refl)

pub run_round-decreases :
    (c : RunContext) (runs more : List WorkflowNodeRun) (consumed used : BudgetTotals)
    → GoesOn c runs consumed more used
    → count_where (is_pending more) c.workflow.nodes
      < count_where (is_pending runs) c.workflow.nodes
run_round-decreases c runs more consumed used g =
    let batch = batch_of c.workflow.budgets consumed (runnable_nodes c.workflow runs) in
    let (node, m) = first batch g.started in
    let (known, pending) =
      runnable-pending c.workflow runs node
        (batch_of-mem c.workflow.budgets consumed (runnable_nodes c.workflow runs) node m) in
    let done = Completes-any batch g.added node g.done m in
    rw g.grown (
      count_where-lt (is_pending runs) (is_pending (runs ++ g.added)) c.workflow.nodes node
        (λ x q. ground (arith, any-append (completes x.id) runs g.added)) known pending
        (ground (arith, any-append (completes node.id) runs g.added)))

count_where-le-length : {A : Type 0} (p : A → Bool) (xs : List A) → count_where p xs ≤ length xs
count_where-le-length p [] = omega arith
count_where-le-length p (x ∷ xs) = ground (arith, count_where-le-length p xs)

pub Round-cases :
    (r : Round)
    → ((result : Result WorkflowRunOutcome RunError) × (after : Db) × (r ≡ returned result after))
      ⊎ ((more : List WorkflowNodeRun) × (used : BudgetTotals) × (after : Db) × (r
            ≡ next_round more used after))
Round-cases (returned result after) = inl (result, after, refl)
Round-cases (next_round more used after) = inr (more, used, after, refl)

any-none :
    {A : Type 0} (p : A → Bool) (xs : List A) → ((a : A) → a ∈ xs → p a ≡ false) → any p xs ≡ false
any-none p [] h = refl
any-none p (x ∷ xs) h = ground (arith, h x (inl refl), any-none p xs (λ a m. h a (inr m)))

-- Fuel for each pending node and one round more is enough.
run_loop_ends :
    (fuel : ℕ) (c : RunContext) (answers : ℕ → WorkflowNode → Answer) (n : ℕ)
    (runs : List WorkflowNodeRun) (consumed : BudgetTotals) (db : Db)
    → count_where (is_pending runs) c.workflow.nodes < fuel
    → (result : Result WorkflowRunOutcome RunError × Db) × (run_loop fuel c answers n runs consumed
          db
        ≡ some result)
unfolding run_loop
run_loop_ends zero c answers n runs consumed db h = absurd (omega arith)
run_loop_ends (suc fuel) c answers n runs consumed db h =
    elim (Round-cases (run_round c (answers n) runs consumed db)) [
      | inl (result, after, e) ↦ ((result, after), rw (e, run_loop) refl)
      | inr (more, used, after, e) ↦
          let smaller =
            run_round-decreases c runs more consumed used
              (run_round-GoesOn c (answers n) runs more consumed used db after e) in
          rw (e, run_loop) (run_loop_ends fuel c answers (suc n) more used after (omega arith))
    ]

-- Whatever the nodes return, a run of a workflow ends within one round more than it has nodes.
pub run_workflow_ends :
    (c : RunContext) (answers : ℕ → WorkflowNode → Answer) (db : Db)
    → (result : Result WorkflowRunOutcome RunError × Db) × (run_workflow c answers db ≡ some result)
unfolding run_workflow
run_workflow_ends c answers db =
    let runs = node_runs c.job_id c.workflow.id db in
    run_loop_ends (round_limit c.workflow) c answers 0 runs (from_completed c.workflow runs) db
      (omega (arith, count_where-le-length (is_pending runs) c.workflow.nodes))

-- The check against a second run of an `ExecuteOnce` node never fires: no node that the scheduler
-- offers has a completed run.
pub reached_twice_never :
    (workflow : ExecutionWorkflow) (runs : List WorkflowNodeRun)
    → any (reached_twice runs) (runnable_nodes workflow runs) ≡ false
reached_twice_never workflow runs =
    any-none (reached_twice runs) (runnable_nodes workflow runs)
      (λ node m. let pending = (runnable-pending workflow runs node m).1 in ground arith)
