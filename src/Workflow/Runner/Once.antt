-- ===== src/Workflow/Runner/Once.antt =====
-- What holds of the runs and of the ledger after any number of rounds of a run.
use fineract_ai_reports.Prelude.{
  Bool-cases, ◌==◌, ==→≡, string_eq, nat_eq, take, filter, any, ◌∈◌, int_eq, ℕ, zero, suc, ◌+◌, ◌≤◌,
  ◌≡◌, refl, ap, ◌∙◌, ◌⊎◌, inl, inr, Bool, true, false, List, [], ◌∷◌, ◌++◌, arith,
}
use fineract_ai_reports.Workflow.Contract.{NodeId, node_id_eq, WorkflowNode, ExecutionWorkflow}
use fineract_ai_reports.Workflow.Ledger.{WorkflowNodeRun, is_completed, completes, completed_ids}
use fineract_ai_reports.Workflow.Budget.{BudgetTotals, from_completed, max_parallel, batch_of}
use fineract_ai_reports.Workflow.Budget.Greedy.{batch_of-IsGreedy}
use fineract_ai_reports.Workflow.Budget.Resumed.{}
use fineract_ai_reports.Workflow.Schedule.{is_runnable, runnable_nodes}
use fineract_ai_reports.Workflow.Schedule.Readiness.{}
use fineract_ai_reports.Workflow.State.{Db, count_where, node_runs}
use fineract_ai_reports.Workflow.Runner.{Answer, RunContext}
use fineract_ai_reports.Workflow.Runner.Node.{}
use fineract_ai_reports.Workflow.Runner.Reports.{}
use fineract_ai_reports.Workflow.Runner.Loop.{next_round, run_round}
use fineract_ai_reports.Workflow.Runner.Rounds.{
  Completes, none_left, one_more, GoesOn, run_round-GoesOn,
}
use fineract_ai_reports.Workflow.Runner.Ends.{runnable-pending, batch_of-mem}

-- The runs and the totals that the loop holds before one of its rounds.
pub data Reaches (c : RunContext) (answers : ℕ → WorkflowNode → Answer) (start : Db)
    : ℕ → List WorkflowNodeRun → BudgetTotals → Db → Type 0 where
  begins :
      Reaches c answers start 0
        (node_runs c.job_id c.workflow.id start)
        (from_completed c.workflow (node_runs c.job_id c.workflow.id start))
        start
  goes_on :
      {n : ℕ} {runs more : List WorkflowNodeRun} {consumed used : BudgetTotals} {db after : Db}
      → Reaches c answers start n runs consumed db
      → run_round c (answers n) runs consumed db ≡ next_round more used after
      → Reaches c answers start (suc n) more used after

-- No two nodes of the workflow have the same id.
abbrev pub HasUniqueIds : List WorkflowNode → Type 0
HasUniqueIds nodes = (id : NodeId) → count_where (λ node. node.id == id) nodes ≤ 1

-- No node has more than one completed run.
abbrev pub AreOnce : List WorkflowNodeRun → Type 0
AreOnce runs = (id : NodeId) → count_where (completes id) runs ≤ 1

count_where-append :
    {A : Type 0} (p : A → Bool) (xs ys : List A)
    → count_where p (xs ++ ys) ≡ count_where p xs + count_where p ys
count_where-append p [] ys = omega arith
count_where-append p (x ∷ xs) ys = omega (arith, count_where-append p xs ys)

count_where-filter :
    {A : Type 0} (p q : A → Bool) (xs : List A) → count_where p (filter q xs) ≤ count_where p xs
count_where-filter p q [] = omega arith
count_where-filter p q (x ∷ xs) = ground (arith, count_where-filter p q xs)

count_where-take :
    {A : Type 0} (p : A → Bool) (n : ℕ) (xs : List A) → count_where p (take n xs) ≤ count_where p xs
count_where-take p zero xs = omega arith
count_where-take p (suc n) [] = omega arith
count_where-take p (suc n) (x ∷ xs) = omega (arith, count_where-take p n xs)

count_where-none :
    {A : Type 0} (p : A → Bool) (xs : List A) → any p xs ≡ false → count_where p xs ≡ 0
count_where-none p [] h = refl
count_where-none p (x ∷ xs) h = ground (arith, count_where-none p xs)

-- A batch holds no node twice.
count_where-batch_of :
    (p : WorkflowNode → Bool) (workflow : ExecutionWorkflow) (consumed : BudgetTotals)
    (runs : List WorkflowNodeRun)
    → count_where p (batch_of workflow.budgets consumed (runnable_nodes workflow runs))
      ≤ count_where p workflow.nodes
unfolding runnable_nodes
count_where-batch_of p workflow consumed runs =
    let candidates = runnable_nodes workflow runs in
    let batch = batch_of workflow.budgets consumed candidates in
    let g = (batch_of-IsGreedy workflow.budgets consumed candidates).0 in
    omega (
      arith,
      ap (count_where p) g.prefix,
      count_where-append p batch g.left,
      count_where-take p (max_parallel workflow.budgets) candidates,
      count_where-filter p (λ node. is_runnable node workflow runs (completed_ids runs))
          workflow.nodes,
    )

-- The runs that a round adds for an id are as many as the nodes of the batch with that id.
Completes-count :
    (nodes : List WorkflowNode) (added : List WorkflowNodeRun) (id : NodeId)
    → Completes nodes added
    → count_where (completes id) added ≡ count_where (λ node. node.id == id) nodes
Completes-count [] [] id none_left = refl
Completes-count (node ∷ nodes) (run ∷ added) id (one_more t rest) =
    let same : run.node_id ≡ node.id = ==→≡ run.node_id node.id (ground arith) in
    let done : is_completed run ≡ true = ground arith in
    rw (same, done) (ground (arith, Completes-count nodes added id rest))
Completes-count [] (run ∷ added) id d = elim d [ ]
Completes-count (node ∷ nodes) [] id d = elim d [ ]

some-count :
    {A : Type 0} (p : A → Bool) (xs : List A)
    → (count_where p xs ≡ 0) ⊎ ((a : A) × (a ∈ xs) × (p a ≡ true))
some-count p [] = inl refl
some-count p (x ∷ xs) = elim (Bool-cases (p x)) [
  | inl t ↦ inr (x, inl refl, t)
  | inr f ↦ elim (some-count p xs) [
    | inl z ↦ inl (rw f (omega (arith, z)))
    | inr (a, m, t) ↦ inr (a, inr m, t)
  ]
]

GoesOn-AreOnce :
    (c : RunContext) (runs more : List WorkflowNodeRun) (consumed used : BudgetTotals)
    → HasUniqueIds c.workflow.nodes
    → AreOnce runs
    → GoesOn c runs consumed more used
    → AreOnce more
GoesOn-AreOnce c runs more consumed used unique old g id =
    let candidates = runnable_nodes c.workflow runs in
    let batch = batch_of c.workflow.budgets consumed candidates in
    let sum : count_where (completes id) more
        ≡ count_where (completes id) runs
          + count_where (λ (node : WorkflowNode). node.id == id) batch =
      rw g.grown (
        count_where-append (completes id) runs g.added
        ∙ ap (λ n. count_where (completes id) runs + n)
            (Completes-count batch g.added id g.done)) in
    elim (some-count (λ (node : WorkflowNode). node.id == id) batch) [
      | inl z ↦ omega (arith, sum, old id)
      | inr (node, m, t) ↦
          let (known, pending) =
            runnable-pending c.workflow runs node
              (batch_of-mem c.workflow.budgets consumed candidates node m) in
          let fresh : any (completes id) runs ≡ false = rw (← ==→≡ node.id id t) (ground arith) in
          omega (
            arith,
            sum,
            count_where-none (completes id) runs fresh,
            count_where-batch_of (λ node. node.id == id) c.workflow consumed runs,
            unique id,
          )
    ]

-- In a workflow whose node ids are unique, no node completes twice, however many rounds a run
-- takes and whatever its nodes return.
pub Reaches-AreOnce :
    (c : RunContext) (answers : ℕ → WorkflowNode → Answer) (start : Db) (n : ℕ)
    (runs : List WorkflowNodeRun) (consumed : BudgetTotals) (db : Db)
    → HasUniqueIds c.workflow.nodes
    → AreOnce (node_runs c.job_id c.workflow.id start)
    → Reaches c answers start n runs consumed db
    → AreOnce runs
Reaches-AreOnce c answers start n runs consumed db unique old begins = old
Reaches-AreOnce c answers start n more used after unique old
      (goes_on {n = k} {runs = runs} {consumed = consumed} {db = db} before round) =
    GoesOn-AreOnce c runs more consumed used unique
      (Reaches-AreOnce c answers start k runs consumed db unique old before)
      (run_round-GoesOn c (answers k) runs more consumed used db after round)
