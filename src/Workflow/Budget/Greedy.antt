-- ===== src/Workflow/Budget/Greedy.antt =====
-- Which nodes the batch of workflow/run.rs takes, and where it stops.
use fineract_ai_reports.Prelude.{
  Bool-cases, nat_eq, string_eq, length, take, length-append, length-take, int_eq, ◌≤◌, ◌≡◌, refl,
  ap, inl, inr, true, List, [], ◌∷◌, ◌++◌, arith,
}
use fineract_ai_reports.Workflow.Contract.{node_id_eq, WorkflowBudgets, WorkflowNode}
use fineract_ai_reports.Workflow.Ledger.{}
use fineract_ai_reports.Workflow.Budget.{
  BudgetTotals, would_exceed, add_declared, select_batch, max_parallel, batch_of,
}

-- The totals after each node of a list has been added at its declared cost.
pub projected_after : BudgetTotals → List WorkflowNode → BudgetTotals
projected_after t [] = t
projected_after t (node ∷ rest) = projected_after (add_declared t node.budget) rest

-- Why no further node is taken: none is left, or the next one would exceed a shared budget.
pub data Stops (budgets : WorkflowBudgets) (t : BudgetTotals) : List WorkflowNode → Type 0 where
  all_taken : Stops budgets t []
  next_exceeds :
      {node : WorkflowNode} {rest : List WorkflowNode}
      → would_exceed t budgets node.budget ≡ true
      → Stops budgets t (node ∷ rest)

pub record IsGreedy (budgets : WorkflowBudgets) (consumed : BudgetTotals)
    (candidates batch : List WorkflowNode) : Type 0 where
  pub left : List WorkflowNode
  pub prefix : candidates ≡ batch ++ left
  pub stops : Stops budgets (projected_after consumed batch) left

select_batch-IsGreedy :
    (budgets : WorkflowBudgets) (t : BudgetTotals) (nodes : List WorkflowNode)
    → IsGreedy budgets t nodes (select_batch budgets t nodes)
unfolding select_batch projected_after
select_batch-IsGreedy budgets t [] = record { left = []; prefix = refl; stops = all_taken }
select_batch-IsGreedy budgets t (node ∷ rest) =
    elim (Bool-cases (would_exceed t budgets node.budget)) [
      | inl e ↦ rw e (record { left = node ∷ rest; prefix = refl; stops = next_exceeds e })
      | inr f ↦
          let g = select_batch-IsGreedy budgets (add_declared t node.budget) rest in
          rw f (record { left = g.left; prefix = ap (λ r. node ∷ r) g.prefix; stops = g.stops })
    ]

-- A batch is the longest affordable run of the first runnable nodes, in their order, and has at
-- most as many nodes as may run at once (at least one may).
pub batch_of-IsGreedy :
    (budgets : WorkflowBudgets) (consumed : BudgetTotals) (nodes : List WorkflowNode)
    → IsGreedy budgets consumed
        (take (max_parallel budgets) nodes)
        (batch_of budgets consumed nodes)
      × (length (batch_of budgets consumed nodes) ≤ max_parallel budgets)
unfolding batch_of
batch_of-IsGreedy budgets consumed nodes =
    let g = select_batch-IsGreedy budgets consumed (take (max_parallel budgets) nodes) in
    (
      g,
      omega (
        arith,
        ap length g.prefix,
        length-append (select_batch budgets consumed (take (max_parallel budgets) nodes)) g.left,
        length-take (max_parallel budgets) nodes,
      ),
    )
