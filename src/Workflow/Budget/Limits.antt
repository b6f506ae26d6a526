-- ===== src/Workflow/Budget/Limits.antt =====
-- The declared costs of a batch fit the shared budgets, and the ledger is what the runs add up to.
use fineract_ai_reports.Prelude.{
  Bool-cases, nat_eq, string_eq, int_eq, ◌≤◌, ◌≡◌, inl, inr, false, List, [], ◌∷◌, arith, All, ℕ,
  ◌+◌, ◌^◌, ◌<◌, is_empty, take, All-take,
}
use fineract_ai_reports.Workflow.Contract.{node_id_eq, WorkflowBudgets, NodeBudget, WorkflowNode}
use fineract_ai_reports.Workflow.Ledger.{}
use fineract_ai_reports.Workflow.Budget.{
  BudgetTotals, would_exceed, add_declared, select_batch, batch_of, max_parallel,
}

-- The declared costs of a list of nodes, added up without a limit.

pub record Costs : Type 0 where
  pub queries : ℕ
  pub rows : ℕ
  pub ms : ℕ

abbrev pub costs : List WorkflowNode → Costs
costs [] = record { queries = 0; rows = 0; ms = 0 }
costs (node ∷ rest) = record {
  queries = node.budget.query_cost + (costs rest).queries;
  rows = node.budget.row_cap + (costs rest).rows;
  ms = node.budget.timeout_ms + (costs rest).ms;
}

-- The ranges of the `u8` and `u32` fields, and a bound on the `u64` times that keeps sums exact.
pub record IsSmall (node : WorkflowNode) : Type 0 where
  pub queries : node.budget.query_cost < 2 ^ 8
  pub rows : node.budget.row_cap < 2 ^ 32
  pub ms : node.budget.timeout_ms < 2 ^ 63

pub record AreSmall (budgets : WorkflowBudgets) (t : BudgetTotals) : Type 0 where
  pub query_budget : budgets.max_query_count < 2 ^ 8
  pub row_budget : budgets.shared_row_cap < 2 ^ 32
  pub time_budget : budgets.shared_timeout_ms < 2 ^ 63
  pub queries : t.queries < 2 ^ 63
  pub rows : t.rows < 2 ^ 63
  pub ms : t.ms < 2 ^ 63

-- Consumed totals and declared costs together stay within every shared budget.
pub record Fits (budgets : WorkflowBudgets) (t : BudgetTotals) (c : Costs) : Type 0 where
  pub queries : t.queries + c.queries ≤ budgets.max_query_count
  pub rows : t.rows + c.rows ≤ budgets.shared_row_cap
  pub ms : t.ms + c.ms ≤ budgets.shared_timeout_ms

-- A node that does not exceed adds exactly its costs, and the new totals are within the budgets.
pub record Adds (budgets : WorkflowBudgets) (t : BudgetTotals) (b : NodeBudget) : Type 0 where
  pub queries : (add_declared t b).queries ≡ t.queries + b.query_cost
  pub rows : (add_declared t b).rows ≡ t.rows + b.row_cap
  pub ms : (add_declared t b).ms ≡ t.ms + b.timeout_ms
  pub query_room : t.queries + b.query_cost ≤ budgets.max_query_count
  pub row_room : t.rows + b.row_cap ≤ budgets.shared_row_cap
  pub time_room : t.ms + b.timeout_ms ≤ budgets.shared_timeout_ms

add_declared-Adds :
    (budgets : WorkflowBudgets) (t : BudgetTotals) (node : WorkflowNode)
    → IsSmall node
    → AreSmall budgets t
    → would_exceed t budgets node.budget ≡ false
    → Adds budgets t node.budget
unfolding would_exceed add_declared
add_declared-Adds budgets t node small limits h = ground arith

abbrev pub IsWithin : WorkflowBudgets → BudgetTotals → Type 0
IsWithin budgets t =
    (t.queries ≤ budgets.max_query_count)
    × (t.rows ≤ budgets.shared_row_cap)
    × (t.ms ≤ budgets.shared_timeout_ms)

Fits-nil :
    (budgets : WorkflowBudgets) (t : BudgetTotals) → IsWithin budgets t → Fits budgets t (costs [])
Fits-nil budgets t h = omega arith

select_batch-Fits :
    (budgets : WorkflowBudgets) (t : BudgetTotals) (nodes : List WorkflowNode)
    → All IsSmall nodes
    → AreSmall budgets t
    → IsWithin budgets t
    → Fits budgets t (costs (select_batch budgets t nodes))
unfolding select_batch
select_batch-Fits budgets t [] small limits h = Fits-nil budgets t h
select_batch-Fits budgets t (node ∷ rest) small limits h =
    elim (Bool-cases (would_exceed t budgets node.budget)) [
      | inl e ↦ rw e (Fits-nil budgets t h)
      | inr f ↦
          let adds = add_declared-Adds budgets t node small.0 limits f in
          let fits =
            select_batch-Fits budgets (add_declared t node.budget) rest small.1
              (record {
                query_budget = limits.query_budget;
                row_budget = limits.row_budget;
                time_budget = limits.time_budget;
                queries = omega arith;
                rows = omega arith;
                ms = omega arith;
              })
              (omega arith) in
          rw f (record { queries = omega arith; rows = omega arith; ms = omega arith })
    ]

select_batch-IsWithin :
    (budgets : WorkflowBudgets) (t : BudgetTotals) (nodes : List WorkflowNode)
    → All IsSmall nodes
    → AreSmall budgets t
    → is_empty (select_batch budgets t nodes) ≡ false
    → IsWithin budgets t
unfolding select_batch
select_batch-IsWithin budgets t [] small limits h = cc
select_batch-IsWithin budgets t (node ∷ rest) small limits h =
    elim (Bool-cases (would_exceed t budgets node.budget)) [
      | inl e ↦ cc (rw e at h)
      | inr f ↦ omega (arith, add_declared-Adds budgets t node small.0 limits f)
    ]

-- Where the time budgets leave room below 2 ^ 64, whatever a batch of at least one node may cost
-- at most, together with what is consumed, fits each of the three shared budgets.
pub batch_of-Fits :
    (budgets : WorkflowBudgets) (consumed : BudgetTotals) (nodes : List WorkflowNode)
    → All IsSmall nodes
    → AreSmall budgets consumed
    → is_empty (batch_of budgets consumed nodes) ≡ false
    → Fits budgets consumed (costs (batch_of budgets consumed nodes))
unfolding batch_of
batch_of-Fits budgets consumed nodes small limits h =
    let first = take (max_parallel budgets) nodes in
    let small' = All-take IsSmall (max_parallel budgets) nodes small in
    select_batch-Fits budgets consumed first small' limits
      (select_batch-IsWithin budgets consumed first small' limits h)
