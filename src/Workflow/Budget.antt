-- ===== src/Workflow/Budget.antt =====
-- `BudgetTotals` of crates/chat/src/assistant/workflow/run.rs and the choice of a batch. The totals
-- are `u64`, whose sums wrap; the casts from `u8`, `u32` and the clamped `i32` lose nothing.
pub mod Limits
pub mod Greedy
pub mod Resumed
use fineract_ai_reports.Prelude.{
  ltb, if◌then◌else◌, ◌==◌, nat_eq, string_eq, take, filter, find_last, pos, int_eq, non_negative,
  max, ℕ, ◌+◌, ◌%◌, ◌^◌, Bool, ◌||◌, Option, none, some, List, [], ◌∷◌,
}
use fineract_ai_reports.Workflow.Contract.{
  NodeId, node_id_eq, WorkflowBudgets, NodeBudget, WorkflowNode, ExecutionWorkflow,
}
use fineract_ai_reports.Workflow.Ledger.{WorkflowNodeRun, is_completed, value_or}

pub record BudgetTotals : Type 0 where
  pub queries : ℕ
  pub rows : ℕ
  pub ms : ℕ

infixl 65 ◌+u64◌
abbrev pub ◌+u64◌ : ℕ → ℕ → ℕ
a +u64 b = (a + b) % 2 ^ 64

abbrev pub no_budget : BudgetTotals
no_budget = record { queries = 0; rows = 0; ms = 0 }

unfoldable pub would_exceed : BudgetTotals → WorkflowBudgets → NodeBudget → Bool
would_exceed t budgets node =
    ltb budgets.max_query_count (t.queries +u64 node.query_cost)
    || ltb budgets.shared_row_cap (t.rows +u64 node.row_cap)
    || ltb budgets.shared_timeout_ms (t.ms +u64 node.timeout_ms)

unfoldable pub add_declared : BudgetTotals → NodeBudget → BudgetTotals
add_declared t node = record {
  queries = t.queries +u64 node.query_cost;
  rows = t.rows +u64 node.row_cap;
  ms = t.ms +u64 node.timeout_ms;
}

unfoldable pub add_actual : BudgetTotals → ℕ → WorkflowNodeRun → BudgetTotals
add_actual t query_cost run = record {
  queries = t.queries +u64 query_cost;
  rows = t.rows +u64 non_negative run.rows_returned;
  ms = t.ms +u64 non_negative (value_or (pos 0) run.duration_ms);
}

-- `nodes.get(&run.node_id)`: a map built from the nodes in order keeps the last of equal ids.
abbrev pub node_of : ExecutionWorkflow → NodeId → Option WorkflowNode
node_of workflow id = find_last (λ node. node.id == id) workflow.nodes

-- One round of the loop of `from_completed`: a run of an unknown node costs no query.
abbrev pub add_run : ExecutionWorkflow → BudgetTotals → WorkflowNodeRun → BudgetTotals
add_run workflow t run = record {
  queries = elim (node_of workflow run.node_id) [
    | some node ↦ t.queries +u64 node.budget.query_cost
    | none ↦ t.queries
  ];
  rows = t.rows +u64 non_negative run.rows_returned;
  ms = t.ms +u64 non_negative (value_or (pos 0) run.duration_ms);
}

abbrev pub add_runs : ExecutionWorkflow → BudgetTotals → List WorkflowNodeRun → BudgetTotals
add_runs workflow t [] = t
add_runs workflow t (run ∷ runs) = add_runs workflow (add_run workflow t run) runs

unfoldable pub from_completed : ExecutionWorkflow → List WorkflowNodeRun → BudgetTotals
from_completed workflow runs = add_runs workflow no_budget (filter is_completed runs)

-- The loop that fills a batch, over the nodes that `take` leaves; the first node that would
-- exceed a shared budget ends it.
unfoldable pub select_batch : WorkflowBudgets → BudgetTotals → List WorkflowNode → List WorkflowNode
unfolding would_exceed add_declared
select_batch budgets projected [] = []
select_batch budgets projected (node ∷ rest) =
    let chosen = node ∷ select_batch budgets (add_declared projected node.budget) rest in
    if would_exceed projected budgets node.budget then [] else chosen

abbrev pub max_parallel : WorkflowBudgets → ℕ
max_parallel budgets = max budgets.max_parallel_queries 1

unfoldable pub batch_of : WorkflowBudgets → BudgetTotals → List WorkflowNode → List WorkflowNode
unfolding select_batch
batch_of budgets consumed nodes = select_batch budgets consumed (take (max_parallel budgets) nodes)
