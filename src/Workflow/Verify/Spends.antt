-- ===== src/Workflow/Verify/Spends.antt =====
-- What the sums of V6 bound, and where they do not.
use fineract_ai_reports.Prelude.{
  string_eq, nat_eq, int_eq, ℕ, ◌+◌, ◌^◌, ◌<◌, ◌≡◌, refl, false, List, [], ◌∷◌, arith,
}
use fineract_ai_reports.Workflow.Contract.{node_id_eq, WorkflowNode, ExecutionWorkflow}
use fineract_ai_reports.Workflow.Budget.{no_budget}
use fineract_ai_reports.Workflow.Budget.Limits.{costs, Fits}
use fineract_ai_reports.Workflow.Verify.{WorkflowGraph}
use fineract_ai_reports.Workflow.Verify.Whole.{wrapping_sum, over_budget}
use native.Mathlib.Nat.{mod-eq_of_lt}

abbrev sum_of : (WorkflowNode → ℕ) → List WorkflowNode → ℕ
sum_of cost [] = 0
sum_of cost (node ∷ nodes) = cost node + sum_of cost nodes

-- A sum that fits its type is exact.
wrapping_sum-exact :
    (w : ℕ) (cost : WorkflowNode → ℕ) (nodes : List WorkflowNode)
    → sum_of cost nodes < 2 ^ w
    → wrapping_sum w cost nodes ≡ sum_of cost nodes
wrapping_sum-exact w cost [] h = refl
wrapping_sum-exact w cost (node ∷ nodes) h =
    rw (wrapping_sum-exact w cost nodes (omega arith)) (mod-eq_of_lt h)

costs-sums :
    (nodes : List WorkflowNode)
    → ((costs nodes).queries ≡ sum_of (λ node. node.budget.query_cost) nodes)
      × ((costs nodes).rows ≡ sum_of (λ node. node.budget.row_cap) nodes)
      × ((costs nodes).ms ≡ sum_of (λ node. node.budget.timeout_ms) nodes)
costs-sums [] = (refl, refl, refl)
costs-sums (node ∷ nodes) = omega (arith, costs-sums nodes)

-- The declared costs of an accepted workflow, all nodes together, fit its shared budgets where they
-- add up without overflow.
pub over_budget-Fits :
    (graph : WorkflowGraph) (workflow : ExecutionWorkflow)
    → (costs workflow.nodes).queries < 2 ^ 16
    → (costs workflow.nodes).rows < 2 ^ 64
    → (costs workflow.nodes).ms < 2 ^ 64
    → over_budget graph workflow ≡ false
    → Fits workflow.budgets no_budget (costs workflow.nodes)
unfolding over_budget
over_budget-Fits graph workflow q r m h =
    let (eq, er, em) = costs-sums workflow.nodes in
    let xq = wrapping_sum-exact 16 (λ node. node.budget.query_cost) workflow.nodes (rw (← eq) q) in
    let xr = wrapping_sum-exact 64 (λ node. node.budget.row_cap) workflow.nodes (rw (← er) r) in
    let xm = wrapping_sum-exact 64 (λ node. node.budget.timeout_ms) workflow.nodes (rw (← em) m) in
    record { queries = ground arith; rows = ground arith; ms = ground arith }
