-- ===== src/Samples/Runs.antt =====
-- Examples of Workflow/Budget, Workflow/Ledger and Workflow/Schedule.
use fineract_ai_reports.Prelude.{nat_eq, string_eq, int_eq, String, refl, List, [], ◌∷◌, arith}
use fineract_ai_reports.Knowledge.{parameter_type_eq}
use fineract_ai_reports.Json.{}
use fineract_ai_reports.Workflow.Contract.{node_id_eq, WorkflowNode}
use fineract_ai_reports.Workflow.Budget.{would_exceed, select_batch, batch_of}
use fineract_ai_reports.Workflow.Budget.Limits.{costs, IsSmall, AreSmall, Fits, batch_of-Fits}
use fineract_ai_reports.Samples.Values.{query_node, budgets_two, consumed_little}

query_node-IsSmall : (name : String) → IsSmall (query_node name)
query_node-IsSmall name = record { queries = omega arith; rows = omega arith; ms = omega arith }

budgets_two-AreSmall : AreSmall budgets_two consumed_little
budgets_two-AreSmall = record {
  query_budget = omega arith;
  row_budget = omega arith;
  time_budget = omega arith;
  queries = omega arith;
  rows = omega arith;
  ms = omega arith;
}

abbrev two_queries : List WorkflowNode
two_queries = query_node "loans" ∷ query_node "savings" ∷ []

batch_of-Fits_example :
    Fits budgets_two consumed_little (costs (batch_of budgets_two consumed_little two_queries))
unfolding batch_of select_batch would_exceed
batch_of-Fits_example =
    batch_of-Fits budgets_two consumed_little two_queries
      (query_node-IsSmall "loans", (query_node-IsSmall "savings", tt)) budgets_two-AreSmall refl
