-- ===== src/Samples/Verified.antt =====
-- Examples of Workflow/Verify.
use fineract_ai_reports.Prelude.{
  string_eq, nat_eq, ok, err, pos, int_eq, ℕ, ◌^◌, ◌≡◌, refl, true, false, some, [], ◌∷◌, arith,
}
use fineract_ai_reports.Knowledge.{integer_array, parameter_type_eq, operator_eq}
use fineract_ai_reports.Policy.{missing_office_scope}
use fineract_ai_reports.Workflow.Contract.{
  node_id_eq, NodeBudget, authorized_scope, NodeInput, WorkflowNode, ExecutionWorkflow,
}
use fineract_ai_reports.Workflow.Ledger.{completed}
use fineract_ai_reports.Workflow.Budget.{no_budget}
use fineract_ai_reports.Workflow.Budget.Limits.{costs, Fits}
use fineract_ai_reports.Workflow.State.{Db}
use fineract_ai_reports.Workflow.Runner.{fails, Answer, RunContext}
use fineract_ai_reports.Workflow.Runner.Node.{}
use fineract_ai_reports.Workflow.Verify.{missing_office_scope, WorkflowGraph}
use fineract_ai_reports.Workflow.Verify.Nodes.{}
use fineract_ai_reports.Workflow.Verify.Whole.{over_budget, verify}
use fineract_ai_reports.Workflow.Verify.Sound.{IsVerified, verify-IsVerified}
use fineract_ai_reports.Workflow.Verify.Spends.{over_budget-Fits}
use fineract_ai_reports.Samples.Values.{
  query_node, complete_node_named, budgets_two, two_steps, run_named, officer, small_catalog,
}

abbrev pub office_input : NodeInput
office_input = record { parameter = "office_ids"; kind = integer_array; source = authorized_scope }

abbrev scoped_query : WorkflowNode
scoped_query = record (query_node "loans") { inputs = office_input ∷ [] }

abbrev pub scoped_steps : ExecutionWorkflow
scoped_steps = record two_steps { nodes = scoped_query ∷ complete_node_named "done" ∷ [] }

-- The graph of `loans → done`.
abbrev pub line_graph : ExecutionWorkflow → WorkflowGraph
line_graph workflow = record {
  is_cyclic = false;
  entry_nodes = record { name = "loans" } ∷ [];
  reachable_from = λ id. record { name = "loans" } ∷ record { name = "done" } ∷ [];
  max_runnable_width = 1;
  topological_order = some (record { name = "loans" } ∷ record { name = "done" } ∷ []);
  has_node = λ id. true;
}

accepts_scoped_steps :
    verify line_graph scoped_steps officer small_catalog ≡ ok (record { workflow = scoped_steps })
unfolding verify
accepts_scoped_steps = refl

rejects_unscoped : verify line_graph two_steps officer small_catalog ≡ err missing_office_scope
unfolding verify
rejects_unscoped = refl

verify-IsVerified_example :
    (scoped_steps ≡ scoped_steps)
    × IsVerified scoped_steps officer small_catalog (line_graph scoped_steps)
verify-IsVerified_example =
    verify-IsVerified line_graph scoped_steps officer small_catalog
      (record { workflow = scoped_steps }) accepts_scoped_steps

over_budget-Fits_example : Fits budgets_two no_budget (costs scoped_steps.nodes)
unfolding over_budget
over_budget-Fits_example =
    over_budget-Fits (line_graph scoped_steps) scoped_steps (omega arith) (omega arith)
      (omega arith) refl

abbrev verified_context : RunContext
verified_context = record {
  job_id = 5;
  user_id = 2;
  principal = officer;
  workflow = scoped_steps;
  catalog = small_catalog;
}

abbrev failing : ℕ → WorkflowNode → Answer
failing n node = record {
  run_id = n;
  now = n;
  elapsed = pos 1;
  cancelled = false;
  execute = λ bindings. ok fails;
}

abbrev loans_done : Db
loans_done = record {
  jobs = [];
  memory = [];
  node_runs = run_named "loans" completed ∷ [];
  checkpoints = [];
  events = [];
}

-- Two time limits that add up to 2 ^ 64 count as none at all: the `u64` sum wraps.
abbrev endless : NodeBudget
endless = record { timeout_ms = 2 ^ 63; row_cap = 1; query_cost = 1 }

wraps_time :
    over_budget (line_graph scoped_steps) (record scoped_steps {
      nodes =
          record scoped_query { budget = endless } ∷ record scoped_query { budget = endless } ∷ [];
    })
    ≡ false
unfolding over_budget
wraps_time = refl
