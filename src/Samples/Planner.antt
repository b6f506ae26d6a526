-- ===== src/Samples/Planner.antt =====
-- More examples of Workflow/Compile: probes, comparisons, and workflows of one capability.
use fineract_ai_reports.Prelude.{
  string_eq, nat_eq, All, ok, err, int_eq, String, ◌≡◌, refl, inl, inr, some, [], ◌∷◌,
}
use fineract_ai_reports.Knowledge.{KnowledgeCatalog, parameter_type_eq, operator_eq, shape}
use fineract_ai_reports.Workflow.Contract.{
  node_id_eq, comparison, resolve_entity, compose_result, WorkflowNode, ExecutionWorkflow,
}
use fineract_ai_reports.Workflow.Verify.{VerifyError}
use fineract_ai_reports.Workflow.Verify.Nodes.{}
use fineract_ai_reports.Workflow.Verify.Whole.{verify}
use fineract_ai_reports.Workflow.Compile.{comparison_facts_diverge, WorkflowProposal}
use fineract_ai_reports.Workflow.Compile.Proposal.{check_kind}
use fineract_ai_reports.Workflow.Compile.Refused.{verify-check_kind}
use fineract_ai_reports.Workflow.Compile.Probe.{scope_input}
use fineract_ai_reports.Workflow.Compile.Acquisition.{no_facts}
use fineract_ai_reports.Workflow.Compile.Comparison.{
  bound, facts_of, first_node, check_comparison_facts,
}
use fineract_ai_reports.Workflow.Compile.Agreed.{check_comparison_facts-agree}
use fineract_ai_reports.Workflow.Compile.Plain.{RunsApproved, IsScoped}
use fineract_ai_reports.Workflow.Compile.Whole.{capability_workflow, compile_with_facts}
use fineract_ai_reports.Workflow.Compile.Approved.{
  compile_with_facts-RunsApproved, compile_with_facts-IsScoped,
}
use fineract_ai_reports.Workflow.Compile.Ambiguity.{clarify, resolve_ambiguity}
use fineract_ai_reports.Workflow.Compile.Resolved.{IsJustified, resolve_ambiguity-IsJustified}
use fineract_ai_reports.Samples.Values.{
  node_named, query_budget, free_budget, query_node, complete_node_named, budgets_two, two_steps,
  officer, loans_capability, small_catalog,
}
use fineract_ai_reports.Samples.Verified.{office_input, line_graph}
use fineract_ai_reports.Samples.Compiled.{probing, clients, clients_catalog}

abbrev find_client : WorkflowNode
find_client =
    node_named "find"
      (resolve_entity (record {
        dataset_id = "test.dataset";
        resolver_shape_id = "probe";
        entity_kind = "client";
        probe_row_cap = 5;
      }))
      query_budget

abbrev probed : ExecutionWorkflow
probed = record two_steps { nodes = find_client ∷ complete_node_named "done" ∷ [] }

probe_known : shape clients "probe" ≡ some probing
unfolding shape
probe_known = refl

verify-check_kind_example :
    (check_kind clients_catalog find_client.kind ≡ ok tt)
    × ((e : VerifyError) × (verify line_graph probed officer clients_catalog ≡ err e))
verify-check_kind_example =
    verify-check_kind line_graph officer clients_catalog probed find_client
      (record {
        dataset_id = "test.dataset";
        resolver_shape_id = "probe";
        entity_kind = "client";
        probe_row_cap = 5;
      })
      clients probing (inl refl) refl refl probe_known refl

abbrev scoped_named : String → WorkflowNode
scoped_named name = record (query_node name) { inputs = office_input ∷ [] }

abbrev compare_two : WorkflowNode
compare_two =
    node_named "compare"
      (compose_result (record {
        sources = record { name = "a" } ∷ record { name = "b" } ∷ [];
        composition = comparison;
      }))
      free_budget

abbrev compared_pair : ExecutionWorkflow
compared_pair = record two_steps { nodes = scoped_named "a" ∷ scoped_named "b" ∷ compare_two ∷ [] }

pair_agrees : check_comparison_facts compared_pair ≡ ok tt
unfolding check_comparison_facts
pair_agrees = refl

unscoped_pair_diverges :
    check_comparison_facts
      (record two_steps { nodes = scoped_named "a" ∷ query_node "b" ∷ compare_two ∷ [] })
    ≡ err (comparison_facts_diverge compare_two.id)
unfolding check_comparison_facts
unscoped_pair_diverges = refl

check_comparison_facts-agree_example :
    (m : WorkflowNode) × (n : WorkflowNode) × (first_node compared_pair (record { name = "a" })
      ≡ some m)
    × (first_node compared_pair (record { name = "b" }) ≡ some n)
    × ((name : String) → bound (facts_of m) name ≡ bound (facts_of n) name)
check_comparison_facts-agree_example =
    check_comparison_facts-agree compared_pair compare_two
      (record { name = "a" } ∷ record { name = "b" } ∷ []) (record { name = "a" })
      (record { name = "b" }) pair_agrees (inr (inr (inl refl))) refl (inl refl) (inr (inl refl))

abbrev ask_loans : WorkflowProposal
ask_loans = record { capability_ids = "loans" ∷ []; nodes = []; edges = [] }

abbrev loans_workflow : ExecutionWorkflow
loans_workflow =
    capability_workflow 9 3 budgets_two small_catalog loans_capability
      (record { inputs = scope_input ∷ []; nodes = []; edges = [] })

compiles_loans :
    compile_with_facts 9 ask_loans small_catalog 3 budgets_two no_facts ≡ ok loans_workflow
unfolding compile_with_facts
compiles_loans = refl

compile_with_facts-RunsApproved_example :
    All (λ (n : WorkflowNode). RunsApproved small_catalog n.kind) loans_workflow.nodes
compile_with_facts-RunsApproved_example =
    compile_with_facts-RunsApproved 9 ask_loans small_catalog 3 budgets_two no_facts loans_workflow
      compiles_loans

compile_with_facts-IsScoped_example : All IsScoped loans_workflow.nodes
compile_with_facts-IsScoped_example =
    compile_with_facts-IsScoped 9 ask_loans small_catalog 3 budgets_two no_facts loans_workflow refl
      compiles_loans

abbrev two_kinds : KnowledgeCatalog
two_kinds = record small_catalog {
  capabilities =
      loans_capability
      ∷ record loans_capability { id = "savings"; display_name = some "Savings" }
      ∷ [];
}

resolve_ambiguity-IsJustified_example :
    IsJustified two_kinds
      ("savings" ∷ "loans" ∷ "absent" ∷ [])
      no_facts
      (resolve_ambiguity ("savings" ∷ "loans" ∷ "absent" ∷ []) no_facts two_kinds)
resolve_ambiguity-IsJustified_example =
    resolve_ambiguity-IsJustified two_kinds ("savings" ∷ "loans" ∷ "absent" ∷ []) no_facts

asks_which :
    resolve_ambiguity ("savings" ∷ "loans" ∷ "savings" ∷ []) no_facts two_kinds
    ≡ clarify (("loans", "loans") ∷ ("savings", "Savings") ∷ [])
unfolding resolve_ambiguity
asks_which = refl
