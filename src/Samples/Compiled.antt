-- ===== src/Samples/Compiled.antt =====
-- Examples of Workflow/Compile.
use fineract_ai_reports.Prelude.{
  string_eq, nat_eq, ok, int_eq, String, ◌≡◌, refl, false, none, some, [], ◌∷◌, length, All,
  All-mem, err, codes, ℕ, ap, ◌≢◌, inl, inr, arith, ◌==◌, ==_refl,
}
use fineract_ai_reports.Json.{}
use fineract_ai_reports.Knowledge.{
  parameter_type_eq, probe, in_list, operator_eq, ordinary, FilterSlot, ShapeOption,
  DatasetKnowledge, KnowledgeCatalog,
}
use fineract_ai_reports.Workflow.Contract.{
  node_id_eq, comparison, execute_query, compose_result, always, WorkflowNode, ExecutionWorkflow,
  NodeId,
}
use fineract_ai_reports.Workflow.Verify.{VerifyError}
use fineract_ai_reports.Workflow.Verify.Nodes.{}
use fineract_ai_reports.Workflow.Verify.Whole.{verify}
use fineract_ai_reports.Workflow.Compile.{}
use fineract_ai_reports.Workflow.Compile.Proposal.{}
use fineract_ai_reports.Workflow.Compile.Iteration.{
  sibling_node, expand_iteration, iterates, iter_name,
}
use fineract_ai_reports.Workflow.Compile.Images.{length-iter_name}
use fineract_ai_reports.Workflow.Compile.Expanded.{IsExpansion, expand_iteration-IsExpansion}
use fineract_ai_reports.Workflow.Compile.Refused.{verify-expand_iteration}
use fineract_ai_reports.Workflow.Compile.Acquisition.{}
use fineract_ai_reports.Workflow.Compile.Comparison.{}
use fineract_ai_reports.Workflow.Compile.Agreed.{}
use fineract_ai_reports.Workflow.Compile.Plain.{}
use fineract_ai_reports.Workflow.Compile.Whole.{}
use fineract_ai_reports.Workflow.Compile.Approved.{}
use fineract_ai_reports.Samples.Values.{
  node_named, query_budget, free_budget, complete_node_named, edge_between, two_steps,
  small_catalog, shape_named, dataset_of, officer,
}
use fineract_ai_reports.Samples.Verified.{line_graph}

abbrev client_filter : FilterSlot
client_filter = record {
  id = "client";
  expr = "c.id";
  kind = "integer";
  case_insensitive = false;
  input_policy = ordinary;
  operators = in_list ∷ [];
}

abbrev pub probing : ShapeOption
probing = record (shape_named "probe" []) { role = probe }

abbrev pub clients : DatasetKnowledge
clients = record (dataset_of (shape_named "list" [] ∷ probing ∷ [])) {
  filters = client_filter ∷ [];
}

abbrev pub clients_catalog : KnowledgeCatalog
clients_catalog = record small_catalog { datasets = clients ∷ [] }

abbrev each_client : WorkflowNode
each_client =
    node_named "each"
      (execute_query (record {
        capability_id = none;
        dataset_id = some "test.dataset";
        shape_id = some "list";
        query_id = none;
        iterate_over =
            some (record { source = record { name = "find" }; slot = "client_id"; max = 2 });
      }))
      query_budget

abbrev sum_up : WorkflowNode
sum_up =
    node_named "sum"
      (compose_result
        (record { sources = record { name = "each" } ∷ []; composition = comparison }))
      free_budget

abbrev per_client : ExecutionWorkflow
per_client = record two_steps {
  nodes = each_client ∷ complete_node_named "done" ∷ [];
  edges = edge_between "each" "done" always ∷ [];
}

abbrev each_copy : String → WorkflowNode
each_copy name = sibling_node each_client (record { name = name })

abbrev per_client_expanded : ExecutionWorkflow
per_client_expanded = record per_client {
  nodes = each_copy "each_iter_0" ∷ each_copy "each_iter_1" ∷ complete_node_named "done" ∷ [];
  edges = edge_between "each_iter_0" "done" always ∷ edge_between "each_iter_1" "done" always ∷ [];
}

expands_each_client : expand_iteration per_client clients_catalog ≡ ok per_client_expanded
unfolding expand_iteration
expands_each_client = refl

expand_iteration-IsExpansion_example : IsExpansion per_client per_client_expanded
expand_iteration-IsExpansion_example =
    expand_iteration-IsExpansion per_client per_client_expanded clients_catalog expands_each_client

abbrev totalled : ExecutionWorkflow
totalled = record per_client {
  nodes = each_client ∷ sum_up ∷ complete_node_named "done" ∷ [];
  edges = edge_between "each" "sum" always ∷ edge_between "sum" "done" always ∷ [];
}

abbrev totalled_expanded : ExecutionWorkflow
totalled_expanded = record totalled {
  nodes =
      each_copy "each_iter_0" ∷ each_copy "each_iter_1" ∷ sum_up ∷ complete_node_named "done" ∷ [];
  edges =
      edge_between "each_iter_0" "sum" always
      ∷ edge_between "each_iter_1" "sum" always
      ∷ edge_between "sum" "done" always
      ∷ [];
}

expands_totalled : expand_iteration totalled clients_catalog ≡ ok totalled_expanded
unfolding expand_iteration
expands_totalled = refl

other_id : (a b : NodeId) → (a == b) ≡ false → a ≢ b
other_id a b h e = cc (h, ==_refl b, ap (λ (x : NodeId). x == b) e)

some-ne-none : {A : Type 0} (a : A) → some a ≢ none
some-ne-none a e = cc

only_each :
    All (λ (o : WorkflowNode). o.id ≡ each_client.id → iterates o.kind ≢ none) totalled.nodes
only_each = (
  (λ e. some-ne-none _),
  (
    (λ e. absurd (other_id sum_up.id each_client.id refl e)),
    ((λ e. absurd (other_id (complete_node_named "done").id each_client.id refl e)), tt),
  ),
)

reads_like_no_copy :
    All (λ (o : WorkflowNode). (k : ℕ) → each_client.id.name ≢ iter_name o.id k) totalled.nodes
reads_like_no_copy =
    let longer = λ (o : WorkflowNode) (k : ℕ) (e : each_client.id.name ≡ iter_name o.id k).
      ap (λ (s : String). length (codes s)) e in
    (
      (λ k e. absurd (omega (arith, longer each_client k e, length-iter_name each_client.id k))),
      (
        (λ k e. absurd (omega (arith, longer sum_up k e, length-iter_name sum_up.id k))),
        (
          (λ k e. absurd (
              omega (
                arith,
                longer (complete_node_named "done") k e,
                length-iter_name (complete_node_named "done").id k,
              ))),
          tt,
        ),
      ),
    )

verify-expand_iteration_example :
    (e : VerifyError) × (verify line_graph totalled_expanded officer clients_catalog ≡ err e)
verify-expand_iteration_example =
    verify-expand_iteration line_graph officer clients_catalog totalled totalled_expanded
      each_client sum_up expands_totalled (inr (inl refl)) (inl refl)
      (λ o m.
        All-mem (λ (o : WorkflowNode). o.id ≡ each_client.id → iterates o.kind ≢ none)
          totalled.nodes only_each m)
      (λ o k m.
        All-mem (λ (o : WorkflowNode). (k : ℕ) → each_client.id.name ≢ iter_name o.id k)
          totalled.nodes reads_like_no_copy m k)
