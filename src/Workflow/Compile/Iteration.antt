-- ===== src/Workflow/Compile/Iteration.antt =====
-- `expand_iteration` of compile.rs: a query that iterates is replaced by copies of it.
use fineract_ai_reports.Prelude.{
  ltb, nat_beq, if◌then◌else◌, ◌==◌, string_eq, nat_eq, is_empty, filter, find, find_last, any,
  concat, contains, Result, ok, err, ok_or, ◌>>=◌, append, decimal, int_eq, ℕ, zero, suc, ◌+◌,
  String, Bool, ◌&&◌, ◌||◌, not, Option, none, some, List, [], ◌∷◌, ◌++◌, map,
}
use fineract_ai_reports.Knowledge.{
  parameter_type_eq, in_list, operator_eq, FilterSlot, zero, ShapeOption, shape, KnowledgeCatalog,
}
use fineract_ai_reports.Workflow.Contract.{
  NodeId, node_id_eq, new_node_id, WorkflowBudgets, IterateOver, ExecuteQueryNode, NodeKind,
  execute_query, WorkflowEdge, WorkflowNode, ExecutionWorkflow,
}
use fineract_ai_reports.Workflow.Verify.{budget_exceeded, is_some, find_dataset, reject_if}
use fineract_ai_reports.Workflow.Verify.Whole.{wrapping_sum}
use fineract_ai_reports.Workflow.Compile.{
  CompileError, grouped_query_preferred, budget_exceeded, invalid_proposal, option_beq, node_id,
}

-- The query of a node that iterates, and over what

abbrev pub iterates : NodeKind → Option (ExecuteQueryNode × IterateOver)
iterates (execute_query exec) = elim exec.iterate_over [
  | none ↦ none
  | some iterate ↦ some (exec, iterate)
]
iterates _ = none

abbrev pub is_grouped_by : String → ShapeOption → Bool
is_grouped_by slot s = option_beq s.grouped_by (some slot)

abbrev pub takes_list : FilterSlot → Bool
takes_list filter = (filter.kind == "integer") && contains filter.operators in_list

-- A shape that returns all groups at once is preferred to an iteration.
abbrev pub check_group : Option ShapeOption → Result (Unit {0}) CompileError
check_group none = ok tt
check_group (some s) = err (grouped_query_preferred s.id)

abbrev pub check_iterable :
    KnowledgeCatalog → String → Option String → Option String → Result (Unit {0}) CompileError
check_iterable catalog slot (some dataset_id) (some shape_id) =
    ok_or invalid_proposal (find_dataset catalog dataset_id) >>= λ dataset.
    check_group (find (is_grouped_by slot) dataset.shapes) >>= λ _.
    reject_if (not (is_some (shape dataset shape_id)) || not (any takes_list dataset.filters))
      invalid_proposal
check_iterable catalog slot _ _ = err invalid_proposal

abbrev pub iter_name : NodeId → ℕ → String
iter_name id index = append (append id.name "_iter_") (decimal index)

-- The ids of as many copies, from an index on
abbrev pub sibling_ids : NodeId → ℕ → ℕ → Result (List NodeId) CompileError
sibling_ids id index zero = ok []
sibling_ids id index (suc count) = node_id (iter_name id index) >>= λ sibling.
    sibling_ids id (index + 1) count >>= λ rest. ok (sibling ∷ rest)

abbrev pub without_iteration : NodeKind → NodeKind
without_iteration (execute_query exec) = execute_query (record exec { iterate_over = none })
without_iteration kind = kind

abbrev pub sibling_node : WorkflowNode → NodeId → WorkflowNode
sibling_node node id = record node { id = id; kind = without_iteration node.kind }

-- What a node adds to `expanded` and to `replacements`
pub record Expansion : Type 0 where
  pub expanded : List WorkflowNode
  pub replacements : List (NodeId × List NodeId)

abbrev pub exceeds : IterateOver → WorkflowBudgets → Bool
exceeds iterate budgets = nat_beq iterate.max 0 || ltb budgets.max_query_count iterate.max

-- The two cases of the loop's body
abbrev pub expand_as :
    WorkflowBudgets
    → KnowledgeCatalog
    → WorkflowNode
    → Option (ExecuteQueryNode × IterateOver)
    → Result Expansion CompileError
expand_as budgets catalog node none = ok (record { expanded = node ∷ []; replacements = [] })
expand_as budgets catalog node (some (exec, iterate)) =
    reject_if (exceeds iterate budgets) budget_exceeded >>= λ _.
    check_iterable catalog iterate.slot exec.dataset_id exec.shape_id >>= λ _.
    sibling_ids node.id 0 iterate.max >>= λ siblings. ok (record {
      expanded = map (sibling_node node) siblings;
      replacements = (node.id, siblings) ∷ [];
    })

-- The body of the loop over the nodes
unfoldable pub expand_node :
    WorkflowBudgets → KnowledgeCatalog → WorkflowNode → Result Expansion CompileError
unfolding shape new_node_id decimal
expand_node budgets catalog node = expand_as budgets catalog node (iterates node.kind)

abbrev pub expand_nodes :
    WorkflowBudgets → KnowledgeCatalog → List WorkflowNode → Result Expansion CompileError
expand_nodes budgets catalog [] = ok (record { expanded = []; replacements = [] })
expand_nodes budgets catalog (node ∷ nodes) = expand_node budgets catalog node >>= λ first.
    expand_nodes budgets catalog nodes >>= λ rest. ok (record {
      expanded = first.expanded ++ rest.expanded;
      replacements = first.replacements ++ rest.replacements;
    })

abbrev pub replaced_by : NodeId → Option (NodeId × List NodeId) → List NodeId
replaced_by id none = id ∷ []
replaced_by id (some r) = r.1

-- `replacements.get(id)`, or the id itself; a later insertion overwrites an earlier one.
unfoldable pub replaced : List (NodeId × List NodeId) → NodeId → List NodeId
replaced replacements id =
    replaced_by id (find_last (λ (r : NodeId × List NodeId). r.0 == id) replacements)

abbrev pub expand_edge : List (NodeId × List NodeId) → WorkflowEdge → List WorkflowEdge
expand_edge replacements edge = concat (
    map (λ from. map (λ to. record edge { from = from; to = to }) (replaced replacements edge.to))
      (replaced replacements edge.from))

abbrev pub finish_expansion : ExecutionWorkflow → Expansion → Result ExecutionWorkflow CompileError
finish_expansion workflow e =
    if is_empty e.replacements
    then ok (record workflow { nodes = e.expanded })
    else if ltb workflow.budgets.max_query_count
        (wrapping_sum 16 (λ (node : WorkflowNode). node.budget.query_cost) e.expanded)
    then err budget_exceeded
    else ok (record workflow {
      nodes = e.expanded;
      edges = concat (map (expand_edge e.replacements) workflow.edges);
    })

unfoldable pub expand_iteration :
    ExecutionWorkflow → KnowledgeCatalog → Result ExecutionWorkflow CompileError
unfolding expand_node replaced
expand_iteration workflow catalog =
    expand_nodes workflow.budgets catalog workflow.nodes >>= λ e. finish_expansion workflow e
