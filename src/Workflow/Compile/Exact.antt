-- ===== src/Workflow/Compile/Exact.antt =====
-- The expansion of iterations without its errors: which nodes and edges it puts in place of which.
use fineract_ai_reports.Prelude.{
  Option-cases, ◌==◌, string_eq, nat_eq, is_empty, find_last, concat, ok, >>=-eq-ok, int_eq, ℕ,
  zero, suc, ◌+◌, String, ◌≡◌, refl, sym, ap, ◌∙◌, inl, inr, Bool, true, ◌&&◌, Option, none, some,
  List, [], ◌∷◌, ◌++◌, map, ltb, Bool-cases,
}
use fineract_ai_reports.Knowledge.{parameter_type_eq, operator_eq, zero, KnowledgeCatalog}
use fineract_ai_reports.Workflow.Contract.{
  NodeId, node_id_eq, WorkflowBudgets, IterateOver, ExecuteQueryNode, WorkflowEdge, WorkflowNode,
  ExecutionWorkflow,
}
use fineract_ai_reports.Workflow.Verify.{budget_exceeded, is_some, reject_if}
use fineract_ai_reports.Workflow.Verify.Whole.{wrapping_sum}
use fineract_ai_reports.Workflow.Compile.{budget_exceeded, node_id}
use fineract_ai_reports.Workflow.Compile.Iteration.{
  iterates, check_iterable, iter_name, sibling_ids, sibling_node, Expansion, exceeds, expand_node,
  expand_nodes, replaced_by, replaced, expand_edge, finish_expansion, expand_iteration,
}
use fineract_ai_reports.Workflow.Compile.Images.{node_id-name, copies}

abbrev numbers_from : ℕ → ℕ → List ℕ
numbers_from first zero = []
numbers_from first (suc count) = first ∷ numbers_from (first + 1) count

abbrev copy_id : NodeId → ℕ → NodeId
copy_id id index = record { name = iter_name id index }

-- The ids `<id>_iter_0`, `<id>_iter_1` and so on, as many as `count`
abbrev copy_ids : NodeId → ℕ → List NodeId
copy_ids id count = map (copy_id id) (numbers_from 0 count)

abbrev images_as : WorkflowNode → Option (ExecuteQueryNode × IterateOver) → List WorkflowNode
images_as n none = n ∷ []
images_as n (some (exec, iterate)) = map (sibling_node n) (copy_ids n.id iterate.max)

-- The nodes in place of a node
abbrev pub images : WorkflowNode → List WorkflowNode
images n = images_as n (iterates n.kind)

abbrev ends_of : NodeId → Option WorkflowNode → List NodeId
ends_of id none = id ∷ []
ends_of id (some n) = copy_ids n.id (copies n)

abbrev iterates_as : NodeId → WorkflowNode → Bool
iterates_as id n = (n.id == id) && is_some (iterates n.kind)

-- The ids in place of an end of an edge: of the last node under that id that iterates, all copies
abbrev pub ends : List WorkflowNode → NodeId → List NodeId
ends nodes id = ends_of id (find_last (iterates_as id) nodes)

-- The edges in place of an edge: from every id for its source to every id for its target
abbrev pub edge_images : List WorkflowNode → WorkflowEdge → List WorkflowEdge
edge_images nodes edge = concat (
    map (λ from. map (λ to. record edge { from = from; to = to }) (ends nodes edge.to))
      (ends nodes edge.from))

-- The expanded workflow
abbrev pub expansion_of : ExecutionWorkflow → ExecutionWorkflow
expansion_of workflow = record workflow {
  nodes = concat (map images workflow.nodes);
  edges = concat (map (edge_images workflow.nodes) workflow.edges);
}

sibling_ids-copies :
    (id : NodeId) (index count : ℕ) (ids : List NodeId)
    → sibling_ids id index count ≡ ok ids
    → ids ≡ map (copy_id id) (numbers_from index count)
sibling_ids-copies id index zero ids h = cc
sibling_ids-copies id index (suc count) ids h =
    let (s, e, f) = >>=-eq-ok (node_id (iter_name id index)) _ h in
    let (rest, g, k) = >>=-eq-ok (sibling_ids id (index + 1) count) _ f in
    let same : s ∷ rest ≡ ids = cc k in
    let first : s ≡ copy_id id index =
      ap (λ (x : String). record { name = x }) (node_id-name (iter_name id index) s e) in
    sym same
    ∙ ap (λ x. x ∷ rest) first
    ∙ ap (λ xs. copy_id id index ∷ xs) (sibling_ids-copies id (index + 1) count rest g)

abbrev replacement_as :
    NodeId → Option (ExecuteQueryNode × IterateOver) → List (NodeId × List NodeId)
replacement_as id none = []
replacement_as id (some (exec, iterate)) = (id, copy_ids id iterate.max) ∷ []

abbrev replacement : WorkflowNode → List (NodeId × List NodeId)
replacement n = replacement_as n.id (iterates n.kind)

abbrev IsExact : List WorkflowNode → Expansion → Type 0
IsExact nodes e =
    (e.expanded ≡ concat (map images nodes)) × (e.replacements ≡ concat (map replacement nodes))

expand_node-exact :
    (budgets : WorkflowBudgets) (catalog : KnowledgeCatalog) (n : WorkflowNode) (e : Expansion)
    → expand_node budgets catalog n ≡ ok e
    → (e.expanded ≡ images n) × (e.replacements ≡ replacement n)
unfolding expand_node
expand_node-exact budgets catalog n e h = elim (Option-cases (iterates n.kind)) [
  | inl alone ↦
      let same : record { expanded = n ∷ []; replacements = [] } ≡ e = cc (rw alone at h) in
      rw (← same, alone) (refl, refl)
  | inr ((exec, iterate), multiple) ↦
      let (u, f, g) =
        >>=-eq-ok (reject_if (exceeds iterate budgets) budget_exceeded) _ (rw multiple at h) in
      let (v, k, l) =
        >>=-eq-ok (check_iterable catalog iterate.slot exec.dataset_id exec.shape_id) _ g in
      let (siblings, m, o) = >>=-eq-ok (sibling_ids n.id 0 iterate.max) _ l in
      let ids = sibling_ids-copies n.id 0 iterate.max siblings m in
      let same : record {
        expanded = map (sibling_node n) siblings;
        replacements = (n.id, siblings) ∷ [];
      }
          ≡ e =
        cc o in
      rw (← same, multiple, ids) (refl, refl)
]

expand_nodes-IsExact :
    (budgets : WorkflowBudgets) (catalog : KnowledgeCatalog) (nodes : List WorkflowNode)
    (e : Expansion)
    → expand_nodes budgets catalog nodes ≡ ok e
    → IsExact nodes e
expand_nodes-IsExact budgets catalog [] e h =
    let same : record { expanded = []; replacements = [] } ≡ e = cc in rw (← same) (refl, refl)
expand_nodes-IsExact budgets catalog (n ∷ ns) e h =
    let (first, f, g) = >>=-eq-ok (expand_node budgets catalog n) _ h in
    let (rest, k, l) = >>=-eq-ok (expand_nodes budgets catalog ns) _ g in
    let (a, b) = expand_node-exact budgets catalog n first f in
    let (c, d) = expand_nodes-IsExact budgets catalog ns rest k in
    let same : record {
      expanded = first.expanded ++ rest.expanded;
      replacements = first.replacements ++ rest.replacements;
    }
        ≡ e =
      cc l in
    rw (← same, a, b, c, d) (refl, refl)

abbrev replacement_of : Option WorkflowNode → Option (NodeId × List NodeId)
replacement_of none = none
replacement_of (some n) = some (n.id, copy_ids n.id (copies n))

find_last-replacement :
    (id : NodeId) (nodes : List WorkflowNode)
    → find_last (λ (r : NodeId × List NodeId). r.0 == id) (concat (map replacement nodes))
      ≡ replacement_of (find_last (iterates_as id) nodes)
find_last-replacement id [] = refl
find_last-replacement id (n ∷ ns) =
    let rest = find_last-replacement id ns in
    elim (Option-cases (find_last (iterates_as id) ns)) [
      | inr (m, later) ↦ elim (Option-cases (iterates n.kind)) [
        | inl alone ↦ rw (alone, rest, later) refl
        | inr (i, multiple) ↦ rw (multiple, rest, later) refl
      ]
      | inl last ↦ elim (Option-cases (iterates n.kind)) [
        | inl alone ↦ elim (Bool-cases (n.id == id)) [
          | inl named ↦ rw (alone, rest, last, named, alone) refl
          | inr other ↦ rw (alone, rest, last, other) refl
        ]
        | inr (i, multiple) ↦ elim (Bool-cases (n.id == id)) [
          | inl named ↦ rw (multiple, rest, last, named, multiple, multiple) refl
          | inr other ↦ rw (multiple, rest, last, other) refl
        ]
      ]
    ]

replaced_by-replacement :
    (id : NodeId) (found : Option WorkflowNode)
    → replaced_by id (replacement_of found) ≡ ends_of id found
replaced_by-replacement id none = refl
replaced_by-replacement id (some n) = refl

replaced-ends :
    (id : NodeId) (nodes : List WorkflowNode)
    → replaced (concat (map replacement nodes)) id ≡ ends nodes id
unfolding replaced
replaced-ends id nodes =
    ap (replaced_by id) (find_last-replacement id nodes)
    ∙ replaced_by-replacement id (find_last (iterates_as id) nodes)

expand_edge-images :
    (nodes : List WorkflowNode) (edge : WorkflowEdge)
    → expand_edge (concat (map replacement nodes)) edge ≡ edge_images nodes edge
expand_edge-images nodes edge = rw (replaced-ends edge.from nodes, replaced-ends edge.to nodes) refl

edge_images-alone :
    (nodes : List WorkflowNode) (edge : WorkflowEdge)
    → concat (map replacement nodes) ≡ []
    → edge_images nodes edge ≡ edge ∷ []
unfolding replaced
edge_images-alone nodes edge none_replaced =
    sym (expand_edge-images nodes edge) ∙ ap (λ rs. expand_edge rs edge) none_replaced

map_ext : {A B : Type 0} (f g : A → B) (xs : List A) → ((a : A) → f a ≡ g a) → map f xs ≡ map g xs
map_ext f g [] h = refl
map_ext f g (x ∷ xs) h = rw (h x, map_ext f g xs h) refl

concat-alone : (edges : List WorkflowEdge) → concat (map (λ e. e ∷ []) edges) ≡ edges
concat-alone [] = refl
concat-alone (e ∷ es) = ap (λ rest. e ∷ rest) (concat-alone es)

is_empty-nil : {A : Type 0} (xs : List A) → is_empty xs ≡ true → xs ≡ []
is_empty-nil [] h = refl
is_empty-nil (x ∷ xs) h = cc

finish_expansion-exact :
    (workflow expanded : ExecutionWorkflow) (e : Expansion)
    → IsExact workflow.nodes e
    → finish_expansion workflow e ≡ ok expanded
    → expanded ≡ expansion_of workflow
finish_expansion-exact workflow expanded e (nodes, replacements) h =
    elim (Bool-cases (is_empty e.replacements)) [
      | inl unchanged ↦
          let same : record workflow { nodes = e.expanded } ≡ expanded = cc (rw unchanged at h) in
          let bare : concat (map replacement workflow.nodes) ≡ [] =
            sym replacements ∙ is_empty-nil e.replacements unchanged in
          let edges : concat (map (edge_images workflow.nodes) workflow.edges) ≡ workflow.edges =
            ap concat (
              map_ext (edge_images workflow.nodes) (λ edge. edge ∷ []) workflow.edges
                (λ edge. edge_images-alone workflow.nodes edge bare))
            ∙ concat-alone workflow.edges in
          rw (← same, nodes, edges) refl
      | inr changed ↦
          elim (Bool-cases (
            ltb workflow.budgets.max_query_count
              (wrapping_sum 16 (λ (node : WorkflowNode). node.budget.query_cost) e.expanded))) [
                | inl dear ↦ cc (rw (changed, dear) at h)
                | inr affordable ↦
                    let same : record workflow {
                      nodes = e.expanded;
                      edges = concat (map (expand_edge e.replacements) workflow.edges);
                    }
                        ≡ expanded =
                      cc (rw (changed, affordable) at h) in
                    let edges : map (expand_edge e.replacements) workflow.edges
                        ≡ map (edge_images workflow.nodes) workflow.edges =
                      map_ext (expand_edge e.replacements) (edge_images workflow.nodes)
                        workflow.edges
                        (λ edge.
                          ap (λ rs. expand_edge rs edge) replacements
                          ∙ expand_edge-images workflow.nodes edge) in
                    rw (← same, nodes, edges) refl
              ]
    ]

pub expand_iteration-exact :
    (workflow expanded : ExecutionWorkflow) (catalog : KnowledgeCatalog)
    → expand_iteration workflow catalog ≡ ok expanded
    → expanded ≡ expansion_of workflow
unfolding expand_iteration
expand_iteration-exact workflow expanded catalog h =
    let (e, f, g) = >>=-eq-ok (expand_nodes workflow.budgets catalog workflow.nodes) _ h in
    finish_expansion-exact workflow expanded e
      (expand_nodes-IsExact workflow.budgets catalog workflow.nodes e f) g
