-- ===== src/Workflow/Compile/Expanded.antt =====
-- What an expanded workflow is made of.
use fineract_ai_reports.Prelude.{
  Bool-cases, Option-cases, string_eq, nat_eq, find_last, all, All, ◌∈◌, concat, mem-append, int_eq,
  ◌≡◌, refl, sym, ◌⊎◌, inl, inr, Bool, true, some, List, [], ◌∷◌, map, ◌==◌, ==→≡, length, is_empty,
  All-mem, All-weaken, ok, >>=-eq-ok, ◌∙◌, none, ltb, subst,
}
use fineract_ai_reports.Knowledge.{parameter_type_eq, operator_eq, KnowledgeCatalog}
use fineract_ai_reports.Workflow.Contract.{
  NodeId, node_id_eq, WorkflowEdge, WorkflowNode, ExecutionWorkflow, NodeKind, resolve_entity,
  execute_query, cardinality_branch, clarification_interrupt, compose_result, complete,
}
use fineract_ai_reports.Workflow.Verify.Whole.{wrapping_sum}
use fineract_ai_reports.Workflow.Compile.{}
use fineract_ai_reports.Workflow.Compile.Iteration.{
  replaced, expand_edge, iterates, without_iteration, Expansion, expand_nodes, finish_expansion,
  expand_iteration,
}
use fineract_ai_reports.Workflow.Compile.Exact.{expansion_of, expand_iteration-exact}
use fineract_ai_reports.Workflow.Compile.Images.{
  IsCopyId, Replaces, IsImage, kept, copied, copies, total_copies, Expands, expand_nodes-Expands,
}

pub find_last-some :
    {A : Type 0} (p : A → Bool) (xs : List A) {a : A}
    → find_last p xs ≡ some a
    → (p a ≡ true) × (a ∈ xs)
find_last-some p [] h = cc
find_last-some p (x ∷ xs) {a} h = elim (Option-cases (find_last p xs)) [
  | inr (b, found) ↦
      let same : b ≡ a = cc (rw found at h) in
      let rest = find_last-some p xs found in
      (rw (← same) rest.0, inr (subst (λ c. c ∈ xs) same rest.1))
  | inl missing ↦ elim (Bool-cases (p x)) [
    | inl t ↦ let same : x ≡ a = cc (rw (missing, t) at h) in (rw (← same) t, inl (sym same))
    | inr f ↦ cc (rw (missing, f) at h)
  ]
]

mem-map :
    {A B : Type 0} (f : A → B) (xs : List A) (b : B) → b ∈ map f xs → (a : A) × (a ∈ xs) × (b ≡ f a)
mem-map f [] b m = absurd m
mem-map f (x ∷ xs) b (inl e) = (x, inl refl, e)
mem-map f (x ∷ xs) b (inr m) = let (a, k, e) = mem-map f xs b m in (a, inr k, e)

mem-concat_map :
    {A B : Type 0} (f : A → List B) (xs : List A) (b : B)
    → b ∈ concat (map f xs)
    → (a : A) × (a ∈ xs) × (b ∈ f a)
mem-concat_map f [] b m = absurd m
mem-concat_map f (x ∷ xs) b m = elim (mem-append b (f x) (concat (map f xs)) m) [
  | inl k ↦ (x, inl refl, k)
  | inr k ↦ let (a, l, e) = mem-concat_map f xs b k in (a, inr l, e)
]

-- The end of an edge after the expansion: the node that it was, or a copy of it.
abbrev pub IsEnd : List WorkflowNode → NodeId → NodeId → Type 0
IsEnd nodes a b = (b ≡ a) ⊎ ((n : WorkflowNode) × (n ∈ nodes) × (n.id ≡ a) × IsCopyId n b)

pub record IsEdgeImage (workflow : ExecutionWorkflow) (e : WorkflowEdge) : Type 0 where
  pub edge : WorkflowEdge
  pub known : edge ∈ workflow.edges
  pub under : e.condition ≡ edge.condition
  pub leaves : IsEnd workflow.nodes edge.from e.from
  pub enters : IsEnd workflow.nodes edge.to e.to

replaced-IsEnd :
    (nodes : List WorkflowNode) (replacements : List (NodeId × List NodeId)) (a b : NodeId)
    → All (λ r. Replaces nodes r) replacements
    → b ∈ replaced replacements a
    → IsEnd nodes a b
unfolding replaced
replaced-IsEnd nodes replacements a b all m =
    elim (Option-cases (find_last (λ (r : NodeId × List NodeId). r.0 == a) replacements)) [
      | inl none_found ↦
          let alone : b ∈ a ∷ [] = rw none_found at m in
          elim alone [ inl e ↦ inl e | inr k ↦ absurd k ]
      | inr (r, found) ↦
          let (named, known) =
            find_last-some (λ (r : NodeId × List NodeId). r.0 == a) replacements found in
          let (n, k, e, copies) = All-mem (λ r. Replaces nodes r) replacements all known in
          inr (
            n,
            k,
            sym e ∙ ==→≡ r.0 a named,
            All-mem (λ id. IsCopyId n id) r.1 copies (rw found at m),
          )
    ]

expand_edge-IsEdgeImage :
    (workflow : ExecutionWorkflow) (replacements : List (NodeId × List NodeId))
    (edge e : WorkflowEdge)
    → All (λ r. Replaces workflow.nodes r) replacements
    → edge ∈ workflow.edges
    → e ∈ expand_edge replacements edge
    → IsEdgeImage workflow e
expand_edge-IsEdgeImage workflow replacements edge e all known m =
    let (from, f, k) =
      mem-concat_map
        (λ from. map (λ to. record edge { from = from; to = to }) (replaced replacements edge.to))
        (replaced replacements edge.from) e m in
    let (to, t, same) =
      mem-map (λ to. record edge { from = from; to = to }) (replaced replacements edge.to) e k in
    rw same (record {
      edge = edge;
      known = known;
      under = refl;
      leaves = replaced-IsEnd workflow.nodes replacements edge.from from all f;
      enters = replaced-IsEnd workflow.nodes replacements edge.to to all t;
    })

-- What holds of the nodes and edges of an expanded workflow, and that it is the exact expansion
pub record IsExpansion (workflow expanded : ExecutionWorkflow) : Type 0 where
  pub images :
      All
        (λ (m : WorkflowNode). (n : WorkflowNode) × (n ∈ workflow.nodes) × IsImage n m)
        expanded.nodes
  pub iterated : All (λ (m : WorkflowNode). iterates m.kind ≡ none) expanded.nodes
  pub counted : length expanded.nodes ≡ total_copies workflow.nodes
  pub edges : (e : WorkflowEdge) → e ∈ expanded.edges → IsEdgeImage workflow e
  pub budgets : expanded.budgets ≡ workflow.budgets
  pub exact : expanded ≡ expansion_of workflow

without_iteration-none : (kind : NodeKind) → iterates (without_iteration kind) ≡ none
without_iteration-none (execute_query exec) = refl
without_iteration-none (resolve_entity r) = refl
without_iteration-none (cardinality_branch b) = refl
without_iteration-none (clarification_interrupt c) = refl
without_iteration-none (compose_result c) = refl
without_iteration-none (complete c) = refl

IsImage-none : (n m : WorkflowNode) → IsImage n m → iterates m.kind ≡ none
IsImage-none n m (kept alone same) = rw same alone
IsImage-none n m (copied id c same) = rw same (without_iteration-none n.kind)

finish_expansion-IsExpansion :
    (workflow expanded : ExecutionWorkflow) (e : Expansion)
    → Expands workflow.nodes e
    → finish_expansion workflow e ≡ ok expanded
    → expanded ≡ expansion_of workflow
    → IsExpansion workflow expanded
finish_expansion-IsExpansion workflow expanded e x h exact =
    let bare =
      All-weaken
        (λ (m : WorkflowNode) (i : (n : WorkflowNode) × (n ∈ workflow.nodes) × IsImage n m).
          IsImage-none i.0 m i.2)
        e.expanded x.images in
    elim (Bool-cases (is_empty e.replacements)) [
      | inl unchanged ↦
          let same : record workflow { nodes = e.expanded } ≡ expanded = cc (rw unchanged at h) in
          rw (← same) (record {
            images = x.images;
            iterated = bare;
            counted = x.counted;
            edges = λ edge m. record {
              edge = edge;
              known = m;
              under = refl;
              leaves = inl refl;
              enters = inl refl;
            };
            budgets = refl;
            exact = same ∙ exact;
          })
      | inr changed ↦
          elim (Bool-cases (
            ltb workflow.budgets.max_query_count
              (wrapping_sum 16 (λ (node : WorkflowNode). node.budget.query_cost) e.expanded))) [
                | inl dear ↦ cc (rw (changed, dear) at h)
                | inr affordable ↦
                    let same : record workflow {
                      nodes = e.expanded;
                      edges = concat (map (expand_edge e.replacements) workflow.edges);
                    }
                        ≡ expanded =
                      cc (rw (changed, affordable) at h) in
                    rw (← same) (record {
                      images = x.images;
                      iterated = bare;
                      counted = x.counted;
                      edges = λ edge m.
                          let (source, k, l) =
                            mem-concat_map (expand_edge e.replacements) workflow.edges edge m in
                          expand_edge-IsEdgeImage workflow e.replacements source edge x.replacing k
                            l;
                      budgets = refl;
                      exact = same ∙ exact;
                    })
              ]
    ]

-- A workflow is expanded exactly to the one in which each node that iterates is replaced, in its
-- place, by as many copies as it may iterate, under the ids `<id>_iter_0`, `<id>_iter_1` and so on
-- and without the iteration, each other node stays as it is, and each edge is replaced by the edges
-- from every copy of its source to every copy of its target, under the same condition, where the
-- last of several nodes under one id counts, and an id that no iterating node has stays; budgets
-- and all else are the same. So each node of the expanded workflow is such an image of a node of
-- the given one, as many as their copies together, none iterates any more, and each edge joins
-- images of the ends of an edge.
pub expand_iteration-IsExpansion :
    (workflow expanded : ExecutionWorkflow) (catalog : KnowledgeCatalog)
    → expand_iteration workflow catalog ≡ ok expanded
    → IsExpansion workflow expanded
unfolding expand_iteration
expand_iteration-IsExpansion workflow expanded catalog h =
    let (e, f, g) = >>=-eq-ok (expand_nodes workflow.budgets catalog workflow.nodes) _ h in
    let x = expand_nodes-Expands workflow.budgets catalog workflow.nodes e f in
    finish_expansion-IsExpansion workflow expanded e x g
      (expand_iteration-exact workflow expanded catalog h)
