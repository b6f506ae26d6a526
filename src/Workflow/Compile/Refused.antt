-- ===== src/Workflow/Compile/Refused.antt =====
-- Compiled workflows that the verifier never accepts.
use fineract_ai_reports.Prelude.{
  Bool-cases, string_eq, nat_eq, any, ◌∈◌, any-mem, err, Result-cases, int_eq, ◌≡◌, refl, inl, inr,
  true, false, not, none, List, ltb, Option-cases, ◌==◌, ==→≡, is_empty, concat, All-mem,
  mem-append_left, mem-append_right, ok, >>=-eq-ok, ℕ, ◌≢◌, some, [], ◌∷◌, ◌++◌, map,
}
use fineract_ai_reports.Knowledge.{
  parameter_type_eq, operator_eq, KnowledgeCatalog, probe, ShapeOption, DatasetKnowledge, shape,
}
use fineract_ai_reports.Policy.{PrincipalContext}
use fineract_ai_reports.Workflow.Contract.{
  NodeId, node_id_eq, NodeKind, resolve_entity, execute_query, cardinality_branch,
  clarification_interrupt, compose_result, complete, ExecutionWorkflow, WorkflowBudgets,
  ResolveEntityNode, WorkflowNode,
}
use fineract_ai_reports.Workflow.Budget.{node_of}
use fineract_ai_reports.Workflow.Verify.{
  VerifyError, WorkflowGraph, is_some, find_dataset, verify_node_resources,
}
use fineract_ai_reports.Workflow.Verify.Nodes.{referenced_nodes}
use fineract_ai_reports.Workflow.Verify.Whole.{verify, wrapping_sum}
use fineract_ai_reports.Workflow.Verify.Accepts.{}
use fineract_ai_reports.Workflow.Verify.Sound.{IsVerified, verify-IsVerified}
use fineract_ai_reports.Workflow.Compile.{}
use fineract_ai_reports.Workflow.Compile.Proposal.{check_kind}
use fineract_ai_reports.Workflow.Compile.Iteration.{
  iterates, iter_name, Expansion, expand_node, expand_nodes, expand_edge, finish_expansion,
  expand_iteration,
}
use fineract_ai_reports.Workflow.Compile.Images.{IsImage, kept, copied}
use fineract_ai_reports.Workflow.Compile.Expanded.{
  IsExpansion, expand_iteration-IsExpansion, find_last-some,
}

module _ (build : ExecutionWorkflow → WorkflowGraph) (principal : PrincipalContext) where
  -- A workflow that cannot be accepted is refused with some error.
  refused_unless :
      (workflow : ExecutionWorkflow) (catalog : KnowledgeCatalog)
      → (IsVerified workflow principal catalog (build workflow) → true ≡ false)
      → (e : VerifyError) × (verify build workflow principal catalog ≡ err e)
  refused_unless workflow catalog impossible =
      elim (Result-cases (verify build workflow principal catalog)) [
        | inr refused ↦ refused
        | inl (v, accepted) ↦
            cc (impossible (verify-IsVerified build workflow principal catalog v accepted).1)
      ]

referred_known :
    (workflow : ExecutionWorkflow) (ids : List NodeId) (id : NodeId)
    → any (λ i. not (is_some (node_of workflow i))) ids ≡ false
    → id ∈ ids
    → is_some (node_of workflow id) ≡ true
referred_known workflow ids id h m = elim (Bool-cases (is_some (node_of workflow id))) [
  | inl t ↦ t
  | inr f ↦ cc (h, any-mem (λ i. not (is_some (node_of workflow i))) ids (rw f refl) m)
]

refers→keeps : (kind : NodeKind) (id : NodeId) → id ∈ referenced_nodes kind → iterates kind ≡ none
refers→keeps (execute_query exec) id m = absurd m
refers→keeps (resolve_entity r) id m = refl
refers→keeps (cardinality_branch b) id m = refl
refers→keeps (clarification_interrupt c) id m = refl
refers→keeps (compose_result c) id m = refl
refers→keeps (complete c) id m = refl

expand_nodes-keeps :
    (budgets : WorkflowBudgets) (catalog : KnowledgeCatalog) (nodes : List WorkflowNode)
    (e : Expansion) (c : WorkflowNode)
    → expand_nodes budgets catalog nodes ≡ ok e
    → c ∈ nodes
    → iterates c.kind ≡ none
    → c ∈ e.expanded
unfolding expand_node
expand_nodes-keeps budgets catalog [] e c h m alone = absurd m
expand_nodes-keeps budgets catalog (n ∷ ns) e c h m alone =
    let (first, f, g) = >>=-eq-ok (expand_node budgets catalog n) _ h in
    let (rest, k, l) = >>=-eq-ok (expand_nodes budgets catalog ns) _ g in
    let same : record {
      expanded = first.expanded ++ rest.expanded;
      replacements = first.replacements ++ rest.replacements;
    }
        ≡ e =
      cc l in
    rw (← same) (elim m [
      | inr later ↦
          mem-append_right c first.expanded rest.expanded
            (expand_nodes-keeps budgets catalog ns rest c k later alone)
      | inl here ↦
          let kept_first : record { expanded = n ∷ []; replacements = [] } ≡ first =
            cc (rw (← here, alone) at f) in
          mem-append_left c first.expanded rest.expanded (rw (← kept_first) (inl here))
    ])

finish_expansion-nodes :
    (workflow expanded : ExecutionWorkflow) (e : Expansion)
    → finish_expansion workflow e ≡ ok expanded
    → e.expanded ≡ expanded.nodes
finish_expansion-nodes workflow expanded e h = elim (Bool-cases (is_empty e.replacements)) [
  | inl unchanged ↦
      let same : record workflow { nodes = e.expanded } ≡ expanded = cc (rw unchanged at h) in
      rw (← same) refl
  | inr changed ↦
      elim (Bool-cases (
        ltb workflow.budgets.max_query_count
          (wrapping_sum 16 (λ (node : WorkflowNode). node.budget.query_cost) e.expanded))) [
            | inl dear ↦ cc (rw (changed, dear) at h)
            | inr affordable ↦
                let same : record workflow {
                  nodes = e.expanded;
                  edges = concat (map (expand_edge e.replacements) workflow.edges);
                }
                    ≡ expanded =
                  cc (rw (changed, affordable) at h) in
                rw (← same) refl
          ]
]

expand_iteration-keeps :
    (workflow expanded : ExecutionWorkflow) (catalog : KnowledgeCatalog) (c : WorkflowNode)
    → expand_iteration workflow catalog ≡ ok expanded
    → c ∈ workflow.nodes
    → iterates c.kind ≡ none
    → c ∈ expanded.nodes
unfolding expand_iteration
expand_iteration-keeps workflow expanded catalog c h m alone =
    let (e, f, g) = >>=-eq-ok (expand_nodes workflow.budgets catalog workflow.nodes) _ h in
    rw (← finish_expansion-nodes workflow expanded e g)
      (expand_nodes-keeps workflow.budgets catalog workflow.nodes e c f m alone)

no_image :
    (o n m : WorkflowNode)
    → IsImage o m
    → m.id ≡ n.id
    → (o.id ≡ n.id → iterates o.kind ≢ none)
    → ((k : ℕ) → n.id.name ≢ iter_name o.id k)
    → true ≡ false
no_image o n m (kept alone same) e unique fresh = absurd (unique (rw same at e) alone)
no_image o n m (copied id c same) e unique fresh =
    let e' : id ≡ n.id = rw same at e in absurd (fresh c.index (rw e' at c.named))

-- A node of the expanded workflow has the id of a node that does not iterate, or that of a copy.
image_id :
    (workflow expanded : ExecutionWorkflow) (n m : WorkflowNode)
    → IsExpansion workflow expanded
    → m ∈ expanded.nodes
    → m.id ≡ n.id
    → ((o : WorkflowNode) → o ∈ workflow.nodes → o.id ≡ n.id → iterates o.kind ≢ none)
    → ((o : WorkflowNode) (k : ℕ) → o ∈ workflow.nodes → n.id.name ≢ iter_name o.id k)
    → true ≡ false
image_id workflow expanded n m x known same unique fresh =
    let (o, k, image) = All-mem _ expanded.nodes x.images known in
    no_image o n m image same (unique o k) (λ j. fresh o j k)

-- A workflow in which some node refers to a node that iterates is expanded to one that the verifier
-- refuses: the copies have other ids, and the reference keeps the old one. (No other node has that
-- id, and it does not read like the id of a copy.)
pub verify-expand_iteration :
    (build : ExecutionWorkflow → WorkflowGraph) (principal : PrincipalContext)
    (catalog : KnowledgeCatalog) (workflow expanded : ExecutionWorkflow) (n c : WorkflowNode)
    → expand_iteration workflow catalog ≡ ok expanded
    → c ∈ workflow.nodes
    → n.id ∈ referenced_nodes c.kind
    → ((o : WorkflowNode) → o ∈ workflow.nodes → o.id ≡ n.id → iterates o.kind ≢ none)
    → ((o : WorkflowNode) (k : ℕ) → o ∈ workflow.nodes → n.id.name ≢ iter_name o.id k)
    → (e : VerifyError) × (verify build expanded principal catalog ≡ err e)
verify-expand_iteration build principal catalog workflow expanded n c h m refers unique fresh =
    refused_unless build principal expanded catalog λ accepted.
      let kept =
        expand_iteration-keeps workflow expanded catalog c h m (refers→keeps c.kind n.id refers) in
      let known =
        referred_known expanded (referenced_nodes c.kind) n.id (accepted.nodes c kept).refers
          refers in
      elim (Option-cases (node_of expanded n.id)) [
        | inl missing ↦ cc (rw missing at known)
        | inr (o, found) ↦
            let (same, there) =
              find_last-some (λ (o : WorkflowNode). o.id == n.id) expanded.nodes found in
            image_id workflow expanded n o
              (expand_iteration-IsExpansion workflow expanded catalog h) there (==→≡ o.id n.id same)
              unique fresh
      ]

-- A node that resolves an entity by a probe shape passes the check of a proposal's resources, and
-- is refused by the verifier in whatever workflow it stands: the compiler admits resolvers and
-- probes, the verifier resolvers only.
pub verify-check_kind :
    (build : ExecutionWorkflow → WorkflowGraph) (principal : PrincipalContext)
    (catalog : KnowledgeCatalog) (workflow : ExecutionWorkflow) (node : WorkflowNode)
    (resolve : ResolveEntityNode) (dataset : DatasetKnowledge) (s : ShapeOption)
    → node ∈ workflow.nodes
    → node.kind ≡ resolve_entity resolve
    → find_dataset catalog resolve.dataset_id ≡ some dataset
    → shape dataset resolve.resolver_shape_id ≡ some s
    → s.role ≡ probe
    → (check_kind catalog node.kind ≡ ok tt)
      × ((e : VerifyError) × (verify build workflow principal catalog ≡ err e))
unfolding check_kind verify_node_resources
verify-check_kind build principal catalog workflow node resolve dataset s m kind found known role =
    (
      rw (kind, found, known, role) refl,
      refused_unless build principal workflow catalog λ accepted.
          let resources = (accepted.nodes node m).resources in
          cc (rw (kind, found, known, role) at resources),
    )
