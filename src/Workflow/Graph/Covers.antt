-- ===== src/Workflow/Graph/Covers.antt =====
-- The verifier over the graph of graph.rs: what its entry leads to in an accepted workflow.
use fineract_ai_reports.Prelude.{
  string_eq, nat_eq, length, ◌∈◌, ok, int_eq, ℕ, ◌≡◌, sym, ap, ◌∙◌, subst, inl, inr, false, some,
  List, [], ◌∷◌, map, arith,
}
use fineract_ai_reports.Workflow.Contract.{
  NodeId, node_id_eq, WorkflowEdge, WorkflowNode, ExecutionWorkflow,
}
use fineract_ai_reports.Knowledge.{parameter_type_eq, operator_eq, KnowledgeCatalog}
use fineract_ai_reports.Policy.{PrincipalContext}
use fineract_ai_reports.Workflow.Verify.{}
use fineract_ai_reports.Workflow.Verify.Whole.{ids_of, misses_node, VerifiedWorkflow, verify}
use fineract_ai_reports.Workflow.Verify.Sound.{verify-IsVerified}
use fineract_ai_reports.Workflow.Verify.Accepts.{}
use fineract_ai_reports.Workflow.Graph.{
  Walk, here, step, DiGraph, index_edges, size_of, id_at, ids_at, or_empty, reachable_indices,
  reachable_from, graph_of,
}
use fineract_ai_reports.Workflow.Graph.Ends.{List-cases}
use fineract_ai_reports.Workflow.Graph.Ids.{
  position_from-id, mem-id_at, ids_of-length, edge-index_edges,
}
use fineract_ai_reports.Workflow.Graph.Once.{AllOnce, distinct-AllOnce, AllOnce-fills}
use fineract_ai_reports.Workflow.Graph.Exact.{reachable_from-exact, WalksTo}

-- A path along the edges of the workflow, from the node of an id
pub data Follows (workflow : ExecutionWorkflow) (entry : NodeId) : NodeId → Type 0 where
  at_entry : Follows workflow entry entry
  along :
      (edge : WorkflowEdge)
      → Follows workflow entry edge.from
      → edge ∈ workflow.edges
      → Follows workflow entry edge.to

module _ (workflow : ExecutionWorkflow) where
  walk→Follows :
      {start end : ℕ} (entry id : NodeId)
      → id_at (ids_of workflow) start ≡ some entry
      → id_at (ids_of workflow) end ≡ some id
      → Walk (index_edges workflow) start end
      → Follows workflow entry id
  walk→Follows entry id entry_at id_at here =
      let both : some entry ≡ some id = sym entry_at ∙ id_at in
      let same : entry ≡ id = cc in subst (λ x. Follows workflow entry x) same at_entry
  walk→Follows entry id entry_at id_at (step j walk m) =
      let (edge, in_edges, i_small, j_small, i_at, j_at) = edge-index_edges workflow m in
      let both : some edge.to ≡ some id = sym j_at ∙ id_at in
      let same : edge.to ≡ id = cc in
      subst (λ x. Follows workflow entry x) same
        (along edge (walk→Follows entry edge.from entry_at i_at walk) in_edges)

  WalksTo-Follows : (entry id : NodeId) → WalksTo workflow entry id → Follows workflow entry id
  WalksTo-Follows entry id w =
      let (small, entry_at) = position_from-id (ids_of workflow) entry w.entry_known in
      walk→Follows entry id entry_at w.id_known w.walk

  mem-ids_of :
      (nodes : List WorkflowNode) (node : WorkflowNode)
      → node ∈ nodes
      → node.id ∈ map (λ (x : WorkflowNode). x.id) nodes
  mem-ids_of [] node m = absurd m
  mem-ids_of (x ∷ nodes) node (inl e) = inl (ap (λ (y : WorkflowNode). y.id) e)
  mem-ids_of (x ∷ nodes) node (inr m) = inr (mem-ids_of nodes node m)

  module _ (g : DiGraph (size_of workflow) (index_edges workflow)) where
    reachable_from-within :
        (entry id : NodeId) → id ∈ reachable_from workflow g entry → id ∈ ids_of workflow
    reachable_from-within entry id m =
        let w = (reachable_from-exact workflow g entry id).0 m in
        mem-id_at (ids_of workflow) w.end w.id_known

    reachable_from-AllOnce : (entry : NodeId) → AllOnce (reachable_from workflow g entry)
    unfolding reachable_from
    reachable_from-AllOnce entry =
        distinct-AllOnce (ids_at (ids_of workflow) (or_empty (reachable_indices workflow g entry)))

    -- What the third guard of `verify` asks is enough for a path to every node.
    full-Follows :
        (entry : NodeId) (node : WorkflowNode)
        → length (reachable_from workflow g entry) ≡ length workflow.nodes
        → node ∈ workflow.nodes
        → Follows workflow entry node.id
    full-Follows entry node full m =
        let reached =
          AllOnce-fills (reachable_from workflow g entry) (ids_of workflow)
            (reachable_from-AllOnce entry) (reachable_from-within entry)
            (full ∙ sym (ids_of-length workflow)) node.id (mem-ids_of workflow.nodes node m) in
        WalksTo-Follows entry node.id ((reachable_from-exact workflow g entry node.id).0 reached)

-- What acceptance says of the shape of the workflow
pub record IsConnected (workflow : ExecutionWorkflow) : Type 0 where
  pub entry : NodeId
  pub leads : (node : WorkflowNode) → node ∈ workflow.nodes → Follows workflow entry node.id

-- When `verify` accepts a workflow with the graph that graph.rs builds for it, paths along the
-- workflow's edges lead from one node, the entry, to every node.
pub verify-IsConnected :
    (graphs : (workflow : ExecutionWorkflow) → DiGraph (size_of workflow) (index_edges workflow))
    (workflow : ExecutionWorkflow) (principal : PrincipalContext) (catalog : KnowledgeCatalog)
    (v : VerifiedWorkflow)
    → verify (λ w. graph_of w (graphs w)) workflow principal catalog ≡ ok v
    → IsConnected workflow
unfolding graph_of
verify-IsConnected graphs workflow principal catalog v h =
    let g = graphs workflow in
    let build = λ (w : ExecutionWorkflow). graph_of w (graphs w) in
    let verified = (verify-IsVerified build workflow principal catalog v h).1 in
    let entries = (build workflow).entry_nodes in
    elim (List-cases entries) [
      | inl empty ↦ absurd (omega (arith, verified.one_entry, ap length empty))
      | inr (entry, rest, e) ↦
          let reaches =
            subst (λ xs. misses_node (build workflow) workflow xs ≡ false) e verified.reaches in
          let full : length (reachable_from workflow g entry) ≡ length workflow.nodes =
            ground (arith, reaches) in
          record { entry = entry; leads = λ node m. full-Follows workflow g entry node full m }
    ]
