-- ===== src/Workflow/Verify/Sound.antt =====
-- An accepted workflow is well formed, within its budgets and within the principal's permissions.
use fineract_ai_reports.Prelude.{
  Bool-cases, ◌==◌, ==→≡, string_eq, nat_eq, length, any, ◌∈◌, contains, ok, ok_or, ◌>>=◌,
  >>=-eq-ok, int_eq, ℕ, suc, ◌≤◌, ◌≡◌, refl, sym, ap, ◌∙◌, inl, inr, Bool, true, false, List, [],
  ◌∷◌, map, arith,
}
use fineract_ai_reports.Knowledge.{parameter_type_eq, KnowledgeCatalog, operator_eq}
use fineract_ai_reports.Policy.{PrincipalContext}
use fineract_ai_reports.Workflow.Contract.{
  NodeId, node_id_eq, WorkflowEdge, WorkflowNode, ExecutionWorkflow,
}
use fineract_ai_reports.Workflow.Ledger.{WorkflowNodeRun}
use fineract_ai_reports.Workflow.Budget.{BudgetTotals}
use fineract_ai_reports.Workflow.Budget.Limits.{}
use fineract_ai_reports.Workflow.State.{Db, count_where, node_runs}
use fineract_ai_reports.Workflow.Runner.{Answer, RunContext}
use fineract_ai_reports.Workflow.Runner.Node.{}
use fineract_ai_reports.Workflow.Runner.Once.{Reaches, HasUniqueIds, AreOnce, Reaches-AreOnce}
use fineract_ai_reports.Workflow.Verify.{cycle, WorkflowGraph, reject_any}
use fineract_ai_reports.Workflow.Verify.Nodes.{}
use fineract_ai_reports.Workflow.Verify.Whole.{
  distinct, ids_of, misses_node, is_terminal_kind, has_unknown_end, is_malformed, over_budget,
  verify_nodes, VerifiedWorkflow, workflow_guards, verify,
}
use fineract_ai_reports.Workflow.Verify.Accepts.{reject_any-clear, NodeAccepted, verify_nodes-mem}

length-distinct : (ids : List NodeId) → length (distinct ids) ≤ length ids
length-distinct [] = omega arith
length-distinct (id ∷ ids) = ground (arith, length-distinct ids)

count_where-contains :
    (ids : List NodeId) (id : NodeId)
    → contains ids id ≡ false
    → count_where (λ (x : NodeId). x == id) ids ≡ 0
count_where-contains [] id h = refl
count_where-contains (x ∷ ids) id h = ground (arith, count_where-contains ids id)

distinct-count :
    (ids : List NodeId) (id : NodeId)
    → length (distinct ids) ≡ length ids
    → count_where (λ (x : NodeId). x == id) ids ≤ 1
distinct-count [] id h = omega arith
distinct-count (x ∷ ids) id h = elim (Bool-cases (contains ids x)) [
  | inl t ↦
      let h' : length (distinct ids) ≡ suc (length ids) = rw t at h in
      absurd (omega (arith, length-distinct ids))
  | inr f ↦
      let h' : suc (length (distinct ids)) ≡ suc (length ids) = rw f at h in
      let rest = distinct-count ids id (omega arith) in
      elim (Bool-cases (x == id)) [
        | inl e ↦
            let fresh : contains ids id ≡ false = rw (← ==→≡ x id e) f in
            rw e (omega (arith, count_where-contains ids id fresh))
        | inr e ↦ rw e (omega (arith, rest))
      ]
]

count_where-map :
    (nodes : List WorkflowNode) (id : NodeId)
    → count_where (λ (x : NodeId). x == id) (map (λ (node : WorkflowNode). node.id) nodes)
      ≡ count_where (λ (node : WorkflowNode). node.id == id) nodes
count_where-map [] id = refl
count_where-map (node ∷ nodes) id = omega (arith, count_where-map nodes id)

pub length-map :
    (nodes : List WorkflowNode)
    → length (map (λ (node : WorkflowNode). node.id) nodes) ≡ length nodes
length-map [] = refl
length-map (node ∷ nodes) = omega (arith, length-map nodes)

any-all :
    {A : Type 0} (p : A → Bool) (xs : List A) (a : A) → any p xs ≡ false → a ∈ xs → p a ≡ false
any-all p [] a h m = absurd m
any-all p (x ∷ xs) a h (inl e) = rw e (ground arith)
any-all p (x ∷ xs) a h (inr m) = any-all p xs a (ground arith) m

-- What acceptance says of the whole workflow and of each of its nodes.
pub record IsVerified (workflow : ExecutionWorkflow) (principal : PrincipalContext)
    (catalog : KnowledgeCatalog) (graph : WorkflowGraph) : Type 0 where
  pub acyclic : graph.is_cyclic ≡ false
  pub unique : HasUniqueIds workflow.nodes
  pub ends : (edge : WorkflowEdge) → edge ∈ workflow.edges → has_unknown_end workflow edge ≡ false
  pub one_entry : length graph.entry_nodes ≡ 1
  pub reaches : misses_node graph workflow graph.entry_nodes ≡ false
  pub finishes : any (λ (node : WorkflowNode). is_terminal_kind node.kind) workflow.nodes ≡ true
  pub affordable : over_budget graph workflow ≡ false
  pub nodes :
      (node : WorkflowNode) → node ∈ workflow.nodes → NodeAccepted workflow principal catalog node

is_malformed-ends :
    (graph : WorkflowGraph) (workflow : ExecutionWorkflow)
    → is_malformed graph workflow ≡ false
    → (length (distinct (ids_of workflow)) ≡ length workflow.nodes)
      × (any (has_unknown_end workflow) workflow.edges ≡ false)
      × (length graph.entry_nodes ≡ 1)
      × (any (λ (node : WorkflowNode). is_terminal_kind node.kind) workflow.nodes ≡ true)
is_malformed-ends graph workflow h = (ground arith, ground arith, ground arith, ground arith)

-- A workflow that `verify` accepts is the one that was given. Its graph is acyclic and has one
-- entry, from which its search reaches as many nodes as there are, its node ids are unique, its edges join known nodes, it has a terminal node, it is within
-- its budgets, and every node is accepted: its resources are known, it refers to known nodes, a query
-- binds the office scope, no sensitivity is wider than the output contract's, and the principal holds
-- the capabilities and the sight of sensitive fields that the node requires.
pub verify-IsVerified :
    (build : ExecutionWorkflow → WorkflowGraph) (workflow : ExecutionWorkflow)
    (principal : PrincipalContext) (catalog : KnowledgeCatalog) (v : VerifiedWorkflow)
    → verify build workflow principal catalog ≡ ok v
    → (v.workflow ≡ workflow) × IsVerified workflow principal catalog (build workflow)
unfolding verify
verify-IsVerified build workflow principal catalog v h =
    let graph = build workflow in
    let (u, clear, h1) =
      >>=-eq-ok (reject_any (workflow_guards graph workflow))
        (λ _. ok_or cycle graph.topological_order >>= λ topo.
          verify_nodes graph workflow.nodes workflow topo principal catalog >>= λ _.
          ok (record { workflow = workflow }))
        h in
    let (topo, known, h2) =
      >>=-eq-ok (ok_or cycle graph.topological_order)
        (λ topo. verify_nodes graph workflow.nodes workflow topo principal catalog >>= λ _.
          ok (record { workflow = workflow }))
        h1 in
    let (w, nodes, same) =
      >>=-eq-ok (verify_nodes graph workflow.nodes workflow topo principal catalog)
        (λ _. ok (record { workflow = workflow })) h2 in
    let g = reject_any-clear (workflow_guards graph workflow) clear in
    let (few, ends, entry, ending) = is_malformed-ends graph workflow g.1.0 in
    let e : v ≡ record { workflow = workflow } = cc in
    (
      ap (λ (x : VerifiedWorkflow). x.workflow) e,
      record {
        acyclic = g.0;
        unique = λ id. omega (
          arith,
          distinct-count (ids_of workflow) id (few ∙ sym (length-map workflow.nodes)),
          count_where-map workflow.nodes id,
        );
        ends = λ edge m. any-all (has_unknown_end workflow) workflow.edges edge ends m;
        one_entry = entry;
        reaches = g.1.1.0;
        finishes = ending;
        affordable = g.1.1.1.1.0;
        nodes = verify_nodes-mem graph workflow.nodes workflow topo principal catalog nodes;
      },
    )

-- A verified workflow never runs a node to completion twice, if it starts with no node completed
-- twice.
pub verify-AreOnce :
    (build : ExecutionWorkflow → WorkflowGraph) (c : RunContext) (v : VerifiedWorkflow)
    (answers : ℕ → WorkflowNode → Answer) (start : Db) (n : ℕ) (runs : List WorkflowNodeRun)
    (consumed : BudgetTotals) (db : Db)
    → verify build c.workflow c.principal c.catalog ≡ ok v
    → AreOnce (node_runs c.job_id c.workflow.id start)
    → Reaches c answers start n runs consumed db
    → AreOnce runs
verify-AreOnce build c v answers start n runs consumed db h old reached =
    let verified = (verify-IsVerified build c.workflow c.principal c.catalog v h).1 in
    Reaches-AreOnce c answers start n runs consumed db verified.unique old reached
