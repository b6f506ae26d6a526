-- ===== src/Workflow/Verify/Accepts.antt =====
-- What an accepted workflow is known to be.
use fineract_ai_reports.Prelude.{
  ltb, Bool-cases, ◌==◌, ==→≡, string_eq, nat_eq, any, All, ◌∈◌, ok, ◌>>=◌, >>=-eq-ok, int_eq, ◌≡◌,
  refl, inl, inr, Bool, true, false, ◌&&◌, ◌||◌, not, List, [], ◌∷◌, arith,
}
use fineract_ai_reports.Knowledge.{integer_array, parameter_type_eq, operator_eq, KnowledgeCatalog}
use fineract_ai_reports.Policy.{PrincipalContext}
use fineract_ai_reports.Workflow.Contract.{
  NodeId, node_id_eq, NodeInput, WorkflowNode, ExecutionWorkflow,
}
use fineract_ai_reports.Workflow.Compose.{}
use fineract_ai_reports.Workflow.Budget.{node_of}
use fineract_ai_reports.Workflow.State.{}
use fineract_ai_reports.Workflow.Runner.Once.{}
use fineract_ai_reports.Workflow.Verify.{
  VerifyError, dangling_resume, WorkflowGraph, is_some, looks_like_sql_identifier, reject_if,
  reject_any, verify_node_resources,
}
use fineract_ai_reports.Workflow.Verify.Nodes.{
  is_authorized_scope, verify_input, referenced_nodes, composes_nothing, binds_scope, node_widens,
  is_permitted, exec_capability, verify_inputs, dangles, node_guards, verify_node,
}
use fineract_ai_reports.Workflow.Verify.Whole.{verify_nodes}

pub reject_any-clear :
    (guards : List (Bool × VerifyError))
    → reject_any guards ≡ ok tt
    → All (λ (g : Bool × VerifyError). g.0 ≡ false) guards
reject_any-clear [] h = tt
reject_any-clear ((true, e) ∷ guards) h = cc
reject_any-clear ((false, e) ∷ guards) h = (refl, reject_any-clear guards h)

-- An id is never a name that could be read as SQL, and the scope is bound to `office_ids` only.
pub record InputAccepted (input : NodeInput) : Type 0 where
  pub plain : looks_like_sql_identifier input.parameter ≡ false
  pub scope : is_authorized_scope input.source ≡ true → input.parameter ≡ "office_ids"

pub record NodeAccepted (workflow : ExecutionWorkflow) (principal : PrincipalContext)
    (catalog : KnowledgeCatalog) (node : WorkflowNode) : Type 0 where
  pub resources : verify_node_resources node.kind catalog ≡ ok tt
  pub refers : any (λ id. not (is_some (node_of workflow id))) (referenced_nodes node.kind) ≡ false
  pub scoped : ltb 0 node.budget.query_cost ≡ true → any binds_scope node.inputs ≡ true
  pub narrow : node_widens node workflow ≡ false
  pub sighted : node.policy.pii_required ≡ true → principal.can_view_pii ≡ true
  pub permitted : is_permitted principal node.policy.required_capability ≡ true
  pub permitted_query : is_permitted principal (exec_capability node.kind) ≡ true
  pub inputs : (input : NodeInput) → input ∈ node.inputs → InputAccepted input

not-and : (a b : Bool) → (a && not b) ≡ false → a ≡ true → b ≡ true
not-and a b h t = ground arith

not-false : (a : Bool) → not a ≡ false → a ≡ true
not-false a h = ground arith

verify_input-InputAccepted :
    (input : NodeInput) (consumer : WorkflowNode) (workflow : ExecutionWorkflow)
    (topo : List NodeId) (catalog : KnowledgeCatalog)
    → verify_input input consumer workflow topo catalog ≡ ok tt
    → InputAccepted input
unfolding verify_input
verify_input-InputAccepted input consumer workflow topo catalog h =
    elim (Bool-cases (looks_like_sql_identifier input.parameter)) [
      | inl sql ↦ cc (rw sql at h)
      | inr plain ↦
          elim (Bool-cases (
            is_authorized_scope input.source
            && (not (input.parameter == "office_ids") || not (input.kind == integer_array)))) [
              | inl wrong ↦ cc (rw (plain, wrong) at h)
              | inr right ↦ record {
                plain = plain;
                scope = λ s. ==→≡ input.parameter "office_ids" (ground arith);
              }
            ]
    ]

verify_inputs-mem :
    (inputs : List NodeInput) (consumer : WorkflowNode) (workflow : ExecutionWorkflow)
    (topo : List NodeId) (catalog : KnowledgeCatalog)
    → verify_inputs inputs consumer workflow topo catalog ≡ ok tt
    → (input : NodeInput) → input ∈ inputs
    → InputAccepted input
verify_inputs-mem [] consumer workflow topo catalog h input m = absurd m
verify_inputs-mem (first ∷ rest) consumer workflow topo catalog h input m =
    let (u, good, more) =
      >>=-eq-ok (verify_input first consumer workflow topo catalog)
        (λ _. verify_inputs rest consumer workflow topo catalog) h in
    elim m [
      | inl e ↦ rw e (verify_input-InputAccepted first consumer workflow topo catalog good)
      | inr k ↦ verify_inputs-mem rest consumer workflow topo catalog more input k
    ]

pub verify_node-NodeAccepted :
    (graph : WorkflowGraph) (node : WorkflowNode) (workflow : ExecutionWorkflow)
    (topo : List NodeId) (principal : PrincipalContext) (catalog : KnowledgeCatalog)
    → verify_node graph node workflow topo principal catalog ≡ ok tt
    → NodeAccepted workflow principal catalog node
unfolding verify_node
verify_node-NodeAccepted graph node workflow topo principal catalog h =
    let (u, resources, h1) =
      >>=-eq-ok (verify_node_resources node.kind catalog)
        (λ _. reject_any (node_guards node workflow principal catalog) >>= λ _.
          verify_inputs node.inputs node workflow topo catalog >>= λ _.
          reject_if (dangles graph node node.kind) dangling_resume)
        h in
    let (v, clear, h2) =
      >>=-eq-ok (reject_any (node_guards node workflow principal catalog))
        (λ _. verify_inputs node.inputs node workflow topo catalog >>= λ _.
          reject_if (dangles graph node node.kind) dangling_resume)
        h1 in
    let (w, inputs, h3) =
      >>=-eq-ok (verify_inputs node.inputs node workflow topo catalog)
        (λ _. reject_if (dangles graph node node.kind) dangling_resume) h2 in
    let g = reject_any-clear (node_guards node workflow principal catalog) clear in
    let scoped : (ltb 0 node.budget.query_cost && not (any binds_scope node.inputs)) ≡ false =
      g.1.0 in
    let sighted : (node.policy.pii_required && not principal.can_view_pii) ≡ false = g.1.1.1.0 in
    let permitted : not (is_permitted principal node.policy.required_capability) ≡ false =
      g.1.1.1.1.0 in
    let query : not (is_permitted principal (exec_capability node.kind)) ≡ false = g.1.1.1.1.1.0 in
    let refers : (any (λ id. not (is_some (node_of workflow id))) (referenced_nodes node.kind)
          || composes_nothing node.kind)
        ≡ false =
      g.0 in
    record {
      resources = resources;
      refers = ground arith;
      scoped = λ cost. not-and _ _ scoped cost;
      narrow = g.1.1.0;
      sighted = λ required. not-and _ _ sighted required;
      permitted = not-false _ permitted;
      permitted_query = not-false _ query;
      inputs = verify_inputs-mem node.inputs node workflow topo catalog inputs;
    }

pub verify_nodes-mem :
    (graph : WorkflowGraph) (nodes : List WorkflowNode) (workflow : ExecutionWorkflow)
    (topo : List NodeId) (principal : PrincipalContext) (catalog : KnowledgeCatalog)
    → verify_nodes graph nodes workflow topo principal catalog ≡ ok tt
    → (node : WorkflowNode) → node ∈ nodes
    → NodeAccepted workflow principal catalog node
verify_nodes-mem graph [] workflow topo principal catalog h node m = absurd m
verify_nodes-mem graph (first ∷ rest) workflow topo principal catalog h node m =
    let (u, good, more) =
      >>=-eq-ok (verify_node graph first workflow topo principal catalog)
        (λ _. verify_nodes graph rest workflow topo principal catalog) h in
    elim m [
      | inl e ↦ rw e (verify_node-NodeAccepted graph first workflow topo principal catalog good)
      | inr k ↦ verify_nodes-mem graph rest workflow topo principal catalog more node k
    ]
