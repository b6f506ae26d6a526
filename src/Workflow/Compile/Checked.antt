-- ===== src/Workflow/Compile/Checked.antt =====
-- The checks of the capabilities that a proposal names, and what the expansion keeps of them.
use fineract_ai_reports.Prelude.{
  Bool-cases, Option-cases, ◌==◌, ==→≡, string_eq, nat_eq, find, all, All, ◌∈◌, All-mem, find-some,
  All-weaken, ok, >>=-eq-ok, int_eq, String, ◌≡◌, inl, inr, true, ◌&&◌, List, [], ◌∷◌, arith,
}
use fineract_ai_reports.Knowledge.{
  parameter_type_eq, operator_eq, CapabilityKnowledge, KnowledgeCatalog,
}
use fineract_ai_reports.Policy.{approved}
use fineract_ai_reports.Dataset.Compose.Branches.{ok_or-eq-ok}
use fineract_ai_reports.Workflow.Contract.{
  node_id_eq, NodeKind, resolve_entity, execute_query, cardinality_branch, clarification_interrupt,
  compose_result, complete, WorkflowNode, ExecutionWorkflow,
}
use fineract_ai_reports.Workflow.Verify.{}
use fineract_ai_reports.Workflow.Verify.Nodes.{}
use fineract_ai_reports.Workflow.Compile.{unknown_capability, approved_capability}
use fineract_ai_reports.Workflow.Compile.Proposal.{agrees, check_named, check_kind, check_kinds}
use fineract_ai_reports.Workflow.Compile.Iteration.{without_iteration, expand_iteration}
use fineract_ai_reports.Workflow.Compile.Images.{IsImage, kept, copied}
use fineract_ai_reports.Workflow.Compile.Expanded.{expand_iteration-IsExpansion}
use fineract_ai_reports.Workflow.Compile.Probe.{}
use fineract_ai_reports.Workflow.Compile.Acquisition.{}
use fineract_ai_reports.Workflow.Compile.Comparison.{check_comparison_facts}
use fineract_ai_reports.Workflow.Compile.Plain.{RunsApproved, IsScoped}
use fineract_ai_reports.Workflow.Compile.Whole.{finish}

pub without_iteration-RunsApproved :
    (catalog : KnowledgeCatalog) (kind : NodeKind)
    → RunsApproved catalog kind
    → RunsApproved catalog (without_iteration kind)
without_iteration-RunsApproved catalog (execute_query exec) h =
    elim (Option-cases exec.capability_id) [
      | inl none_named ↦ rw none_named tt
      | inr (id, named) ↦ rw named (rw named at h)
    ]
without_iteration-RunsApproved catalog (resolve_entity r) h = h
without_iteration-RunsApproved catalog (cardinality_branch b) h = h
without_iteration-RunsApproved catalog (clarification_interrupt c) h = h
without_iteration-RunsApproved catalog (compose_result c) h = h
without_iteration-RunsApproved catalog (complete c) h = h

pub IsImage-RunsApproved :
    (catalog : KnowledgeCatalog) (n m : WorkflowNode)
    → IsImage n m
    → RunsApproved catalog n.kind
    → RunsApproved catalog m.kind
IsImage-RunsApproved catalog n m (kept alone same) h = rw same h
IsImage-RunsApproved catalog n m (copied id c same) h =
    rw same (without_iteration-RunsApproved catalog n.kind h)

pub IsImage-IsScoped : (n m : WorkflowNode) → IsImage n m → IsScoped n → IsScoped m
IsImage-IsScoped n m (kept alone same) h = rw same h
IsImage-IsScoped n m (copied id c same) h = rw same h

module _ (P : WorkflowNode → Type 0) (image : (n m : WorkflowNode) → IsImage n m → P n → P m) where
  pub finish-All :
      (workflow compiled : ExecutionWorkflow) (catalog : KnowledgeCatalog)
      → finish workflow catalog ≡ ok compiled
      → All P workflow.nodes
      → All P compiled.nodes
  unfolding finish
  finish-All workflow compiled catalog h all =
      let (expanded, f, g) = >>=-eq-ok (expand_iteration workflow catalog) _ h in
      let (u, k, l) = >>=-eq-ok (check_comparison_facts expanded) _ g in
      let same : expanded ≡ compiled = cc l in
      let x = expand_iteration-IsExpansion workflow expanded catalog f in
      rw (← same) (
        All-weaken (λ m i. image i.0 m i.2 (All-mem P workflow.nodes all i.1)) expanded.nodes
          x.images)

pub approved_capability-known :
    (catalog : KnowledgeCatalog) (id : String) (capability : CapabilityKnowledge)
    → approved_capability catalog id ≡ ok capability
    → (capability ∈ catalog.capabilities) × (capability.id ≡ id) × (approved capability ≡ true)
unfolding approved_capability
approved_capability-known catalog id capability h =
    let test = λ (c : CapabilityKnowledge). (c.id == id) && approved c in
    let (passes, known) =
      find-some test catalog.capabilities
        (ok_or-eq-ok (unknown_capability id) (find test catalog.capabilities) h) in
    (known, ==→≡ capability.id id (ground arith), ground arith)

pub check_kind-RunsApproved :
    (catalog : KnowledgeCatalog) (kind : NodeKind)
    → check_kind catalog kind ≡ ok tt
    → RunsApproved catalog kind
unfolding check_kind
check_kind-RunsApproved catalog (execute_query exec) h =
    let (u, f, g) = >>=-eq-ok (check_named catalog exec exec.capability_id) _ h in
    elim (Option-cases exec.capability_id) [
      | inl none_named ↦ rw none_named tt
      | inr (id, named) ↦
          let (capability, k, l) = >>=-eq-ok (approved_capability catalog id) _ (rw named at f) in
          elim (Bool-cases (agrees exec capability)) [
            | inl same ↦
                let (known, called, good) = approved_capability-known catalog id capability k in
                rw named (capability, known, called, good, same)
            | inr other ↦ cc (rw other at l)
          ]
    ]
check_kind-RunsApproved catalog (resolve_entity r) h = tt
check_kind-RunsApproved catalog (cardinality_branch b) h = tt
check_kind-RunsApproved catalog (clarification_interrupt c) h = tt
check_kind-RunsApproved catalog (compose_result c) h = tt
check_kind-RunsApproved catalog (complete c) h = tt

pub check_kinds-RunsApproved :
    (catalog : KnowledgeCatalog) (nodes : List WorkflowNode)
    → check_kinds catalog nodes ≡ ok tt
    → All (λ (n : WorkflowNode). RunsApproved catalog n.kind) nodes
check_kinds-RunsApproved catalog [] h = tt
check_kinds-RunsApproved catalog (n ∷ ns) h =
    let (u, f, g) = >>=-eq-ok (check_kind catalog n.kind) _ h in
    (check_kind-RunsApproved catalog n.kind f, check_kinds-RunsApproved catalog ns g)
