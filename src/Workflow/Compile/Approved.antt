-- ===== src/Workflow/Compile/Approved.antt =====
-- What every node of a compiled workflow is allowed to run.
use fineract_ai_reports.Prelude.{
  Bool-cases, ==_refl, string_eq, nat_eq, is_empty, filter, All, ◌∈◌, All-append, All-weaken, ok,
  >>=-eq-ok, int_eq, ℕ, String, ◌≡◌, refl, inl, inr, true, ◌&&◌, Option, none, some, List, [], ◌∷◌,
  ◌++◌,
}
use fineract_ai_reports.Knowledge.{
  parameter_type_eq, ParameterPolicy, operator_eq, CapabilityKnowledge, KnowledgeCatalog,
}
use fineract_ai_reports.Policy.{approved}
use fineract_ai_reports.Dataset.Compose.Branches.{}
use fineract_ai_reports.Workflow.Contract.{
  NodeId, node_id_eq, WorkflowBudgets, exact_sensitive_input, WorkflowNode, ExecutionWorkflow,
}
use fineract_ai_reports.Workflow.Verify.{find_query}
use fineract_ai_reports.Workflow.Verify.Nodes.{}
use fineract_ai_reports.Workflow.Compile.{
  WorkflowProposal, option_beq, recipe_dataset, recipe_shape,
}
use fineract_ai_reports.Workflow.Compile.Proposal.{check_capabilities, resolve_proposal_resources}
use fineract_ai_reports.Workflow.Compile.Iteration.{}
use fineract_ai_reports.Workflow.Compile.Images.{}
use fineract_ai_reports.Workflow.Compile.Expanded.{}
use fineract_ai_reports.Workflow.Compile.Probe.{Acquired, bound_to}
use fineract_ai_reports.Workflow.Compile.Acquisition.{
  AcquisitionFacts, is_exact_identifier_param, acquisition_source,
}
use fineract_ai_reports.Workflow.Compile.Comparison.{}
use fineract_ai_reports.Workflow.Compile.Plain.{
  RunsApproved, IsScoped, IsPlain, free_of_cost, acquire_from-IsPlain,
}
use fineract_ai_reports.Workflow.Compile.Whole.{
  required_names, is_acquired, Acquisition, acquire_all, with_scope, acquisition_inputs, execute_id,
  capability_workflow, first_capability, compile_capability, compile_with_facts,
}
use fineract_ai_reports.Workflow.Compile.Checked.{
  IsImage-RunsApproved, IsImage-IsScoped, finish-All, approved_capability-known,
  check_kinds-RunsApproved,
}

option_beq_refl : (a : Option String) → option_beq a a ≡ true
option_beq_refl none = refl
option_beq_refl (some s) = ==_refl s

capability_agrees :
    (capability : CapabilityKnowledge)
    → (option_beq (some capability.query_id) (some capability.query_id)
        && option_beq
            (recipe_dataset capability.dataset_recipe)
            (recipe_dataset capability.dataset_recipe)
        && option_beq
            (recipe_shape capability.dataset_recipe)
            (recipe_shape capability.dataset_recipe))
      ≡ true
capability_agrees capability = rw (
  ==_refl capability.query_id,
  option_beq_refl (recipe_dataset capability.dataset_recipe),
  option_beq_refl (recipe_shape capability.dataset_recipe),
)

first_capability-known :
    (catalog : KnowledgeCatalog) (ids : List String) (capability : CapabilityKnowledge)
    → first_capability catalog ids ≡ ok capability
    → (capability ∈ catalog.capabilities) × (approved capability ≡ true)
first_capability-known catalog [] capability h = cc
first_capability-known catalog (id ∷ ids) capability h =
    let (known, same, good) = approved_capability-known catalog id capability h in (known, good)

acquisition_source-IsPlain :
    (capability : CapabilityKnowledge) (p : ParameterPolicy) (facts : AcquisitionFacts)
    (execute : NodeId) (catalog : KnowledgeCatalog) (a : Acquired)
    → acquisition_source capability p facts execute catalog ≡ ok a
    → All (IsPlain catalog) a.nodes
unfolding acquisition_source
acquisition_source-IsPlain capability p facts execute catalog a h =
    elim (Bool-cases (is_exact_identifier_param capability p.name catalog)) [
      | inl exact ↦
          let same : bound_to exact_sensitive_input ≡ a = cc (rw exact at h) in rw (← same) tt
      | inr shown ↦ acquire_from-IsPlain catalog facts execute p _ a (rw shown at h)
    ]

acquire_all-IsPlain :
    (capability : CapabilityKnowledge) (facts : AcquisitionFacts) (execute : NodeId)
    (catalog : KnowledgeCatalog) (policies : List ParameterPolicy) (a : Acquisition)
    → acquire_all capability facts execute catalog policies ≡ ok a
    → All (IsPlain catalog) a.nodes
acquire_all-IsPlain capability facts execute catalog [] a h =
    let same : record { inputs = []; nodes = []; edges = [] } ≡ a = cc in rw (← same) tt
acquire_all-IsPlain capability facts execute catalog (p ∷ ps) a h =
    let (first, f, g) = >>=-eq-ok (acquisition_source capability p facts execute catalog) _ h in
    let (rest, k, l) = >>=-eq-ok (acquire_all capability facts execute catalog ps) _ g in
    let same : record {
      inputs = record { parameter = p.name; kind = p.kind; source = first.source } ∷ rest.inputs;
      nodes = first.nodes ++ rest.nodes;
      edges = first.edges ++ rest.edges;
    }
        ≡ a =
      cc l in
    rw (← same) (
      All-append (IsPlain catalog) first.nodes rest.nodes
        (acquisition_source-IsPlain capability p facts execute catalog first f)
        (acquire_all-IsPlain capability facts execute catalog ps rest k))

-- A capability's workflow, before its iterations are expanded
capability_workflow-IsPlain :
    (id catalog_version : ℕ) (budgets : WorkflowBudgets) (catalog : KnowledgeCatalog)
    (capability : CapabilityKnowledge) (facts : AcquisitionFacts) (a : Acquisition)
    → capability ∈ catalog.capabilities
    → approved capability ≡ true
    → acquisition_inputs capability catalog facts execute_id ≡ ok a
    → All
        (IsPlain catalog)
        (capability_workflow id catalog_version budgets catalog capability a).nodes
unfolding acquisition_inputs
capability_workflow-IsPlain id catalog_version budgets catalog capability facts a known good h =
    let chosen =
      filter (is_acquired (required_names (find_query catalog capability.query_id)))
        capability.parameter_policies in
    let (gathered, f, g) = >>=-eq-ok (acquire_all capability facts execute_id catalog chosen) _ h in
    let same : with_scope gathered ≡ a = cc g in
    rw (← same) (
      All-append (IsPlain catalog) gathered.nodes _
        (acquire_all-IsPlain capability facts execute_id catalog chosen gathered f)
        (
          ((capability, known, refl, good, capability_agrees capability), λ cost. refl),
          ((tt, free_of_cost []), tt),
        ))

compile_capability-IsPlain :
    (id : ℕ) (proposal : WorkflowProposal) (catalog : KnowledgeCatalog) (catalog_version : ℕ)
    (budgets : WorkflowBudgets) (facts : AcquisitionFacts) (compiled : ExecutionWorkflow)
    → compile_capability id proposal catalog catalog_version budgets facts ≡ ok compiled
    → All (IsPlain catalog) compiled.nodes
compile_capability-IsPlain id proposal catalog catalog_version budgets facts compiled h =
    let (u, f, g) = >>=-eq-ok (check_capabilities catalog proposal.capability_ids) _ h in
    let (capability, k, l) = >>=-eq-ok (first_capability catalog proposal.capability_ids) _ g in
    let (a, m, o) = >>=-eq-ok (acquisition_inputs capability catalog facts execute_id) _ l in
    let (known, good) = first_capability-known catalog proposal.capability_ids capability k in
    finish-All (IsPlain catalog)
      (λ n m i p. (IsImage-RunsApproved catalog n m i p.0, IsImage-IsScoped n m i p.1)) _ compiled
      catalog o
      (capability_workflow-IsPlain id catalog_version budgets catalog capability facts a known good
        m)

resolve_proposal_resources-RunsApproved :
    (proposal : WorkflowProposal) (catalog : KnowledgeCatalog)
    → resolve_proposal_resources proposal catalog ≡ ok tt
    → All (λ (n : WorkflowNode). RunsApproved catalog n.kind) proposal.nodes
unfolding resolve_proposal_resources
resolve_proposal_resources-RunsApproved proposal catalog h =
    let (u, f, g) = >>=-eq-ok (check_capabilities catalog proposal.capability_ids) _ h in
    check_kinds-RunsApproved catalog proposal.nodes g

-- However a workflow is compiled, from a proposal or from one capability, every query in it that
-- names a capability names one that the catalog approves, and is that capability's own query, over
-- its own dataset and shape.
pub compile_with_facts-RunsApproved :
    (id : ℕ) (proposal : WorkflowProposal) (catalog : KnowledgeCatalog) (catalog_version : ℕ)
    (budgets : WorkflowBudgets) (facts : AcquisitionFacts) (compiled : ExecutionWorkflow)
    → compile_with_facts id proposal catalog catalog_version budgets facts ≡ ok compiled
    → All (λ (n : WorkflowNode). RunsApproved catalog n.kind) compiled.nodes
unfolding compile_with_facts
compile_with_facts-RunsApproved id proposal catalog catalog_version budgets facts compiled h =
    elim (Bool-cases (is_empty proposal.nodes)) [
      | inl one_capability ↦
          All-weaken (λ n p. p.0) compiled.nodes
            (compile_capability-IsPlain id proposal catalog catalog_version budgets facts compiled
              (rw one_capability at h))
      | inr proposed ↦
          let (u, f, g) =
            >>=-eq-ok (resolve_proposal_resources proposal catalog) _ (rw proposed at h) in
          finish-All (λ n. RunsApproved catalog n.kind) (IsImage-RunsApproved catalog) _ compiled
            catalog g (resolve_proposal_resources-RunsApproved proposal catalog f)
    ]

-- Every node of a workflow that is compiled from capabilities alone binds the office scope of the
-- principal if it costs a query, so the guard of the verifier against unscoped queries passes.
pub compile_with_facts-IsScoped :
    (id : ℕ) (proposal : WorkflowProposal) (catalog : KnowledgeCatalog) (catalog_version : ℕ)
    (budgets : WorkflowBudgets) (facts : AcquisitionFacts) (compiled : ExecutionWorkflow)
    → is_empty proposal.nodes ≡ true
    → compile_with_facts id proposal catalog catalog_version budgets facts ≡ ok compiled
    → All IsScoped compiled.nodes
unfolding compile_with_facts
compile_with_facts-IsScoped id proposal catalog catalog_version budgets facts compiled alone h =
    All-weaken (λ n p. p.1) compiled.nodes
      (compile_capability-IsPlain id proposal catalog catalog_version budgets facts compiled
        (rw alone at h))
