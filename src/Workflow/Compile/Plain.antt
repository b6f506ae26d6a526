-- ===== src/Workflow/Compile/Plain.antt =====
-- The nodes that get a parameter's value run no query of their own accord, and bind the office scope.
use fineract_ai_reports.Prelude.{
  ltb, if◌then◌else◌, Bool-cases, Option-cases, ◌==◌, string_eq, nat_eq, find, any, all, All,
  Result, ok, ok_or, >>=-eq-ok, append, int_eq, String, ◌≡◌, refl, subst, inl, inr, Bool, true,
  false, ◌&&◌, ◌||◌, Option, none, some, List, [], ◌∷◌, ◌∈◌,
}
use fineract_ai_reports.Knowledge.{
  parameter_type_eq, ConstraintField, ResolutionStrategy, from_authorized_scope,
  from_catalog_default, from_deterministic_extraction, from_verified_user_text,
  from_safe_prior_selection, from_prior_step, from_authorized_data_probe, by_clarifying, ProbeRef,
  ParameterPolicy, operator_eq, CapabilityKnowledge, ProducedSlot, ShapeOption, DatasetKnowledge,
  shape, KnowledgeCatalog,
}
use fineract_ai_reports.Policy.{approved}
use fineract_ai_reports.Dataset.Compose.Branches.{}
use fineract_ai_reports.Workflow.Contract.{
  NodeId, node_id_eq, ExecuteQueryNode, NodeKind, execute_query, BindingSource, NodeInput,
  WorkflowNode,
}
use fineract_ai_reports.Workflow.Verify.{find_dataset}
use fineract_ai_reports.Workflow.Verify.Nodes.{binds_scope}
use fineract_ai_reports.Workflow.Compile.{CompileError, invalid_proposal, node_id}
use fineract_ai_reports.Workflow.Compile.Proposal.{agrees}
use fineract_ai_reports.Workflow.Compile.Probe.{
  Acquired, bound_to, selects, resolver_node, resolving, acquire_probe, acquire_answer,
}
use fineract_ai_reports.Workflow.Compile.Acquisition.{
  AcquisitionFacts, found, prior_selection, prior_step_of, acquired, probe_arm, acquire_by,
  acquire_from,
}

-- A query that names a capability names an approved one, with its query, dataset and shape.

abbrev pub NamesApproved : KnowledgeCatalog → ExecuteQueryNode → Option String → Type 0
NamesApproved catalog exec none = Unit {0}
NamesApproved catalog exec (some id) =
    (capability : CapabilityKnowledge) × (capability ∈ catalog.capabilities)
    × (capability.id ≡ id)
    × (approved capability ≡ true)
    × (agrees exec capability ≡ true)

abbrev pub RunsApproved : KnowledgeCatalog → NodeKind → Type 0
RunsApproved catalog (execute_query exec) = NamesApproved catalog exec exec.capability_id
RunsApproved catalog _ = Unit {0}

-- A node that costs a query binds the office scope.
abbrev pub IsScoped : WorkflowNode → Type 0
IsScoped node = ltb 0 node.budget.query_cost ≡ true → any binds_scope node.inputs ≡ true

-- A node that runs no query of its own, and is scoped
abbrev pub IsPlain : KnowledgeCatalog → WorkflowNode → Type 0
IsPlain catalog n = RunsApproved catalog n.kind × IsScoped n

pub free_of_cost : (inputs : List NodeInput) → ltb 0 0 ≡ true → any binds_scope inputs ≡ true
free_of_cost inputs h = cc

resolver_node-IsPlain :
    (catalog : KnowledgeCatalog) (id : NodeId) (dataset : DatasetKnowledge) (s : ShapeOption)
    (output : ProducedSlot) (backing : CapabilityKnowledge)
    → IsPlain catalog (resolver_node id dataset s output backing)
resolver_node-IsPlain catalog id dataset s output backing = (tt, λ c. refl)

-- The nodes of a result that is known
ok-All :
    (P : WorkflowNode → Type 0) (b a : Acquired)
    → ◌≡◌ {A = Result Acquired CompileError} (ok b) (ok a)
    → All P b.nodes
    → All P a.nodes
ok-All P b a h all = let same : b ≡ a = cc in rw (← same) all

acquire_probe-IsPlain :
    (catalog : KnowledgeCatalog) (execute : NodeId) (name : String) (p : ProbeRef) (a : Acquired)
    → acquire_probe catalog execute name p ≡ ok a
    → All (IsPlain catalog) a.nodes
unfolding acquire_probe
acquire_probe-IsPlain catalog execute name p a h =
    let (dataset, h1, k1) =
      >>=-eq-ok (ok_or invalid_proposal (find_dataset catalog p.dataset_id)) _ h in
    let (s, h2, k2) =
      >>=-eq-ok (ok_or invalid_proposal (resolving (shape dataset p.shape_id))) _ k1 in
    let (id, h3, k3) = >>=-eq-ok (node_id (append "resolve_" name)) _ k2 in
    let (output, h4, k4) =
      >>=-eq-ok
        (ok_or invalid_proposal (find (λ (o : ProducedSlot). o.slot == p.output_slot) s.produces)) _
        k3 in
    let (backing, h5, k5) =
      >>=-eq-ok
        (ok_or invalid_proposal
          (find (λ (c : CapabilityKnowledge). approved c && selects p c) catalog.capabilities))
        _ k4 in
    let (branch_id, h6, k6) = >>=-eq-ok (node_id (append "branch_" name)) _ k5 in
    let (not_found_id, h7, k7) = >>=-eq-ok (node_id (append "not_found_" name)) _ k6 in
    let (select_id, h8, k8) = >>=-eq-ok (node_id (append "select_" name)) _ k7 in
    ok-All (IsPlain catalog) _ a k8 (
      resolver_node-IsPlain catalog id dataset s output backing,
      ((tt, free_of_cost []), ((tt, free_of_cost []), ((tt, free_of_cost []), tt))),
    )

acquire_answer-IsPlain :
    (catalog : KnowledgeCatalog) (execute : NodeId) (name : String) (a : Acquired)
    → acquire_answer execute name ≡ ok a
    → All (IsPlain catalog) a.nodes
unfolding acquire_answer
acquire_answer-IsPlain catalog execute name a h =
    let (id, f, g) = >>=-eq-ok (node_id (append "clarify_" name)) _ h in
    ok-All (IsPlain catalog) _ a g ((tt, free_of_cost []), tt)

-- What a strategy acquires, if anything
abbrev AcquiresPlain : KnowledgeCatalog → Option Acquired → Type 0
AcquiresPlain catalog none = Unit {0}
AcquiresPlain catalog (some a) = All (IsPlain catalog) a.nodes

found-plain :
    (catalog : KnowledgeCatalog) (bind : ConstraintField → BindingSource)
    (field : Option ConstraintField)
    → AcquiresPlain catalog (found bind field)
found-plain catalog bind none = tt
found-plain catalog bind (some field) = tt

ok-plain :
    (catalog : KnowledgeCatalog) (r s : Option Acquired)
    → ◌≡◌ {A = Result (Option Acquired) CompileError} (ok r) (ok s)
    → AcquiresPlain catalog r
    → AcquiresPlain catalog s
ok-plain catalog r s h plain = let same : r ≡ s = cc in subst (AcquiresPlain catalog) same plain

acquired-plain :
    (catalog : KnowledgeCatalog) (r : Result Acquired CompileError) (s : Option Acquired)
    → acquired r ≡ ok s
    → ((a : Acquired) → r ≡ ok a → All (IsPlain catalog) a.nodes)
    → AcquiresPlain catalog s
acquired-plain catalog r s h plain =
    let (a, f, g) = >>=-eq-ok r _ h in ok-plain catalog (some a) s g (plain a f)

bound_if-plain :
    (catalog : KnowledgeCatalog) (b : Bool) (source : BindingSource)
    → AcquiresPlain catalog (if b then some (bound_to source) else none)
bound_if-plain catalog true source = tt
bound_if-plain catalog false source = tt

prior_selection-plain :
    (catalog : KnowledgeCatalog) (entry : Option (String × NodeId))
    → AcquiresPlain catalog (prior_selection entry)
prior_selection-plain catalog none = tt
prior_selection-plain catalog (some entry) = tt

prior_step_of-plain :
    (catalog : KnowledgeCatalog) (entry : Option (String × NodeId × String))
    → AcquiresPlain catalog (prior_step_of entry)
prior_step_of-plain catalog none = tt
prior_step_of-plain catalog (some entry) = tt

probe_arm-plain :
    (catalog : KnowledgeCatalog) (execute : NodeId) (name : String) (p : Option ProbeRef)
    (s : Option Acquired)
    → probe_arm catalog execute name p ≡ ok s
    → AcquiresPlain catalog s
probe_arm-plain catalog execute name none s h = ok-plain catalog none s h tt
probe_arm-plain catalog execute name (some p) s h =
    acquired-plain catalog (acquire_probe catalog execute name p) s h
      (acquire_probe-IsPlain catalog execute name p)

module _ (catalog : KnowledgeCatalog) (facts : AcquisitionFacts) (execute : NodeId)
    (p : ParameterPolicy) where
  acquire_by-plain :
      (strategy : ResolutionStrategy) (s : Option Acquired)
      → acquire_by catalog facts execute p strategy ≡ ok s
      → AcquiresPlain catalog s
  acquire_by-plain from_authorized_scope s h = ok-plain catalog _ s h (bound_if-plain catalog _ _)
  acquire_by-plain from_catalog_default s h = ok-plain catalog _ s h (bound_if-plain catalog _ _)
  acquire_by-plain from_deterministic_extraction s h =
      ok-plain catalog _ s h (found-plain catalog _ _)
  acquire_by-plain from_verified_user_text s h = ok-plain catalog _ s h (found-plain catalog _ _)
  acquire_by-plain from_safe_prior_selection s h =
      ok-plain catalog _ s h (prior_selection-plain catalog _)
  acquire_by-plain from_prior_step s h = ok-plain catalog _ s h (prior_step_of-plain catalog _)
  acquire_by-plain from_authorized_data_probe s h =
      probe_arm-plain catalog execute p.name p.probe s h
  acquire_by-plain by_clarifying s h = elim (Bool-cases (p.user_required || p.required)) [
    | inl asked ↦
        acquired-plain catalog (acquire_answer execute p.name) s (rw asked at h)
          (acquire_answer-IsPlain catalog execute p.name)
    | inr unasked ↦ ok-plain catalog none s (rw unasked at h) tt
  ]

  pub acquire_from-IsPlain :
      (strategies : List ResolutionStrategy) (a : Acquired)
      → acquire_from catalog facts execute p strategies ≡ ok a
      → All (IsPlain catalog) a.nodes
  acquire_from-IsPlain [] a h = cc
  acquire_from-IsPlain (strategy ∷ rest) a h =
      let (result, f, g) = >>=-eq-ok (acquire_by catalog facts execute p strategy) _ h in
      elim (Option-cases result) [
        | inl nothing ↦ acquire_from-IsPlain rest a (rw nothing at g)
        | inr (b, something) ↦
            ok-All (IsPlain catalog) b a (rw something at g)
              (subst (AcquiresPlain catalog) something (acquire_by-plain strategy result f))
      ]
