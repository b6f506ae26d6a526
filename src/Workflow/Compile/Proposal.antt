-- ===== src/Workflow/Compile/Proposal.antt =====
-- `resolve_proposal_resources` of compile.rs.
use fineract_ai_reports.Prelude.{
  string_eq, nat_eq, Result, ok, ok_or, ◌>>=◌, int_eq, String, Bool, true, false, ◌&&◌, not, Option,
  none, some, List, [], ◌∷◌,
}
use fineract_ai_reports.Knowledge.{
  parameter_type_eq, terminal, resolver, probe, operator_eq, CapabilityKnowledge, ShapeOption,
  shape, KnowledgeCatalog,
}
use fineract_ai_reports.Policy.{}
use fineract_ai_reports.Workflow.Contract.{
  node_id_eq, ExecuteQueryNode, NodeKind, resolve_entity, execute_query, WorkflowNode,
}
use fineract_ai_reports.Workflow.Verify.{is_some, find_dataset, reject_if, has_unknown_query}
use fineract_ai_reports.Workflow.Compile.{
  CompileError, invalid_proposal, WorkflowProposal, approved_capability, option_beq, recipe_dataset,
  recipe_shape,
}

abbrev pub check_capabilities : KnowledgeCatalog → List String → Result (Unit {0}) CompileError
check_capabilities catalog [] = ok tt
check_capabilities catalog (id ∷ ids) =
    approved_capability catalog id >>= λ _. check_capabilities catalog ids

abbrev pub agrees : ExecuteQueryNode → CapabilityKnowledge → Bool
agrees exec capability =
    option_beq exec.query_id (some capability.query_id)
    && option_beq exec.dataset_id (recipe_dataset capability.dataset_recipe)
    && option_beq exec.shape_id (recipe_shape capability.dataset_recipe)

abbrev pub check_named :
    KnowledgeCatalog → ExecuteQueryNode → Option String → Result (Unit {0}) CompileError
check_named catalog exec none = ok tt
check_named catalog exec (some id) = approved_capability catalog id >>= λ capability.
    reject_if (not (agrees exec capability)) invalid_proposal

abbrev pub check_shape :
    KnowledgeCatalog → Option String → Option String → Result (Unit {0}) CompileError
check_shape catalog (some dataset_id) (some shape_id) =
    ok_or invalid_proposal (find_dataset catalog dataset_id) >>= λ dataset.
    reject_if (not (is_some (shape dataset shape_id))) invalid_proposal
check_shape catalog _ _ = ok tt

abbrev pub may_resolve : Option ShapeOption → Bool
may_resolve none = false
may_resolve (some s) = elim s.role [ resolver ↦ true | probe ↦ true | terminal ↦ false ]

-- The match on the kind of a node
unfoldable pub check_kind : KnowledgeCatalog → NodeKind → Result (Unit {0}) CompileError
unfolding approved_capability shape
check_kind catalog (execute_query exec) = check_named catalog exec exec.capability_id >>= λ _.
    reject_if (has_unknown_query catalog exec.query_id) invalid_proposal >>= λ _.
    check_shape catalog exec.dataset_id exec.shape_id
check_kind catalog (resolve_entity resolve) =
    ok_or invalid_proposal (find_dataset catalog resolve.dataset_id) >>= λ dataset.
    reject_if (not (may_resolve (shape dataset resolve.resolver_shape_id))) invalid_proposal
check_kind catalog _ = ok tt

abbrev pub check_kinds : KnowledgeCatalog → List WorkflowNode → Result (Unit {0}) CompileError
check_kinds catalog [] = ok tt
check_kinds catalog (node ∷ nodes) = check_kind catalog node.kind >>= λ _. check_kinds catalog nodes

unfoldable pub resolve_proposal_resources :
    WorkflowProposal → KnowledgeCatalog → Result (Unit {0}) CompileError
unfolding check_kind
resolve_proposal_resources proposal catalog =
    check_capabilities catalog proposal.capability_ids >>= λ _. check_kinds catalog proposal.nodes
