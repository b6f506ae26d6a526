-- ===== src/Workflow/Compile.antt =====
-- crates/chat/src/assistant/workflow/compile.rs: a proposal or one capability becomes a workflow.
pub mod Proposal
pub mod Iteration
pub mod Images
pub mod Exact
pub mod Expanded
pub mod Refused
pub mod Probe
pub mod Acquisition
pub mod Comparison
pub mod Whole
pub mod Plain
pub mod Checked
pub mod Approved
pub mod Agreed
pub mod Ambiguity
pub mod Justified
pub mod Resolved
use fineract_ai_reports.Prelude.{
  PartialEq, ◌==◌, string_eq, nat_eq, find, Result, ok, err, ok_or, int_eq, String, Bool, true,
  false, ◌&&◌, Option, none, some, List,
}
use fineract_ai_reports.Knowledge.{
  parameter_type_eq, operator_eq, DatasetRecipe, CapabilityKnowledge, KnowledgeCatalog,
}
use fineract_ai_reports.Policy.{approved}
use fineract_ai_reports.Workflow.Contract.{
  NodeId, node_id_eq, new_node_id, WorkflowEdge, WorkflowNode,
}

pub data CompileError : Type 0 where
  unknown_capability : String → CompileError
  unsupported : CompileError
  grouped_query_preferred : String → CompileError
  budget_exceeded invalid_proposal : CompileError
  comparison_facts_diverge : NodeId → CompileError

-- crates/chat/src/assistant/workflow/contract.rs
pub record WorkflowProposal : Type 0 where
  pub capability_ids : List String
  pub nodes : List WorkflowNode
  pub edges : List WorkflowEdge

-- `approved_capability`
unfoldable pub approved_capability :
    KnowledgeCatalog → String → Result CapabilityKnowledge CompileError
approved_capability catalog id =
    ok_or (unknown_capability id)
      (find (λ (c : CapabilityKnowledge). (c.id == id) && approved c) catalog.capabilities)

abbrev pub option_beq : {A : Type 0} ⦃e : PartialEq A⦄ → Option A → Option A → Bool
option_beq none none = true
option_beq (some a) (some b) = a == b
option_beq _ _ = false

-- `NodeId::new`, whose error is that of an invalid proposal
abbrev pub node_id : String → Result NodeId CompileError
node_id name = elim (new_node_id name) [ ok id ↦ ok id | err e ↦ err invalid_proposal ]

-- `recipe.dataset_id` and `recipe.shape_id` of an optional recipe
abbrev pub recipe_dataset : Option DatasetRecipe → Option String
recipe_dataset none = none
recipe_dataset (some recipe) = some recipe.dataset_id

abbrev pub recipe_shape : Option DatasetRecipe → Option String
recipe_shape none = none
recipe_shape (some recipe) = some recipe.shape_id
