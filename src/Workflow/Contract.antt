-- ===== src/Workflow/Contract.antt =====
-- crates/chat/src/assistant/workflow/contract.rs: workflows, nodes, edges, bindings and budgets.
use fineract_ai_reports.Prelude.{
  leb, nat_beq, if◌then◌else◌, PartialEq, ◌==◌, nat_eq, string_eq, all, Result, ok, err, Text,
  codes, is_ascii_lowercase, is_ascii_digit, byte_len, int_eq, ℕ, String, ◌≡◌, ◌↔◌, Bool, true,
  false, ◌&&◌, ◌||◌, Option, List, [], ◌∷◌, arith,
}
use fineract_ai_reports.Knowledge.{Sensitivity, ParameterType, parameter_type_eq, ConstraintField}

pub record NodeId : Type 0 where
  pub name : String

abbrev pub node_id_beq : NodeId → NodeId → Bool
node_id_beq a b = a.name == b.name

pub node_id_beq_iff : (a b : NodeId) → (node_id_beq a b ≡ true) ↔ (a ≡ b)
node_id_beq_iff a b = ground (arith, string_eq.eq_law a.name b.name)

instance abbrev pub node_id_eq : PartialEq NodeId
node_id_eq = record { eq = node_id_beq; eq_law = node_id_beq_iff }

pub data NodeIdError : Type 0 where
  node_id_error : NodeIdError

abbrev pub is_node_id_char : ℕ → Bool
is_node_id_char b = is_ascii_lowercase b || is_ascii_digit b || nat_beq b b'_'

abbrev pub first_is_lowercase : Text → Bool
first_is_lowercase [] = false
first_is_lowercase (b ∷ bs) = is_ascii_lowercase b

-- `NodeId::new`. Every byte of a character that is not ASCII fails the test, as its code point does.
unfoldable pub new_node_id : String → Result NodeId NodeIdError
unfolding byte_len is_ascii_lowercase is_ascii_digit
new_node_id value =
    let bytes = codes value in
    let valid =
      leb 1 (byte_len bytes)
      && leb (byte_len bytes) 48
      && first_is_lowercase bytes
      && all is_node_id_char bytes in
    if valid then ok (record { name = value }) else err node_id_error

pub record WorkflowBudgets : Type 0 where
  pub shared_timeout_ms : ℕ  -- u64
  pub shared_row_cap : ℕ  -- u32
  pub max_query_count : ℕ  -- u8
  pub max_parallel_queries : ℕ  -- u8
  pub max_model_turns : ℕ  -- u8
  pub max_node_retries : ℕ  -- u8

pub data FailPolicy : Type 0 where
  fail_fast continue_labelled : FailPolicy

pub data OutputMode : Type 0 where
  table scalar comparison grouped not_found : OutputMode

pub record OutputContract : Type 0 where
  pub mode : OutputMode
  pub allows_partial : Bool
  pub max_sensitivity : Sensitivity

pub record ResolveEntityNode : Type 0 where
  pub dataset_id : String
  pub resolver_shape_id : String
  pub entity_kind : String
  pub probe_row_cap : ℕ  -- u32

pub record IterateOver : Type 0 where
  pub source : NodeId
  pub slot : String
  pub max : ℕ  -- u8

pub record ExecuteQueryNode : Type 0 where
  pub capability_id : Option String
  pub dataset_id : Option String
  pub shape_id : Option String
  pub query_id : Option String
  pub iterate_over : Option IterateOver

-- The arms `zero`, `one` and `many`.
pub record CardinalityBranchNode : Type 0 where
  pub source : NodeId
  pub zero_arm : NodeId
  pub one_arm : NodeId
  pub many_arm : NodeId

pub record ClarificationInterruptNode : Type 0 where
  pub clarification_kind : String
  pub option_source : NodeId
  pub resume : NodeId

pub data Composition : Type 0 where
  single comparison grouped : Composition

pub record ComposeResultNode : Type 0 where
  pub sources : List NodeId
  pub composition : Composition

pub data TerminalState : Type 0 where
  success unsupported not_found failed_operational : TerminalState

pub record CompleteNode : Type 0 where
  pub terminal : TerminalState

pub data NodeKind : Type 0 where
  resolve_entity : ResolveEntityNode → NodeKind
  execute_query : ExecuteQueryNode → NodeKind
  cardinality_branch : CardinalityBranchNode → NodeKind
  clarification_interrupt : ClarificationInterruptNode → NodeKind
  compose_result : ComposeResultNode → NodeKind
  complete : CompleteNode → NodeKind

pub data OfficeScope : Type 0 where
  authorized_intersection : OfficeScope

pub record NodePolicy : Type 0 where
  pub required_capability : Option String
  pub office_scope : OfficeScope
  pub max_sensitivity : Sensitivity
  pub pii_required : Bool

pub record NodeBudget : Type 0 where
  pub timeout_ms : ℕ  -- u64
  pub row_cap : ℕ  -- u32
  pub query_cost : ℕ  -- u8

pub data Idempotency : Type 0 where
  pure replayable execute_once : Idempotency

pub record RetryPolicy : Type 0 where
  pub max_attempts : ℕ  -- u8

-- `Zero`, `One` and `Many`.
pub data Cardinality : Type 0 where
  zero_rows one_row many_rows : Cardinality

abbrev pub cardinality_beq : Cardinality → Cardinality → Bool
cardinality_beq zero_rows zero_rows = true
cardinality_beq one_row one_row = true
cardinality_beq many_rows many_rows = true
cardinality_beq _ _ = false

pub cardinality_beq_iff : (a b : Cardinality) → (cardinality_beq a b ≡ true) ↔ (a ≡ b)
cardinality_beq_iff a b = ground arith

pub data EdgeCondition : Type 0 where
  always : EdgeCondition
  cardinality : Cardinality → EdgeCondition
  clarification_answered : EdgeCondition

pub record WorkflowEdge : Type 0 where
  pub from : NodeId
  pub to : NodeId
  pub condition : EdgeCondition

pub data BindingSource : Type 0 where
  authorized_scope catalog_default : BindingSource
  deterministic_extraction : ConstraintField → BindingSource
  verified_user_text : ConstraintField → BindingSource
  exact_sensitive_input : BindingSource
  safe_prior_selection : NodeId → BindingSource
  prior_step : NodeId → String → BindingSource
  authorized_data_probe : NodeId → String → BindingSource

pub record NodeInput : Type 0 where
  pub parameter : String
  pub kind : ParameterType
  pub source : BindingSource

pub record NodeOutputSlot : Type 0 where
  pub name : String
  pub kind : ParameterType
  pub sensitivity : Sensitivity
  pub cardinality : Cardinality

pub record WorkflowNode : Type 0 where
  pub id : NodeId
  pub kind : NodeKind
  pub inputs : List NodeInput
  pub outputs : List NodeOutputSlot
  pub policy : NodePolicy
  pub budget : NodeBudget
  pub idempotency : Idempotency
  pub retry : RetryPolicy

pub record ExecutionWorkflow : Type 0 where
  pub id : ℕ
  pub contract_version : ℕ  -- u16
  pub catalog_version : ℕ
  pub nodes : List WorkflowNode
  pub edges : List WorkflowEdge
  pub budgets : WorkflowBudgets
  pub fail_policy : FailPolicy
  pub output_contract : OutputContract
