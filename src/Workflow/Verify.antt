-- ===== src/Workflow/Verify.antt =====
-- crates/chat/src/assistant/workflow/verify.rs: the checks that a workflow passes before it runs. The
-- workflow's graph (graph.rs) is an interface; an iterator's `sum` wraps where its type is too small.
pub mod Nodes
pub mod Whole
pub mod Accepts
pub mod Sound
pub mod Spends
use fineract_ai_reports.Prelude.{
  ltb, leb, nat_beq, if◌then◌else◌, ◌==◌, string_eq, nat_eq, find, any, Result, ok, err, ok_or,
  ◌>>=◌, codes, contains_text, int_eq, ℕ, ◌+◌, String, Bool, true, false, ◌||◌, not, Option, none,
  some, List, [], ◌∷◌,
}
use fineract_ai_reports.Knowledge.{
  ParameterType, date, integer, integer_array, string, currency, parameter_type_eq, resolver,
  QueryKnowledge, CapabilityKnowledge, ShapeOption, DatasetKnowledge, shape, KnowledgeCatalog,
}
use fineract_ai_reports.Policy.{approved}
use fineract_ai_reports.Workflow.Contract.{
  NodeId, node_id_eq, NodeKind, resolve_entity, execute_query, clarification_interrupt,
  BindingSource, safe_prior_selection, prior_step, authorized_data_probe, NodeInput, NodeOutputSlot,
  WorkflowNode, ExecutionWorkflow,
}
use fineract_ai_reports.Workflow.Compose.{sensitivity_rank}
use fineract_ai_reports.Workflow.Budget.{node_of}

pub data VerifyError : Type 0 where
  cycle unknown_resource type_incompatible_binding data_dependent_sql_identifier : VerifyError
  missing_office_scope budget_exceeded partial_results_not_permitted sensitivity_widening :
      VerifyError
  unreachable_or_orphan_node dangling_resume unbound_required_input : VerifyError
  capability_not_permitted : VerifyError

-- What `verify` asks of a `WorkflowGraph`; a set of ids is a list without repetitions.
pub record WorkflowGraph : Type 0 where
  pub is_cyclic : Bool
  pub entry_nodes : List NodeId
  pub reachable_from : NodeId → List NodeId
  pub max_runnable_width : ℕ
  pub topological_order : Option (List NodeId)
  pub has_node : NodeId → Bool

abbrev pub is_some : {A : Type 0} → Option A → Bool
is_some none = false
is_some (some a) = true

-- `parameter_type`
unfoldable pub parameter_type : String → Option ParameterType
parameter_type value =
    if value == "date"
    then some date
    else if value == "integer"
    then some integer
    else if (value == "integer_array") || (value == "array_bigint")
    then some integer_array
    else if value == "string"
    then some string
    else if (value == "currency") || (value == "decimal")
    then some currency
    else none

abbrev is_sql_char : ℕ → Bool
is_sql_char c =
    nat_beq c b' '
    || nat_beq c b';'
    || nat_beq c 34
    || nat_beq c 39
    || nat_beq c b'('
    || nat_beq c b')'
    || nat_beq c b'.'

unfoldable pub looks_like_sql_identifier : String → Bool
unfolding contains_text
looks_like_sql_identifier value =
    any is_sql_char (codes value) || contains_text (codes value) (codes "--")

abbrev pub find_dataset : KnowledgeCatalog → String → Option DatasetKnowledge
find_dataset catalog id = find (λ (d : DatasetKnowledge). d.id == id) catalog.datasets

abbrev pub find_query : KnowledgeCatalog → String → Option QueryKnowledge
find_query catalog id = find (λ (q : QueryKnowledge). q.id == id) catalog.queries

abbrev pub query_of : KnowledgeCatalog → Option String → Option QueryKnowledge
query_of catalog none = none
query_of catalog (some id) = find_query catalog id

abbrev pub reject_if : {E : Type 0} → Bool → E → Result (Unit {0}) E
reject_if true e = err e
reject_if false e = ok tt

-- Guards that return early, in their order: the first one that holds gives the error.
abbrev pub reject_any : List (Bool × VerifyError) → Result (Unit {0}) VerifyError
reject_any [] = ok tt
reject_any ((bad, e) ∷ rest) = if bad then err e else reject_any rest

-- The capability is found, approved, and agrees with the query that the node names.
abbrev pub verify_found : Option String → Option CapabilityKnowledge → Result (Unit {0}) VerifyError
verify_found query none = err unknown_resource
verify_found none (some cap) = reject_if (not (approved cap)) unknown_resource
verify_found (some query) (some cap) =
    reject_if (not (approved cap) || not (query == cap.query_id)) unknown_resource

abbrev pub verify_capability :
    KnowledgeCatalog → Option String → Option String → Result (Unit {0}) VerifyError
verify_capability catalog query none = ok tt
verify_capability catalog query (some id) =
    verify_found query (find (λ (cap : CapabilityKnowledge). cap.id == id) catalog.capabilities)

abbrev pub shape_of : Option DatasetKnowledge → String → Option ShapeOption
shape_of none id = none
shape_of (some dataset) id = shape dataset id

abbrev pub verify_shape :
    KnowledgeCatalog → Option String → Option String → Result (Unit {0}) VerifyError
verify_shape catalog none none = ok tt
verify_shape catalog (some dataset) (some id) =
    reject_if (not (is_some (shape_of (find_dataset catalog dataset) id))) unknown_resource
verify_shape catalog _ _ = err unknown_resource

abbrev pub has_unknown_query : KnowledgeCatalog → Option String → Bool
has_unknown_query catalog none = false
has_unknown_query catalog (some id) = not (is_some (find_query catalog id))

abbrev pub is_resolver : Option ShapeOption → Bool
is_resolver none = false
is_resolver (some s) = elim s.role [ resolver ↦ true | _ ↦ false ]

unfoldable pub verify_node_resources : NodeKind → KnowledgeCatalog → Result (Unit {0}) VerifyError
unfolding shape
verify_node_resources (execute_query exec) catalog =
    verify_capability catalog exec.query_id exec.capability_id >>= λ _.
    reject_if (has_unknown_query catalog exec.query_id) unknown_resource >>= λ _.
    verify_shape catalog exec.dataset_id exec.shape_id
verify_node_resources (resolve_entity node) catalog =
    reject_if
      (not (is_resolver (shape_of (find_dataset catalog node.dataset_id) node.resolver_shape_id)))
      unknown_resource
verify_node_resources _ catalog = ok tt

-- `positions.get(id)`: the last index of the id in the order
abbrev pub position_from : ℕ → List NodeId → NodeId → Option ℕ
position_from n [] id = none
position_from n (x ∷ xs) id = elim (position_from (n + 1) xs id) [
  | some k ↦ some k
  | none ↦ if x == id then some n else none
]

-- `>=` on options: `None` is below every `Some`.
abbrev pub option_ge : Option ℕ → Option ℕ → Bool
option_ge a none = true
option_ge none (some b) = false
option_ge (some a) (some b) = leb b a

abbrev pub not_before : List NodeId → NodeId → NodeId → Bool
not_before topo a b = option_ge (position_from 0 topo a) (position_from 0 topo b)

abbrev pub is_interrupt_kind : NodeKind → Bool
is_interrupt_kind (clarification_interrupt interrupt) = true
is_interrupt_kind _ = false

abbrev pub widens : NodeOutputSlot → NodeInput → WorkflowNode → Bool
widens output input consumer =
    not (output.kind == input.kind)
    || ltb (sensitivity_rank consumer.policy.max_sensitivity) (sensitivity_rank output.sensitivity)

-- The slot of an earlier node that an input is bound to.
abbrev pub verify_slot :
    NodeInput → WorkflowNode → String → Option WorkflowNode → Bool → Result (Unit {0}) VerifyError
verify_slot input consumer slot none late = err type_incompatible_binding
verify_slot input consumer slot (some producer) late =
    if late
    then err type_incompatible_binding
    else ok_or type_incompatible_binding
        (find (λ (output : NodeOutputSlot). output.name == slot) producer.outputs)
      >>= λ output. reject_if (widens output input consumer) sensitivity_widening

abbrev pub verify_selection : Option WorkflowNode → Bool → Result (Unit {0}) VerifyError
verify_selection none late = err type_incompatible_binding
verify_selection (some producer) late =
    reject_if (late || not (is_interrupt_kind producer.kind)) type_incompatible_binding

-- The match on the source of an input
abbrev pub verify_source :
    BindingSource
    → NodeInput
    → WorkflowNode
    → ExecutionWorkflow
    → List NodeId
    → Result (Unit {0}) VerifyError
verify_source (safe_prior_selection id) input consumer workflow topo =
    verify_selection (node_of workflow id) (not_before topo id consumer.id)
verify_source (prior_step node slot) input consumer workflow topo =
    verify_slot input consumer slot (node_of workflow node) (not_before topo node consumer.id)
verify_source (authorized_data_probe node slot) input consumer workflow topo =
    verify_slot input consumer slot (node_of workflow node) (not_before topo node consumer.id)
verify_source _ input consumer workflow topo = ok tt
