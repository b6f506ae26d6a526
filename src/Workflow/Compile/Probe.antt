-- ===== src/Workflow/Compile/Probe.antt =====
-- The arms of `acquisition_source` of compile.rs that add nodes: a resolver with a branch on what it
-- finds, and a question.
use fineract_ai_reports.Prelude.{
  if◌then◌else◌, ◌==◌, string_eq, nat_eq, find, Result, ok, ok_or, ◌>>=◌, append, int_eq, zero,
  String, Bool, false, ◌&&◌, Option, none, some, List, [], ◌∷◌,
}
use fineract_ai_reports.Knowledge.{
  pii, ParameterType, date, integer, integer_array, string, currency, parameter_type_eq, ProbeRef,
  operator_eq, CapabilityKnowledge, EntityMetadata, SlotCardinality, zero, one, many, ProducedSlot,
  ShapeOption, DatasetKnowledge, shape, KnowledgeCatalog,
}
use fineract_ai_reports.Policy.{approved}
use fineract_ai_reports.Workflow.Contract.{
  NodeId, node_id_eq, new_node_id, not_found, NodeKind, resolve_entity, cardinality_branch,
  clarification_interrupt, complete, authorized_intersection, NodePolicy, NodeBudget, Idempotency,
  pure, replayable, execute_once, Cardinality, zero_rows, one_row, many_rows, EdgeCondition, always,
  cardinality, clarification_answered, WorkflowEdge, BindingSource, authorized_scope,
  safe_prior_selection, authorized_data_probe, NodeInput, WorkflowNode,
}
use fineract_ai_reports.Workflow.Verify.{find_dataset}
use fineract_ai_reports.Workflow.Compile.{
  CompileError, invalid_proposal, option_beq, node_id, recipe_dataset, recipe_shape,
}
use fineract_ai_reports.Workflow.Compile.Proposal.{may_resolve}

-- A binding, and what is pushed for it to the nodes and the edges

pub record Acquired : Type 0 where
  pub source : BindingSource
  pub nodes : List WorkflowNode
  pub edges : List WorkflowEdge

abbrev pub bound_to : BindingSource → Acquired
bound_to source = record { source = source; nodes = []; edges = [] }

-- `policy`
abbrev pub open_policy : Option String → NodePolicy
open_policy capability = record {
  required_capability = capability;
  office_scope = authorized_intersection;
  max_sensitivity = pii;
  pii_required = false;
}

abbrev pub no_cost : NodeBudget
no_cost = record { timeout_ms = 0; row_cap = 0; query_cost = 0 }

-- A node without inputs, outputs and cost
abbrev pub control_node : NodeId → NodeKind → Idempotency → WorkflowNode
control_node id kind idempotency = record {
  id = id;
  kind = kind;
  inputs = [];
  outputs = [];
  policy = open_policy none;
  budget = no_cost;
  idempotency = idempotency;
  retry = record { max_attempts = 0 };
}

abbrev pub scope_input : NodeInput
scope_input = record { parameter = "office_ids"; kind = integer_array; source = authorized_scope }

-- `parse_kind`
unfoldable pub parse_kind : String → ParameterType
parse_kind kind =
    if kind == "date"
    then date
    else if kind == "integer_array"
    then integer_array
    else if kind == "string"
    then string
    else if kind == "currency"
    then currency
    else integer

-- `map_cardinality`
abbrev pub map_cardinality : SlotCardinality → Cardinality
map_cardinality zero = zero_rows
map_cardinality one = one_row
map_cardinality many = many_rows

abbrev pub unwrap_or : {A : Type 0} → A → Option A → A
unwrap_or default none = default
unwrap_or default (some a) = a

abbrev pub entity_kind_of : Option EntityMetadata → String
entity_kind_of none = "entity"
entity_kind_of (some entity) = entity.kind

abbrev pub edge_to : NodeId → NodeId → EdgeCondition → WorkflowEdge
edge_to from to condition = record { from = from; to = to; condition = condition }

abbrev pub selects : ProbeRef → CapabilityKnowledge → Bool
selects p capability =
    option_beq (recipe_dataset capability.dataset_recipe) (some p.dataset_id)
    && option_beq (recipe_shape capability.dataset_recipe) (some p.shape_id)

abbrev pub resolver_node :
    NodeId → DatasetKnowledge → ShapeOption → ProducedSlot → CapabilityKnowledge → WorkflowNode
resolver_node id dataset s output backing = record {
  id = id;
  kind = resolve_entity (record {
    dataset_id = dataset.id;
    resolver_shape_id = s.id;
    entity_kind = entity_kind_of dataset.entity;
    probe_row_cap = unwrap_or 25 s.row_cap;
  });
  inputs = scope_input ∷ [];
  outputs =
      record {
        name = output.slot;
        kind = parse_kind output.kind;
        sensitivity = output.sensitivity;
        cardinality = map_cardinality output.cardinality;
      }
      ∷ [];
  policy = open_policy (some backing.id);
  budget = record {
    timeout_ms = unwrap_or 5000 dataset.timeout_ms;
    row_cap = unwrap_or 25 s.row_cap;
    query_cost = 1;
  };
  idempotency = execute_once;
  retry = record { max_attempts = 0 };
}

-- `shape(id).filter(may resolve)`
abbrev pub resolving : Option ShapeOption → Option ShapeOption
resolving s = if may_resolve s then s else none

-- The arm of `AuthorizedDataProbe` once it has a probe
unfoldable pub acquire_probe :
    KnowledgeCatalog → NodeId → String → ProbeRef → Result Acquired CompileError
unfolding shape parse_kind new_node_id
acquire_probe catalog execute name p =
    ok_or invalid_proposal (find_dataset catalog p.dataset_id) >>= λ dataset.
    ok_or invalid_proposal (resolving (shape dataset p.shape_id)) >>= λ s.
    node_id (append "resolve_" name) >>= λ id.
    ok_or invalid_proposal (find (λ (o : ProducedSlot). o.slot == p.output_slot) s.produces)
    >>= λ output.
        ok_or invalid_proposal
          (find (λ (c : CapabilityKnowledge). approved c && selects p c) catalog.capabilities)
        >>= λ backing. node_id (append "branch_" name) >>= λ branch_id.
            node_id (append "not_found_" name) >>= λ not_found_id.
            node_id (append "select_" name) >>= λ select_id. ok (record {
              source = authorized_data_probe id p.output_slot;
              nodes =
                  resolver_node id dataset s output backing
                  ∷ control_node branch_id
                      (cardinality_branch (record {
                        source = id;
                        zero_arm = not_found_id;
                        one_arm = execute;
                        many_arm = select_id;
                      }))
                      pure
                  ∷ control_node not_found_id (complete (record { terminal = not_found })) pure
                  ∷ control_node select_id
                      (clarification_interrupt (record {
                        clarification_kind = "select_entity";
                        option_source = id;
                        resume = execute;
                      }))
                      replayable
                  ∷ [];
              edges =
                  edge_to id branch_id always
                  ∷ edge_to branch_id not_found_id (cardinality zero_rows)
                  ∷ edge_to branch_id execute (cardinality one_row)
                  ∷ edge_to branch_id select_id (cardinality many_rows)
                  ∷ edge_to select_id execute clarification_answered
                  ∷ [];
            })

-- The arm of `Clarify`
unfoldable pub acquire_answer : NodeId → String → Result Acquired CompileError
unfolding new_node_id
acquire_answer execute name = node_id (append "clarify_" name) >>= λ id. ok (record {
  source = safe_prior_selection id;
  nodes =
      control_node id
        (clarification_interrupt (record {
          clarification_kind = "collect_fields";
          option_source = execute;
          resume = execute;
        }))
        replayable
      ∷ [];
  edges = edge_to id execute clarification_answered ∷ [];
})
