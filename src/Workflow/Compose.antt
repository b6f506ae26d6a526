-- ===== src/Workflow/Compose.antt =====
-- crates/chat/src/assistant/workflow/run/node/compose.rs, and `sensitivity_rank` of verify.rs:
-- composition drops what the principal may not see before it merges the sources.
pub mod Visibility
use fineract_ai_reports.Prelude.{
  ltb, if◌then◌else◌, nat_eq, string_eq, Result, ok, err, ◌>>=◌, int_eq, ℕ, String, Bool, true,
  false, ◌&&◌, Option, none, some, List, [], ◌∷◌, ◌++◌,
}
use fineract_ai_reports.Knowledge.{
  Sensitivity, public_business, pii, filter_only, masked_output, never_use, parameter_type_eq,
}
use fineract_ai_reports.Json.{
  Json, array, object, Items, nil, cons, Fields, end, field, get_field, remove_field,
}
use fineract_ai_reports.Workflow.Contract.{
  node_id_eq, comparison, grouped, Composition, single, NodeOutputSlot,
}
use fineract_ai_reports.Workflow.Ledger.{RunError, compose_contract}

-- u8
unfoldable pub sensitivity_rank : Sensitivity → ℕ
sensitivity_rank public_business = 0
sensitivity_rank masked_output = 1
sensitivity_rank filter_only = 2
sensitivity_rank pii = 3
sensitivity_rank never_use = 4

pub record ComposeSource : Type 0 where
  pub output : Json
  pub output_slots : List NodeOutputSlot

pub record ComposeOutcome : Type 0 where
  pub value : Json
  pub dropped_fields : List String

abbrev pub exceeds : Sensitivity → NodeOutputSlot → Bool
exceeds max_visible slot = ltb (sensitivity_rank max_visible) (sensitivity_rank slot.sensitivity)

abbrev pub is_present : Option Json → Bool
is_present none = false
is_present (some v) = true

-- The loop over the slots: the fields that are left, and the names pushed onto `dropped`.
pub drop_slots : Sensitivity → Fields → List NodeOutputSlot → Fields × List String
drop_slots max_visible fields [] = (fields, [])
drop_slots max_visible fields (slot ∷ slots) =
    let hidden = exceeds max_visible slot in
    let (rest, names) =
      drop_slots max_visible (if hidden then remove_field fields slot.name else fields) slots in
    (rest, if hidden && is_present (get_field fields slot.name) then slot.name ∷ names else names)

abbrev filter_value : Json → List NodeOutputSlot → Sensitivity → Json × List String
filter_value (object fields) slots max_visible =
    let (rest, names) = drop_slots max_visible fields slots in (object rest, names)
filter_value value slots max_visible = (value, [])

unfoldable pub filter_sensitivity : ComposeSource → Sensitivity → Json × List String
unfolding drop_slots
filter_sensitivity source max_visible = filter_value source.output source.output_slots max_visible

abbrev pub filter_sources : List ComposeSource → Sensitivity → List Json × List String
filter_sources [] max_visible = ([], [])
filter_sources (source ∷ rest) max_visible =
    let (value, names) = filter_sensitivity source max_visible in
    let (values, more) = filter_sources rest max_visible in (value ∷ values, names ++ more)

abbrev pub to_items : List Json → Items
to_items [] = nil
to_items (v ∷ vs) = cons v (to_items vs)

-- `json!({ "sources": filtered })`
abbrev pub sources_value : List Json → Json
sources_value values = object (field "sources" (array (to_items values)) end)

-- The match on the mode and on how many sources there are.
abbrev pub merge : Composition → List Json → Result Json RunError
merge single (value ∷ []) = ok value
merge comparison (value ∷ values) = ok (sources_value (value ∷ values))
merge grouped (value ∷ values) = ok (sources_value (value ∷ values))
merge _ _ = err compose_contract

unfoldable pub compose :
    Composition → List ComposeSource → Sensitivity → Result ComposeOutcome RunError
unfolding filter_sensitivity
compose mode sources max_visible =
    let (filtered, dropped) = filter_sources sources max_visible in
    merge mode filtered >>= λ value. ok (record { value = value; dropped_fields = dropped })
