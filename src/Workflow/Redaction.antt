-- ===== src/Workflow/Redaction.antt =====
-- `persisted_output` of crates/chat/src/assistant/workflow/state.rs: values of sensitive inputs
-- never reach the durable output of a node.
pub mod Laws
use fineract_ai_reports.Prelude.{
  if◌then◌else◌, nat_eq, string_eq, is_empty, filter, int_eq, String, Bool, true, false, List, map,
}
use fineract_ai_reports.Json.{
  Json, null, bool, integer, float, text, array, object, Items, nil, cons, Fields, end, field,
  remove_fields,
}
use fineract_ai_reports.Workflow.Contract.{
  node_id_eq, BindingSource, exact_sensitive_input, NodeInput,
}

abbrev pub is_exact_sensitive : BindingSource → Bool
is_exact_sensitive exact_sensitive_input = true
is_exact_sensitive _ = false

-- The loop over an object's keys and the loop over what is left touch different entries, so the
-- nested values are redacted first here.
unfoldable mutual
  pub redact_fields : List String → Json → Json
  redact_fields keys (object fields) = object (remove_fields (redact_values keys fields) keys)
  redact_fields keys (array items) = array (redact_items keys items)
  redact_fields keys null = null
  redact_fields keys (bool b) = bool b
  redact_fields keys (integer n) = integer n
  redact_fields keys (float f) = float f
  redact_fields keys (text s) = text s

  pub redact_items : List String → Items → Items
  redact_items keys nil = nil
  redact_items keys (cons v rest) = cons (redact_fields keys v) (redact_items keys rest)

  pub redact_values : List String → Fields → Fields
  redact_values keys end = end
  redact_values keys (field k v rest) = field k (redact_fields keys v) (redact_values keys rest)

abbrev pub sensitive_fields : List NodeInput → List String
sensitive_fields inputs =
    map (λ input. input.parameter) (filter (λ input. is_exact_sensitive input.source) inputs)

unfoldable pub persisted_output : List NodeInput → Json → Json
persisted_output inputs output =
    let keys = sensitive_fields inputs in
    if is_empty keys then output else redact_fields keys output
