-- ===== src/Workflow/Compose/Visibility.antt =====
-- No field above the visible sensitivity is left in a composed source, every field that is allowed
-- stays, and the audit names exactly what was dropped.
use fineract_ai_reports.Prelude.{
  if◌then◌else◌, Bool-cases, ◌==◌, nat_eq, string_eq, any, contains, int_eq, String, ◌≡◌, refl, inl,
  inr, Bool, ◌&&◌, none, List, [], ◌∷◌, arith,
}
use fineract_ai_reports.Knowledge.{Sensitivity, parameter_type_eq}
use fineract_ai_reports.Json.{Fields, get_field, remove_field, object, get}
use fineract_ai_reports.Json.Keys.{get_field-remove_field}
use fineract_ai_reports.Workflow.Contract.{node_id_eq, NodeOutputSlot}
use fineract_ai_reports.Workflow.Compose.{exceeds, is_present, drop_slots, filter_sensitivity}

-- A slot of this name is declared above the visible sensitivity.
abbrev pub is_hidden : Sensitivity → List NodeOutputSlot → String → Bool
is_hidden max_visible slots name =
    any (λ slot. exceeds max_visible slot && (slot.name == name)) slots

get_field-drop_slots :
    (max_visible : Sensitivity) (fields : Fields) (slots : List NodeOutputSlot) (name : String)
    → get_field (drop_slots max_visible fields slots).0 name
      ≡ (if is_hidden max_visible slots name then none else get_field fields name)
unfolding drop_slots
get_field-drop_slots max_visible fields [] name = refl
get_field-drop_slots max_visible fields (slot ∷ slots) name =
    elim (Bool-cases (exceeds max_visible slot)) [
      | inl t ↦ ground (
        arith,
        get_field-drop_slots max_visible (remove_field fields slot.name) slots name,
        get_field-remove_field fields slot.name name,
      )
      | inr f ↦ ground (arith, get_field-drop_slots max_visible fields slots name)
    ]

contains-drop_slots :
    (max_visible : Sensitivity) (fields : Fields) (slots : List NodeOutputSlot) (name : String)
    → contains (drop_slots max_visible fields slots).1 name
      ≡ (is_hidden max_visible slots name && is_present (get_field fields name))
unfolding drop_slots
contains-drop_slots max_visible fields [] name = refl
contains-drop_slots max_visible fields (slot ∷ slots) name =
    elim (Bool-cases (exceeds max_visible slot)) [
      | inl t ↦ ground (
        arith,
        contains-drop_slots max_visible (remove_field fields slot.name) slots name,
        get_field-remove_field fields slot.name name,
        string_eq.eq_law slot.name name,
      )
      | inr f ↦ ground (arith, contains-drop_slots max_visible fields slots name)
    ]

-- What a composed source shows and what it reports: a declared field above `max_visible` is gone,
-- every other field is as it was, and the reported names are the hidden fields that were there.
pub filter_sensitivity_exact :
    (fields : Fields) (slots : List NodeOutputSlot) (max_visible : Sensitivity) (name : String)
    → let (shown, dropped) =
        filter_sensitivity (record { output = object fields; output_slots = slots }) max_visible in
      (get shown name ≡ (if is_hidden max_visible slots name then none else get_field fields name))
      × (contains dropped name
          ≡ (is_hidden max_visible slots name && is_present (get_field fields name)))
unfolding filter_sensitivity
filter_sensitivity_exact fields slots max_visible name = (
  get_field-drop_slots max_visible fields slots name,
  contains-drop_slots max_visible fields slots name,
)
