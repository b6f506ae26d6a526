-- ===== src/Dataset/Resolve/Bound.antt =====
-- A composed statement has a place for each filter of a resolved selection.
use fineract_ai_reports.Prelude.{
  string_eq, nat_eq, All, ◌∈◌, concat, contains→mem, mem-append_left, mem-append_right, All-weaken,
  ok, int_eq, String, ◌≡◌, ap, inl, inr, Bool, Option, List, [], ◌∷◌, map,
}
use fineract_ai_reports.Json.{object, Fields}
use fineract_ai_reports.Knowledge.{
  parameter_type_eq, FilterOperator, operator_eq, FilterSlot, DatasetRecipe, DatasetKnowledge,
}
use fineract_ai_reports.Dataset.Compose.{ComposedSql, compose}
use fineract_ai_reports.Dataset.Compose.Numbered.{slot_of, slots_of, compose_numbered}
use fineract_ai_reports.Dataset.Resolve.{DatasetFilterSelection, DatasetSelection, resolve_recipe}
use fineract_ai_reports.Dataset.Resolve.Selected.{resolve_recipe_selects}

mem-slots_of :
    (slot : FilterSlot) (operators : List FilterOperator) (operator : FilterOperator)
    → operator ∈ operators
    → ◌∈◌ {A = String × FilterOperator} (slot.id, operator) (map (λ o. (slot.id, o)) operators)
mem-slots_of slot [] operator m = absurd m
mem-slots_of slot (o ∷ os) operator (inl e) = inl (ap (λ p. (slot.id, p)) e)
mem-slots_of slot (o ∷ os) operator (inr m) = inr (mem-slots_of slot os operator m)

mem-concat_slots :
    (slots : List FilterSlot) (slot : FilterSlot) (operator : FilterOperator)
    → slot ∈ slots
    → operator ∈ slot.operators
    → ◌∈◌ {A = String × FilterOperator} (slot.id, operator) (concat (map slots_of slots))
mem-concat_slots [] slot operator m k = absurd m
mem-concat_slots (s ∷ ss) slot operator (inl e) k =
    mem-append_left (slot.id, operator) (slots_of s) (concat (map slots_of ss))
      (rw (← e) (mem-slots_of slot slot.operators operator k))
mem-concat_slots (s ∷ ss) slot operator (inr m) k =
    mem-append_right (slot.id, operator) (slots_of s) (concat (map slots_of ss))
      (mem-concat_slots ss slot operator m k)

-- Each filter of a selection that a recipe resolves to has a place among the binds of whatever
-- statement is composed for the same dataset, so no selected filter is lost on the way to the
-- statement.
pub compose-resolve_recipe :
    (is_decimal : String → Bool) (dataset : DatasetKnowledge) (recipe : DatasetRecipe)
    (params : Fields) (selection : DatasetSelection) (source : String) (fragment : Option String)
    (composed : ComposedSql)
    → resolve_recipe is_decimal dataset recipe (object params) ≡ ok selection
    → compose dataset selection.shape_id selection.order_by_id source fragment ≡ ok composed
    → All
        (λ (f : DatasetFilterSelection).
          ◌∈◌ {A = String × FilterOperator}
            (f.filter_id, f.operator)
            (map slot_of composed.filter_binds))
        selection.filters
compose-resolve_recipe is_decimal dataset recipe params selection source fragment composed h k =
    let (same, d, i, o, p, (s, found, ordered, filters, fields)) =
      resolve_recipe_selects is_decimal dataset recipe params selection h in
    let (t, known, numbered, slots) =
      compose_numbered dataset selection.shape_id selection.order_by_id source fragment composed
        k in
    All-weaken
      (λ f d. rw slots (
        rw (← d.named) (
          mem-concat_slots dataset.filters d.slot f.operator d.declared
            (contains→mem d.slot.operators f.operator d.allowed))))
      selection.filters filters
