-- ===== src/Dataset/Resolve.antt =====
-- crates/chat/src/knowledge/dataset/resolve.rs: a capability's recipe with the request's parameters
-- becomes a selection of the dataset. Whether a text is a decimal is the decimal library's answer.
pub mod Selected
pub mod Bound
use fineract_ai_reports.Prelude.{
  ltb, leb, nat_beq, if◌then◌else◌, ◌==◌, string_eq, nat_eq, is_empty, find, any, contains, Result,
  ok, err, ok_or, ◌>>=◌, int_eq, ℕ, String, Bool, true, false, ◌&&◌, ◌||◌, not, Option, none, some,
  List, [], ◌∷◌, ◌++◌,
}
use fineract_ai_reports.Json.{
  Json, bool, text, object, Items, nil, cons, Fields, field, get_field, as_i64, as_array,
  count_items,
}
use fineract_ai_reports.Knowledge.{
  parameter_type_eq, FilterOperator, in_list, between, operator_eq, FilterInputPolicy, ordinary,
  exact_identifier, FilterSlot, DatasetRecipeFilter, DatasetRecipe, DatasetOutputField, ShapeOption,
  DatasetKnowledge, shape,
}

pub record DatasetFilterSelection : Type 0 where
  pub filter_id : String
  pub operator : FilterOperator
  pub value : Json

pub record DatasetSelection : Type 0 where
  pub dataset_id : String
  pub shape_id : String
  pub order_by_id : Option String
  pub filters : List DatasetFilterSelection
  pub projection : List String

pub data ResolveError : Type 0 where
  other_dataset no_such_shape order_not_allowed parameters_not_an_object : ResolveError
  no_such_filter operator_not_allowed not_one_value_source : ResolveError
  needs_transient_input missing_parameter invalid_value no_such_output_field : ResolveError

-- `ShapeOption::output_fields`
unfoldable pub shape_output_fields : ShapeOption → DatasetKnowledge → List DatasetOutputField
shape_output_fields s dataset =
    if is_empty s.output_fields then dataset.output_fields else s.output_fields

abbrev pub is_string : Json → Bool
is_string (text s) = true
is_string _ = false

abbrev pub is_boolean : Json → Bool
is_boolean (bool b) = true
is_boolean _ = false

abbrev pub is_some_of : {A : Type 0} → Option A → Bool
is_some_of none = false
is_some_of (some a) = true

abbrev pub is_exact : FilterInputPolicy → Bool
is_exact exact_identifier = true
is_exact ordinary = false

abbrev pub differ : Bool → Bool → Bool
differ a b = if a then not b else b

-- The value of a mapping that names exactly one source
abbrev pub mapped_value : Fields → Option String → Option Json → Result Json ResolveError
mapped_value params (some parameter) value = ok_or missing_parameter (get_field params parameter)
mapped_value params none (some value) = ok value
mapped_value params none none = err not_one_value_source

abbrev pub find_slot : DatasetKnowledge → String → Option FilterSlot
find_slot dataset id = find (λ (slot : FilterSlot). slot.id == id) dataset.filters

abbrev pub check_projection : List DatasetOutputField → List String → Result (Unit {0}) ResolveError
check_projection fields [] = ok tt
check_projection fields (name ∷ names) =
    if any (λ (field : DatasetOutputField). field.name == name) fields
    then check_projection fields names
    else err no_such_output_field

abbrev pub order_allowed : ShapeOption → Option String → Bool
order_allowed s none = true
order_allowed s (some id) = contains s.order_by id

abbrev pub as_object : Json → Option Fields
as_object (object fields) = some fields
as_object _ = none

module _ (is_decimal : String → Bool) where
  abbrev pub is_decimal_text : Json → Bool
  is_decimal_text (text s) = is_decimal s
  is_decimal_text _ = false

  -- `valid_scalar`
  unfoldable pub valid_scalar : String → Json → Bool
  valid_scalar kind value =
      if (kind == "date") || (kind == "string")
      then is_string value
      else if kind == "integer"
      then is_some_of (as_i64 value)
      else if kind == "boolean"
      then is_boolean value
      else if kind == "decimal"
      then is_decimal_text value
      else false

  abbrev pub all_scalars : String → Items → Bool
  all_scalars kind nil = true
  all_scalars kind (cons value rest) = valid_scalar kind value && all_scalars kind rest

  abbrev pub is_range : String → Option Items → Bool
  is_range kind none = false
  is_range kind (some values) = nat_beq (count_items values) 2 && all_scalars kind values

  abbrev pub is_bounded_list : String → Option ℕ → Option Items → Bool
  is_bounded_list kind none values = false
  is_bounded_list kind (some cap) none = false
  is_bounded_list kind (some cap) (some values) =
      ltb 0 (count_items values) && leb (count_items values) cap && all_scalars kind values

  -- `valid_filter_value`
  unfoldable pub valid_filter_value : String → FilterOperator → Json → Option ℕ → Bool
  unfolding valid_scalar
  valid_filter_value kind between value row_cap = is_range kind (as_array value)
  valid_filter_value kind in_list value row_cap = is_bounded_list kind row_cap (as_array value)
  valid_filter_value kind operator value row_cap = valid_scalar kind value

  -- What is pushed for a mapping whose slot is known: nothing for a transient identifier
  abbrev pub resolve_slot :
      ShapeOption
      → Fields
      → DatasetRecipeFilter
      → FilterSlot
      → Result (List DatasetFilterSelection) ResolveError
  resolve_slot s params mapping slot =
      if not (contains slot.operators mapping.operator)
      then err operator_not_allowed
      else if not (differ (is_some_of mapping.parameter) (is_some_of mapping.value))
      then err not_one_value_source
      else if is_exact slot.input_policy
      then if not (is_some_of mapping.parameter) || is_some_of mapping.value
        then err needs_transient_input
        else ok []
      else mapped_value params mapping.parameter mapping.value >>= λ value.
          (if not (valid_filter_value slot.kind mapping.operator value s.row_cap)
            then err invalid_value
            else ok
                (record { filter_id = slot.id; operator = mapping.operator; value = value } ∷ []))

  -- The loop over the mappings of the recipe
  abbrev pub resolve_filters :
      DatasetKnowledge
      → ShapeOption
      → Fields
      → List DatasetRecipeFilter
      → Result (List DatasetFilterSelection) ResolveError
  resolve_filters dataset s params [] = ok []
  resolve_filters dataset s params (mapping ∷ rest) =
      ok_or no_such_filter (find_slot dataset mapping.filter_id) >>= λ slot.
      resolve_slot s params mapping slot >>= λ selected.
      resolve_filters dataset s params rest >>= λ others. ok (selected ++ others)

  unfoldable pub resolve_recipe :
      DatasetKnowledge → DatasetRecipe → Json → Result DatasetSelection ResolveError
  unfolding shape valid_filter_value shape_output_fields
  resolve_recipe dataset recipe params =
      if not (dataset.id == recipe.dataset_id)
      then err other_dataset
      else ok_or no_such_shape (shape dataset recipe.shape_id) >>= λ s.
          (if not (order_allowed s recipe.order_by_id)
            then err order_not_allowed
            else ok_or parameters_not_an_object (as_object params) >>= λ fields.
                resolve_filters dataset s fields recipe.filters >>= λ filters.
                check_projection (shape_output_fields s dataset) recipe.projection >>= λ _.
                ok (record {
                  dataset_id = dataset.id;
                  shape_id = s.id;
                  order_by_id = recipe.order_by_id;
                  filters = filters;
                  projection = recipe.projection;
                }))
