-- ===== src/Dataset/Resolve/Selected.antt =====
-- What a resolved selection holds.
use fineract_ai_reports.Prelude.{
  Option-cases, string_eq, nat_eq, All, ◌∈◌, contains, ok, ok_or, int_eq, String, ◌≡◌, ap, ◌∙◌, ◌⊎◌,
  inl, inr, Bool, true, false, none, some, List, if◌then◌else◌, Bool-cases, ◌==◌, ==→≡, All-append,
  find-some, err, >>=-eq-ok, refl, sym, ◌||◌, not, [], ◌∷◌, ◌++◌, any,
}
use fineract_ai_reports.Json.{Json, Fields, get_field, object}
use fineract_ai_reports.Knowledge.{
  parameter_type_eq, operator_eq, FilterSlot, DatasetRecipeFilter, ShapeOption, DatasetKnowledge,
  DatasetRecipe, DatasetOutputField, shape,
}
use fineract_ai_reports.Dataset.Compose.Branches.{ok_or-eq-ok}
use fineract_ai_reports.Dataset.Resolve.{
  DatasetFilterSelection, missing_parameter, is_some_of, is_exact, differ, mapped_value,
  valid_filter_value, resolve_slot, no_such_filter, needs_transient_input, find_slot,
  resolve_filters, DatasetSelection, no_such_shape, shape_output_fields, check_projection,
  order_allowed, resolve_recipe,
}

-- Where a mapping takes its value: a parameter of the request, or the recipe itself.

abbrev pub HasValue : Fields → DatasetRecipeFilter → Json → Type 0
HasValue params mapping value =
    ((name : String) × (mapping.parameter ≡ some name)
      × (mapping.value ≡ none)
      × (get_field params name ≡ some value))
    ⊎ ((mapping.parameter ≡ none) × (mapping.value ≡ some value))

-- A selected filter is one of the dataset's slots, under an operator of the slot, is no transient
-- identifier, and has a valid value of a mapping of the recipe.
pub record IsSelected (is_decimal : String → Bool) (dataset : DatasetKnowledge) (s : ShapeOption)
    (mappings : List DatasetRecipeFilter) (params : Fields) (f : DatasetFilterSelection)
    : Type 0 where
  pub slot : FilterSlot
  pub mapping : DatasetRecipeFilter
  pub declared : slot ∈ dataset.filters
  pub named : slot.id ≡ f.filter_id
  pub allowed : contains slot.operators f.operator ≡ true
  pub shown : is_exact slot.input_policy ≡ false
  pub valid : valid_filter_value is_decimal slot.kind f.operator f.value s.row_cap ≡ true
  pub mapped : mapping ∈ mappings
  pub for_slot : mapping.filter_id ≡ slot.id
  pub valued : HasValue params mapping f.value

mapped_value-ok :
    (params : Fields) (mapping : DatasetRecipeFilter) (value : Json)
    → differ (is_some_of mapping.parameter) (is_some_of mapping.value) ≡ true
    → mapped_value params mapping.parameter mapping.value ≡ ok value
    → HasValue params mapping value
mapped_value-ok params mapping value single h = elim (Option-cases mapping.parameter) [
  | inl p ↦ elim (Option-cases mapping.value) [
    | inl v ↦ cc (rw (p, v) at h)
    | inr (w, v) ↦
        let e : ok w ≡ ok value = rw (p, v) at h in
        let same : w ≡ value = cc in inr (p, v ∙ ap some same)
  ]
  | inr (name, p) ↦ elim (Option-cases mapping.value) [
    | inl v ↦
        let e : ok_or missing_parameter (get_field params name) ≡ ok value = rw p at h in
        inl (name, p, v, ok_or-eq-ok missing_parameter (get_field params name) e)
    | inr (w, v) ↦ cc (rw (p, v) at single)
  ]
]

resolve_exact-nil :
    (P : DatasetFilterSelection → Type 0) (bad : Bool) {selected : List DatasetFilterSelection}
    → (if bad then err needs_transient_input else ok []) ≡ ok selected
    → All P selected
resolve_exact-nil P true h = cc
resolve_exact-nil P false {selected} h = let same : [] ≡ selected = cc in rw (← same) tt

module _ (is_decimal : String → Bool) (dataset : DatasetKnowledge) (s : ShapeOption)
    (params : Fields) where
  abbrev Selects : List DatasetRecipeFilter → DatasetFilterSelection → Type 0
  Selects mappings f = IsSelected is_decimal dataset s mappings params f

  resolve_slot-Selected :
      (mapping : DatasetRecipeFilter) (slot : FilterSlot) (mappings : List DatasetRecipeFilter)
      (selected : List DatasetFilterSelection)
      → slot ∈ dataset.filters
      → mapping ∈ mappings
      → mapping.filter_id ≡ slot.id
      → resolve_slot is_decimal s params mapping slot ≡ ok selected
      → All (Selects mappings) selected
  resolve_slot-Selected mapping slot mappings selected declared mapped for_slot h =
      elim (Bool-cases (contains slot.operators mapping.operator)) [
        | inr disallowed ↦ cc (rw disallowed at h)
        | inl allowed ↦
            elim (Bool-cases (differ (is_some_of mapping.parameter) (is_some_of mapping.value))) [
              | inr both ↦ cc (rw (allowed, both) at h)
              | inl single ↦ elim (Bool-cases (is_exact slot.input_policy)) [
                | inl exact ↦
                    resolve_exact-nil (Selects mappings)
                      (not (is_some_of mapping.parameter) || is_some_of mapping.value)
                      (rw (allowed, single, exact) at h)
                | inr shown ↦
                    let (value, e, f) =
                      >>=-eq-ok (mapped_value params mapping.parameter mapping.value) _
                        (rw (allowed, single, shown) at h) in
                    elim (Bool-cases
                      (valid_filter_value is_decimal slot.kind mapping.operator value s.row_cap)) [
                        | inr invalid ↦ cc (rw invalid at f)
                        | inl valid ↦
                            let same : record {
                              filter_id = slot.id;
                              operator = mapping.operator;
                              value = value;
                            }
                                  ∷ []
                                ≡ selected =
                              cc (rw valid at f) in
                            rw (← same) (
                              record {
                                slot = slot;
                                mapping = mapping;
                                declared = declared;
                                named = refl;
                                allowed = allowed;
                                shown = shown;
                                valid = valid;
                                mapped = mapped;
                                for_slot = for_slot;
                                valued = mapped_value-ok params mapping value single e;
                              },
                              tt,
                            )
                      ]
              ]
            ]
      ]

  resolve_filters-Selected :
      (mappings rest : List DatasetRecipeFilter) (selected : List DatasetFilterSelection)
      → ((m : DatasetRecipeFilter) → m ∈ rest → m ∈ mappings)
      → resolve_filters is_decimal dataset s params rest ≡ ok selected
      → All (Selects mappings) selected
  resolve_filters-Selected mappings [] selected sub h =
      let same : [] ≡ selected = cc in rw (← same) tt
  resolve_filters-Selected mappings (mapping ∷ rest) selected sub h =
      let (slot, known, f) =
        >>=-eq-ok (ok_or no_such_filter (find_slot dataset mapping.filter_id)) _ h in
      let (first, e, g) = >>=-eq-ok (resolve_slot is_decimal s params mapping slot) _ f in
      let (others, k, l) = >>=-eq-ok (resolve_filters is_decimal dataset s params rest) _ g in
      let found =
        find-some (λ (q : FilterSlot). q.id == mapping.filter_id) dataset.filters
          (ok_or-eq-ok no_such_filter (find_slot dataset mapping.filter_id) known) in
      let same : first ++ others ≡ selected = cc l in
      rw (← same) (
        All-append (Selects mappings) first others
          (resolve_slot-Selected mapping slot mappings first found.1 (sub mapping (inl refl))
            (sym (==→≡ slot.id mapping.filter_id found.0)) e)
          (resolve_filters-Selected mappings rest others (λ m k. sub m (inr k)) k))

check_projection-ok :
    (fields : List DatasetOutputField) (names : List String)
    → check_projection fields names ≡ ok tt
    → All (λ name. any (λ (field : DatasetOutputField). field.name == name) fields ≡ true) names
check_projection-ok fields [] h = tt
check_projection-ok fields (name ∷ names) h =
    elim (Bool-cases (any (λ (field : DatasetOutputField). field.name == name) fields)) [
      | inl known ↦ (known, check_projection-ok fields names (rw known at h))
      | inr unknown ↦ cc (rw unknown at h)
    ]

shape-id :
    (dataset : DatasetKnowledge) (id : String) (s : ShapeOption)
    → shape dataset id ≡ some s
    → s.id ≡ id
unfolding shape
shape-id dataset id s h =
    ==→≡ s.id id (find-some (λ (q : ShapeOption). q.id == id) dataset.shapes h).0

-- A recipe and the parameters of a request resolve only for the recipe's own dataset, and only to
-- a selection that names the dataset, the shape, the order and the projection of the recipe; the
-- shape is one of the dataset and lists the order; each filter of the selection is a slot of the
-- dataset under an operator of the slot, no transient identifier, with a valid value that one
-- mapping of the recipe names; and the projection has only output fields of the shape.
pub resolve_recipe_selects :
    (is_decimal : String → Bool) (dataset : DatasetKnowledge) (recipe : DatasetRecipe)
    (params : Fields) (selection : DatasetSelection)
    → resolve_recipe is_decimal dataset recipe (object params) ≡ ok selection
    → (dataset.id ≡ recipe.dataset_id)
      × (selection.dataset_id ≡ recipe.dataset_id)
      × (selection.shape_id ≡ recipe.shape_id)
      × (selection.order_by_id ≡ recipe.order_by_id)
      × (selection.projection ≡ recipe.projection)
      × ((s : ShapeOption) × (shape dataset recipe.shape_id ≡ some s)
          × (order_allowed s selection.order_by_id ≡ true)
          × All (IsSelected is_decimal dataset s recipe.filters params) selection.filters
          × All
              (λ name.
                any
                  (λ (field : DatasetOutputField). field.name == name)
                  (shape_output_fields s dataset)
                ≡ true)
              selection.projection)
unfolding resolve_recipe
resolve_recipe_selects is_decimal dataset recipe params selection h =
    elim (Bool-cases (dataset.id == recipe.dataset_id)) [
      | inr other ↦ cc (rw other at h)
      | inl same ↦
          let (s, known, f) =
            >>=-eq-ok (ok_or no_such_shape (shape dataset recipe.shape_id)) _ (rw same at h) in
          elim (Bool-cases (order_allowed s recipe.order_by_id)) [
            | inr refused ↦ cc (rw refused at f)
            | inl allowed ↦
                let (filters, e, g) =
                  >>=-eq-ok (resolve_filters is_decimal dataset s params recipe.filters) _
                    (rw allowed at f) in
                let (u, k, l) =
                  >>=-eq-ok (check_projection (shape_output_fields s dataset) recipe.projection) _
                    g in
                let result : record {
                  dataset_id = dataset.id;
                  shape_id = s.id;
                  order_by_id = recipe.order_by_id;
                  filters = filters;
                  projection = recipe.projection;
                }
                    ≡ selection =
                  cc l in
                let found = ok_or-eq-ok no_such_shape (shape dataset recipe.shape_id) known in
                rw (← result) (
                  ==→≡ dataset.id recipe.dataset_id same,
                  ==→≡ dataset.id recipe.dataset_id same,
                  shape-id dataset recipe.shape_id s found,
                  refl,
                  refl,
                  (
                    s,
                    found,
                    allowed,
                    resolve_filters-Selected is_decimal dataset s params recipe.filters
                        recipe.filters filters (λ m k. k) e,
                    check_projection-ok (shape_output_fields s dataset) recipe.projection k,
                  ),
                )
          ]
    ]
