-- ===== src/Samples/Queries.antt =====
-- Examples of Dataset/Compose and Dataset/Resolve.
use fineract_ai_reports.Prelude.{
  ◌==◌, string_eq, nat_eq, length, any, All, ◌∈◌, concat, ok, err, codes, int_eq, String, ◌≡◌, refl,
  Bool, true, false, none, some, [], ◌∷◌, ◌++◌, map,
}
use fineract_ai_reports.Json.{text, object, Fields, end, field}
use fineract_ai_reports.Knowledge.{
  parameter_type_eq, QueryParameter, FilterOperator, less, between, operator_eq, ordinary,
  FilterSlot, DatasetRecipe, DatasetOutputField, ShapeOption, DatasetKnowledge, shape,
}
use fineract_ai_reports.Dataset.Grammar.{forbidden_token, validate_sql_expr, validate_identifier}
use fineract_ai_reports.Dataset.Compose.{
  template, expression, ComposedSql, invalid_expr, operator_predicate, shape_parameters, statement,
  compose,
}
use fineract_ai_reports.Dataset.Compose.Authored.{ComesFrom, compose_authored}
use fineract_ai_reports.Dataset.Compose.Numbered.{AreNumbered, slot_of, slots_of, compose_numbered}
use fineract_ai_reports.Dataset.Resolve.{
  DatasetFilterSelection, DatasetSelection, shape_output_fields, order_allowed, resolve_recipe,
}
use fineract_ai_reports.Dataset.Resolve.Selected.{IsSelected, resolve_recipe_selects}
use fineract_ai_reports.Dataset.Resolve.Bound.{compose-resolve_recipe}
use fineract_ai_reports.Samples.Values.{shape_named, dataset_of}

abbrev office_parameter : QueryParameter
office_parameter = record {
  name = "office_ids";
  kind = "array_bigint";
  required = true;
  source = some "authorized_scope";
}

abbrev due_date : FilterSlot
due_date = record {
  id = "due_date";
  expr = "c.due_date";
  kind = "date";
  case_insensitive = false;
  input_policy = ordinary;
  operators = between ∷ less ∷ [];
}

abbrev charges : DatasetKnowledge
charges = record (dataset_of (shape_named "list" ("newest" ∷ []) ∷ [])) {
  filters = due_date ∷ [];
  order_by = record { id = "newest"; expr = "c.id DESC" } ∷ [];
  parameters = office_parameter ∷ [];
}

abbrev composed_list : ComposedSql
composed_list = record {
  sql =
      statement "SELECT 1"
        (operator_predicate "c.due_date" between "::date" 2
          ++ operator_predicate "c.due_date" less "::date" 4)
        "SELECT a FROM base" (template "\nORDER BY " ∷ expression "c.id DESC" ∷ []);
  filter_binds =
      record { filter_id = "due_date"; operator = between; placeholder = 2; max_array_len = none }
      ∷ record { filter_id = "due_date"; operator = less; placeholder = 4; max_array_len = none }
      ∷ [];
}

composes_list :
    compose charges "list" (some "newest") "SELECT 1" (some "SELECT a FROM base") ≡ ok composed_list
unfolding compose validate_sql_expr validate_identifier
composes_list = refl

refuses_expression :
    compose
      (record charges { order_by = record { id = "newest"; expr = "1; DROP" } ∷ [] })
      "list"
      (some "newest")
      "SELECT 1"
      (some "SELECT a FROM base")
    ≡ err (invalid_expr (forbidden_token (codes ";")))
unfolding compose validate_sql_expr validate_identifier
refuses_expression = refl

compose_authored_example :
    All
      (ComesFrom "SELECT 1" (some "SELECT a FROM base") composed_list.filter_binds)
      composed_list.sql
compose_authored_example =
    compose_authored charges "list" (some "newest") "SELECT 1" (some "SELECT a FROM base")
      composed_list composes_list

compose_numbered_example :
    (s : ShapeOption) × (shape charges "list" ≡ some s)
    × AreNumbered (length (shape_parameters s charges)) composed_list.filter_binds
    × (map slot_of composed_list.filter_binds ≡ concat (map slots_of charges.filters))
compose_numbered_example =
    compose_numbered charges "list" (some "newest") "SELECT 1" (some "SELECT a FROM base")
      composed_list composes_list

abbrev before_parameter : DatasetRecipe
before_parameter = record {
  dataset_id = "test.dataset";
  shape_id = "list";
  order_by_id = some "newest";
  filters =
      record { filter_id = "due_date"; operator = less; parameter = some "to_date"; value = none }
      ∷ [];
  projection = [];
}

abbrev request : Fields
request = field "to_date" (text "2026-01-01") end

abbrev selected_list : DatasetSelection
selected_list = record {
  dataset_id = "test.dataset";
  shape_id = "list";
  order_by_id = some "newest";
  filters = record { filter_id = "due_date"; operator = less; value = text "2026-01-01" } ∷ [];
  projection = [];
}

abbrev no_decimal : String → Bool
no_decimal s = false

selects_list :
    resolve_recipe no_decimal charges before_parameter (object request) ≡ ok selected_list
unfolding resolve_recipe
selects_list = refl

resolve_recipe_selects_example :
    (charges.id ≡ before_parameter.dataset_id)
    × (selected_list.dataset_id ≡ before_parameter.dataset_id)
    × (selected_list.shape_id ≡ before_parameter.shape_id)
    × (selected_list.order_by_id ≡ before_parameter.order_by_id)
    × (selected_list.projection ≡ before_parameter.projection)
    × ((s : ShapeOption) × (shape charges before_parameter.shape_id ≡ some s)
        × (order_allowed s selected_list.order_by_id ≡ true)
        × All
            (IsSelected no_decimal charges s before_parameter.filters request)
            selected_list.filters
        × All
            (λ name.
              any
                (λ (field : DatasetOutputField). field.name == name)
                (shape_output_fields s charges)
              ≡ true)
            selected_list.projection)
resolve_recipe_selects_example =
    resolve_recipe_selects no_decimal charges before_parameter request selected_list selects_list

compose-resolve_recipe_example :
    All
      (λ (f : DatasetFilterSelection).
        ◌∈◌ {A = String × FilterOperator}
          (f.filter_id, f.operator)
          (map slot_of composed_list.filter_binds))
      selected_list.filters
compose-resolve_recipe_example =
    compose-resolve_recipe no_decimal charges before_parameter request selected_list "SELECT 1"
      (some "SELECT a FROM base") composed_list selects_list composes_list
