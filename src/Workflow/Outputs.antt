-- ===== src/Workflow/Outputs.antt =====
-- What enters and leaves a workflow as JSON, under crates/chat/src/assistant/workflow: the search for
-- SQL in a proposal (`contains_sql` of contract.rs) and the typed outputs of the executor
-- (run/node/execute_query.rs and run/node/resolve_entity.rs).
pub mod Bounded
use fineract_ai_reports.Prelude.{
  ltb, leb, if◌then◌else◌, string_eq, nat_eq, any, Result, ok, err, ok_or, ◌>>=◌, codes,
  contains_text, pos, int_eq, ℕ, ◌+◌, String, Bool, false, ◌&&◌, ◌||◌, List, [], ◌∷◌, map,
}
use fineract_ai_reports.Json.{
  Json, null, bool, integer, float, text, array, object, Items, nil, cons, Fields, end, field, get,
  as_array, count_items, and_then,
}

-- `to_ascii_lowercase` of a character
abbrev pub to_lower : ℕ → ℕ
to_lower c = if leb b'A' c && leb c b'Z' then c + 32 else c

abbrev pub sql_needles : List String
sql_needles = "select " ∷ "insert " ∷ "update " ∷ "delete " ∷ " from " ∷ ";--" ∷ []

unfoldable pub reads_as_sql : String → Bool
unfolding contains_text
reads_as_sql value =
    any (λ needle. contains_text (map to_lower (codes value)) (codes needle)) sql_needles

unfoldable mutual
  pub contains_sql : Json → Bool
  contains_sql (text value) = reads_as_sql value
  contains_sql (array values) = any_item_sql values
  contains_sql (object fields) = any_field_sql fields
  contains_sql null = false
  contains_sql (bool b) = false
  contains_sql (integer n) = false
  contains_sql (float f) = false

  pub any_item_sql : Items → Bool
  any_item_sql nil = false
  any_item_sql (cons v rest) = contains_sql v || any_item_sql rest

  pub any_field_sql : Fields → Bool
  any_field_sql end = false
  any_field_sql (field k v rest) = contains_sql v || any_field_sql rest

pub data OutputError : Type 0 where
  no_rows exceeded_row_cap resolver_exceeds_row_cap : OutputError

unfoldable pub typed_query_output : Json → ℕ → Result Json OutputError
typed_query_output result row_cap =
    ok_or no_rows (and_then (get result "rows") as_array) >>= λ rows.
    (if ltb row_cap (count_items rows) then err exceeded_row_cap else ok result)

unfoldable pub typed_resolver_output : Items → ℕ → Result Json OutputError
typed_resolver_output rows row_cap =
    if ltb row_cap (count_items rows)
    then err resolver_exceeds_row_cap
    else ok (
        object
          (field "row_count" (integer (pos (count_items rows))) (field "rows" (array rows) end)))
