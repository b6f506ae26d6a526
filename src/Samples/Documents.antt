-- ===== src/Samples/Documents.antt =====
-- Examples of Workflow/Outputs.
use fineract_ai_reports.Prelude.{string_eq, nat_eq, pos, int_eq, ◌≡◌, refl, true}
use fineract_ai_reports.Json.{Json, integer, text, array, object, Items, nil, cons, end, field}
use fineract_ai_reports.Workflow.Contract.{node_id_eq}
use fineract_ai_reports.Workflow.Outputs.{reads_as_sql, contains_sql}

abbrev hostile : Json
hostile = object (field "parameters" (array (cons (text "SELECT * FROM m_client") nil)) end)

finds_sql : contains_sql hostile ≡ true
unfolding contains_sql reads_as_sql
finds_sql = refl

abbrev two_rows : Items
two_rows = cons (integer (pos 1)) (cons (integer (pos 2)) nil)

abbrev rows_result : Json
rows_result = object (field "rows" (array two_rows) end)

abbrev resolved_rows : Json
resolved_rows = object (field "row_count" (integer (pos 2)) (field "rows" (array two_rows) end))
