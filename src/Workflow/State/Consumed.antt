-- ===== src/Workflow/State/Consumed.antt =====
-- `add_budget_consumed` of workflow/state.rs: the budget ledger in the JSON state of a job.
use fineract_ai_reports.Prelude.{
  ltb, if◌then◌else◌, ◌==◌, string_eq, nat_eq, ℤ, pos, negsuc, int_eq, ℕ, ◌+◌, ◌-◌, String, Option,
  none, some,
}
use fineract_ai_reports.Json.{Json, object, Fields, get_field, insert_field, get, as_i64, and_then}
use fineract_ai_reports.Workflow.Contract.{node_id_eq}
use fineract_ai_reports.Workflow.Ledger.{value_or}
use fineract_ai_reports.Workflow.State.{JobRow, Db, update_where}
use fineract_ai_reports.Workflow.State.Jobs.{budget_json}

abbrev pub number_at : Option Json → String → ℤ
number_at none k = pos 0
number_at (some v) k = value_or (pos 0) (and_then (get v k) as_i64)

-- `state_json #>> '{workflow_runtime,budget_consumed,…}'`, cast to a number, or 0
abbrev pub consumed_at : Fields → String → ℤ
consumed_at state k =
    number_at
      (and_then (get_field state "workflow_runtime") (λ runtime. get runtime "budget_consumed")) k

abbrev pub int_add : ℤ → ℤ → ℤ
int_add (pos a) (pos b) = pos (a + b)
int_add (negsuc a) (negsuc b) = negsuc (a + b + 1)
int_add (pos a) (negsuc b) = if ltb b a then pos (a - b - 1) else negsuc (b - a)
int_add (negsuc a) (pos b) = if ltb a b then pos (b - a - 1) else negsuc (a - b)

abbrev pub insert_at : Json → String → Json → Json
insert_at (object fields) k v = object (insert_field fields k v)
insert_at other k v = other

-- `jsonb_set` writes the last key of its path if the object that the path leads to is there.
abbrev pub set_consumed : Fields → Json → Fields
set_consumed state v = elim (get_field state "workflow_runtime") [
  | some runtime ↦ insert_field state "workflow_runtime" (insert_at runtime "budget_consumed" v)
  | none ↦ state
]

-- `add_budget_consumed`
unfoldable pub add_budget_consumed : ℕ → ℤ → ℤ → ℤ → Db → Db
add_budget_consumed job queries rows ms db = record db {
  jobs =
      update_where (λ (row : JobRow). row.id == job)
        (λ row. record row {
          state_json = set_consumed row.state_json (
              budget_json (int_add (consumed_at row.state_json "queries") queries)
                (int_add (consumed_at row.state_json "rows") rows)
                (int_add (consumed_at row.state_json "ms") ms));
        })
        db.jobs;
}
