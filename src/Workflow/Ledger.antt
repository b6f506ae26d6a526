-- ===== src/Workflow/Ledger.antt =====
-- The node runs of a job: `NodeRunStatus` and `WorkflowNodeRun` of workflow/state.rs, and what
-- workflow/run.rs and run/node/branch.rs read from them. Under crates/chat/src/assistant.
pub mod Decisions
use fineract_ai_reports.Prelude.{
  ltb, leb, if◌then◌else◌, ◌==◌, nat_eq, string_eq, filter, find_last, Result, ok, err, ◌>>=◌,
  ok_or, ℤ, pos, negsuc, int_eq, ℕ, zero, suc, ◌+◌, String, Bool, true, false, ◌&&◌, Option, none,
  some, List, [], ◌∷◌, map,
}
use fineract_ai_reports.Json.{Json, get, as_str, as_i64, and_then}
use fineract_ai_reports.Workflow.Contract.{
  NodeId, node_id_eq, Cardinality, zero_rows, one_row, many_rows,
}

pub data NodeRunStatus : Type 0 where
  runnable running completed failed skipped waiting : NodeRunStatus

abbrev pub is_completed_status : NodeRunStatus → Bool
is_completed_status completed = true
is_completed_status _ = false

abbrev pub is_active_status : NodeRunStatus → Bool
is_active_status running = true
is_active_status waiting = true
is_active_status _ = false

pub record WorkflowNodeRun : Type 0 where
  pub id : ℕ
  pub job_id : ℕ
  pub workflow_id : ℕ
  pub node_id : NodeId
  pub attempt : ℤ  -- i16
  pub status : NodeRunStatus
  pub output_json : Option Json
  pub provenance_json : Json
  pub rows_returned : ℤ  -- i32
  pub duration_ms : Option ℤ  -- i32
  pub started_at : Option ℕ
  pub finished_at : Option ℕ

-- What the runner and its nodes `bail!` with.
pub data RunError : Type 0 where
  branch_source_incomplete branch_decision_invalid branch_row_count_invalid : RunError
  capability_unavailable policy_denied : RunError
  output_missing output_slot_missing compose_source_missing : RunError
  compose_contract execute_once_twice pause_stale state_failed executor_failed : RunError

abbrev pub is_completed : WorkflowNodeRun → Bool
is_completed run = is_completed_status run.status

abbrev pub completes : NodeId → WorkflowNodeRun → Bool
completes node run = (run.node_id == node) && is_completed run

-- `completed_ids`; a set of ids is a list, and is only asked whether it contains one.
unfoldable pub completed_ids : List WorkflowNodeRun → List NodeId
completed_ids runs = map (λ run. run.node_id) (filter is_completed runs)

unfoldable pub completed_run : WorkflowNodeRun → ℤ → Json → ℤ → WorkflowNodeRun
completed_run run duration_ms output_json rows_returned = record run {
  status = completed;
  duration_ms = some duration_ms;
  output_json = some output_json;
  rows_returned = rows_returned;
}

abbrev pub decode_cardinality : String → Result Cardinality RunError
decode_cardinality decision =
    if decision == "zero"
    then ok zero_rows
    else if decision == "one"
    then ok one_row
    else if decision == "many"
    then ok many_rows
    else err branch_decision_invalid

abbrev pub count_cardinality : ℤ → Result Cardinality RunError
count_cardinality (pos zero) = ok zero_rows
count_cardinality (pos (suc zero)) = ok one_row
count_cardinality (pos (suc (suc n))) = ok many_rows
count_cardinality (negsuc n) = err branch_row_count_invalid

abbrev pub value_or : {A : Type 0} → A → Option A → A
value_or d none = d
value_or d (some a) = a

-- The decision that a branch run recorded, or the row count of a data run.
abbrev pub run_cardinality : WorkflowNodeRun → Result Cardinality RunError
run_cardinality run =
    elim (and_then (and_then run.output_json (λ output. get output "cardinality")) as_str) [
      | some decision ↦ decode_cardinality decision
      | none ↦ count_cardinality (
          value_or run.rows_returned
            (and_then (and_then run.output_json (λ output. get output "row_count")) as_i64))
    ]

-- `cardinality_for` of run/node/branch.rs
unfoldable pub cardinality_for : List WorkflowNodeRun → NodeId → Result Cardinality RunError
cardinality_for runs source =
    ok_or branch_source_incomplete (find_last (completes source) runs) >>= run_cardinality

-- `node_output` and `output_slot` of run.rs
unfoldable pub node_output : List WorkflowNodeRun → NodeId → Result Json RunError
node_output runs node =
    ok_or output_missing (and_then (find_last (completes node) runs) (λ run. run.output_json))

unfoldable pub output_slot : List WorkflowNodeRun → NodeId → String → Result Json RunError
output_slot runs node slot = ok_or output_slot_missing (
    and_then (and_then (find_last (completes node) runs) (λ run. run.output_json))
      (λ output. get output slot))

abbrev pub i16_max : ℕ
i16_max = 32767

-- `attempt + 1` on `i16`, which wraps
abbrev pub next_i16 : ℤ → ℤ
next_i16 (pos n) = if ltb n i16_max then pos (n + 1) else negsuc i16_max
next_i16 (negsuc zero) = pos 0
next_i16 (negsuc (suc n)) = negsuc n

abbrev pub max_int : ℤ → ℤ → ℤ
max_int (pos a) (pos b) = if leb a b then pos b else pos a
max_int (pos a) (negsuc b) = pos a
max_int (negsuc a) (pos b) = pos b
max_int (negsuc a) (negsuc b) = if leb b a then negsuc b else negsuc a

abbrev max_attempt : List WorkflowNodeRun → Option ℤ
max_attempt [] = none
max_attempt (run ∷ rest) = elim (max_attempt rest) [
  | none ↦ some run.attempt
  | some best ↦ some (max_int run.attempt best)
]

-- `next_attempt`
unfoldable pub next_attempt : List WorkflowNodeRun → NodeId → ℤ
next_attempt runs node_id = elim (max_attempt (filter (λ run. run.node_id == node_id) runs)) [
  | none ↦ pos 0
  | some attempt ↦ next_i16 attempt
]
