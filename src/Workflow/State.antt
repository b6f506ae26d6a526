-- ===== src/Workflow/State.antt =====
-- `WorkflowStateRepository` of crates/chat/src/assistant/workflow/state.rs: the tables that its
-- statements read and write. An `UPDATE … WHERE` rewrites the rows that pass and counts them; a
-- transaction that fails leaves the database as it was. New ids and times are arguments.
pub mod Jobs
pub mod Consumed
mod Updates
pub mod Resuming
pub mod Pausing
use fineract_ai_reports.Prelude.{
  if◌then◌else◌, ◌==◌, nat_eq, string_eq, is_empty, Result, ok, err, ℤ, pos, int_eq, ℕ, ◌+◌, String,
  Bool, true, false, ◌&&◌, not, Option, none, some, List, [], ◌∷◌, ◌++◌, contains, ltb, leb,
  nat_beq, filter, ◌||◌,
}
use fineract_ai_reports.Json.{
  Json, integer, text, array, object, Items, nil, cons, Fields, end, field,
}
use fineract_ai_reports.Workflow.Contract.{NodeId, node_id_eq}
use fineract_ai_reports.Workflow.Ledger.{
  NodeRunStatus, running, completed, failed, WorkflowNodeRun, RunError, state_failed,
}

-- The fields of `ClarificationPayload` that the workflow reads or sets.
pub record ClarificationPayload : Type 0 where
  pub id : ℕ
  pub workflow_id : Option ℕ
  pub node_id : Option String
  pub entity_kind : Option String
  pub resume_node_id : Option String

-- A row of `chat_jobs`
pub record JobRow : Type 0 where
  pub id : ℕ
  pub user_id : ℕ
  pub status : String
  pub current_step : String
  pub workflow_id : Option ℕ
  pub workflow_contract_version : ℕ
  pub workflow_revision : ℕ  -- i64
  pub current_node_id : Option String
  pub state_json : Fields

-- A row of `assistant_job_memory`; the stored JSON of a payload is the payload.
pub record MemoryRow : Type 0 where
  pub job_id : ℕ
  pub pending_clarification : Option ClarificationPayload

-- A row of `chat_job_checkpoints` or `chat_job_events`.
pub record LogRow : Type 0 where
  pub job_id : ℕ
  pub step : Option String
  pub kind : String
  pub payload : Json

pub record Db : Type 0 where
  pub jobs : List JobRow
  pub memory : List MemoryRow
  pub node_runs : List WorkflowNodeRun
  pub checkpoints : List LogRow
  pub events : List LogRow

-- `UPDATE`, and how many rows it affects
abbrev pub update_where {ℓ} : {A : Type ℓ} → (A → Bool) → (A → A) → List A → List A
update_where test change [] = []
update_where test change (row ∷ rows) =
    (if test row then change row else row) ∷ update_where test change rows

abbrev pub count_where {ℓ} : {A : Type ℓ} → (A → Bool) → List A → ℕ
count_where test [] = 0
count_where test (row ∷ rows) = (if test row then 1 else 0) + count_where test rows

abbrev pub id_json : ℕ → Json
id_json n = integer (pos n)

-- `insert_checkpoint` and `insert_event`
abbrev pub insert_checkpoint : ℕ → String → String → Json → Db → Db
insert_checkpoint job step kind payload db = record db {
  checkpoints =
      db.checkpoints
      ++ record { job_id = job; step = some step; kind = kind; payload = payload } ∷ [];
}

abbrev pub insert_event : ℕ → String → Option String → Json → Db → Db
insert_event job kind step payload db = record db {
  events = db.events ++ record { job_id = job; step = step; kind = kind; payload = payload } ∷ [];
}

abbrev pub node_fields : ℕ → NodeId → Fields → Fields
node_fields workflow node rest =
    field "workflow_id" (id_json workflow) (field "node_id" (text node.name) rest)

-- `ORDER BY started_at NULLS FIRST, id`
abbrev is_before : WorkflowNodeRun → WorkflowNodeRun → Bool
is_before a b = elim a.started_at [
  | none ↦ elim b.started_at [ none ↦ leb a.id b.id | some v ↦ true ]
  | some u ↦ elim b.started_at [ none ↦ false | some v ↦ ltb u v || nat_beq u v && leb a.id b.id ]
]

abbrev insert_ordered : WorkflowNodeRun → List WorkflowNodeRun → List WorkflowNodeRun
insert_ordered run [] = run ∷ []
insert_ordered run (other ∷ rest) =
    let later = other ∷ insert_ordered run rest in
    if is_before run other then run ∷ other ∷ rest else later

abbrev order_runs : List WorkflowNodeRun → List WorkflowNodeRun
order_runs [] = []
order_runs (run ∷ rest) = insert_ordered run (order_runs rest)

-- `node_runs`
unfoldable pub node_runs : ℕ → ℕ → Db → List WorkflowNodeRun
node_runs job workflow db =
    order_runs (filter (λ run. (run.job_id == job) && (run.workflow_id == workflow)) db.node_runs)

-- `begin_node`: a running row, a checkpoint and an event
unfoldable pub begin_node : ℕ → ℕ → ℕ → NodeId → ℤ → Json → ℕ → Db → WorkflowNodeRun × Db
begin_node run_id job workflow node attempt provenance now db =
    let run : WorkflowNodeRun = record {
      id = run_id;
      job_id = job;
      workflow_id = workflow;
      node_id = node;
      attempt = attempt;
      status = running;
      output_json = none;
      provenance_json = provenance;
      rows_returned = pos 0;
      duration_ms = none;
      started_at = some now;
      finished_at = none;
    } in
    let payload = object (node_fields workflow node (field "attempt" (integer attempt) end)) in
    (
      run,
      insert_event job "workflow_node_started" (some node.name) payload (
          insert_checkpoint job node.name "node_started" payload
            (record db { node_runs = db.node_runs ++ run ∷ [] })),
    )

abbrev pub is_running_status : NodeRunStatus → Bool
is_running_status running = true
is_running_status _ = false

abbrev pub is_running_row : ℕ → WorkflowNodeRun → Bool
is_running_row run_id row = (row.id == run_id) && is_running_status row.status

abbrev pub complete_row : Json → ℤ → ℤ → ℕ → WorkflowNodeRun → WorkflowNodeRun
complete_row output rows_returned duration now row = record row {
  status = completed;
  output_json = some output;
  rows_returned = rows_returned;
  duration_ms = some duration;
  finished_at = some now;
}

-- `complete_node`: only a row that is still running is completed; it is not in a transaction.
unfoldable pub complete_node :
    WorkflowNodeRun → Json → ℤ → ℤ → ℕ → Db → Result (Unit {0}) RunError × Db
complete_node run output rows_returned duration now db =
    let test = is_running_row run.id in
    let updated = record db {
      node_runs = update_where test (complete_row output rows_returned duration now) db.node_runs;
    } in
    let payload = object (
      node_fields run.workflow_id run.node_id (
        field "attempt" (integer run.attempt)
          (field "rows_returned" (integer rows_returned) end))) in
    if not (count_where test db.node_runs == 1) then (err state_failed, updated) else (
      ok tt,
      insert_event run.job_id "workflow_node_completed" (some run.node_id.name) payload
          (insert_checkpoint run.job_id run.node_id.name "node_completed" payload updated),
    )

-- `fail_node`
unfoldable pub fail_node : WorkflowNodeRun → ℤ → ℕ → Db → Db
fail_node run duration now db = record db {
  node_runs =
      update_where (is_running_row run.id)
        (λ row. record row { status = failed; duration_ms = some duration; finished_at = some now })
        db.node_runs;
}

-- `record_branch_decision`
unfoldable pub record_branch_decision : ℕ → ℕ → NodeId → String → Db → Db
record_branch_decision job workflow node decision =
    insert_event job "workflow_branch_decided" (some node.name)
      (object (node_fields workflow node (field "cardinality" (text decision) end)))

abbrev pub text_items : List String → Items
text_items [] = nil
text_items (s ∷ ss) = cons (text s) (text_items ss)

-- The types that `chk_chat_job_events_type` admits (migrations/20260804120000_workflow_runtime.sql)
abbrev event_types : List String
event_types =
    "status" ∷ "clarification" ∷ "partial_result" ∷ "final" ∷ "error" ∷ "heartbeat" ∷ "stage"
    ∷ "delta" ∷ "workflow_node_started" ∷ "workflow_node_completed" ∷ "workflow_branch_decided"
    ∷ "workflow_paused" ∷ "workflow_resumed" ∷ []

-- `insert_event`, with the refusal of a type that the table does not admit
abbrev pub try_insert_event :
    ℕ → String → Option String → Json → Db → Result (Unit {0}) RunError × Db
try_insert_event job kind step payload db =
    if contains event_types kind
    then (ok tt, insert_event job kind step payload db)
    else (err state_failed, db)

-- `record_sensitivity_drop`: its event is of a type that the table does not admit.
unfoldable pub record_sensitivity_drop :
    ℕ → ℕ → NodeId → List String → Db → Result (Unit {0}) RunError × Db
record_sensitivity_drop job workflow node dropped db =
    if is_empty dropped
    then (ok tt, db)
    else try_insert_event job "workflow_field_dropped" (some node.name)
        (object
          (node_fields workflow node (field "dropped_fields" (array (text_items dropped)) end)))
        db
