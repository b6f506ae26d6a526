-- ===== src/Workflow/State/Jobs.antt =====
-- The statements of workflow/state.rs that move a job: install, pause and resume.
use fineract_ai_reports.Prelude.{
  leb, if◌then◌else◌, PartialEq, ◌==◌, nat_eq, string_eq, find, Result, ok, err, ℤ, pos, int_eq, ℕ,
  ◌+◌, ◌^◌, Bool, true, false, ◌&&◌, not, Option, none, some,
}
use fineract_ai_reports.Json.{
  Json, integer, text, array, object, nil, Fields, end, field, insert_field, and_then,
}
use fineract_ai_reports.Workflow.Contract.{NodeId, node_id_eq, ExecutionWorkflow}
use fineract_ai_reports.Workflow.Ledger.{
  NodeRunStatus, completed, waiting, WorkflowNodeRun, RunError, pause_stale, state_failed,
}
use fineract_ai_reports.Workflow.State.{
  ClarificationPayload, JobRow, MemoryRow, Db, update_where, count_where, id_json,
  insert_checkpoint, insert_event, node_fields, is_running_status,
}

abbrev pub equals_some {ℓ} : {A : Type ℓ} ⦃e : PartialEq A⦄ → Option A → A → Bool
equals_some none a = false
equals_some (some b) a = b == a

-- `state_json || jsonb_build_object('workflow_runtime', …)`: the old value of the key is replaced.
abbrev pub set_runtime : Fields → Fields → Fields
set_runtime state runtime = insert_field state "workflow_runtime" (object runtime)

abbrev pub budget_json : ℤ → ℤ → ℤ → Json
budget_json queries rows ms =
    object (
      field "queries" (integer queries) (field "rows" (integer rows) (field "ms" (integer ms) end)))

-- `install_workflow`: `workflow_json` is the stored form of the workflow, and the version is an
-- `i16`.
unfoldable pub install_workflow :
    ℕ → ℕ → ExecutionWorkflow → Json → Db → Result (Unit {0}) RunError × Db
install_workflow job user workflow workflow_json db =
    let test = λ (row : JobRow). (row.id == job) && (row.user_id == user) in
    let change = λ (row : JobRow). record row {
      workflow_id = some workflow.id;
      workflow_contract_version = workflow.contract_version;
      workflow_revision = row.workflow_revision + 1;
      current_node_id = none;
      current_step = "planning";
      state_json = set_runtime (insert_field row.state_json "workflow" workflow_json) (
          field "completed_node_ids" (array nil) (
            field "node_outputs" (object end)
              (field "budget_consumed" (budget_json (pos 0) (pos 0) (pos 0)) end)));
    } in
    if leb (2 ^ 15) workflow.contract_version then (err state_failed, db) else (
      if count_where test db.jobs == 1 then ok tt else err state_failed,
      record db { jobs = update_where test change db.jobs },
    )

abbrev pub is_node_row : ℕ → ℕ → NodeId → WorkflowNodeRun → Bool
is_node_row job workflow node row =
    (row.job_id == job) && (row.workflow_id == workflow) && (row.node_id == node)

abbrev pub is_waiting_status : NodeRunStatus → Bool
is_waiting_status waiting = true
is_waiting_status _ = false

abbrev pub wait_row : WorkflowNodeRun → WorkflowNodeRun
wait_row row = record row { status = waiting }

abbrev pub finish_row : ℕ → WorkflowNodeRun → WorkflowNodeRun
finish_row now row = record row { status = completed; finished_at = some now }

abbrev pub pause_row : ℕ → NodeId → ClarificationPayload → JobRow → JobRow
pause_row workflow node clarification row = record row {
  status = "waiting_for_user_input";
  current_step = "waiting_for_user_input";
  current_node_id = some node.name;
  workflow_revision = row.workflow_revision + 1;
  state_json = set_runtime row.state_json (
      field "waiting_node_id" (text node.name) (
        field "clarification_id" (id_json clarification.id)
          (field "workflow_id" (id_json workflow) end)));
}

abbrev pub set_pending : Option ClarificationPayload → MemoryRow → MemoryRow
set_pending payload row = record row { pending_clarification = payload }

-- The `WHERE` clauses of the pause
abbrev pub is_interrupt_row : ℕ → ℕ → NodeId → WorkflowNodeRun → Bool
is_interrupt_row job workflow node row =
    is_node_row job workflow node row && is_running_status row.status

abbrev pub is_paused_job : ℕ → ℕ → ℕ → JobRow → Bool
is_paused_job job user workflow row =
    (row.id == job) && (row.user_id == user) && equals_some row.workflow_id workflow

-- `mark_workflow_paused`
unfoldable pub mark_workflow_paused :
    ℕ → ℕ → ℕ → NodeId → ClarificationPayload → Db → Result (Unit {0}) RunError × Db
mark_workflow_paused job user workflow node clarification db =
    let is_interrupt = is_interrupt_row job workflow node in
    let is_job = is_paused_job job user workflow in
    let paused = record db {
      jobs = update_where is_job (pause_row workflow node clarification) db.jobs;
      memory = update_where (λ row. row.job_id == job) (set_pending (some clarification)) db.memory;
      node_runs = update_where is_interrupt wait_row db.node_runs;
    } in
    if not (count_where is_interrupt db.node_runs == 1)
    then (err pause_stale, db)
    else if not (count_where is_job db.jobs == 1)
    then (err pause_stale, db)
    else (
      ok tt,
      insert_event job "workflow_paused" (some node.name)
          (object (field "status" (text "waiting_for_user_input") (node_fields workflow node end)))
          (insert_checkpoint job node.name "workflow_paused"
            (object
              (node_fields workflow node (field "clarification_id" (id_json clarification.id) end)))
            paused),
    )

pub record WorkflowResumeRequest : Type 0 where
  pub job_id : ℕ
  pub user_id : ℕ
  pub workflow_id : ℕ
  pub node_id : NodeId
  pub clarification_id : ℕ
  pub workflow_revision : ℕ
  pub selected_value : Json

pub data ResumeOutcome : Type 0 where
  resumed not_found not_waiting stale : ResumeOutcome

abbrev pub is_target : WorkflowResumeRequest → JobRow → Bool
is_target r row = (row.id == r.job_id) && (row.user_id == r.user_id)

abbrev pub payload_matches : Option ClarificationPayload → ℕ → Bool
payload_matches none id = false
payload_matches (some payload) id = payload.id == id

-- The left join: no memory row is no payload.
abbrev pub pending_of : Db → ℕ → Option ClarificationPayload
pending_of db job =
    and_then (find (λ row. row.job_id == job) db.memory) (λ row. row.pending_clarification)

abbrev pub request_matches : WorkflowResumeRequest → JobRow → Option ClarificationPayload → Bool
request_matches r row pending =
    equals_some row.workflow_id r.workflow_id
    && (row.workflow_revision == r.workflow_revision)
    && equals_some row.current_node_id r.node_id.name
    && payload_matches pending r.clarification_id

abbrev pub resume_row : WorkflowResumeRequest → JobRow → JobRow
resume_row r row = record row {
  status = "queued";
  current_step = "executing_node";
  current_node_id = some r.node_id.name;
  workflow_revision = row.workflow_revision + 1;
  state_json = set_runtime row.state_json (
      field "selected_value" r.selected_value
        (field "resumed_from_node_id" (text r.node_id.name) end));
}

-- What the transaction of `resume` commits.
abbrev pub resume_db : ℕ → WorkflowResumeRequest → Db → Db
resume_db now r db =
    let payload = object (node_fields r.workflow_id r.node_id end) in
    insert_event r.job_id "workflow_resumed" (some r.node_id.name) payload (
      insert_checkpoint r.job_id r.node_id.name "workflow_resumed" payload (record db {
        jobs = update_where (λ row. row.id == r.job_id) (resume_row r) db.jobs;
        memory = update_where (λ row. row.job_id == r.job_id) (set_pending none) db.memory;
        node_runs =
            update_where
              (λ row.
                is_node_row r.job_id r.workflow_id r.node_id row && is_waiting_status row.status)
              (finish_row now) db.node_runs;
      }))

-- The checks on the locked row, in their order, and the commit.
abbrev pub resume_target :
    ℕ → WorkflowResumeRequest → Db → Option JobRow → Result ResumeOutcome RunError × Db
resume_target now r db none = (ok not_found, db)
resume_target now r db (some target) =
    if not (target.status == "waiting_for_user_input")
    then (ok not_waiting, db)
    else if not (request_matches r target (pending_of db r.job_id))
    then (ok stale, db)
    else if not (count_where (λ (row : JobRow). row.id == r.job_id) db.jobs == 1)
    then (err state_failed, db)
    else (ok resumed, resume_db now r db)

unfoldable pub resume_workflow : ℕ → WorkflowResumeRequest → Db → Result ResumeOutcome RunError × Db
resume_workflow now r db = resume_target now r db (find (is_target r) db.jobs)
