-- ===== src/Samples/Jobs.antt =====
-- Examples of Workflow/State.
use fineract_ai_reports.Prelude.{
  nat_eq, string_eq, ok, pos, int_eq, ◌≡◌, refl, ◌≢◌, ◌⊎◌, none, some, [], ◌∷◌,
}
use fineract_ai_reports.Json.{integer, end}
use fineract_ai_reports.Workflow.Contract.{NodeId, node_id_eq}
use fineract_ai_reports.Workflow.Ledger.{running}
use fineract_ai_reports.Workflow.State.{ClarificationPayload, JobRow, MemoryRow, Db}
use fineract_ai_reports.Workflow.State.Jobs.{
  pause_row, mark_workflow_paused, WorkflowResumeRequest, resumed, resume_db, resume_workflow,
}
use fineract_ai_reports.Workflow.State.Resuming.{IsAwaited, resume_workflow_safe}
use fineract_ai_reports.Workflow.State.Pausing.{resume_workflow_once, answer_to, pause-resume}
use fineract_ai_reports.Samples.Values.{run_named}

abbrev choice : ClarificationPayload
choice = record {
  id = 20;
  workflow_id = some 7;
  node_id = some "pick";
  entity_kind = none;
  resume_node_id = none;
}

abbrev pick : NodeId
pick = record { name = "pick" }

abbrev running_job : JobRow
running_job = record {
  id = 5;
  user_id = 2;
  status = "running";
  current_step = "executing_node";
  workflow_id = some 7;
  workflow_contract_version = 1;
  workflow_revision = 3;
  current_node_id = none;
  state_json = end;
}

abbrev memory_row : MemoryRow
memory_row = record { job_id = 5; pending_clarification = none }

abbrev small_db : Db
small_db = record {
  jobs = running_job ∷ [];
  memory = memory_row ∷ [];
  node_runs = run_named "pick" running ∷ [];
  checkpoints = [];
  events = [];
}

abbrev answer : WorkflowResumeRequest
answer = answer_to 5 2 7 pick choice 4 (integer (pos 1))

abbrev waiting_job : JobRow
waiting_job = pause_row 7 pick choice running_job

abbrev waiting_db : Db
waiting_db = record small_db {
  jobs = waiting_job ∷ [];
  memory = record memory_row { pending_clarification = some choice } ∷ [];
}

resume_workflow_safe_example :
    let (outcome, after) = resume_workflow 9 answer small_db in
    ((after ≡ small_db) × (outcome ≢ ok resumed))
    ⊎ ((outcome ≡ ok resumed) × (after ≡ resume_db 9 answer small_db) × IsAwaited small_db answer)
resume_workflow_safe_example = resume_workflow_safe 9 answer small_db

waiting_db_awaits : IsAwaited waiting_db answer
waiting_db_awaits = record {
  row = waiting_job;
  payload = choice;
  found = refl;
  waits = refl;
  workflow = refl;
  revision = refl;
  node = refl;
  pending = refl;
  answer = refl;
}

resume_workflow_once_example :
    let after = (resume_workflow 9 answer waiting_db).1 in
    ((resume_workflow 10 answer after).0 ≢ ok resumed)
    × ((resume_workflow 10 answer after).1 ≡ after)
unfolding resume_workflow
resume_workflow_once_example = resume_workflow_once 9 10 answer answer waiting_db refl refl

pause-resume_example :
    (resume_workflow 9
      (answer_to 5 2 7 pick choice 4 (integer (pos 1)))
      (mark_workflow_paused 5 2 7 pick choice small_db).1).0
    ≡ ok resumed
unfolding mark_workflow_paused
pause-resume_example =
    pause-resume 9 5 2 7 pick choice (integer (pos 1)) small_db running_job memory_row refl refl
      refl refl refl
