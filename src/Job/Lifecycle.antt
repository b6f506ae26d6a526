-- ===== src/Job/Lifecycle.antt =====
-- The calls of the job and session repositories as steps on the database.
use fineract_ai_reports.Prelude.{string_eq, nat_eq, int_eq, ℕ, String, Bool, Option, []}
use fineract_ai_reports.Json.{Json, Fields}
use fineract_ai_reports.Management.{}
use fineract_ai_reports.Job.{ChatDb}
use fineract_ai_reports.Job.Audit.{}
use fineract_ai_reports.Job.Sessions.{rename_for_user, archive_for_user}
use fineract_ai_reports.Job.Repository.{
  CreateInput, create, wait_for_user_input, update_plan_state, merge_retrieval_trace,
}
use fineract_ai_reports.Job.Respond.{
  insert_job_checkpoint, insert_job_event, PendingClarification, ValidatedClarificationSubmission,
  respond,
}
use fineract_ai_reports.Job.Terminal.{complete, Response, persist_response, store_result, fail}

-- The time comes first, then the ids that are taken.
pub data Request : Type 0 where
  creates : CreateInput → Request
  renames : ℕ → ℕ → ℕ → Bool → String → Request
  archives : ℕ → ℕ → ℕ → Bool → Request
  awaits_input : ℕ → ℕ → ℕ → ℕ → Request
  plans : ℕ → ℕ → ℕ → ℕ → Fields → Request
  traces : ℕ → ℕ → ℕ → Json → Request
  responds : ℕ → ℕ → ℕ → ℕ → ValidatedClarificationSubmission → Request
  records_checkpoint : ℕ → String → String → Json → Request
  emits : ℕ → String → Option String → Json → Request
  completes : ℕ → ℕ → Json → Request
  persists : Response → Request
  stores : ℕ → ℕ → Json → Request
  fails_with : ℕ → ℕ → Json → Request

abbrev pub empty_db : ChatDb
empty_db = record {
  sessions = [];
  jobs = [];
  messages = [];
  memory = [];
  checkpoints = [];
  events = [];
  outbox = [];
}

module _ (read_payload : Json → Option PendingClarification) where
  unfoldable pub step : Request → ChatDb → ChatDb
  unfolding create rename_for_user archive_for_user wait_for_user_input update_plan_state
      merge_retrieval_trace respond complete persist_response store_result fail
  step (creates c) db = (create c db).1
  step (renames now session user legacy title) db =
      (rename_for_user now session user legacy title db).1
  step (archives now session user legacy) db = (archive_for_user now session user legacy db).1
  step (awaits_input now session job actor) db = wait_for_user_input now session job actor db
  step (plans now job user expected state) db = (update_plan_state now job user expected state db).1
  step (traces now job user trace) db = merge_retrieval_trace now job user trace db
  step (responds now message job user s) db = (respond read_payload now message job user s db).1
  step (records_checkpoint job at kind payload) db = insert_job_checkpoint job at kind payload db
  step (emits job kind at payload) db = insert_job_event job kind at payload db
  step (completes now job result) db = complete now job result db
  step (persists r) db = (persist_response r db).1
  step (stores now job result) db = store_result now job result db
  step (fails_with now job error) db = (fail now job error db).1

  -- The databases that calls lead to, from one without chats
  pub data Reachable : ChatDb → Type 0 where
    start : Reachable empty_db
    next : {db : ChatDb} (r : Request) → Reachable db → Reachable (step r db)
