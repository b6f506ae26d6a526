-- ===== src/Job/Terminal.antt =====
-- How a job ends: `complete`, `fail`, `persist_assistant_response_and_terminal_state` and
-- `store_assistant_response_result` of crates/chat/src/job/repository/mod.rs, with the message that
-- conversation/repository/message.rs inserts.
use fineract_ai_reports.Prelude.{
  ltb, ◌==◌, string_eq, nat_eq, int_eq, ℕ, String, Bool, ◌&&◌, ◌||◌, not, Option, none, some, List,
  [], ◌∷◌,
}
use fineract_ai_reports.Json.{Json}
use fineract_ai_reports.Management.{
  unknown, job_completed, job_failed, AuditOutcome, failed, chat_job_completed, chat_job_failed,
  ManagementAuditEvent,
}
use fineract_ai_reports.Workflow.State.{count_where}
use fineract_ai_reports.Job.{ChatJobRow, ChatMessageRow, ChatDb, enqueue}
use fineract_ai_reports.Job.Audit.{ExecutionAuditContext, job_event, execution_lifecycle_events}
use fineract_ai_reports.Job.Repository.{is_job, update_jobs, insert_message}

abbrev pub complete_job : ℕ → Json → ChatJobRow → ChatJobRow
complete_job now result row = record row {
  status = "completed";
  current_step = "completed";
  result_json = some result;
  error_json = none;
  completed_at = some now;
  updated_at = now;
}

-- `complete`
unfoldable pub complete : ℕ → ℕ → Json → ChatDb → ChatDb
complete now job result db = update_jobs (is_job job) (complete_job now result) db

abbrev pub fail_with_result : ℕ → Json → Json → ChatJobRow → ChatJobRow
fail_with_result now result error row = record row {
  status = "failed";
  current_step = "failed";
  result_json = some result;
  error_json = some error;
  failed_at = some now;
  updated_at = now;
}

-- `insert_assistant_message_in_transaction`
abbrev pub assistant_message : ℕ → ℕ → ℕ → ℕ → String → Json → ChatMessageRow
assistant_message now id session job content metadata = record {
  id = id;
  session_id = session;
  job_id = some job;
  role = "assistant";
  content = content;
  metadata_json = metadata;
  created_at = now;
}

pub data AssistantResponseTerminal : Type 0 where
  completed_as : AuditOutcome → AssistantResponseTerminal
  failed_as : Json → AssistantResponseTerminal

pub record Response : Type 0 where
  pub now : ℕ
  pub message_id : ℕ
  pub session_id : ℕ
  pub job_id : ℕ
  pub actor_user_id : ℕ
  pub content : String
  pub metadata_json : Json
  pub result_json : Json
  pub terminal : AssistantResponseTerminal
  pub execution : Option ExecutionAuditContext

abbrev pub end_job : ℕ → Json → AssistantResponseTerminal → ChatJobRow → ChatJobRow
end_job now result (completed_as outcome) = complete_job now result
end_job now result (failed_as error) = fail_with_result now result error

abbrev pub terminal_event : Response → AssistantResponseTerminal → ManagementAuditEvent
terminal_event r (completed_as outcome) =
    job_event r.now r.session_id r.job_id r.actor_user_id chat_job_completed outcome job_completed
terminal_event r (failed_as error) =
    let event =
      job_event r.now r.session_id r.job_id r.actor_user_id chat_job_failed failed job_failed in
    record event { sanitized_error = some (record { code = unknown }) }

abbrev pub enqueue_all : List ManagementAuditEvent → ChatDb → ChatDb
enqueue_all [] db = db
enqueue_all (event ∷ events) db = enqueue_all events (enqueue event db)

unfoldable pub lifecycle_of : Response → Option ExecutionAuditContext → List ManagementAuditEvent
unfolding execution_lifecycle_events
lifecycle_of r none = []
lifecycle_of r (some context) =
    execution_lifecycle_events r.now r.session_id r.job_id r.actor_user_id context

-- `persist_assistant_response_and_terminal_state`
unfoldable pub persist_response : Response → ChatDb → ChatMessageRow × ChatDb
unfolding lifecycle_of
persist_response r db =
    let message =
      assistant_message r.now r.message_id r.session_id r.job_id r.content r.metadata_json in
    (
      message,
      enqueue_all (lifecycle_of r r.execution) (
          enqueue (terminal_event r r.terminal) (
            update_jobs (is_job r.job_id) (end_job r.now r.result_json r.terminal)
              (insert_message message db))),
    )

abbrev pub store_job : ℕ → Json → ChatJobRow → ChatJobRow
store_job now result row = record row { result_json = some result; updated_at = now }

-- `store_assistant_response_result`
unfoldable pub store_result : ℕ → ℕ → Json → ChatDb → ChatDb
store_result now job result db = update_jobs (is_job job) (store_job now result) db

abbrev pub is_terminal_status : String → Bool
is_terminal_status status = (status == "completed") || (status == "failed")

abbrev pub may_fail : ℕ → ChatJobRow → Bool
may_fail job row = is_job job row && not (is_terminal_status row.status)

abbrev pub fail_job : ℕ → Json → ChatJobRow → ChatJobRow
fail_job now error row = record row {
  status = "failed";
  current_step = "failed";
  error_json = some error;
  failed_at = some now;
  updated_at = now;
}

-- `fail`: whether a row has changed
unfoldable pub fail : ℕ → ℕ → Json → ChatDb → Bool × ChatDb
fail now job error db =
    (ltb 0 (count_where (may_fail job) db.jobs), update_jobs (may_fail job) (fail_job now error) db)
