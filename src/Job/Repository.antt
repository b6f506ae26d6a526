-- ===== src/Job/Repository.antt =====
-- The statements of crates/chat/src/job/repository/mod.rs that write, and the look-up of a job.
use fineract_ai_reports.Prelude.{
  if◌then◌else◌, ◌==◌, string_eq, nat_eq, find, any, Result, ok, err, int_eq, ℕ, ◌+◌, ◌*◌, String,
  Bool, false, ◌&&◌, Option, none, some, [], ◌∷◌, ◌++◌,
}
use fineract_ai_reports.Json.{Json, text, object, Fields, end, field}
use fineract_ai_reports.Management.{
  job_created, clarification_requested, success, clarification, chat_job_created,
  chat_clarification_requested,
}
use fineract_ai_reports.Workflow.State.{update_where, count_where}
use fineract_ai_reports.Job.{
  ChatSessionRow, ChatJobRow, ChatMessageRow, ChatDb, is_some_of, is_null, is_visible_to, enqueue,
  merge_fields,
}
use fineract_ai_reports.Job.Sessions.{create_session, get_session_for_user}
use fineract_ai_reports.Job.Audit.{job_event}

abbrev pub is_job : ℕ → ChatJobRow → Bool
is_job job row = row.id == job

-- The join with a session that is not archived
abbrev pub in_open_session : ChatDb → ChatJobRow → Bool
in_open_session db row =
    any (λ (s : ChatSessionRow). (s.id == row.session_id) && is_null s.archived_at) db.sessions

-- `get_for_user`
unfoldable pub get_for_user : ℕ → ℕ → Bool → ChatDb → Option ChatJobRow
get_for_user job user include_legacy db =
    find
      (λ (row : ChatJobRow).
        is_job job row && is_visible_to row.user_id user include_legacy && in_open_session db row)
      db.jobs

abbrev pub update_jobs : (ChatJobRow → Bool) → (ChatJobRow → ChatJobRow) → ChatDb → ChatDb
update_jobs test change db = record db { jobs = update_where test change db.jobs }

abbrev pub insert_message : ChatMessageRow → ChatDb → ChatDb
insert_message row db = record db { messages = db.messages ++ row ∷ [] }

-- What `create` is given, and the ids and the time that it takes
pub record CreateInput : Type 0 where
  pub now : ℕ
  pub new_session_id : ℕ
  pub job_id : ℕ
  pub user_message_id : ℕ
  pub user_id : ℕ
  pub session_id : Option ℕ
  pub message : String
  pub client_context_json : Json
  pub classification_json : Json
  pub execution_plan_json : Json
  pub policy_decision_json : Json

pub record CreatedChatJob : Type 0 where
  pub session_id : ℕ
  pub job_id : ℕ
  pub user_message_id : ℕ
  pub status : String
  pub current_step : String

abbrev pub week : ℕ
week = 7 * 24 * 60 * 60

abbrev pub queued_job : CreateInput → ℕ → ChatJobRow
queued_job c session = record {
  id = c.job_id;
  session_id = session;
  user_id = some c.user_id;
  api_key_id = none;
  user_message_id = none;
  status = "queued";
  current_step = "queued";
  resume_from_step = none;
  message = c.message;
  state_json = field "client" c.client_context_json (
      field "input" (object (field "message" (text c.message) end)) (
        field "classification" c.classification_json (
          field "execution_plan" c.execution_plan_json
            (field "policy_decision" c.policy_decision_json end))));
  state_revision = 0;
  result_json = none;
  error_json = none;
  created_at = c.now;
  updated_at = c.now;
  expires_at = c.now + week;
  completed_at = none;
  failed_at = none;
  cancelled_at = none;
}

abbrev pub user_message : CreateInput → ℕ → ChatMessageRow
user_message c session = record {
  id = c.user_message_id;
  session_id = session;
  job_id = some c.job_id;
  role = "user";
  content = c.message;
  metadata_json = object end;
  created_at = c.now;
}

abbrev pub link_message : ℕ → ChatJobRow → ChatJobRow
link_message message row = record row { user_message_id = some message }

-- The transaction of `create`, in the session that it has found or made
abbrev pub create_in : CreateInput → ℕ → ChatDb → CreatedChatJob × ChatDb
create_in c session db = (
  record {
    session_id = session;
    job_id = c.job_id;
    user_message_id = c.user_message_id;
    status = "queued";
    current_step = "queued";
  },
  enqueue (job_event c.now session c.job_id c.user_id chat_job_created success job_created) (
      update_jobs (is_job c.job_id) (link_message c.user_message_id) (
        insert_message (user_message c session)
          (record db { jobs = db.jobs ++ queued_job c session ∷ [] }))),
)

-- The session of a new job: one of the user's, or a new one; nothing where it is not the user's
abbrev pub session_for : CreateInput → Option ℕ → ChatDb → Option ℕ × ChatDb
session_for c none db =
    let (row, db') = create_session c.now c.new_session_id c.user_id none db in (some row.id, db')
session_for c (some session) db = elim (get_session_for_user session c.user_id false db) [
  | none ↦ (none, db)
  | some row ↦ (some session, db)
]

abbrev pub create_for : CreateInput → Option ℕ × ChatDb → Option CreatedChatJob × ChatDb
create_for c (none, db) = (none, db)
create_for c (some session, db) = let (made, db') = create_in c session db in (some made, db')

-- `create`
unfoldable pub create : CreateInput → ChatDb → Option CreatedChatJob × ChatDb
create c db = create_for c (session_for c c.session_id db)

abbrev pub wait_job : ℕ → ChatJobRow → ChatJobRow
wait_job now row = record row {
  status = "waiting_for_user_input";
  current_step = "waiting_for_user_input";
  updated_at = now;
}

-- `wait_for_user_input_and_record_clarification_requested`
unfoldable pub wait_for_user_input : ℕ → ℕ → ℕ → ℕ → ChatDb → ChatDb
wait_for_user_input now session job actor db =
    enqueue
      (job_event now session job actor chat_clarification_requested clarification
        clarification_requested)
      (update_jobs (is_job job) (wait_job now) db)

abbrev pub is_at_revision : ℕ → ℕ → ℕ → ChatJobRow → Bool
is_at_revision job user revision row =
    is_job job row && is_some_of row.user_id user && (row.state_revision == revision)

abbrev pub plan_job : ℕ → Fields → ChatJobRow → ChatJobRow
plan_job now state row = record row {
  state_json = merge_fields row.state_json state;
  state_revision = row.state_revision + 1;
  updated_at = now;
}

-- The error of `update_plan_state`
pub data UpdateError : Type 0 where
  updated_by_another_request : UpdateError

abbrev pub plan_fields : Json → Json → Json → Fields
plan_fields classification plan decision =
    field "classification" classification
      (field "execution_plan" plan (field "policy_decision" decision end))

-- `update_plan_state`, on the object of the three values
unfoldable pub update_plan_state :
    ℕ → ℕ → ℕ → ℕ → Fields → ChatDb → Result (Unit {0}) UpdateError × ChatDb
update_plan_state now job user expected state db =
    let test = is_at_revision job user expected in
    (
      if count_where test db.jobs == 0 then err updated_by_another_request else ok tt,
      update_jobs test (plan_job now state) db,
    )

abbrev pub trace_job : ℕ → Json → ChatJobRow → ChatJobRow
trace_job now trace row = record row {
  state_json = merge_fields row.state_json (field "retrieval_trace" trace end);
  updated_at = now;
}

-- `merge_retrieval_trace`
unfoldable pub merge_retrieval_trace : ℕ → ℕ → ℕ → Json → ChatDb → ChatDb
merge_retrieval_trace now job user trace db =
    update_jobs (λ row. is_job job row && is_some_of row.user_id user) (trace_job now trace) db
