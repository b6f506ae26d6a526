-- ===== src/Job/Respond.antt =====
-- `respond`, `insert_checkpoint` and `insert_event` of crates/chat/src/job/repository/mod.rs.
use fineract_ai_reports.Prelude.{
  if◌then◌else◌, ◌==◌, string_eq, nat_eq, find, int_eq, ℕ, String, Bool, false, ◌&&◌, not, Option,
  none, some, [], ◌∷◌, ◌++◌,
}
use fineract_ai_reports.Json.{Json, null, text, object, Fields, end, field, and_then}
use fineract_ai_reports.Management.{
  clarification_received, clarification, chat_clarification_received,
}
use fineract_ai_reports.Workflow.State.{id_json}
use fineract_ai_reports.Job.{ChatJobRow, ChatMessageRow, JobMemoryRow, ChatDb, is_some_of, enqueue}
use fineract_ai_reports.Job.Audit.{job_event}
use fineract_ai_reports.Job.Repository.{is_job, in_open_session, update_jobs, insert_message}

abbrev pub insert_job_checkpoint : ℕ → String → String → Json → ChatDb → ChatDb
insert_job_checkpoint job step kind payload db = record db {
  checkpoints =
      db.checkpoints
      ++ record { job_id = job; step = some step; kind = kind; payload = payload } ∷ [];
}

abbrev pub insert_job_event : ℕ → String → Option String → Json → ChatDb → ChatDb
insert_job_event job kind step payload db = record db {
  events = db.events ++ record { job_id = job; step = step; kind = kind; payload = payload } ∷ [];
}

-- What `respond` reads of a stored `ClarificationPayload`
pub record PendingClarification : Type 0 where
  pub id : ℕ
  pub revision : ℕ

pub record ValidatedClarificationSubmission : Type 0 where
  pub clarification_id : Option ℕ
  pub clarification_revision : Option ℕ
  pub selected_option_id : Option String
  pub source_message : String
  pub display_message : String
  pub answers : Fields
  pub constraint_patch : Json

pub data PersistResponseOutcome : Type 0 where
  inserted : ChatMessageRow → PersistResponseOutcome
  not_found not_active stale : PersistResponseOutcome

abbrev pub json_of {ℓ} : {A : Type ℓ} → (A → Json) → Option A → Json
json_of f none = null
json_of f (some a) = f a

abbrev pub response_metadata : ValidatedClarificationSubmission → Json
response_metadata s = object (
    field "type" (text "clarification_response") (
      field "clarification_id" (json_of id_json s.clarification_id) (
        field "clarification_revision" (json_of id_json s.clarification_revision) (
          field "selected_option_id" (json_of text s.selected_option_id) (
            field "answers" (object s.answers) (
              field "constraint_patch" s.constraint_patch
                (field "source_message" (text s.source_message) end)))))))

abbrev pub response_message :
    ℕ → ℕ → ℕ → ValidatedClarificationSubmission → ChatJobRow → ChatMessageRow
response_message now id job s target = record {
  id = id;
  session_id = target.session_id;
  job_id = some job;
  role = "clarification";
  content = s.display_message;
  metadata_json = response_metadata s;
  created_at = now;
}

abbrev pub requeue_job : ℕ → String → ChatJobRow → ChatJobRow
requeue_job now step row = record row {
  status = "queued";
  current_step = "queued";
  resume_from_step = some step;
  updated_at = now;
}

-- The row that is locked for the response
abbrev pub response_target : ℕ → ℕ → ChatDb → Option ChatJobRow
response_target job user db =
    find
      (λ (row : ChatJobRow).
        is_job job row && is_some_of row.user_id user && in_open_session db row)
      db.jobs

module _ (read_payload : Json → Option PendingClarification) where
  abbrev pub pending_matches : Option Json → ℕ → ℕ → Bool
  pending_matches pending id revision = elim (and_then pending read_payload) [
    | none ↦ false
    | some payload ↦ (payload.id == id) && (payload.revision == revision)
  ]

  abbrev pub pending_json : ChatDb → ℕ → Option Json
  pending_json db job =
      and_then (find (λ (row : JobMemoryRow). row.job_id == job) db.memory)
        (λ row. row.pending_clarification_json)

  -- Whether the submission names a clarification that is not the pending one; one that names none,
  -- or only one of id and revision, is not compared.
  abbrev pub is_stale : ChatDb → ℕ → Option ℕ → Option ℕ → Bool
  is_stale db job (some id) (some revision) =
      not (pending_matches (pending_json db job) id revision)
  is_stale db job _ _ = false

  -- The writes of `respond`
  abbrev pub write_response :
      ℕ → ℕ → ℕ → ℕ → ValidatedClarificationSubmission → ChatJobRow → ChatDb → ChatDb
  write_response now message job user s target db =
      enqueue
        (job_event now target.session_id job user chat_clarification_received clarification
          clarification_received)
        (insert_job_event job "status" (some "queued")
          (object (
            field "status" (text "queued") (
              field "current_step" (text "queued") (
                field "message_id" (id_json message)
                  (field "selected_option_id" (json_of text s.selected_option_id) end)))))
          (insert_job_checkpoint job target.current_step "user_response_received"
            (object (
              field "message_id" (id_json message) (
                field "resume_from_step" (text target.current_step)
                  (field "selected_option_id" (json_of text s.selected_option_id) end))))
            (update_jobs (is_job job) (requeue_job now target.current_step)
              (insert_message (response_message now message job s target) db))))

  abbrev pub respond_to :
      ℕ
      → ℕ
      → ℕ
      → ℕ
      → ValidatedClarificationSubmission
      → ChatDb
      → Option ChatJobRow
      → PersistResponseOutcome × ChatDb
  respond_to now message job user s db none = (not_found, db)
  respond_to now message job user s db (some target) =
      if not (target.status == "waiting_for_user_input")
      then (not_active, db)
      else if is_stale db job s.clarification_id s.clarification_revision
      then (stale, db)
      else (
        inserted (response_message now message job s target),
        write_response now message job user s target db,
      )

  -- `respond`
  unfoldable pub respond :
      ℕ → ℕ → ℕ → ℕ → ValidatedClarificationSubmission → ChatDb → PersistResponseOutcome × ChatDb
  respond now message job user s db =
      respond_to now message job user s db (response_target job user db)
