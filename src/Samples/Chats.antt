-- ===== src/Samples/Chats.antt =====
-- Examples of Job.
use fineract_ai_reports.Prelude.{
  string_eq, nat_eq, ok, err, pos, int_eq, ◌≡◌, refl, ◌≢◌, ◌⊎◌, true, false, Option, none, some, [],
  ◌∷◌, ◌++◌, arith, ℕ,
}
use fineract_ai_reports.Json.{Json, null, integer, object, end, field, get}
use fineract_ai_reports.Management.{success}
use fineract_ai_reports.Workflow.State.{update_where}
use fineract_ai_reports.Job.{ChatJobRow, ChatDb, enqueue}
use fineract_ai_reports.Job.Audit.{}
use fineract_ai_reports.Job.Sessions.{
  create_session, is_open_for, archive_row, session_archived_event, archive_for_user,
}
use fineract_ai_reports.Job.Repository.{
  is_job, get_for_user, update_jobs, CreateInput, queued_job, link_message, create_in, session_for,
  create_for, wait_job, updated_by_another_request, update_plan_state,
}
use fineract_ai_reports.Job.Respond.{
  PendingClarification, ValidatedClarificationSubmission, inserted, not_found, stale,
  response_message, write_response, respond,
}
use fineract_ai_reports.Job.Terminal.{complete, completed_as, Response, persist_response, fail}
use fineract_ai_reports.Job.Answered.{is_refusal, IsTaken, respond_guarded, respond_once}
use fineract_ai_reports.Job.Late.{fail_late, update_plan_state_once}
use fineract_ai_reports.Job.Lifecycle.{creates, persists, empty_db, step, Reachable, start, next}
use fineract_ai_reports.Job.Consistent.{IsConsistent}
use fineract_ai_reports.Job.Invariant.{Reachable-IsConsistent}
use fineract_ai_reports.Job.Visible.{archive-get_for_user}

-- A stored payload in which both numbers stand

abbrev read_stored : Json → Option PendingClarification
read_stored json = elim (get json "id") [
  | some (integer (pos id)) ↦ elim (get json "revision") [
    | some (integer (pos revision)) ↦ some (record { id = id; revision = revision })
    | _ ↦ none
  ]
  | _ ↦ none
]

abbrev question : CreateInput
question = record {
  now = 100;
  new_session_id = 1;
  job_id = 5;
  user_message_id = 7;
  user_id = 2;
  session_id = none;
  message = "loans of office 3";
  client_context_json = object end;
  classification_json = null;
  execution_plan_json = null;
  policy_decision_json = null;
}

abbrev asked : ChatDb
asked = (create_for question (session_for question none empty_db)).1

abbrev answer : ValidatedClarificationSubmission
answer = record {
  clarification_id = some 11;
  clarification_revision = some 1;
  selected_option_id = some "office-3";
  source_message = "the third";
  display_message = "Office 3";
  answers = end;
  constraint_patch = null;
}

-- The job waits for the answer to clarification 11.
abbrev awaiting : ChatDb
awaiting = record (update_jobs (is_job 5) (wait_job 101) asked) {
  memory =
      record {
        job_id = 5;
        pending_clarification_json =
            some (object (field "id" (integer (pos 11)) (field "revision" (integer (pos 1)) end)));
      }
      ∷ [];
}

abbrev waiting_row : ChatJobRow
waiting_row = wait_job 101 (link_message 7 (queued_job question 1))

abbrev answered : ChatDb
answered = write_response read_stored 102 8 5 2 answer waiting_row awaiting

takes_answer :
    respond read_stored 102 8 5 2 answer awaiting
    ≡ (inserted (response_message 102 8 5 answer waiting_row), answered)
unfolding respond
takes_answer = refl

refuses_old_answer :
    respond read_stored 102 8 5 2 (record answer { clarification_revision = some 2 }) awaiting
    ≡ (stale, awaiting)
unfolding respond
refuses_old_answer = refl

refuses_stranger : respond read_stored 102 8 5 3 answer awaiting ≡ (not_found, awaiting)
unfolding respond
refuses_stranger = refl

respond_guarded_example :
    ((is_refusal (inserted (response_message 102 8 5 answer waiting_row)) ≡ true)
      × (answered ≡ awaiting))
    ⊎ IsTaken read_stored 102 8 5 2 answer awaiting
        (inserted (response_message 102 8 5 answer waiting_row))
        answered
respond_guarded_example =
    respond_guarded read_stored 102 8 5 2 answer awaiting
      (inserted (response_message 102 8 5 answer waiting_row)) answered takes_answer

respond_once_example :
    (is_refusal (respond read_stored 103 9 5 2 answer answered).0 ≡ true)
    × ((respond read_stored 103 9 5 2 answer answered).1 ≡ answered)
respond_once_example =
    respond_once read_stored 102 8 2 103 9 5 2 answer answer awaiting
      (response_message 102 8 5 answer waiting_row) answered takes_answer

abbrev reply : Response
reply = record {
  now = 104;
  message_id = 10;
  session_id = 1;
  job_id = 5;
  actor_user_id = 2;
  content = "3 loans";
  metadata_json = object end;
  result_json = object end;
  terminal = completed_as success;
  execution = none;
}

fail_late_example :
    (fail 105 5 null (persist_response reply answered).1
      ≡ (false, (persist_response reply answered).1))
    × (fail 105 5 null (complete 104 5 null answered) ≡ (false, complete 104 5 null answered))
fail_late_example = fail_late reply 105 null null answered

fails_open_job : (fail 105 5 null answered).0 ≡ true
unfolding fail
fails_open_job = refl

update_plan_state_once_example :
    update_plan_state 107 5 2 0 end (update_plan_state 106 5 2 0 end answered).1
    ≡ (err updated_by_another_request, (update_plan_state 106 5 2 0 end answered).1)
update_plan_state_once_example = update_plan_state_once 106 107 5 2 0 end end answered

plans_once : (update_plan_state 106 5 2 0 end answered).0 ≡ ok tt
unfolding update_plan_state
plans_once = refl

reached :
    Reachable read_stored
      (step read_stored (persists reply) (step read_stored (creates question) empty_db))
reached = next (persists reply) (next (creates question) start)

Reachable-IsConsistent_example :
    IsConsistent (step read_stored (persists reply) (step read_stored (creates question) empty_db))
Reachable-IsConsistent_example =
    Reachable-IsConsistent read_stored
      (step read_stored (persists reply) (step read_stored (creates question) empty_db)) reached

abbrev closed : ChatDb
closed = enqueue (session_archived_event 108 1 2) (record asked {
  sessions = update_where (is_open_for 1 2 false) (archive_row 108) asked.sessions;
})

-- Another session of the user, with a job
abbrev two_chats : ChatDb
two_chats =
    (create_in (record question { job_id = 6; user_message_id = 12 }) 3
      (record asked { sessions = asked.sessions ++ (create_session 103 3 2 none asked).0 ∷ [] })).1

abbrev one_closed : ChatDb
one_closed = enqueue (session_archived_event 108 1 2) (record two_chats {
  sessions = update_where (is_open_for 1 2 false) (archive_row 108) two_chats.sessions;
})

archives_first : archive_for_user 108 1 2 false two_chats ≡ (some 1, one_closed)
unfolding archive_for_user
archives_first = refl

other_row :
    get_for_user 6 2 false one_closed
    ≡ some (link_message 12 (queued_job (record question { job_id = 6; user_message_id = 12 }) 3))
unfolding get_for_user
other_row = refl

archive-get_for_user_example : ◌≢◌ {A = ℕ} 3 1
archive-get_for_user_example =
    archive-get_for_user 108 1 2 false two_chats one_closed 1 6 2 false
      (link_message 12 (queued_job (record question { job_id = 6; user_message_id = 12 }) 3))
      (omega arith) archives_first other_row
