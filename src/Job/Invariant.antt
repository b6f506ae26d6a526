-- ===== src/Job/Invariant.antt =====
-- What holds of every job is kept by every call.
use fineract_ai_reports.Prelude.{
  Option-cases, string_eq, nat_eq, find, int_eq, ℕ, ◌≡◌, refl, sym, ap, ◌∙◌, subst, inl, inr, Bool,
  false, ◌&&◌, Option, none, some,
}
use fineract_ai_reports.Json.{Json}
use fineract_ai_reports.Workflow.State.{}
use fineract_ai_reports.Job.{ChatJobRow, ChatDb, is_some_of, is_null}
use fineract_ai_reports.Job.Audit.{}
use fineract_ai_reports.Job.Sessions.{
  create_session, is_open_for, get_session_for_user, rename_for_user, archive_for_user,
}
use fineract_ai_reports.Job.Repository.{
  is_job, insert_message, CreateInput, session_for, create_for, create, wait_job,
  wait_for_user_input, is_at_revision, plan_job, update_plan_state, trace_job,
  merge_retrieval_trace,
}
use fineract_ai_reports.Job.Respond.{
  PendingClarification, ValidatedClarificationSubmission, response_message, requeue_job, respond,
}
use fineract_ai_reports.Job.Terminal.{
  complete_job, complete, store_job, store_result, may_fail, fail_job, fail,
}
use fineract_ai_reports.Job.Answered.{respond_guarded}
use fineract_ai_reports.Job.Lifecycle.{
  Request, creates, renames, archives, awaits_input, plans, traces, responds, records_checkpoint,
  emits, completes, persists, stores, fails_with, step, Reachable, start, next,
}
use fineract_ai_reports.Job.Consistent.{
  RowHolds, IsConsistent, update_jobs-IsConsistent, insert_message-IsConsistent, quiet,
  RowHolds-open,
}
use fineract_ai_reports.Job.Kept.{
  complete-Keeps, fail-Keeps, store-Keeps, persist_response-IsConsistent, create_in-IsConsistent,
}

create-IsConsistent :
    (c : CreateInput) (db : ChatDb) → IsConsistent db → IsConsistent (create c db).1
unfolding create
create-IsConsistent c db h = in_session c.session_id
  where
    in_session : (session : Option ℕ) → IsConsistent (create_for c (session_for c session db)).1
    in_session none =
        create_in-IsConsistent c c.new_session_id
          (create_session c.now c.new_session_id c.user_id none db).1 h
    in_session (some session) =
        elim (Option-cases (get_session_for_user session c.user_id false db)) [
          | inl nothing ↦ rw (nothing, create_for, session_for) h
          | inr (row, e) ↦ rw (e, create_for, session_for) (create_in-IsConsistent c session db h)
        ]

archive_for_user-IsConsistent :
    (now session user : ℕ) (legacy : Bool) (db : ChatDb)
    → IsConsistent db
    → IsConsistent (archive_for_user now session user legacy db).1
unfolding archive_for_user
archive_for_user-IsConsistent now session user legacy db h =
    elim (Option-cases (find (is_open_for session user legacy) db.sessions)) [
      | inl nothing ↦ rw (nothing, archive_for_user) h
      | inr (row, e) ↦ rw (e, archive_for_user) h
    ]

module _ (read_payload : Json → Option PendingClarification) where
  respond-IsConsistent :
      (now message job user : ℕ) (s : ValidatedClarificationSubmission) (db : ChatDb)
      → IsConsistent db
      → IsConsistent (respond read_payload now message job user s db).1
  respond-IsConsistent now message job user s db h =
      let answer = respond read_payload now message job user s db in
      elim (respond_guarded read_payload now message job user s db answer.0 answer.1 refl) [
        | inl refused ↦ subst IsConsistent (sym refused.1) h
        | inr taken ↦
            let requeued =
              update_jobs-IsConsistent (is_job job) (requeue_job now taken.target.current_step)
                (quiet (is_job job) (requeue_job now taken.target.current_step)
                  (λ row p. RowHolds-open (requeue_job now taken.target.current_step row) refl refl)
                  (λ row. refl) (λ row. refl))
                (insert_message (response_message now message job s taken.target) db)
                (insert_message-IsConsistent (response_message now message job s taken.target) db
                  h) in
            subst IsConsistent (sym taken.writes) requeued
      ]

  same_holds :
      {row after : ChatJobRow}
      → row.status ≡ after.status
      → row.error_json ≡ after.error_json
      → row.result_json ≡ after.result_json
      → row.completed_at ≡ after.completed_at
      → row.failed_at ≡ after.failed_at
      → RowHolds row
      → RowHolds after
  same_holds status error result done_at failed_at h = record {
    known = rw (← status) h.known;
    completed = λ e.
        let (a, b, c) = h.completed (status ∙ e) in
        (sym error ∙ a, sym (ap is_null result) ∙ b, sym (ap is_null done_at) ∙ c);
    failed = λ e.
        let (a, b) = h.failed (status ∙ e) in
        (sym (ap is_null error) ∙ a, sym (ap is_null failed_at) ∙ b);
  }

  step-IsConsistent :
      (r : Request) (db : ChatDb) → IsConsistent db → IsConsistent (step read_payload r db)
  unfolding step rename_for_user wait_for_user_input update_plan_state merge_retrieval_trace
      complete store_result fail
  step-IsConsistent (creates c) db h = create-IsConsistent c db h
  step-IsConsistent (renames now session user legacy title) db h = h
  step-IsConsistent (archives now session user legacy) db h =
      archive_for_user-IsConsistent now session user legacy db h
  step-IsConsistent (awaits_input now session job actor) db h =
      update_jobs-IsConsistent (is_job job) (wait_job now)
        (quiet (is_job job) (wait_job now) (λ row p. RowHolds-open (wait_job now row) refl refl)
          (λ row. refl) (λ row. refl))
        db h
  step-IsConsistent (plans now job user expected state) db h =
      update_jobs-IsConsistent (is_at_revision job user expected) (plan_job now state)
        (quiet (is_at_revision job user expected) (plan_job now state)
          (λ row p. same_holds refl refl refl refl refl p) (λ row. refl) (λ row. refl))
        db h
  step-IsConsistent (traces now job user trace) db h =
      update_jobs-IsConsistent (λ row. is_job job row && is_some_of row.user_id user)
        (trace_job now trace)
        (quiet (λ row. is_job job row && is_some_of row.user_id user) (trace_job now trace)
          (λ row p. same_holds refl refl refl refl refl p) (λ row. refl) (λ row. refl))
        db h
  step-IsConsistent (responds now message job user s) db h =
      respond-IsConsistent now message job user s db h
  step-IsConsistent (records_checkpoint job at kind payload) db h = h
  step-IsConsistent (emits job kind at payload) db h = h
  step-IsConsistent (completes now job result) db h =
      update_jobs-IsConsistent (is_job job) (complete_job now result)
        (complete-Keeps job now result) db h
  step-IsConsistent (persists r) db h = persist_response-IsConsistent r db h
  step-IsConsistent (stores now job result) db h =
      update_jobs-IsConsistent (is_job job) (store_job now result) (store-Keeps job now result) db h
  step-IsConsistent (fails_with now job error) db h =
      update_jobs-IsConsistent (may_fail job) (fail_job now error) (fail-Keeps job now error) db h

  -- After whichever calls of the repositories, every job is queued, waiting, completed or failed; a
  -- completed one has a result and a time and no error, a failed one an error and a time; and the
  -- user's message that each is linked to is a message of that job.
  pub Reachable-IsConsistent : (db : ChatDb) → Reachable read_payload db → IsConsistent db
  Reachable-IsConsistent db start = tt
  Reachable-IsConsistent db (next {db = before} r reached) =
      step-IsConsistent r before (Reachable-IsConsistent before reached)
