-- ===== src/Job/Kept.antt =====
-- The changes of a job and the insertions that keep what holds of every job.
use fineract_ai_reports.Prelude.{
  ==→≡, ==_refl, string_eq, nat_eq, All, All-weaken, int_eq, ℕ, ◌≡◌, refl, true, false, List, [],
  ◌∷◌, ◌++◌,
}
use fineract_ai_reports.Json.{Json}
use fineract_ai_reports.Management.{ManagementAuditEvent}
use fineract_ai_reports.Workflow.State.{}
use fineract_ai_reports.Job.{ChatJobRow, ChatDb, enqueue}
use fineract_ai_reports.Job.Audit.{}
use fineract_ai_reports.Job.Sessions.{}
use fineract_ai_reports.Job.Repository.{
  is_job, update_jobs, insert_message, CreateInput, queued_job, user_message, link_message,
  create_in,
}
use fineract_ai_reports.Job.Respond.{}
use fineract_ai_reports.Job.Terminal.{
  complete_job, fail_with_result, assistant_message, AssistantResponseTerminal, completed_as,
  failed_as, Response, end_job, terminal_event, enqueue_all, lifecycle_of, persist_response,
  store_job, may_fail, fail_job,
}
use fineract_ai_reports.Job.Tables.{All-update_where}
use fineract_ai_reports.Job.Answered.{}
use fineract_ai_reports.Job.Late.{}
use fineract_ai_reports.Job.Lifecycle.{}
use fineract_ai_reports.Job.Consistent.{
  RowHolds, asks, is_linked, Holds, IsConsistent, any-append_right, Holds-append, Keeps,
  update_jobs-IsConsistent, insert_message-IsConsistent, RowHolds-open,
}

pub complete-Keeps : (job now : ℕ) (result : Json) → Keeps (is_job job) (complete_job now result)
complete-Keeps job now result = record {
  holds = λ row t h. record { known = refl; completed = λ e. (refl, refl, refl); failed = λ e. cc };
  same_id = λ row. refl;
  same_message = λ row. refl;
}

fail_with_result-Keeps :
    (job now : ℕ) (result error : Json) → Keeps (is_job job) (fail_with_result now result error)
fail_with_result-Keeps job now result error = record {
  holds = λ row t h. record { known = refl; completed = λ e. cc; failed = λ e. (refl, refl) };
  same_id = λ row. refl;
  same_message = λ row. refl;
}

end_job-Keeps :
    (job now : ℕ) (result : Json) (terminal : AssistantResponseTerminal)
    → Keeps (is_job job) (end_job now result terminal)
end_job-Keeps job now result (completed_as outcome) = complete-Keeps job now result
end_job-Keeps job now result (failed_as error) = fail_with_result-Keeps job now result error

pub fail-Keeps : (job now : ℕ) (error : Json) → Keeps (may_fail job) (fail_job now error)
fail-Keeps job now error = record {
  holds = λ row t h. record { known = refl; completed = λ e. cc; failed = λ e. (refl, refl) };
  same_id = λ row. refl;
  same_message = λ row. refl;
}

pub store-Keeps : (job now : ℕ) (result : Json) → Keeps (is_job job) (store_job now result)
store-Keeps job now result = record {
  holds = λ row t h. record {
    known = h.known;
    completed = λ e. let (error, old, at) = h.completed e in (error, refl, at);
    failed = h.failed;
  };
  same_id = λ row. refl;
  same_message = λ row. refl;
}

pub persist_response-IsConsistent :
    (r : Response) (db : ChatDb) → IsConsistent db → IsConsistent (persist_response r db).1
unfolding persist_response
persist_response-IsConsistent r db h =
    let m = assistant_message r.now r.message_id r.session_id r.job_id r.content r.metadata_json in
    let ended =
      update_jobs-IsConsistent (is_job r.job_id) (end_job r.now r.result_json r.terminal)
        (end_job-Keeps r.job_id r.now r.result_json r.terminal) (insert_message m db)
        (insert_message-IsConsistent m db h) in
    enqueue_all-IsConsistent (lifecycle_of r r.execution)
      (enqueue (terminal_event r r.terminal) (
        update_jobs (is_job r.job_id) (end_job r.now r.result_json r.terminal)
          (insert_message m db)))
      ended
  where
    enqueue_all-IsConsistent :
        (events : List ManagementAuditEvent) (d : ChatDb)
        → IsConsistent d
        → IsConsistent (enqueue_all events d)
    enqueue_all-IsConsistent [] d p = p
    enqueue_all-IsConsistent (event ∷ events) d p =
        enqueue_all-IsConsistent events (enqueue event d) p

All-append_one :
    {A : Type 0} (P : A → Type 0) (xs : List A) (x : A) → All P xs → P x → All P (xs ++ x ∷ [])
All-append_one P [] x h p = (p, tt)
All-append_one P (y ∷ xs) x (q, h) p = (q, All-append_one P xs x h p)

-- The update that links the new job to its message links whichever job has its id.
pub create_in-IsConsistent :
    (c : CreateInput) (session : ℕ) (db : ChatDb)
    → IsConsistent db
    → IsConsistent (create_in c session db).1
create_in-IsConsistent c session db h =
    let m = user_message c session in
    let Fits = λ (row : ChatJobRow).
      RowHolds row × (is_job c.job_id row ≡ false → is_linked (db.messages ++ m ∷ []) row ≡ true) in
    let before : All Fits (db.jobs ++ queued_job c session ∷ []) =
      All-append_one Fits db.jobs (queued_job c session)
        (All-weaken
          (λ row p.
            let (holds, linked) = Holds-append db.messages (m ∷ []) row p in (holds, λ f. linked))
          db.jobs h)
        (RowHolds-open (queued_job c session) refl refl, λ f. absurd (cc (==_refl c.job_id))) in
    All-update_where (is_job c.job_id) (link_message c.user_message_id) Fits
      (Holds (db.messages ++ m ∷ []))
      (λ row t (holds, linked). (
        record { known = holds.known; completed = holds.completed; failed = holds.failed },
        let same = ==→≡ row.id c.job_id t in
            any-append_right (asks row.id c.user_message_id) db.messages (m ∷ [])
              (rw (same, ==_refl c.user_message_id, ==_refl c.job_id) refl),
      ))
      (λ row f (holds, linked). (holds, linked f)) (db.jobs ++ queued_job c session ∷ []) before
