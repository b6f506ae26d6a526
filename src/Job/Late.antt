-- ===== src/Job/Late.antt =====
-- Statements that come too late: `fail` after a terminal state, and `update_plan_state` after another
-- request's.
use fineract_ai_reports.Prelude.{
  ==→≡, string_eq, nat_eq, err, int_eq, ℕ, ◌+◌, ◌≡◌, refl, ap, ◌∙◌, inl, inr, Bool, true, false,
  List, [], ◌∷◌, arith,
}
use fineract_ai_reports.Json.{Json, Fields}
use fineract_ai_reports.Management.{ManagementAuditEvent}
use fineract_ai_reports.Workflow.State.{update_where, count_where}
use fineract_ai_reports.Job.{ChatJobRow, ChatDb, enqueue}
use fineract_ai_reports.Job.Audit.{}
use fineract_ai_reports.Job.Repository.{
  is_job, update_jobs, insert_message, is_at_revision, plan_job, updated_by_another_request,
  update_plan_state,
}
use fineract_ai_reports.Job.Terminal.{
  complete_job, complete, assistant_message, AssistantResponseTerminal, completed_as, failed_as,
  Response, end_job, terminal_event, enqueue_all, lifecycle_of, persist_response,
  is_terminal_status, may_fail, fail_job, fail,
}
use fineract_ai_reports.Job.Tables.{mem-update_where, update_where-none, count_where-none}

enqueue_all-jobs :
    (events : List ManagementAuditEvent) (db : ChatDb) → (enqueue_all events db).jobs ≡ db.jobs
enqueue_all-jobs [] db = refl
enqueue_all-jobs (event ∷ events) db = enqueue_all-jobs events (enqueue event db)

persist_response-jobs :
    (r : Response) (db : ChatDb)
    → (persist_response r db).1.jobs
      ≡ update_where (is_job r.job_id) (end_job r.now r.result_json r.terminal) db.jobs
unfolding persist_response
persist_response-jobs r db = enqueue_all-jobs (lifecycle_of r r.execution) (
    enqueue (terminal_event r r.terminal) (
      update_jobs (is_job r.job_id) (end_job r.now r.result_json r.terminal) (
        insert_message
          (assistant_message r.now r.message_id r.session_id r.job_id r.content r.metadata_json)
          db)))

end_job-terminal :
    (now : ℕ) (result : Json) (terminal : AssistantResponseTerminal) (row : ChatJobRow)
    → is_terminal_status (end_job now result terminal row).status ≡ true
end_job-terminal now result (completed_as outcome) row = refl
end_job-terminal now result (failed_as error) row = refl

-- A call of `fail` that finds no row to change changes nothing.
fail-none :
    (now job : ℕ) (error : Json) (db : ChatDb)
    → count_where (may_fail job) db.jobs ≡ 0
    → fail now job error db ≡ (false, db)
unfolding fail
fail-none now job error db h =
    let kept = update_where-none (may_fail job) (fail_job now error) db.jobs h in
    let unchanged : update_jobs (may_fail job) (fail_job now error) db ≡ db =
      ap (λ (rows : List ChatJobRow). record db { jobs = rows }) kept in
    rw h (ap (λ (d : ChatDb). (false, d)) unchanged)

-- After the update that ends a job no row of it is left that may fail.
ended_never_fails :
    (job now : ℕ) (change : ChatJobRow → ChatJobRow) (rows : List ChatJobRow)
    → ((row : ChatJobRow) → is_terminal_status (change row).status ≡ true)
    → count_where (may_fail job) (update_where (is_job job) change rows) ≡ 0
ended_never_fails job now change rows ends =
    count_where-none (may_fail job) (update_where (is_job job) change rows) (λ b m.
      let (row, in_rows, which) = mem-update_where (is_job job) change rows m in
      elim which [
        | inl (t, e) ↦
            let terminal : is_terminal_status b.status ≡ true = rw e (ends row) in
            ground (arith, terminal)
        | inr (f, e) ↦ let f' : is_job job b ≡ false = rw e f in ground (arith, f')
      ])

-- What a job has become is not undone by a failure that is reported late: after the response and
-- the terminal state have been stored, and after `complete`, `fail` on the job answers that nothing
-- has changed, and nothing has.
pub fail_late :
    (r : Response) (now : ℕ) (error result : Json) (db : ChatDb)
    → (fail now r.job_id error (persist_response r db).1 ≡ (false, (persist_response r db).1))
      × (fail now r.job_id error (complete r.now r.job_id result db)
          ≡ (false, complete r.now r.job_id result db))
unfolding complete
fail_late r now error result db = (
  fail-none now r.job_id error (persist_response r db).1 (
      ap (count_where (may_fail r.job_id)) (persist_response-jobs r db)
      ∙ ended_never_fails r.job_id now (end_job r.now r.result_json r.terminal) db.jobs
          (end_job-terminal r.now r.result_json r.terminal)),
  fail-none now r.job_id error (complete r.now r.job_id result db)
      (ended_never_fails r.job_id now (complete_job r.now result) db.jobs (λ row. refl)),
)

module _ (now job user expected : ℕ) (state : Fields) (db : ChatDb) where
  abbrev waiting : ChatJobRow → Bool
  waiting = is_at_revision job user expected

  -- No row is left at the revision that an update has been made for.
  moved_on : count_where waiting (update_where waiting (plan_job now state) db.jobs) ≡ 0
  moved_on = count_where-none waiting (update_where waiting (plan_job now state) db.jobs) (λ b m.
      let (row, in_rows, which) = mem-update_where waiting (plan_job now state) db.jobs m in
      elim which [
        | inl (t, e) ↦
            let at : row.state_revision ≡ expected =
              ==→≡ row.state_revision expected (ground arith) in
            let moved : b.state_revision ≡ expected + 1 =
              ap (λ (r : ChatJobRow). r.state_revision) e ∙ omega (arith, at) in
            ground (arith, moved)
        | inr (f, e) ↦ rw e f
      ])

-- An update of the plan that fails changes nothing.
update_plan_state-none :
    (now job user expected : ℕ) (state : Fields) (db : ChatDb)
    → count_where (is_at_revision job user expected) db.jobs ≡ 0
    → update_plan_state now job user expected state db ≡ (err updated_by_another_request, db)
unfolding update_plan_state
update_plan_state-none now job user expected state db h =
    let test = is_at_revision job user expected in
    let kept = update_where-none test (plan_job now state) db.jobs h in
    let unchanged : update_jobs test (plan_job now state) db ≡ db =
      ap (λ (rows : List ChatJobRow). record db { jobs = rows }) kept in
    rw h (ap (λ (d : ChatDb). (err updated_by_another_request, d)) unchanged)

-- Of two updates of a job's plan that were made for the same revision, the second fails and changes
-- nothing: what the first has written is not lost.
pub update_plan_state_once :
    (now now' job user expected : ℕ) (state state' : Fields) (db : ChatDb)
    → update_plan_state now' job user expected state'
        (update_plan_state now job user expected state db).1
      ≡ (err updated_by_another_request, (update_plan_state now job user expected state db).1)
unfolding update_plan_state
update_plan_state_once now now' job user expected state state' db =
    update_plan_state-none now' job user expected state'
      (update_plan_state now job user expected state db).1 (moved_on now job user expected state db)
