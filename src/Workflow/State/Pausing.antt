-- ===== src/Workflow/State/Pausing.antt =====
-- A paused workflow waits for its one answer, and that answer resumes it.
use fineract_ai_reports.Prelude.{
  ◌==◌, nat_eq, string_eq, find, ok, int_eq, ℕ, ◌+◌, ◌≡◌, ◌≢◌, ◌&&◌, some, Option-cases, find-some,
  refl, ◌∙◌, inl, inr, true, none, arith, ap, ==_refl,
}
use fineract_ai_reports.Json.{Json}
use fineract_ai_reports.Workflow.Contract.{NodeId, node_id_eq, not_found}
use fineract_ai_reports.Workflow.Ledger.{}
use fineract_ai_reports.Workflow.State.{
  ClarificationPayload, JobRow, MemoryRow, Db, count_where, update_where,
}
use fineract_ai_reports.Workflow.State.Jobs.{
  mark_workflow_paused, WorkflowResumeRequest, resumed, resume_workflow, not_found, not_waiting,
  is_target, resume_row, resume_db, pause_row, set_pending, is_paused_job, pending_of,
}
use fineract_ai_reports.Workflow.State.Updates.{find-update_where, count_where-update_where}
use fineract_ai_reports.Workflow.State.Resuming.{resume_workflow_safe, resume_workflow_awaited}

resume_queued :
    (later : ℕ) (r : WorkflowResumeRequest) (db : Db) (row : JobRow)
    → find (is_target r) db.jobs ≡ some row
    → row.status ≡ "queued"
    → resume_workflow later r db ≡ (ok not_waiting, db)
unfolding resume_workflow
resume_queued later r db row found queued = rw (found, queued)

resume_missing :
    (later : ℕ) (r : WorkflowResumeRequest) (db : Db)
    → find (is_target r) db.jobs ≡ none
    → resume_workflow later r db ≡ (ok not_found, db)
unfolding resume_workflow
resume_missing later r db missing = rw missing

-- A request changes nothing.
abbrev IsRefused : ℕ → WorkflowResumeRequest → Db → Type 0
IsRefused later r db =
    ((resume_workflow later r db).0 ≢ ok resumed) × ((resume_workflow later r db).1 ≡ db)

resume_db_refuses :
    (now later : ℕ) (r r' : WorkflowResumeRequest) (db : Db)
    → r'.job_id ≡ r.job_id
    → IsRefused later r' (resume_db now r db)
resume_db_refuses now later r r' db same =
    let after =
      find-update_where (is_target r') (λ (row : JobRow). row.id == r.job_id) (resume_row r)
        (λ x. refl) db.jobs in
    elim (Option-cases (find (is_target r') db.jobs)) [
      | inl missing ↦
          rw (resume_missing later r' (resume_db now r db) (after ∙ rw missing)) (λ e. cc, refl)
      | inr (row, found) ↦
          let hit = (find-some (is_target r') db.jobs found).0 in
          let t : (row.id == r.job_id) ≡ true = rw (← same) (ground arith) in
          rw
            (resume_queued later r' (resume_db now r db) (resume_row r row) (after ∙ rw (found, t))
              refl)
            (λ e. cc, refl)
    ]

-- The first answer wins: once a request has resumed a job, no request for that job, the same one
-- again included, resumes it or changes the database, until something else pauses it anew.
pub resume_workflow_once :
    (now later : ℕ) (r r' : WorkflowResumeRequest) (db : Db)
    → r'.job_id ≡ r.job_id
    → (resume_workflow now r db).0 ≡ ok resumed
    → let after = (resume_workflow now r db).1 in
      ((resume_workflow later r' after).0 ≢ ok resumed)
      × ((resume_workflow later r' after).1 ≡ after)
resume_workflow_once now later r r' db same h = elim (resume_workflow_safe now r db) [
  | inl (kept, refused) ↦ absurd (refused h)
  | inr (done, after, awaited) ↦ rw after (resume_db_refuses now later r r' db same)
]

-- What `mark_workflow_paused` commits when it succeeds.
pause_commits :
    (job user workflow : ℕ) (node : NodeId) (c : ClarificationPayload) (db : Db)
    → (mark_workflow_paused job user workflow node c db).0 ≡ ok tt
    → ((mark_workflow_paused job user workflow node c db).1.jobs
        ≡ update_where (is_paused_job job user workflow) (pause_row workflow node c) db.jobs)
      × ((mark_workflow_paused job user workflow node c db).1.memory
          ≡ update_where (λ row. row.job_id == job) (set_pending (some c)) db.memory)
unfolding mark_workflow_paused
pause_commits job user workflow node c db h = ground arith

abbrev pub answer_to : ℕ → ℕ → ℕ → NodeId → ClarificationPayload → ℕ → Json → WorkflowResumeRequest
answer_to job user workflow node clarification revision value = record {
  job_id = job;
  user_id = user;
  workflow_id = workflow;
  node_id = node;
  clarification_id = clarification.id;
  workflow_revision = revision;
  selected_value = value;
}

-- A pause that succeeds leaves the job waiting for exactly its own clarification: an answer with
-- the identity values of the pause, at the next revision, resumes the job.
pub pause-resume :
    (now job user workflow : ℕ) (node : NodeId) (c : ClarificationPayload) (value : Json) (db : Db)
    (row : JobRow) (m : MemoryRow)
    → find (λ (j : JobRow). (j.id == job) && (j.user_id == user)) db.jobs ≡ some row
    → row.workflow_id ≡ some workflow
    → find (λ (j : MemoryRow). j.job_id == job) db.memory ≡ some m
    → count_where (λ (j : JobRow). j.id == job) db.jobs ≡ 1
    → (mark_workflow_paused job user workflow node c db).0 ≡ ok tt
    → (resume_workflow now
        (answer_to job user workflow node c (row.workflow_revision + 1) value)
        (mark_workflow_paused job user workflow node c db).1).0
      ≡ ok resumed
pause-resume now job user workflow node c value db row m found same memory one h =
    let (jobs, memories) = pause_commits job user workflow node c db h in
    let r = answer_to job user workflow node c (row.workflow_revision + 1) value in
    let after = (mark_workflow_paused job user workflow node c db).1 in
    let hit = (find-some (is_target r) db.jobs found).0 in
    let t : is_paused_job job user workflow row ≡ true =
      rw same (ground (arith, ==_refl workflow)) in
    let found' : find (is_target r) after.jobs ≡ some (pause_row workflow node c row) = rw jobs (
      find-update_where (is_target r) (is_paused_job job user workflow) (pause_row workflow node c)
        (λ x. refl) db.jobs
      ∙ rw (found, t)) in
    let hit' : (m.job_id == job) ≡ true =
      (find-some (λ (j : MemoryRow). j.job_id == job) db.memory memory).0 in
    let pending' : pending_of after job ≡ some c = rw memories (
      rw
        (find-update_where (λ (j : MemoryRow). j.job_id == job) (λ (j : MemoryRow). j.job_id == job)
          (set_pending (some c)) (λ x. refl) db.memory)
        (rw (memory, hit') refl)) in
    let one' : count_where (λ (j : JobRow). j.id == job) after.jobs ≡ 1 = rw jobs (
      count_where-update_where (λ (j : JobRow). j.id == job) (is_paused_job job user workflow)
        (pause_row workflow node c) (λ x. refl) db.jobs
      ∙ one) in
    ap (λ o. o.0)
      (resume_workflow_awaited now after r
        (record {
          row = pause_row workflow node c row;
          payload = c;
          found = found';
          waits = refl;
          workflow = same;
          revision = refl;
          node = refl;
          pending = pending';
          answer = refl;
        })
        one')
