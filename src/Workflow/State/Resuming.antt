-- ===== src/Workflow/State/Resuming.antt =====
-- An answer resumes the one workflow that it names, once.
use fineract_ai_reports.Prelude.{
  nat_eq, string_eq, find, ok, int_eq, ℕ, ◌≡◌, ◌≢◌, ◌⊎◌, some, Bool-cases, Option-cases, PartialEq,
  ◌==◌, ==→≡, refl, ap, inl, inr, true, Option, none, arith, ==_refl,
}
use fineract_ai_reports.Workflow.Contract.{node_id_eq}
use fineract_ai_reports.Workflow.Ledger.{}
use fineract_ai_reports.Workflow.State.{ClarificationPayload, JobRow, Db, count_where}
use fineract_ai_reports.Workflow.State.Jobs.{
  WorkflowResumeRequest, resumed, is_target, pending_of, resume_db, resume_workflow, equals_some,
  payload_matches, request_matches,
}

-- The five identity values of a request are those of a waiting job of its user.
pub record IsAwaited (db : Db) (r : WorkflowResumeRequest) : Type 0 where
  pub row : JobRow
  pub payload : ClarificationPayload
  pub found : find (is_target r) db.jobs ≡ some row
  pub waits : row.status ≡ "waiting_for_user_input"
  pub workflow : row.workflow_id ≡ some r.workflow_id
  pub revision : row.workflow_revision ≡ r.workflow_revision
  pub node : row.current_node_id ≡ some r.node_id.name
  pub pending : pending_of db r.job_id ≡ some payload
  pub answer : payload.id ≡ r.clarification_id

equals_some→≡ {ℓ} :
    {A : Type ℓ} ⦃e : PartialEq A⦄ (o : Option A) (a : A) → equals_some o a ≡ true → o ≡ some a
equals_some→≡ none a h = cc
equals_some→≡ (some b) a h = ap some (==→≡ b a h)

payload_matches→≡ :
    (o : Option ClarificationPayload) (id : ℕ)
    → payload_matches o id ≡ true
    → (p : ClarificationPayload) × (o ≡ some p) × (p.id ≡ id)
payload_matches→≡ none id h = cc
payload_matches→≡ (some p) id h = (p, refl, ==→≡ p.id id h)

IsAwaited-intro :
    (db : Db) (r : WorkflowResumeRequest) (row : JobRow)
    → find (is_target r) db.jobs ≡ some row
    → (row.status == "waiting_for_user_input") ≡ true
    → request_matches r row (pending_of db r.job_id) ≡ true
    → IsAwaited db r
IsAwaited-intro db r row found waits h =
    let (payload, pending, answer) =
      payload_matches→≡ (pending_of db r.job_id) r.clarification_id (ground arith) in
    record {
      row = row;
      payload = payload;
      found = found;
      waits = ==→≡ _ _ waits;
      workflow = equals_some→≡ row.workflow_id r.workflow_id (ground arith);
      revision = ==→≡ row.workflow_revision r.workflow_revision (ground arith);
      node = equals_some→≡ row.current_node_id r.node_id.name (ground arith);
      pending = pending;
      answer = answer;
    }

-- Nothing but `resumed` changes the database, and `resumed` comes only from an awaited request.
pub resume_workflow_safe :
    (now : ℕ) (r : WorkflowResumeRequest) (db : Db)
    → let (outcome, after) = resume_workflow now r db in
      (after ≡ db) × (outcome ≢ ok resumed)
      ⊎ (outcome ≡ ok resumed) × (after ≡ resume_db now r db) × IsAwaited db r
unfolding resume_workflow
resume_workflow_safe now r db = elim (Option-cases (find (is_target r) db.jobs)) [
  | inl missing ↦ rw missing (inl (refl, λ e. cc))
  | inr (row, found) ↦ elim (Bool-cases (row.status == "waiting_for_user_input")) [
    | inr busy ↦ rw (found, busy) (inl (refl, λ e. cc))
    | inl waits ↦ elim (Bool-cases (request_matches r row (pending_of db r.job_id))) [
      | inr other ↦ rw (found, waits, other) (inl (refl, λ e. cc))
      | inl same ↦
          elim (Bool-cases (count_where (λ (row : JobRow). row.id == r.job_id) db.jobs == 1)) [
            | inr several ↦ rw (found, waits, same, several) (inl (refl, λ e. cc))
            | inl one ↦
                rw (found, waits, same, one)
                  (inr (refl, refl, IsAwaited-intro db r row found waits same))
          ]
    ]
  ]
]

awaited_matches :
    (db : Db) (r : WorkflowResumeRequest) (a : IsAwaited db r)
    → request_matches r a.row (pending_of db r.job_id) ≡ true
awaited_matches db r a =
    rw (a.workflow, a.revision, a.node, a.pending, a.answer)
      (ground (
        arith,
        ==_refl r.workflow_id,
        ==_refl r.workflow_revision,
        ==_refl r.node_id.name,
        ==_refl r.clarification_id,
      ))

-- An awaited request for a job whose id is unique is answered: the job is queued again at the
-- next revision and the pending clarification is gone.
pub resume_workflow_awaited :
    (now : ℕ) (db : Db) (r : WorkflowResumeRequest)
    → IsAwaited db r
    → count_where (λ (row : JobRow). row.id == r.job_id) db.jobs ≡ 1
    → resume_workflow now r db ≡ (ok resumed, resume_db now r db)
unfolding resume_workflow
resume_workflow_awaited now db r a one =
    let waits : (a.row.status == "waiting_for_user_input") ≡ true = rw a.waits in
    rw (a.found, waits, awaited_matches db r a, one)
