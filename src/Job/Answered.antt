-- ===== src/Job/Answered.antt =====
-- When a response to a clarification is taken, and that it is taken once.
use fineract_ai_reports.Prelude.{
  Bool-cases, Option-cases, ◌==◌, ==→≡, ==_refl, string_eq, nat_eq, find, ◌∈◌, find-some, int_eq, ℕ,
  ◌≡◌, refl, sym, ap, ◌∙◌, subst, ◌⊎◌, inl, inr, Bool, true, false, ◌&&◌, Option, none, some, arith,
  [], ◌∷◌, ◌++◌,
}
use fineract_ai_reports.Json.{Json}
use fineract_ai_reports.Management.{ManagementAuditEvent}
use fineract_ai_reports.Workflow.State.{LogRow, update_where}
use fineract_ai_reports.Job.{ChatJobRow, ChatMessageRow, ChatDb, is_some_of}
use fineract_ai_reports.Job.Audit.{}
use fineract_ai_reports.Job.Repository.{is_job, in_open_session}
use fineract_ai_reports.Job.Respond.{
  PendingClarification, ValidatedClarificationSubmission, PersistResponseOutcome, inserted,
  not_found, not_active, stale, response_message, requeue_job, is_stale, write_response, respond_to,
  respond,
}
use fineract_ai_reports.Job.Tables.{mem-update_where}

abbrev pub is_refusal : PersistResponseOutcome → Bool
is_refusal (inserted message) = false
is_refusal _ = true

refused :
    {first outcome : PersistResponseOutcome} {db after : ChatDb}
    → is_refusal first ≡ true
    → ◌≡◌ {A = PersistResponseOutcome × ChatDb} (first, db) (outcome, after)
    → (is_refusal outcome ≡ true) × (after ≡ db)
refused refuses e = (sym (ap is_refusal (ap (λ p. p.0) e)) ∙ refuses, sym (ap (λ p. p.1) e))

module _ (read_payload : Json → Option PendingClarification) where
  -- The conditions under which a response is taken, and what it then does
  pub record IsTaken (now message job user : ℕ) (s : ValidatedClarificationSubmission) (db : ChatDb)
      (outcome : PersistResponseOutcome) (after : ChatDb) : Type 0 where
    pub target : ChatJobRow
    pub known : target ∈ db.jobs
    pub its_id : target.id ≡ job
    pub owner : target.user_id ≡ some user
    pub open_session : in_open_session db target ≡ true
    pub waits : target.status ≡ "waiting_for_user_input"
    pub fresh : is_stale read_payload db job s.clarification_id s.clarification_revision ≡ false
    pub inserts : outcome ≡ inserted (response_message now message job s target)
    pub writes : after ≡ write_response read_payload now message job user s target db
    pub one_message : after.messages ≡ db.messages ++ response_message now message job s target ∷ []
    pub requeued :
        after.jobs ≡ update_where (is_job job) (requeue_job now target.current_step) db.jobs
    pub one_checkpoint : (c : LogRow) × (after.checkpoints ≡ db.checkpoints ++ c ∷ [])
    pub one_event : (e : LogRow) × (after.events ≡ db.events ++ e ∷ [])
    pub one_audit_event : (e : ManagementAuditEvent) × (after.outbox ≡ db.outbox ++ e ∷ [])
    pub others_kept : (after.sessions ≡ db.sessions) × (after.memory ≡ db.memory)

  is_some_of-eq : (owner : Option ℕ) (user : ℕ) → is_some_of owner user ≡ true → owner ≡ some user
  is_some_of-eq none user h = cc
  is_some_of-eq (some n) user h = ap some (==→≡ n user h)

  respond_to-cases :
      (now message job user : ℕ) (s : ValidatedClarificationSubmission) (db : ChatDb)
      (target : ChatJobRow)
      → target ∈ db.jobs
      → target.id ≡ job
      → target.user_id ≡ some user
      → in_open_session db target ≡ true
      → (outcome : PersistResponseOutcome) (after : ChatDb)
      → respond_to read_payload now message job user s db (some target) ≡ (outcome, after)
      → ((is_refusal outcome ≡ true) × (after ≡ db))
        ⊎ IsTaken now message job user s db outcome after
  respond_to-cases now message job user s db target known its_id owner open_session outcome after
        h =
      elim (Bool-cases (target.status == "waiting_for_user_input")) [
        | inr f ↦ let h' : (not_active, db) ≡ (outcome, after) = rw f at h in inl (refused refl h')
        | inl t ↦
            elim (Bool-cases
              (is_stale read_payload db job s.clarification_id s.clarification_revision)) [
                | inl old ↦
                    let h' : (stale, db) ≡ (outcome, after) = rw (t, old) at h in
                    inl (refused refl h')
                | inr fresh ↦
                    let h' : (
                      inserted (response_message now message job s target),
                      write_response read_payload now message job user s target db,
                    )
                        ≡ (outcome, after) =
                      rw (t, fresh) at h in
                    let written = sym (ap (λ p. p.1) h') in
                    inr (record {
                      target = target;
                      known = known;
                      its_id = its_id;
                      owner = owner;
                      open_session = open_session;
                      waits = ==→≡ target.status "waiting_for_user_input" t;
                      fresh = fresh;
                      inserts = sym (ap (λ p. p.0) h');
                      writes = written;
                      one_message = ap (λ (d : ChatDb). d.messages) written;
                      requeued = ap (λ (d : ChatDb). d.jobs) written;
                      one_checkpoint = (_, ap (λ (d : ChatDb). d.checkpoints) written);
                      one_event = (_, ap (λ (d : ChatDb). d.events) written);
                      one_audit_event = (_, ap (λ (d : ChatDb). d.outbox) written);
                      others_kept = (
                        ap (λ (d : ChatDb). d.sessions) written,
                        ap (λ (d : ChatDb). d.memory) written,
                      );
                    })
              ]
      ]

  -- A response is either refused, and then nothing changes, or it is taken: then the job is the
  -- user's, in a session that is not archived, and waits for input, the submission does not name
  -- another clarification than the pending one, and what is written is one message, the queued job,
  -- one checkpoint, one event and one audit event; sessions and memory stay as they are.
  pub respond_guarded :
      (now message job user : ℕ) (s : ValidatedClarificationSubmission) (db : ChatDb)
      (outcome : PersistResponseOutcome) (after : ChatDb)
      → respond read_payload now message job user s db ≡ (outcome, after)
      → ((is_refusal outcome ≡ true) × (after ≡ db))
        ⊎ IsTaken now message job user s db outcome after
  unfolding respond
  respond_guarded now message job user s db outcome after h =
      let test = λ (row : ChatJobRow).
        is_job job row && is_some_of row.user_id user && in_open_session db row in
      elim (Option-cases (find test db.jobs)) [
        | inl nothing ↦
            let h' : (not_found, db) ≡ (outcome, after) = rw nothing at h in inl (refused refl h')
        | inr (target, found) ↦
            let (passes, known) = find-some test db.jobs found in
            let h' : respond_to read_payload now message job user s db (some target)
                ≡ (outcome, after) =
              rw found at h in
            respond_to-cases now message job user s db target known
              (==→≡ target.id job (ground arith)) (is_some_of-eq target.user_id user (ground arith))
              (ground arith) outcome after h'
      ]

  -- Once a response has been taken, no further one for the job is, whoever sends it: it is refused
  -- and changes nothing.
  pub respond_once :
      (now message user now' message' job user' : ℕ) (s s' : ValidatedClarificationSubmission)
      (db : ChatDb) (m : ChatMessageRow) (after : ChatDb)
      → respond read_payload now message job user s db ≡ (inserted m, after)
      → (is_refusal (respond read_payload now' message' job user' s' after).0 ≡ true)
        × ((respond read_payload now' message' job user' s' after).1 ≡ after)
  respond_once now message user now' message' job user' s s' db m after h =
      let again = respond read_payload now' message' job user' s' after in
      elim (respond_guarded now' message' job user' s' after again.0 again.1 refl) [
        | inl turned_down ↦ turned_down
        | inr second ↦ elim (respond_guarded now message job user s db (inserted m) after h) [
          | inl turned_down ↦ cc (turned_down.0)
          | inr first ↦
              let in_after =
                subst (λ (d : ChatDb). second.target ∈ d.jobs) first.writes second.known in
              let (row, in_db, which) =
                mem-update_where (is_job job) (requeue_job now first.target.current_step) db.jobs
                  in_after in
              elim which [
                | inl (t, e) ↦
                    let queued = sym (ap (λ (r : ChatJobRow). r.status) e) ∙ second.waits in cc
                | inr (f, e) ↦
                    let same = sym (ap (λ (r : ChatJobRow). r.id) e) ∙ second.its_id in
                    let t : is_job job row ≡ true = rw same (==_refl job) in cc
              ]
        ]
      ]
