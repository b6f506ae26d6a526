-- ===== src/Job/Trail.antt =====
-- What the calls write into the logs: the audit outbox, the messages, the checkpoints and the events.
use fineract_ai_reports.Prelude.{
  Option-cases, string_eq, nat_eq, find, int_eq, ℕ, ◌≡◌, refl, sym, ap, ◌∙◌, subst, inl, inr, Bool,
  false, Option, none, some, List, [], ◌∷◌, ◌++◌, append-nil, append_assoc,
}
use fineract_ai_reports.Json.{Json}
use fineract_ai_reports.Management.{job_created, success, chat_job_created, ManagementAuditEvent}
use fineract_ai_reports.Workflow.State.{update_where}
use fineract_ai_reports.Job.{ChatDb, enqueue}
use fineract_ai_reports.Job.Audit.{job_event}
use fineract_ai_reports.Job.Sessions.{
  create_session, is_open_for, get_session_for_user, rename_for_user, archive_row,
  session_archived_event, archive_for_user,
}
use fineract_ai_reports.Job.Repository.{
  is_job, update_jobs, insert_message, CreateInput, user_message, create_in, session_for,
  create_for, create, wait_for_user_input, update_plan_state, merge_retrieval_trace, wait_job,
}
use fineract_ai_reports.Job.Respond.{
  PendingClarification, ValidatedClarificationSubmission, respond,
}
use fineract_ai_reports.Job.Terminal.{
  complete, assistant_message, Response, end_job, terminal_event, enqueue_all, lifecycle_of,
  persist_response, store_result, fail,
}
use fineract_ai_reports.Job.Answered.{respond_guarded}
use fineract_ai_reports.Job.Lifecycle.{
  Request, creates, renames, archives, awaits_input, plans, traces, responds, emits, completes,
  persists, stores, fails_with, step, records_checkpoint,
}

-- A list that others are appended to

abbrev pub Extends : {A : Type 0} → List A → List A → Type 0
Extends {A} before after = (more : List A) × (after ≡ before ++ more)

pub record OnlyAppends (before after : ChatDb) : Type 0 where
  pub outbox : Extends before.outbox after.outbox
  pub messages : Extends before.messages after.messages
  pub checkpoints : Extends before.checkpoints after.checkpoints
  pub events : Extends before.events after.events

same : {A : Type 0} (xs : List A) → Extends xs xs
same xs = ([], sym (append-nil xs))

OnlyAppends-refl : (db : ChatDb) → OnlyAppends db db
OnlyAppends-refl db = record {
  outbox = same db.outbox;
  messages = same db.messages;
  checkpoints = same db.checkpoints;
  events = same db.events;
}

-- A database with the same logs
unlogged :
    (db after : ChatDb)
    → after.outbox ≡ db.outbox
    → after.messages ≡ db.messages
    → after.checkpoints ≡ db.checkpoints
    → after.events ≡ db.events
    → OnlyAppends db after
unlogged db after o m c e = record {
  outbox = ([], o ∙ sym (append-nil db.outbox));
  messages = ([], m ∙ sym (append-nil db.messages));
  checkpoints = ([], c ∙ sym (append-nil db.checkpoints));
  events = ([], e ∙ sym (append-nil db.events));
}

enqueue_all-outbox :
    (events : List ManagementAuditEvent) (db : ChatDb) → OnlyAppends db (enqueue_all events db)
enqueue_all-outbox [] db = OnlyAppends-refl db
enqueue_all-outbox (event ∷ events) db =
    let rest = enqueue_all-outbox events (enqueue event db) in
    let (more, e) = rest.outbox in
    record {
      outbox = (event ∷ more, e ∙ append_assoc db.outbox (event ∷ []) more);
      messages = rest.messages;
      checkpoints = rest.checkpoints;
      events = rest.events;
    }

-- One audit event more
appends_event :
    (event : ManagementAuditEvent) (db after : ChatDb)
    → OnlyAppends db after
    → after.outbox ≡ db.outbox
    → OnlyAppends db (enqueue event after)
appends_event event db after h e = record {
  outbox = (event ∷ [], ap (λ xs. xs ++ event ∷ []) e);
  messages = h.messages;
  checkpoints = h.checkpoints;
  events = h.events;
}

persist_response-appends : (r : Response) (db : ChatDb) → OnlyAppends db (persist_response r db).1
unfolding persist_response
persist_response-appends r db =
    let m = assistant_message r.now r.message_id r.session_id r.job_id r.content r.metadata_json in
    let ended : ChatDb = enqueue (terminal_event r r.terminal) (
      update_jobs (is_job r.job_id) (end_job r.now r.result_json r.terminal)
        (insert_message m db)) in
    let rest = enqueue_all-outbox (lifecycle_of r r.execution) ended in
    let (more, e) = rest.outbox in
    let (no_messages, em) = rest.messages in
    record {
      outbox = (
        terminal_event r r.terminal ∷ more,
        e ∙ append_assoc db.outbox (terminal_event r r.terminal ∷ []) more,
      );
      messages = (m ∷ no_messages, em ∙ append_assoc db.messages (m ∷ []) no_messages);
      checkpoints = rest.checkpoints;
      events = rest.events;
    }

create-appends : (c : CreateInput) (db : ChatDb) → OnlyAppends db (create c db).1
unfolding create
create-appends c db = by_session c.session_id
  where
    made : (session : ℕ) (d : ChatDb) → OnlyAppends d (create_in c session d).1
    made session d = record {
      outbox = (
        job_event c.now session c.job_id c.user_id chat_job_created success job_created ∷ [],
        refl,
      );
      messages = (user_message c session ∷ [], refl);
      checkpoints = same d.checkpoints;
      events = same d.events;
    }

    by_session : (session : Option ℕ) → OnlyAppends db (create_for c (session_for c session db)).1
    by_session none =
        let h = made c.new_session_id (create_session c.now c.new_session_id c.user_id none db).1 in
        record {
          outbox = h.outbox;
          messages = h.messages;
          checkpoints = h.checkpoints;
          events = h.events;
        }
    by_session (some session) =
        elim (Option-cases (get_session_for_user session c.user_id false db)) [
          | inl nothing ↦ rw (nothing, create_for, session_for) (OnlyAppends-refl db)
          | inr (row, e) ↦ rw (e, create_for, session_for) (made session db)
        ]

archive_for_user-appends :
    (now session user : ℕ) (legacy : Bool) (db : ChatDb)
    → OnlyAppends db (archive_for_user now session user legacy db).1
unfolding archive_for_user
archive_for_user-appends now session user legacy db =
    elim (Option-cases (find (is_open_for session user legacy) db.sessions)) [
      | inl nothing ↦ rw (nothing, archive_for_user) (unlogged db archived refl refl refl refl)
      | inr (row, e) ↦
          rw (e, archive_for_user)
            (appends_event (session_archived_event now row.id user) db archived
              (unlogged db archived refl refl refl refl) refl)
    ]
  where
    archived : ChatDb
    archived = record db {
      sessions = update_where (is_open_for session user legacy) (archive_row now) db.sessions;
    }

module _ (read_payload : Json → Option PendingClarification) where
  respond-appends :
      (now message job user : ℕ) (s : ValidatedClarificationSubmission) (db : ChatDb)
      → OnlyAppends db (respond read_payload now message job user s db).1
  respond-appends now message job user s db =
      let answer = respond read_payload now message job user s db in
      elim (respond_guarded read_payload now message job user s db answer.0 answer.1 refl) [
        | inl refused ↦ subst (OnlyAppends db) (sym refused.1) (OnlyAppends-refl db)
        | inr taken ↦ subst (OnlyAppends db) (sym taken.writes) (record {
          outbox = (_ ∷ [], refl);
          messages = (_ ∷ [], refl);
          checkpoints = (_ ∷ [], refl);
          events = (_ ∷ [], refl);
        })
      ]

  -- No call removes, changes or reorders what has been logged: audit events, messages, checkpoints and
  -- job events are only appended to.
  pub step-OnlyAppends : (r : Request) (db : ChatDb) → OnlyAppends db (step read_payload r db)
  unfolding step rename_for_user wait_for_user_input update_plan_state merge_retrieval_trace
      complete store_result fail
  step-OnlyAppends (creates c) db = create-appends c db
  step-OnlyAppends (archives now session user legacy) db =
      archive_for_user-appends now session user legacy db
  step-OnlyAppends (awaits_input now session job actor) db =
      appends_event _ db (update_jobs (is_job job) (wait_job now) db)
        (unlogged db _ refl refl refl refl) refl
  step-OnlyAppends (responds now message job user s) db = respond-appends now message job user s db
  step-OnlyAppends (records_checkpoint job at kind payload) db = record {
    outbox = same db.outbox;
    messages = same db.messages;
    checkpoints = (_ ∷ [], refl);
    events = same db.events;
  }
  step-OnlyAppends (emits job kind at payload) db = record {
    outbox = same db.outbox;
    messages = same db.messages;
    checkpoints = same db.checkpoints;
    events = (_ ∷ [], refl);
  }
  step-OnlyAppends (persists r) db = persist_response-appends r db
  step-OnlyAppends (renames now session user legacy title) db = unlogged db _ refl refl refl refl
  step-OnlyAppends (plans now job user expected state) db = unlogged db _ refl refl refl refl
  step-OnlyAppends (traces now job user trace) db = unlogged db _ refl refl refl refl
  step-OnlyAppends (completes now job result) db = unlogged db _ refl refl refl refl
  step-OnlyAppends (stores now job result) db = unlogged db _ refl refl refl refl
  step-OnlyAppends (fails_with now job error) db = unlogged db _ refl refl refl refl
