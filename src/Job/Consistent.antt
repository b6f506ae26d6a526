-- ===== src/Job/Consistent.antt =====
-- What holds of every job, after whichever calls.
use fineract_ai_reports.Prelude.{
  Option-cases, ◌==◌, string_eq, nat_eq, any, All, All-weaken, int_eq, ℕ, String, ◌≡◌, inl, inr,
  Bool, true, false, ◌&&◌, ◌||◌, none, some, List, [], ◌∷◌, ◌++◌, arith, ap, ◌∙◌, Option,
}
use fineract_ai_reports.Workflow.State.{}
use fineract_ai_reports.Job.{ChatJobRow, ChatMessageRow, ChatDb, is_some_of, is_null}
use fineract_ai_reports.Job.Audit.{}
use fineract_ai_reports.Job.Sessions.{}
use fineract_ai_reports.Job.Repository.{update_jobs, insert_message}
use fineract_ai_reports.Job.Respond.{}
use fineract_ai_reports.Job.Terminal.{is_terminal_status}
use fineract_ai_reports.Job.Tables.{All-update_where}
use fineract_ai_reports.Job.Answered.{}
use fineract_ai_reports.Job.Late.{}
use fineract_ai_reports.Job.Lifecycle.{}

abbrev pub is_known_status : String → Bool
is_known_status status =
    (status == "queued")
    || (status == "waiting_for_user_input")
    || (status == "completed")
    || (status == "failed")

pub record RowHolds (row : ChatJobRow) : Type 0 where
  pub known : is_known_status row.status ≡ true
  pub completed :
      row.status ≡ "completed"
      → (row.error_json ≡ none)
        × (is_null row.result_json ≡ false)
        × (is_null row.completed_at ≡ false)
  pub failed :
      row.status ≡ "failed" → (is_null row.error_json ≡ false) × (is_null row.failed_at ≡ false)

abbrev pub asks : ℕ → ℕ → ChatMessageRow → Bool
asks job id m = (m.id == id) && is_some_of m.job_id job && (m.role == "user")

-- The user's message of a job is there.
abbrev pub links : List ChatMessageRow → ℕ → Option ℕ → Bool
links messages job none = false
links messages job (some id) = any (asks job id) messages

abbrev pub is_linked : List ChatMessageRow → ChatJobRow → Bool
is_linked messages row = links messages row.id row.user_message_id

abbrev pub Holds : List ChatMessageRow → ChatJobRow → Type 0
Holds messages row = RowHolds row × (is_linked messages row ≡ true)

abbrev pub IsConsistent : ChatDb → Type 0
IsConsistent db = All (Holds db.messages) db.jobs

any-append_left :
    {A : Type 0} (p : A → Bool) (xs ys : List A) → any p xs ≡ true → any p (xs ++ ys) ≡ true
any-append_left p [] ys h = cc
any-append_left p (x ∷ xs) ys h = ground (arith, any-append_left p xs ys)

pub any-append_right :
    {A : Type 0} (p : A → Bool) (xs ys : List A) → any p ys ≡ true → any p (xs ++ ys) ≡ true
any-append_right p [] ys h = h
any-append_right p (x ∷ xs) ys h = ground (arith, any-append_right p xs ys h)

-- Further messages do not unlink a job.
pub Holds-append :
    (messages more : List ChatMessageRow) (row : ChatJobRow)
    → Holds messages row
    → Holds (messages ++ more) row
Holds-append messages more row (holds, linked) = (
  holds,
  elim (Option-cases row.user_message_id) [
    | inl nothing ↦ let no_link : false ≡ true = rw nothing at linked in cc
    | inr (id, e) ↦
        let linked' : any (asks row.id id) messages ≡ true = rw e at linked in
        rw e (any-append_left (asks row.id id) messages more linked')
  ],
)

-- A change that keeps what holds of a row, and its id and message
pub record Keeps (test : ChatJobRow → Bool) (change : ChatJobRow → ChatJobRow) : Type 0 where
  pub holds : (row : ChatJobRow) → test row ≡ true → RowHolds row → RowHolds (change row)
  pub same_id : (row : ChatJobRow) → (change row).id ≡ row.id
  pub same_message : (row : ChatJobRow) → (change row).user_message_id ≡ row.user_message_id

pub update_jobs-IsConsistent :
    (test : ChatJobRow → Bool) (change : ChatJobRow → ChatJobRow)
    → Keeps test change
    → (db : ChatDb) → IsConsistent db
    → IsConsistent (update_jobs test change db)
update_jobs-IsConsistent test change keeps db h =
    All-update_where test change (Holds db.messages) (Holds db.messages)
      (λ row t (holds, linked). (
        keeps.holds row t holds,
        ap (links db.messages (change row).id) (keeps.same_message row)
            ∙ ap (λ id. links db.messages id row.user_message_id) (keeps.same_id row)
            ∙ linked,
      ))
      (λ row f p. p) db.jobs h

pub insert_message-IsConsistent :
    (m : ChatMessageRow) (db : ChatDb) → IsConsistent db → IsConsistent (insert_message m db)
insert_message-IsConsistent m db h = All-weaken (Holds-append db.messages (m ∷ [])) db.jobs h

-- A change that keeps what holds of a row whichever row passes
pub quiet :
    (test : ChatJobRow → Bool) (change : ChatJobRow → ChatJobRow)
    → ((row : ChatJobRow) → RowHolds row → RowHolds (change row))
    → ((row : ChatJobRow) → (change row).id ≡ row.id)
    → ((row : ChatJobRow) → (change row).user_message_id ≡ row.user_message_id)
    → Keeps test change
quiet test change holds same_id same_message = record {
  holds = λ row t. holds row;
  same_id = same_id;
  same_message = same_message;
}

pub RowHolds-open :
    (row : ChatJobRow)
    → is_known_status row.status ≡ true
    → is_terminal_status row.status ≡ false
    → RowHolds row
RowHolds-open row known unended = record {
  known = known;
  completed = λ e. let ended = ap is_terminal_status e in cc;
  failed = λ e. let ended = ap is_terminal_status e in cc;
}
