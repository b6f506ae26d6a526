-- ===== src/Job/Sessions.antt =====
-- crates/chat/src/conversation/repository/session.rs, all but the listing.
use fineract_ai_reports.Prelude.{
  ◌==◌, string_eq, nat_eq, find, int_eq, ℕ, String, Bool, ◌&&◌, Option, none, some, [], ◌∷◌, ◌++◌,
}
use fineract_ai_reports.Json.{end}
use fineract_ai_reports.Management.{
  session_archived, chat_session, success, chat_session_archived, ManagementAuditEvent,
}
use fineract_ai_reports.Workflow.State.{update_where}
use fineract_ai_reports.Job.{ChatSessionRow, ChatDb, is_null, is_visible_to, enqueue}

-- `create`: what `RETURNING` gives, and the database after it. Columns without a value take the
-- table's defaults.
abbrev pub create_session : ℕ → ℕ → ℕ → Option String → ChatDb → ChatSessionRow × ChatDb
create_session now id user title db =
    let row : ChatSessionRow = record {
      id = id;
      user_id = some user;
      api_key_id = none;
      title = title;
      status = "active";
      context_json = end;
      created_at = now;
      updated_at = now;
      expires_at = none;
      archived_at = none;
    } in
    (row, record db { sessions = db.sessions ++ row ∷ [] })

abbrev pub is_open_for : ℕ → ℕ → Bool → ChatSessionRow → Bool
is_open_for session user include_legacy row =
    (row.id == session) && is_visible_to row.user_id user include_legacy && is_null row.archived_at

-- `get_for_user`
abbrev pub get_session_for_user : ℕ → ℕ → Bool → ChatDb → Option ChatSessionRow
get_session_for_user session user include_legacy db =
    find (is_open_for session user include_legacy) db.sessions

abbrev pub rename_row : ℕ → String → ChatSessionRow → ChatSessionRow
rename_row now title row = record row { title = some title; updated_at = now }

-- `rename_for_user`: the renamed row, where there was one
unfoldable pub rename_for_user : ℕ → ℕ → ℕ → Bool → String → ChatDb → Option ChatSessionRow × ChatDb
rename_for_user now session user include_legacy title db =
    let test = is_open_for session user include_legacy in
    (
      elim (find test db.sessions) [ none ↦ none | some row ↦ some (rename_row now title row) ],
      record db { sessions = update_where test (rename_row now title) db.sessions },
    )

abbrev pub archive_row : ℕ → ChatSessionRow → ChatSessionRow
archive_row now row = record row { status = "archived"; archived_at = some now; updated_at = now }

abbrev pub session_archived_event : ℕ → ℕ → ℕ → ManagementAuditEvent
session_archived_event now id user = record {
  aggregate_type = chat_session;
  aggregate_id = id;
  job_id = none;
  session_id = some id;
  actor_user_id = some user;
  event_type = chat_session_archived;
  outcome = success;
  summary = session_archived;
  sanitized_error = none;
  occurred_at = now;
}

-- `archive_for_user`
unfoldable pub archive_for_user : ℕ → ℕ → ℕ → Bool → ChatDb → Option ℕ × ChatDb
archive_for_user now session user include_legacy db =
    let test = is_open_for session user include_legacy in
    let archived = record db { sessions = update_where test (archive_row now) db.sessions } in
    elim (find test db.sessions) [
      | none ↦ (none, archived)
      | some row ↦ (some row.id, enqueue (session_archived_event now row.id user) archived)
    ]
