-- ===== src/Job.antt =====
-- crates/chat/src/job and crates/chat/src/conversation/repository/session.rs: the rows of chat
-- sessions, jobs and messages. An `UPDATE … WHERE` rewrites the rows that pass; a transaction that
-- ends without a commit leaves the database as it was. New ids and the time are arguments, and a
-- statement that the database refuses is outside the model.
pub mod Repository
pub mod Sessions
pub mod Audit
pub mod Respond
pub mod Terminal
pub mod Tables
pub mod Answered
pub mod Late
pub mod Lifecycle
pub mod Consistent
pub mod Kept
pub mod Invariant
pub mod Visible
pub mod Trail
pub mod Audited
use fineract_ai_reports.Prelude.{
  ◌==◌, string_eq, nat_eq, int_eq, ℕ, String, Bool, true, false, ◌&&◌, ◌||◌, Option, none, some,
  List, [], ◌∷◌, ◌++◌,
}
use fineract_ai_reports.Json.{Json, Fields, end, field, insert_field}
use fineract_ai_reports.Management.{ManagementAuditEvent}
use fineract_ai_reports.Workflow.State.{LogRow}

pub record ChatSessionRow : Type 0 where
  pub id : ℕ
  pub user_id : Option ℕ
  pub api_key_id : Option ℕ
  pub title : Option String
  pub status : String
  pub context_json : Fields
  pub created_at : ℕ
  pub updated_at : ℕ
  pub expires_at : Option ℕ
  pub archived_at : Option ℕ

pub record ChatJobRow : Type 0 where
  pub id : ℕ
  pub session_id : ℕ
  pub user_id : Option ℕ
  pub api_key_id : Option ℕ
  pub user_message_id : Option ℕ
  pub status : String
  pub current_step : String
  pub resume_from_step : Option String
  pub message : String
  pub state_json : Fields
  pub state_revision : ℕ  -- i64
  pub result_json : Option Json
  pub error_json : Option Json
  pub created_at : ℕ
  pub updated_at : ℕ
  pub expires_at : ℕ
  pub completed_at : Option ℕ
  pub failed_at : Option ℕ
  pub cancelled_at : Option ℕ

pub record ChatMessageRow : Type 0 where
  pub id : ℕ
  pub session_id : ℕ
  pub job_id : Option ℕ
  pub role : String
  pub content : String
  pub metadata_json : Json
  pub created_at : ℕ

-- A row of `assistant_job_memory`
pub record JobMemoryRow : Type 0 where
  pub job_id : ℕ
  pub pending_clarification_json : Option Json

pub record ChatDb : Type 0 where
  pub sessions : List ChatSessionRow
  pub jobs : List ChatJobRow
  pub messages : List ChatMessageRow
  pub memory : List JobMemoryRow
  pub checkpoints : List LogRow
  pub events : List LogRow
  pub outbox : List ManagementAuditEvent

-- `a = $1` on a column that may be null
abbrev pub is_some_of : Option ℕ → ℕ → Bool
is_some_of none n = false
is_some_of (some m) n = m == n

abbrev pub is_null {ℓ} : {A : Type ℓ} → Option A → Bool
is_null none = true
is_null (some a) = false

-- `user_id = $1 OR ($2 AND user_id IS NULL)`
abbrev pub is_visible_to : Option ℕ → ℕ → Bool → Bool
is_visible_to owner user include_legacy = is_some_of owner user || (include_legacy && is_null owner)

-- `enqueue` of management/repository.rs
abbrev pub enqueue : ManagementAuditEvent → ChatDb → ChatDb
enqueue event db = record db { outbox = db.outbox ++ event ∷ [] }

-- `jsonb || jsonb` on objects
abbrev pub merge_fields : Fields → Fields → Fields
merge_fields state end = state
merge_fields state (field k v rest) = merge_fields (insert_field state k v) rest
