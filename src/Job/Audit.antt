-- ===== src/Job/Audit.antt =====
-- `execution_lifecycle_events` of crates/chat/src/job/repository/mod.rs.
use fineract_ai_reports.Prelude.{
  if◌then◌else◌, string_eq, nat_eq, int_eq, ℕ, Bool, not, Option, none, some, List, [], ◌∷◌, ◌++◌,
}
use fineract_ai_reports.Management.{
  allowed, SafeIdentifier, denied, AuditSummary, policy_evaluated, execution, chat_job,
  AuditOutcome, success, blocked, failed, AuditEventType, execution_authorized, execution_blocked,
  execution_completed, execution_result_truncated, execution_timed_out, ManagementAuditEvent,
}

pub record ExecutionAuditContext : Type 0 where
  pub capability_id : SafeIdentifier
  pub query_id : SafeIdentifier
  pub row_count : Option ℕ
  pub allowed : Bool
  pub truncated : Bool
  pub timed_out : Bool

-- The closure `base`, and the other events about a job
abbrev pub job_event :
    ℕ → ℕ → ℕ → ℕ → AuditEventType → AuditOutcome → AuditSummary → ManagementAuditEvent
job_event now session job actor event_type outcome summary = record {
  aggregate_type = chat_job;
  aggregate_id = job;
  job_id = some job;
  session_id = some session;
  actor_user_id = some actor;
  event_type = event_type;
  outcome = outcome;
  summary = summary;
  sanitized_error = none;
  occurred_at = now;
}

-- A `push` under an `if`
abbrev pub push_if :
    Bool → ManagementAuditEvent → List ManagementAuditEvent → List ManagementAuditEvent
push_if b event events = if b then events ++ event ∷ [] else events

unfoldable pub execution_lifecycle_events :
    ℕ → ℕ → ℕ → ℕ → ExecutionAuditContext → List ManagementAuditEvent
execution_lifecycle_events now session job actor context =
    let base = job_event now session job actor in
    let evaluated =
      base policy_evaluated (if context.allowed then success else blocked)
        (policy_evaluated context.capability_id (if context.allowed then allowed else denied)) in
    let counted = execution context.query_id context.row_count in
    let uncounted = execution context.query_id none in
    if context.allowed
    then push_if context.timed_out (base execution_timed_out failed uncounted) (
        push_if context.truncated (base execution_result_truncated success counted) (
          push_if (not context.timed_out) (base execution_completed success counted)
            (evaluated ∷ base execution_authorized success uncounted ∷ [])))
    else evaluated ∷ base execution_blocked blocked uncounted ∷ []
