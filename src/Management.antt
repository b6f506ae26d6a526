-- ===== src/Management.antt =====
-- crates/chat/src/management: the audit events of model.rs, and the outbox that repository.rs writes.
use fineract_ai_reports.Prelude.{
  string_eq, nat_eq, int_eq, ℕ, String, Option, if◌then◌else◌, ◌==◌, ◌≡◌, refl, none, some, List,
  [], ◌∷◌,
}

-- A text that has passed the check of `SafeIdentifier::try_from`
pub record SafeIdentifier : Type 0 where
  pub text : String

pub data NormalizedErrorCode : Type 0 where
  database_unavailable dispatcher_unavailable serialization_failed : NormalizedErrorCode
  provider_unavailable provider_timeout provider_malformed unknown : NormalizedErrorCode

pub record SanitizedError : Type 0 where
  pub code : NormalizedErrorCode

pub data PolicyResult : Type 0 where
  allowed denied : PolicyResult

pub data AuditSummary : Type 0 where
  job_created job_completed job_failed : AuditSummary
  clarification_requested clarification_received session_archived : AuditSummary
  policy_evaluated : SafeIdentifier → PolicyResult → AuditSummary
  execution : SafeIdentifier → Option ℕ → AuditSummary
  business_date_fallback : SafeIdentifier → AuditSummary

pub data AuditAggregateType : Type 0 where
  chat_job chat_session management : AuditAggregateType

pub data AuditOutcome : Type 0 where
  success blocked clarification unsupported failed : AuditOutcome

pub data AuditEventType : Type 0 where
  chat_job_created knowledge_retrieval_completed context_assembled : AuditEventType
  policy_evaluated execution_authorized execution_blocked execution_completed : AuditEventType
  chat_clarification_requested chat_clarification_received : AuditEventType
  chat_job_completed chat_job_failed chat_session_archived chat_session_deleted : AuditEventType
  business_date_fallback execution_result_truncated execution_timed_out : AuditEventType

pub record ManagementAuditEvent : Type 0 where
  pub aggregate_type : AuditAggregateType
  pub aggregate_id : ℕ
  pub job_id : Option ℕ
  pub session_id : Option ℕ
  pub actor_user_id : Option ℕ
  pub event_type : AuditEventType
  pub outcome : AuditOutcome
  pub summary : AuditSummary
  pub sanitized_error : Option SanitizedError
  pub occurred_at : ℕ

-- The `as_str` functions
unfoldable pub aggregate_str : AuditAggregateType → String
aggregate_str chat_job = "chat_job"
aggregate_str chat_session = "chat_session"
aggregate_str management = "management"

unfoldable pub event_type_str : AuditEventType → String
event_type_str chat_job_created = "chat.job_created"
event_type_str knowledge_retrieval_completed = "knowledge.retrieval_completed"
event_type_str context_assembled = "context.assembled"
event_type_str policy_evaluated = "policy.evaluated"
event_type_str execution_authorized = "execution.authorized"
event_type_str execution_blocked = "execution.blocked"
event_type_str execution_completed = "execution.completed"
event_type_str chat_clarification_requested = "chat.clarification_requested"
event_type_str chat_clarification_received = "chat.clarification_received"
event_type_str chat_job_completed = "chat.job_completed"
event_type_str chat_job_failed = "chat.job_failed"
event_type_str chat_session_archived = "chat.session_archived"
event_type_str chat_session_deleted = "chat.session_deleted"
event_type_str business_date_fallback = "business_date.fallback_used"
event_type_str execution_result_truncated = "execution.result_truncated"
event_type_str execution_timed_out = "execution.timed_out"

unfoldable pub outcome_str : AuditOutcome → String
outcome_str success = "success"
outcome_str blocked = "blocked"
outcome_str clarification = "clarification"
outcome_str unsupported = "unsupported"
outcome_str failed = "failed"

-- The names that serde reads, in the order of the variants
abbrev pub serde_names : List (String × AuditEventType)
serde_names =
    ("chat.job_created", chat_job_created)
    ∷ ("knowledge.retrieval_completed", knowledge_retrieval_completed)
    ∷ ("context.assembled", context_assembled)
    ∷ ("policy.evaluated", policy_evaluated)
    ∷ ("execution.authorized", execution_authorized)
    ∷ ("execution.blocked", execution_blocked)
    ∷ ("execution.completed", execution_completed)
    ∷ ("chat.clarification_requested", chat_clarification_requested)
    ∷ ("chat.clarification_received", chat_clarification_received)
    ∷ ("chat.job_completed", chat_job_completed)
    ∷ ("chat.job_failed", chat_job_failed)
    ∷ ("chat.session_archived", chat_session_archived)
    ∷ ("chat.session_deleted", chat_session_deleted)
    ∷ ("business_date.fallback_used", business_date_fallback)
    ∷ ("execution.result_truncated", execution_result_truncated)
    ∷ ("execution.timed_out", execution_timed_out)
    ∷ []

abbrev pub lookup : List (String × AuditEventType) → String → Option AuditEventType
lookup [] name = none
lookup ((n, t) ∷ rest) name = if n == name then some t else lookup rest name

unfoldable pub event_type_from : String → Option AuditEventType
event_type_from name = lookup serde_names name

-- The text that the code gives an event type is the name under which serde stores it: reading it
-- back gives the event type, so no two have the same text.
pub event_type_from-str : (t : AuditEventType) → event_type_from (event_type_str t) ≡ some t
unfolding event_type_from event_type_str
event_type_from-str chat_job_created = refl
event_type_from-str knowledge_retrieval_completed = refl
event_type_from-str context_assembled = refl
event_type_from-str policy_evaluated = refl
event_type_from-str execution_authorized = refl
event_type_from-str execution_blocked = refl
event_type_from-str execution_completed = refl
event_type_from-str chat_clarification_requested = refl
event_type_from-str chat_clarification_received = refl
event_type_from-str chat_job_completed = refl
event_type_from-str chat_job_failed = refl
event_type_from-str chat_session_archived = refl
event_type_from-str chat_session_deleted = refl
event_type_from-str business_date_fallback = refl
event_type_from-str execution_result_truncated = refl
event_type_from-str execution_timed_out = refl
