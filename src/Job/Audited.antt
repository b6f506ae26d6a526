-- ===== src/Job/Audited.antt =====
-- What is audited of an execution.
use fineract_ai_reports.Prelude.{
  string_eq, nat_eq, contains, int_eq, ℕ, String, ◌≡◌, refl, Bool, true, false, ◌&&◌, not, List,
  map,
}
use fineract_ai_reports.Json.{}
use fineract_ai_reports.Management.{ManagementAuditEvent, event_type_str}
use fineract_ai_reports.Workflow.State.{}
use fineract_ai_reports.Job.{}
use fineract_ai_reports.Job.Audit.{ExecutionAuditContext, execution_lifecycle_events}
use fineract_ai_reports.Job.Sessions.{}
use fineract_ai_reports.Job.Repository.{}
use fineract_ai_reports.Job.Respond.{}
use fineract_ai_reports.Job.Terminal.{}
use fineract_ai_reports.Job.Answered.{}
use fineract_ai_reports.Job.Lifecycle.{}

abbrev pub names_of : List ManagementAuditEvent → List String
names_of events = map (λ (e : ManagementAuditEvent). event_type_str e.event_type) events

-- What is audited of an execution
abbrev pub IsAudited : ExecutionAuditContext → List ManagementAuditEvent → Type 0
IsAudited context events =
    (contains (names_of events) "policy.evaluated" ≡ true)
    × (contains (names_of events) "execution.authorized" ≡ context.allowed)
    × (contains (names_of events) "execution.blocked" ≡ not context.allowed)
    × (contains (names_of events) "execution.completed"
        ≡ (context.allowed && not context.timed_out))
    × (contains (names_of events) "execution.result_truncated"
        ≡ (context.allowed && context.truncated))
    × (contains (names_of events) "execution.timed_out" ≡ (context.allowed && context.timed_out))

-- An execution is always audited as evaluated; as authorized exactly if it was allowed, as blocked if
-- not; as completed exactly if it was allowed and did not time out, and as truncated or timed out
-- exactly if it was allowed and that happened: a blocked execution is never audited as run.
pub execution_lifecycle_events-IsAudited :
    (now session job actor : ℕ) (context : ExecutionAuditContext)
    → IsAudited context (execution_lifecycle_events now session job actor context)
unfolding execution_lifecycle_events event_type_str
execution_lifecycle_events-IsAudited now session job actor context =
    by_flags context.allowed context.truncated context.timed_out
  where
    with_flags : Bool → Bool → Bool → ExecutionAuditContext
    with_flags a t o = record context { allowed = a; truncated = t; timed_out = o }

    by_flags :
        (a t o : Bool)
        → IsAudited
            (with_flags a t o)
            (execution_lifecycle_events now session job actor (with_flags a t o))
    by_flags false t o = (refl, refl, refl, refl, refl, refl)
    by_flags true false false = (refl, refl, refl, refl, refl, refl)
    by_flags true false true = (refl, refl, refl, refl, refl, refl)
    by_flags true true false = (refl, refl, refl, refl, refl, refl)
    by_flags true true true = (refl, refl, refl, refl, refl, refl)
