-- ===== src/Workflow/Runner/Authorized.antt =====
-- Every node that a run starts has passed the policy check, and what that check grants.
use fineract_ai_reports.Prelude.{
  ◌==◌, string_eq, nat_eq, is_empty, any, All, ◌∈◌, Result, ok, err, int_eq, ℕ, String, ◌≡◌, refl,
  ◌↔◌, ◌⊎◌, inl, inr, Bool, true, false, ◌&&◌, ◌||◌, not, Option, none, some, List, [], ◌∷◌, arith,
}
use fineract_ai_reports.Knowledge.{parameter_type_eq, KnowledgeCatalog}
use fineract_ai_reports.Json.{}
use fineract_ai_reports.Policy.{
  PrincipalContext, approved, ensure_capability_allowed, effective_office_scope, ensure_pii_allowed,
}
use fineract_ai_reports.Workflow.Contract.{NodeId, node_id_eq, WorkflowNode}
use fineract_ai_reports.Workflow.Ledger.{WorkflowNodeRun, RunError}
use fineract_ai_reports.Workflow.Budget.{from_completed}
use fineract_ai_reports.Workflow.Schedule.{}
use fineract_ai_reports.Workflow.State.{Db, node_runs}
use fineract_ai_reports.Workflow.State.Jobs.{}
use fineract_ai_reports.Workflow.Redaction.{}
use fineract_ai_reports.Workflow.Compose.{}
use fineract_ai_reports.Workflow.Runner.{
  Answer, RunContext, check_capability, query_capability, check_node_policy,
}
use fineract_ai_reports.Workflow.Runner.Node.{}
use fineract_ai_reports.Workflow.Runner.Reports.{}
use fineract_ai_reports.Workflow.Runner.Loop.{WorkflowRunOutcome, round_limit, run_workflow}
use fineract_ai_reports.Workflow.Runner.Rounds.{}
use fineract_ai_reports.Workflow.Runner.Ends.{}
use fineract_ai_reports.Workflow.Runner.Rows.{RowsHave}
use fineract_ai_reports.Workflow.Runner.Guarded.{run_loop-ResultHas}

-- The capability is approved in the catalog and is one of the principal's.
abbrev pub grants : PrincipalContext → KnowledgeCatalog → Option String → Bool
grants principal catalog none = true
grants principal catalog (some capability) =
    any (λ item. (item.id == capability) && approved item) catalog.capabilities
    && any (λ allowed. allowed == capability) principal.capability_ids

abbrev pub permits : PrincipalContext → KnowledgeCatalog → WorkflowNode → Bool
permits principal catalog node =
    grants principal catalog node.policy.required_capability
    && grants principal catalog (query_capability node.kind)
    && (not node.policy.pii_required || principal.can_view_pii)
    && not (is_empty principal.office_ids)

abbrev is_ok : {A : Type 0} → Result A RunError → Bool
is_ok (ok a) = true
is_ok (err e) = false

check_capability-grants :
    (capability : Option String) (principal : PrincipalContext) (catalog : KnowledgeCatalog)
    → is_ok (check_capability capability principal catalog) ≡ grants principal catalog capability
unfolding ensure_capability_allowed
check_capability-grants none principal catalog = refl
check_capability-grants (some capability) principal catalog = ground arith

-- The policy check of a node passes exactly if both of its capabilities, where it names them, are
-- approved in the catalog and held by the principal, the principal may see sensitive fields where
-- the node requires it, and the principal has an office.
pub check_node_policy_exact :
    (node : WorkflowNode) (principal : PrincipalContext) (catalog : KnowledgeCatalog)
    → (check_node_policy node principal catalog ≡ ok tt) ↔ (permits principal catalog node ≡ true)
unfolding check_node_policy ensure_pii_allowed effective_office_scope
check_node_policy_exact node principal catalog = ground (
  arith,
  check_capability-grants node.policy.required_capability principal catalog,
  check_capability-grants (query_capability node.kind) principal catalog,
)

-- A node that this run may start: a node of the workflow that the policy allows to the principal.
abbrev pub IsAllowed : RunContext → NodeId → Type 0
IsAllowed c id =
    (node : WorkflowNode) × (node ∈ c.workflow.nodes)
    × (node.id ≡ id)
    × (check_node_policy node c.principal c.catalog ≡ ok tt)

-- A node that had a row before.
abbrev pub IsOld : Db → NodeId → Type 0
IsOld db id = (run : WorkflowNodeRun) × (run ∈ db.node_runs) × (run.node_id ≡ id)

All-self :
    (db : Db) (runs : List WorkflowNodeRun)
    → ((run : WorkflowNodeRun) → run ∈ runs → run ∈ db.node_runs)
    → (P : NodeId → Type 0) → ((id : NodeId) → IsOld db id → P id)
    → All (λ (run : WorkflowNodeRun). P run.node_id) runs
All-self db [] sub P p = tt
All-self db (run ∷ runs) sub P p =
    (p run.node_id (run, sub run (inl refl), refl), All-self db runs (λ r m. sub r (inr m)) P p)

-- Whatever the nodes return and however the run ends, each row of the table of node runs that it
-- leaves behind is of a node that had a row before or of a node of the workflow whose capabilities,
-- sight of sensitive fields and office scope the policy grants to the principal.
pub run_workflow-IsAllowed :
    (c : RunContext) (answers : ℕ → WorkflowNode → Answer) (db after : Db)
    (result : Result WorkflowRunOutcome RunError)
    → run_workflow c answers db ≡ some (result, after)
    → RowsHave (λ id. IsOld db id ⊎ IsAllowed c id) after
unfolding run_workflow
run_workflow-IsAllowed c answers db after result h =
    let P : NodeId → Type 0 = λ id. IsOld db id ⊎ IsAllowed c id in
    let runs = node_runs c.job_id c.workflow.id db in
    let kept =
      run_loop-ResultHas P (round_limit c.workflow) c answers 0 runs
        (from_completed c.workflow runs) db (λ node m allowed. inr (node, m, refl, allowed))
        (All-self db db.node_runs (λ r m. m) P (λ id old. inl old)) in
    rw h at kept
