-- ===== src/Workflow/Compile/Agreed.antt =====
-- The sources of a comparison agree on scope and time.
use fineract_ai_reports.Prelude.{
  nat_beq, if◌then◌else◌, nat_beq_iff, Option-cases, ◌==◌, ==→≡, string_eq, nat_eq, find_last, ◌∈◌,
  all-mem, mem-append_left, mem-append_right, int_eq, ℕ, String, ◌≡◌, refl, sym, ap, ◌∙◌, inl, inr,
  true, Option, none, some, ◌++◌, Bool-cases, All, All-mem, All-weaken, ok, ok_or, >>=-eq-ok, Bool,
  ◌&&◌, List, [], ◌∷◌, arith,
}
use fineract_ai_reports.Knowledge.{
  parameter_type_eq, ConstraintField, limit_mode, limit_value, from_date, to_date, currency_code,
  metric, transaction_amount, domain, person_name, client_id, office, product, product_ids,
  office_ids, charge_type, account_number, operator_eq,
}
use fineract_ai_reports.Facts.{field_index, field_beq}
use fineract_ai_reports.Dataset.Compose.Branches.{ok_or-eq-ok}
use fineract_ai_reports.Workflow.Contract.{
  node_id_eq, BindingSource, NodeId, authorized_scope, catalog_default, deterministic_extraction,
  verified_user_text, exact_sensitive_input, safe_prior_selection, prior_step,
  authorized_data_probe, WorkflowNode, ExecutionWorkflow,
}
use fineract_ai_reports.Workflow.Compile.{invalid_proposal}
use fineract_ai_reports.Workflow.Compile.Expanded.{find_last-some}
use fineract_ai_reports.Workflow.Compile.Comparison.{
  source_beq, bound_beq, Bound, bound, facts_beq, facts_of, first_node, check_sources, compared,
  check_compared, check_nodes, check_comparison_facts,
}

field_at : ℕ → ConstraintField
field_at n =
    if nat_beq n 0
    then limit_mode
    else if nat_beq n 1
    then limit_value
    else if nat_beq n 2
    then from_date
    else if nat_beq n 3
    then to_date
    else if nat_beq n 4
    then currency_code
    else if nat_beq n 5
    then metric
    else if nat_beq n 6
    then transaction_amount
    else if nat_beq n 7
    then domain
    else if nat_beq n 8
    then person_name
    else if nat_beq n 9
    then client_id
    else if nat_beq n 10
    then office
    else if nat_beq n 11
    then product
    else if nat_beq n 12
    then product_ids
    else if nat_beq n 13
    then office_ids
    else if nat_beq n 14
    then charge_type
    else account_number

field_at-index : (f : ConstraintField) → field_at (field_index f) ≡ f
unfolding field_at
field_at-index limit_mode = refl
field_at-index limit_value = refl
field_at-index from_date = refl
field_at-index to_date = refl
field_at-index currency_code = refl
field_at-index metric = refl
field_at-index transaction_amount = refl
field_at-index domain = refl
field_at-index person_name = refl
field_at-index client_id = refl
field_at-index office = refl
field_at-index product = refl
field_at-index product_ids = refl
field_at-index office_ids = refl
field_at-index charge_type = refl
field_at-index account_number = refl

field_beq→≡ : (f g : ConstraintField) → field_beq f g ≡ true → f ≡ g
field_beq→≡ f g h =
    sym (field_at-index f)
    ∙ ap field_at ((nat_beq_iff (field_index f) (field_index g)).0 h)
    ∙ field_at-index g

and-left : (p q : Bool) → (p && q) ≡ true → p ≡ true
and-left p q h = ground arith

and-right : (p q : Bool) → (p && q) ≡ true → q ≡ true
and-right p q h = ground arith

source_beq→≡ : (a b : BindingSource) → source_beq a b ≡ true → a ≡ b
source_beq→≡ authorized_scope authorized_scope h = refl
source_beq→≡ catalog_default catalog_default h = refl
source_beq→≡ (deterministic_extraction f) (deterministic_extraction g) h =
    ap deterministic_extraction (field_beq→≡ f g h)
source_beq→≡ (verified_user_text f) (verified_user_text g) h =
    ap verified_user_text (field_beq→≡ f g h)
source_beq→≡ exact_sensitive_input exact_sensitive_input h = refl
source_beq→≡ (safe_prior_selection a) (safe_prior_selection b) h =
    ap safe_prior_selection (==→≡ a b h)
source_beq→≡ (prior_step a s) (prior_step b t) h =
    cc (==→≡ a b (and-left (a == b) (s == t) h), ==→≡ s t (and-right (a == b) (s == t) h))
source_beq→≡ (authorized_data_probe a s) (authorized_data_probe b t) h =
    cc (==→≡ a b (and-left (a == b) (s == t) h), ==→≡ s t (and-right (a == b) (s == t) h))
source_beq→≡ a b h = cc

bound_beq→≡ : (a b : Option BindingSource) → bound_beq a b ≡ true → a ≡ b
bound_beq→≡ none none h = refl
bound_beq→≡ (some a) (some b) h = ap some (source_beq→≡ a b h)
bound_beq→≡ none (some b) h = cc
bound_beq→≡ (some a) none h = cc

bound-mem :
    (facts : Bound) (name : String) {source : BindingSource}
    → bound facts name ≡ some source
    → (entry : String × BindingSource) × (entry ∈ facts) × (entry.0 ≡ name)
bound-mem facts name h =
    elim (Option-cases (find_last (λ (e : String × BindingSource). e.0 == name) facts)) [
      | inl missing ↦ cc (rw missing at h)
      | inr (entry, found) ↦
          let (named, known) =
            find_last-some (λ (e : String × BindingSource). e.0 == name) facts found in
          (entry, known, ==→≡ entry.0 name named)
    ]

facts_beq→bound : (a b : Bound) (name : String) → facts_beq a b ≡ true → bound a name ≡ bound b name
facts_beq→bound a b name h =
    let at = λ (entry : String × BindingSource) (m : entry ∈ a ++ b) (e : entry.0 ≡ name).
      let both =
        all-mem (λ (x : String × BindingSource). bound_beq (bound a x.0) (bound b x.0)) (a ++ b) h
          m in
      bound_beq→≡ (bound a name) (bound b name) (rw e at both) in
    elim (Option-cases (bound a name)) [
      | inr (source, known) ↦
          let (entry, m, e) = bound-mem a name known in at entry (mem-append_left entry a b m) e
      | inl missing ↦ elim (Option-cases (bound b name)) [
        | inr (source, known) ↦
            let (entry, m, e) = bound-mem b name known in at entry (mem-append_right entry a b m) e
        | inl too ↦ missing ∙ sym too
      ]
    ]

-- The facts of a source are those of the first source.
check_sources-equal :
    (workflow : ExecutionWorkflow) (id : NodeId) (reference : Bound) (sources : List NodeId)
    → check_sources workflow id (some reference) sources ≡ ok tt
    → All
        (λ source.
          (node : WorkflowNode) × (first_node workflow source ≡ some node)
          × (facts_beq reference (facts_of node) ≡ true))
        sources
check_sources-equal workflow id reference [] h = tt
check_sources-equal workflow id reference (source ∷ rest) h =
    let (node, known, f) = >>=-eq-ok (ok_or invalid_proposal (first_node workflow source)) _ h in
    elim (Bool-cases (facts_beq reference (facts_of node))) [
      | inl same ↦ (
        (node, ok_or-eq-ok invalid_proposal (first_node workflow source) known, same),
        check_sources-equal workflow id reference rest (rw same at f),
      )
      | inr other ↦ cc (rw other at f)
    ]

abbrev BoundAs : ExecutionWorkflow → Bound → NodeId → Type 0
BoundAs workflow reference source =
    (node : WorkflowNode) × (first_node workflow source ≡ some node)
    × ((name : String) → bound reference name ≡ bound (facts_of node) name)

check_sources-Agree :
    (workflow : ExecutionWorkflow) (id : NodeId) (sources : List NodeId)
    → check_sources workflow id none sources ≡ ok tt
    → (reference : Bound) × All (BoundAs workflow reference) sources
check_sources-Agree workflow id [] h = ([], tt)
check_sources-Agree workflow id (source ∷ rest) h =
    let (node, known, f) = >>=-eq-ok (ok_or invalid_proposal (first_node workflow source)) _ h in
    (
      facts_of node,
      (
        (node, ok_or-eq-ok invalid_proposal (first_node workflow source) known, λ name. refl),
        All-weaken
            (λ s i. (i.0, i.1, λ name. facts_beq→bound (facts_of node) (facts_of i.0) name i.2))
            rest (check_sources-equal workflow id (facts_of node) rest f),
      ),
    )

check_nodes-mem :
    (workflow : ExecutionWorkflow) (nodes : List WorkflowNode) (node : WorkflowNode)
    → check_nodes workflow nodes ≡ ok tt
    → node ∈ nodes
    → check_compared workflow node.id (compared node.kind) ≡ ok tt
check_nodes-mem workflow [] node h m = absurd m
check_nodes-mem workflow (n ∷ ns) node h m =
    let (u, f, g) = >>=-eq-ok (check_compared workflow n.id (compared n.kind)) _ h in
    elim m [ inl e ↦ rw e f | inr k ↦ check_nodes-mem workflow ns node g k ]

-- Where the check of comparisons passes, any two sources of a comparison are known nodes that bind
-- each parameter of scope or time to the same source, or neither binds it.
pub check_comparison_facts-agree :
    (workflow : ExecutionWorkflow) (node : WorkflowNode) (sources : List NodeId) (a b : NodeId)
    → check_comparison_facts workflow ≡ ok tt
    → node ∈ workflow.nodes
    → compared node.kind ≡ some sources
    → a ∈ sources
    → b ∈ sources
    → (m : WorkflowNode) × (n : WorkflowNode) × (first_node workflow a ≡ some m)
      × (first_node workflow b ≡ some n)
      × ((name : String) → bound (facts_of m) name ≡ bound (facts_of n) name)
unfolding check_comparison_facts
check_comparison_facts-agree workflow node sources a b h known compares from_a from_b =
    let passed = rw compares at (check_nodes-mem workflow workflow.nodes node h known) in
    let (reference, agree) = check_sources-Agree workflow node.id sources passed in
    let (m, known_m, bound_m) = All-mem (BoundAs workflow reference) sources agree from_a in
    let (n, known_n, bound_n) = All-mem (BoundAs workflow reference) sources agree from_b in
    (m, n, known_m, known_n, λ name. sym (bound_m name) ∙ bound_n name)
