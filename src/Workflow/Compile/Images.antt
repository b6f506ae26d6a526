-- ===== src/Workflow/Compile/Images.antt =====
-- What the expansion of iterations makes of each node and edge.
use fineract_ai_reports.Prelude.{
  string_eq, nat_eq, length, All, All-weaken, ok, >>=-eq-ok, int_eq, ℕ, zero, suc, ◌+◌, ◌<◌, String,
  ◌≡◌, refl, none, some, List, [], ◌∷◌, arith, if◌then◌else◌, Option-cases, ◌∈◌, err, Result-cases,
  inl, inr, Bool, true, false, map, length-append, All-append, mem-append_left, ◌∙◌, ◌++◌, Option,
  codes, append, decimal, codes-append, ◌≤◌, ap,
}
use fineract_ai_reports.Knowledge.{parameter_type_eq, operator_eq, zero, KnowledgeCatalog}
use fineract_ai_reports.Workflow.Contract.{
  NodeId, node_id_eq, new_node_id, IterateOver, ExecuteQueryNode, WorkflowNode, node_id_error,
  WorkflowBudgets,
}
use fineract_ai_reports.Workflow.Verify.{budget_exceeded, reject_if}
use fineract_ai_reports.Workflow.Verify.Whole.{}
use fineract_ai_reports.Workflow.Compile.{node_id, budget_exceeded}
use fineract_ai_reports.Workflow.Compile.Iteration.{
  iterates, iter_name, sibling_ids, sibling_node, check_iterable, Expansion, exceeds, expand_node,
  expand_nodes,
}

-- The id of a copy of a node that iterates

pub record IsCopyId (n : WorkflowNode) (id : NodeId) : Type 0 where
  pub exec : ExecuteQueryNode
  pub iterate : IterateOver
  pub index : ℕ
  pub source : iterates n.kind ≡ some (exec, iterate)
  pub named : id.name ≡ iter_name n.id index
  pub within : index < iterate.max

-- A node stays as it is unless it iterates; else it is copied, under other ids and without the
-- iteration.
pub data IsImage (n m : WorkflowNode) : Type 0 where
  kept : iterates n.kind ≡ none → m ≡ n → IsImage n m
  copied : (id : NodeId) → IsCopyId n id → m ≡ sibling_node n id → IsImage n m

valid-name :
    (valid : Bool) (s : String) (id : NodeId)
    → (if valid then ok (record { name = s }) else err node_id_error) ≡ ok id
    → id.name ≡ s
valid-name true s id h = let same : record { name = s } ≡ id = cc in rw (← same) refl
valid-name false s id h = cc

new_node_id-name : (s : String) (id : NodeId) → new_node_id s ≡ ok id → id.name ≡ s
unfolding new_node_id
new_node_id-name s id h = valid-name _ s id h

pub node_id-name : (s : String) (id : NodeId) → node_id s ≡ ok id → id.name ≡ s
node_id-name s id h = elim (Result-cases (new_node_id s)) [
  | inl (i, e) ↦
      let same : i ≡ id = cc (rw (e, node_id) at h) in rw (← same) (new_node_id-name s i e)
  | inr (x, e) ↦ cc (rw (e, node_id) at h)
]

sibling_ids-named :
    (id : NodeId) (index count : ℕ) (ids : List NodeId)
    → sibling_ids id index count ≡ ok ids
    → All (λ (s : NodeId). (k : ℕ) × (s.name ≡ iter_name id k) × (k < index + count)) ids
      × (length ids ≡ count)
sibling_ids-named id index zero ids h = let same : [] ≡ ids = cc in rw (← same) (tt, refl)
sibling_ids-named id index (suc count) ids h =
    let (s, e, f) = >>=-eq-ok (node_id (iter_name id index)) _ h in
    let (rest, g, k) = >>=-eq-ok (sibling_ids id (index + 1) count) _ f in
    let (named, long) = sibling_ids-named id (index + 1) count rest g in
    let same : s ∷ rest ≡ ids = cc k in
    rw (← same) (
      (
        (index, node_id-name (iter_name id index) s e, omega arith),
        All-weaken (λ t m. (m.0, m.1, omega arith)) rest named,
      ),
      omega arith,
    )

abbrev pub copies_as : Option (ExecuteQueryNode × IterateOver) → ℕ
copies_as none = 1
copies_as (some (exec, iterate)) = iterate.max

-- How many nodes a node becomes
abbrev pub copies : WorkflowNode → ℕ
copies n = copies_as (iterates n.kind)

abbrev pub total_copies : List WorkflowNode → ℕ
total_copies [] = 0
total_copies (n ∷ ns) = copies n + total_copies ns

-- What replaces a node in the edges
abbrev pub Replaces : List WorkflowNode → NodeId × List NodeId → Type 0
Replaces nodes r = (n : WorkflowNode) × (n ∈ nodes) × (r.0 ≡ n.id) × All (λ id. IsCopyId n id) r.1

pub record Expands (nodes : List WorkflowNode) (e : Expansion) : Type 0 where
  pub images : All (λ (m : WorkflowNode). (n : WorkflowNode) × (n ∈ nodes) × IsImage n m) e.expanded
  pub counted : length e.expanded ≡ total_copies nodes
  pub replacing : All (λ r. Replaces nodes r) e.replacements

map-All :
    {A B : Type 0} (P : B → Type 0) (f : A → B) (xs : List A)
    → All (λ a. P (f a)) xs
    → All P (map f xs)
map-All P f [] h = tt
map-All P f (x ∷ xs) h = (h.0, map-All P f xs h.1)

length-map_of : {A B : Type 0} (f : A → B) (xs : List A) → length (map f xs) ≡ length xs
length-map_of f [] = refl
length-map_of f (x ∷ xs) = omega (arith, length-map_of f xs)

expand_node-Expands :
    (budgets : WorkflowBudgets) (catalog : KnowledgeCatalog) (n : WorkflowNode) (e : Expansion)
    → expand_node budgets catalog n ≡ ok e
    → Expands (n ∷ []) e
unfolding expand_node
expand_node-Expands budgets catalog n e h = elim (Option-cases (iterates n.kind)) [
  | inl alone ↦
      let same : record { expanded = n ∷ []; replacements = [] } ≡ e = cc (rw alone at h) in
      rw (← same) (record {
        images = ((n, inl refl, kept alone refl), tt);
        counted = rw alone refl;
        replacing = tt;
      })
  | inr ((exec, iterate), multiple) ↦
      let (u, f, g) =
        >>=-eq-ok (reject_if (exceeds iterate budgets) budget_exceeded) _ (rw multiple at h) in
      let (v, k, l) =
        >>=-eq-ok (check_iterable catalog iterate.slot exec.dataset_id exec.shape_id) _ g in
      let (siblings, m, o) = >>=-eq-ok (sibling_ids n.id 0 iterate.max) _ l in
      let (named, long) = sibling_ids-named n.id 0 iterate.max siblings m in
      let copy : All (λ id. IsCopyId n id) siblings =
        All-weaken
          (λ (id : NodeId) (c : (k : ℕ) × (id.name ≡ iter_name n.id k) × (k < 0 + iterate.max)).
            record {
              exec = exec;
              iterate = iterate;
              index = c.0;
              source = multiple;
              named = c.1;
              within = omega arith;
            })
          siblings named in
      let same : record {
        expanded = map (sibling_node n) siblings;
        replacements = (n.id, siblings) ∷ [];
      }
          ≡ e =
        cc o in
      rw (← same) (record {
        images =
            map-All _ (sibling_node n) siblings
              (All-weaken (λ id c. (n, inl refl, copied id c refl)) siblings copy);
        counted = rw (length-map_of (sibling_node n) siblings, long, multiple) (omega arith);
        replacing = ((n, inl refl, refl, copy), tt);
      })
]

pub expand_nodes-Expands :
    (budgets : WorkflowBudgets) (catalog : KnowledgeCatalog) (nodes : List WorkflowNode)
    (e : Expansion)
    → expand_nodes budgets catalog nodes ≡ ok e
    → Expands nodes e
expand_nodes-Expands budgets catalog [] e h =
    let same : record { expanded = []; replacements = [] } ≡ e = cc in
    rw (← same) (record { images = tt; counted = refl; replacing = tt })
expand_nodes-Expands budgets catalog (n ∷ ns) e h =
    let (first, f, g) = >>=-eq-ok (expand_node budgets catalog n) _ h in
    let (rest, k, l) = >>=-eq-ok (expand_nodes budgets catalog ns) _ g in
    let a = expand_node-Expands budgets catalog n first f in
    let b = expand_nodes-Expands budgets catalog ns rest k in
    let same : record {
      expanded = first.expanded ++ rest.expanded;
      replacements = first.replacements ++ rest.replacements;
    }
        ≡ e =
      cc l in
    rw (← same) (record {
      images =
          All-append _ first.expanded rest.expanded
            (All-weaken (λ m i. (i.0, mem-append_left i.0 (n ∷ []) ns i.1, i.2)) first.expanded
              a.images)
            (All-weaken (λ m i. (i.0, inr i.1, i.2)) rest.expanded b.images);
      counted = length-append first.expanded rest.expanded ∙ omega (arith, a.counted, b.counted);
      replacing =
          All-append _ first.replacements rest.replacements
            (All-weaken (λ r i. (i.0, mem-append_left i.0 (n ∷ []) ns i.1, i.2, i.3))
              first.replacements a.replacing)
            (All-weaken (λ r i. (i.0, inr i.1, i.2, i.3)) rest.replacements b.replacing);
    })

-- The id of a copy is longer than that of its node, so no short id reads like one.
pub length-iter_name :
    (id : NodeId) (k : ℕ) → length (codes id.name) + 6 ≤ length (codes (iter_name id k))
length-iter_name id k = omega (
  arith,
  ap length (codes-append (append id.name "_iter_") (decimal k)),
  ap length (codes-append id.name "_iter_"),
  length-append (codes (append id.name "_iter_")) (codes (decimal k)),
  length-append (codes id.name) (codes "_iter_"),
)
