-- ===== src/Workflow/Graph/Ids.antt =====
-- Node ids and the indices of the graph that stand for them.
use fineract_ai_reports.Prelude.{
  Bool-cases, Option-cases, ◌==◌, ==→≡, string_eq, nat_eq, length, ◌∈◌, filter_map, int_eq, ℕ, zero,
  suc, ◌+◌, ◌<◌, ◌≡◌, refl, sym, ap, ◌∙◌, subst, inl, inr, Option, none, some, List, [], ◌∷◌, arith,
}
use fineract_ai_reports.Workflow.Contract.{NodeId, node_id_eq, WorkflowEdge, ExecutionWorkflow}
use fineract_ai_reports.Workflow.Verify.{position_from}
use fineract_ai_reports.Workflow.Verify.Whole.{ids_of}
use fineract_ai_reports.Workflow.Verify.Sound.{length-map}
use fineract_ai_reports.Workflow.Graph.{IndexEdge, edge_indices, index_edges, id_at}

module _ {A : Type 0} {B : Type 0} (f : A → Option B) where
  pub filter_map-none : (x : A) (xs : List A) → f x ≡ none → filter_map f (x ∷ xs) ≡ filter_map f xs
  filter_map-none x xs e = rw (e, filter_map) refl

  pub filter_map-some :
      (x : A) (xs : List A) {y : B} → f x ≡ some y → filter_map f (x ∷ xs) ≡ y ∷ filter_map f xs
  filter_map-some x xs e = rw (e, filter_map) refl

  pub mem-filter_map :
      (xs : List A) {b : B} → b ∈ filter_map f xs → (a : A) × (a ∈ xs) × (f a ≡ some b)
  mem-filter_map [] m = absurd m
  mem-filter_map (x ∷ xs) {b} m = elim (Option-cases (f x)) [
    | inl no_value ↦
        let m' = subst (λ ys. b ∈ ys) (filter_map-none x xs no_value) m in
        let (a, in_xs, e) = mem-filter_map xs m' in (a, inr in_xs, e)
    | inr (y, e) ↦ elim (subst (λ ys. b ∈ ys) (filter_map-some x xs e) m) [
      | inl same ↦ (x, inl refl, e ∙ ap some (sym same))
      | inr later ↦ let (a, in_xs, e') = mem-filter_map xs later in (a, inr in_xs, e')
    ]
  ]

  pub filter_map-mem : (xs : List A) {a : A} {b : B} → a ∈ xs → f a ≡ some b → b ∈ filter_map f xs
  filter_map-mem [] m e = absurd m
  filter_map-mem (x ∷ xs) {b = b} (inl same) e =
      let e' : f x ≡ some b = rw (← same) e in rw (e', filter_map) (inl refl)
  filter_map-mem (x ∷ xs) {b = b} (inr m) e =
      let rest = filter_map-mem xs m e in
      elim (Option-cases (f x)) [
        | inl no_value ↦ rw (no_value, filter_map) rest
        | inr (y, e') ↦ rw (e', filter_map) (inr rest)
      ]

-- An id is known by the index of its last occurrence, counted from `n`.
pub id_at-position_from :
    (n : ℕ) (ids : List NodeId) (id : NodeId) {k : ℕ}
    → position_from n ids id ≡ some k
    → (d : ℕ) × (k ≡ n + d) × (d < length ids) × (id_at ids d ≡ some id)
id_at-position_from n [] id h = cc
id_at-position_from n (x ∷ xs) id {k} h = elim (Option-cases (position_from (n + 1) xs id)) [
  | inr (later, e) ↦
      let h' : some later ≡ some k = rw e at h in
      let (d, sum, small, at) = id_at-position_from (n + 1) xs id e in
      let same : later ≡ k = cc in (suc d, omega (arith, same, sum), omega arith, at)
  | inl no_later ↦ elim (Bool-cases (x == id)) [
    | inl t ↦
        let h' : some n ≡ some k = rw (no_later, t) at h in
        let same : n ≡ k = cc in (0, omega (arith, same), omega arith, ap some (==→≡ x id t))
    | inr f ↦ let h' : none ≡ some k = rw (no_later, f) at h in cc
  ]
]

pub position_from-id :
    (ids : List NodeId) (id : NodeId) {k : ℕ}
    → position_from 0 ids id ≡ some k
    → (k < length ids) × (id_at ids k ≡ some id)
position_from-id ids id {k} h =
    let (d, sum, small, at) = id_at-position_from 0 ids id h in
    let same : d ≡ k = omega arith in (omega arith, subst (λ i. id_at ids i ≡ some id) same at)

pub mem-id_at : (ids : List NodeId) (k : ℕ) {id : NodeId} → id_at ids k ≡ some id → id ∈ ids
mem-id_at [] k h = cc
mem-id_at (x ∷ ids) zero h = inl cc
mem-id_at (x ∷ ids) (suc k) h = inr (mem-id_at ids k h)

pub edge_indices-eq :
    (ids : List NodeId) (edge : WorkflowEdge) {i j : ℕ}
    → edge_indices ids edge ≡ some (i, j)
    → (position_from 0 ids edge.from ≡ some i) × (position_from 0 ids edge.to ≡ some j)
edge_indices-eq ids edge {i} {j} h = elim (Option-cases (position_from 0 ids edge.from)) [
  | inl unknown ↦ cc (rw (unknown, edge_indices) at h)
  | inr (i', e) ↦ elim (Option-cases (position_from 0 ids edge.to)) [
    | inl unknown ↦ cc (rw (e, unknown, edge_indices) at h)
    | inr (j', e') ↦
        let same : ◌≡◌ {A = Option IndexEdge} (some (i', j')) (some (i, j)) =
          rw (e, e', edge_indices) at h in
        let pair : ◌≡◌ {A = IndexEdge} (i', j') (i, j) = cc in
        (e ∙ ap (λ (p : IndexEdge). some p.0) pair, e' ∙ ap (λ (p : IndexEdge). some p.1) pair)
  ]
]

module _ (workflow : ExecutionWorkflow) where
  pub ids_of-length : length (ids_of workflow) ≡ length workflow.nodes
  ids_of-length = length-map workflow.nodes

  -- The edge of the workflow behind an edge of the graph
  pub edge-index_edges :
      {i j : ℕ}
      → ◌∈◌ {A = IndexEdge} (i, j) (index_edges workflow)
      → (edge : WorkflowEdge) × (edge ∈ workflow.edges)
        × (i < length workflow.nodes)
        × (j < length workflow.nodes)
        × (id_at (ids_of workflow) i ≡ some edge.from)
        × (id_at (ids_of workflow) j ≡ some edge.to)
  unfolding index_edges
  edge-index_edges m =
      let (edge, in_edges, e) = mem-filter_map (edge_indices (ids_of workflow)) workflow.edges m in
      let (from, to) = edge_indices-eq (ids_of workflow) edge e in
      let (i_small, i_at) = position_from-id (ids_of workflow) edge.from from in
      let (j_small, j_at) = position_from-id (ids_of workflow) edge.to to in
      (edge, in_edges, omega (arith, ids_of-length), omega (arith, ids_of-length), i_at, j_at)
