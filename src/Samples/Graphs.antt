-- ===== src/Samples/Graphs.antt =====
-- A graph library for the examples, and the examples of Workflow/Graph.
use fineract_ai_reports.Prelude.{
  ltb, nat_beq, if◌then◌else◌, nat_beq_iff, ltb→lt, string_eq, nat_eq, is_empty, filter, all, ◌∈◌,
  filter_map, all-mem, mem-filter, ok, int_eq, ℕ, ◌≤◌, ◌<◌, ◌≡◌, refl, sym, subst, ◌↔◌, Bool, true,
  false, not, Option, none, some, List, [], arith,
}
use fineract_ai_reports.Knowledge.{parameter_type_eq, operator_eq}
use fineract_ai_reports.Policy.{}
use fineract_ai_reports.Workflow.Contract.{node_id_eq, ExecutionWorkflow}
use fineract_ai_reports.Workflow.Verify.{}
use fineract_ai_reports.Workflow.Verify.Nodes.{}
use fineract_ai_reports.Workflow.Verify.Whole.{verify}
use fineract_ai_reports.Workflow.Graph.{
  IndexEdge, Walk, here, step, DiGraph, index_edges, size_of, numbers_below, reachable_from,
  runnable_ids, max_runnable_width, graph_of,
}
use fineract_ai_reports.Workflow.Graph.Ids.{mem-filter_map, filter_map-mem}
use fineract_ai_reports.Workflow.Graph.Exact.{WalksTo, reachable_from-exact}
use fineract_ai_reports.Workflow.Graph.Covers.{IsConnected, verify-IsConnected}
use fineract_ai_reports.Workflow.Graph.Width.{
  numbers_below-lt, IsWidest, max_runnable_width-IsWidest,
}
use fineract_ai_reports.Samples.Values.{officer, small_catalog}
use fineract_ai_reports.Samples.Verified.{scoped_steps}

abbrev heads_at : ℕ → IndexEdge → Option ℕ
heads_at i edge = if nat_beq edge.0 i then some edge.1 else none

abbrev tails_at : ℕ → IndexEdge → Option ℕ
tails_at i edge = if nat_beq edge.1 i then some edge.0 else none

abbrev ascends : IndexEdge → Bool
ascends edge = ltb edge.0 edge.1

heads_at-eq :
    (i j : ℕ) (edge : IndexEdge) → heads_at i edge ≡ some j → ◌≡◌ {A = IndexEdge} (i, j) edge
heads_at-eq i j (a, b) h = ground (arith, nat_beq_iff a i)

tails_at-eq :
    (i j : ℕ) (edge : IndexEdge) → tails_at i edge ≡ some j → ◌≡◌ {A = IndexEdge} (j, i) edge
tails_at-eq i j (a, b) h = ground (arith, nat_beq_iff b i)

module _ (edges : List IndexEdge) where
  heads_law : (i j : ℕ) → (j ∈ filter_map (heads_at i) edges) ↔ (◌∈◌ {A = IndexEdge} (i, j) edges)
  heads_law i j = (
    λ m.
        let (edge, in_edges, e) = mem-filter_map (heads_at i) edges m in
        subst (λ (x : IndexEdge). x ∈ edges) (sym (heads_at-eq i j edge e)) in_edges,
    λ m. filter_map-mem (heads_at i) edges m (rw ((nat_beq_iff i i).1 refl) refl),
  )

  tails_law : (i j : ℕ) → (j ∈ filter_map (tails_at i) edges) ↔ (◌∈◌ {A = IndexEdge} (j, i) edges)
  tails_law i j = (
    λ m.
        let (edge, in_edges, e) = mem-filter_map (tails_at i) edges m in
        subst (λ (x : IndexEdge). x ∈ edges) (sym (tails_at-eq i j edge e)) in_edges,
    λ m. filter_map-mem (tails_at i) edges m (rw ((nat_beq_iff i i).1 refl) refl),
  )

  edge_ascends : all ascends edges ≡ true → (i j : ℕ) → ◌∈◌ {A = IndexEdge} (i, j) edges → i < j
  edge_ascends up i j m = ltb→lt i j (all-mem ascends edges up m)

  ends_ascend : all ascends edges ≡ true → (i : ℕ) {j : ℕ} → Walk edges i j → i ≤ j
  ends_ascend up i here = omega arith
  ends_ascend up i (step {i = k} j walk m) =
      omega (arith, ends_ascend up i walk, edge_ascends up k j m)

  acyclic_lem :
      not (all ascends edges) ≡ false
      → (i j : ℕ) → ◌∈◌ {A = IndexEdge} (i, j) edges
      → ¬ Walk edges j i
  acyclic_lem h i j m walk =
      let up : all ascends edges ≡ true = ground arith in
      absurd (omega (arith, ends_ascend up j walk, edge_ascends up i j m))

-- Knows a graph to be acyclic when its edges lead from smaller indices to larger ones.
abbrev ascending : (n : ℕ) (edges : List IndexEdge) → DiGraph n edges
ascending n edges = record {
  outgoing = λ i. filter_map (heads_at i) edges;
  incoming = λ i. filter_map (tails_at i) edges;
  externals = filter (λ i. is_empty (filter_map (tails_at i) edges)) (numbers_below n);
  is_cyclic_directed = not (all ascends edges);
  toposort = if all ascends edges then some (numbers_below n) else none;
  outgoing_law = heads_law edges;
  incoming_law = tails_law edges;
  externals_law = λ i m.
      numbers_below-lt n
        (mem-filter (λ k. is_empty (filter_map (tails_at k) edges)) (numbers_below n) m).1;
  acyclic_law = acyclic_lem edges;
}

abbrev ascending_of :
    (workflow : ExecutionWorkflow) → DiGraph (size_of workflow) (index_edges workflow)
ascending_of workflow = ascending (size_of workflow) (index_edges workflow)

accepts_with_graph :
    verify (λ w. graph_of w (ascending_of w)) scoped_steps officer small_catalog
    ≡ ok (record { workflow = scoped_steps })
unfolding verify graph_of index_edges
accepts_with_graph = refl

verify-IsConnected_example : IsConnected scoped_steps
verify-IsConnected_example =
    verify-IsConnected ascending_of scoped_steps officer small_catalog
      (record { workflow = scoped_steps }) accepts_with_graph

reachable_from-exact_example :
    (record { name = "done" }
      ∈ reachable_from scoped_steps (ascending_of scoped_steps) (record { name = "loans" }))
    ↔ WalksTo scoped_steps (record { name = "loans" }) (record { name = "done" })
reachable_from-exact_example =
    reachable_from-exact scoped_steps (ascending_of scoped_steps) (record { name = "loans" })
      (record { name = "done" })

max_runnable_width-IsWidest_example :
    IsWidest
      (runnable_ids scoped_steps (ascending_of scoped_steps))
      []
      (max_runnable_width scoped_steps (ascending_of scoped_steps))
max_runnable_width-IsWidest_example =
    max_runnable_width-IsWidest scoped_steps (ascending_of scoped_steps)
