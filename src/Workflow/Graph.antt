-- ===== src/Workflow/Graph.antt =====
-- crates/chat/src/assistant/workflow/graph.rs. The graph library is a parameter: what it answers on a
-- graph to which nodes and edges were added, with what it documents of the answers.
pub mod Unseen
pub mod Ends
pub mod Reaches
pub mod Ids
pub mod Once
pub mod Exact
pub mod Covers
pub mod Width
use fineract_ai_reports.Prelude.{
  if◌then◌else◌, string_eq, nat_eq, length, is_empty, filter, any, all, ◌∈◌, filter_map, contains,
  int_eq, max, ℕ, zero, suc, ◌+◌, ◌<◌, ◌≡◌, ◌↔◌, Bool, false, ◌&&◌, not, Option, none, some, List,
  [], ◌∷◌, ◌++◌,
}
use fineract_ai_reports.Workflow.Contract.{NodeId, node_id_eq, WorkflowEdge, ExecutionWorkflow}
use fineract_ai_reports.Workflow.Verify.{WorkflowGraph, is_some, position_from}
use fineract_ai_reports.Workflow.Verify.Whole.{distinct, ids_of}

abbrev pub IndexEdge : Type 0
IndexEdge = ℕ × ℕ

-- A walk along edges, from an index
pub data Walk (edges : List IndexEdge) (start : ℕ) : ℕ → Type 0 where
  here : Walk edges start start
  step :
      {i : ℕ} (j : ℕ) → Walk edges start i → ◌∈◌ {A = IndexEdge} (i, j) edges → Walk edges start j

-- `DiGraph` after `add_node` for as many nodes and `add_edge` for each of the edges: node indices
-- count from 0, `neighbors_directed` lists the ends of a node's edges, `externals(Incoming)` the
-- nodes without incoming edges, `is_cyclic_directed` and `toposort` are answers of their own.
pub record DiGraph (size : ℕ) (edges : List IndexEdge) : Type 0 where
  pub outgoing : ℕ → List ℕ
  pub incoming : ℕ → List ℕ
  pub externals : List ℕ
  pub is_cyclic_directed : Bool
  pub toposort : Option (List ℕ)
  pub outgoing_law : (i j : ℕ) → (j ∈ outgoing i) ↔ (◌∈◌ {A = IndexEdge} (i, j) edges)
  pub incoming_law : (i j : ℕ) → (j ∈ incoming i) ↔ (◌∈◌ {A = IndexEdge} (j, i) edges)
  pub externals_law : (i : ℕ) → i ∈ externals → i < size
  pub acyclic_law :
      is_cyclic_directed ≡ false → (i j : ℕ) → ◌∈◌ {A = IndexEdge} (i, j) edges → ¬ Walk edges j i

abbrev pub edge_indices : List NodeId → WorkflowEdge → Option IndexEdge
edge_indices ids edge = elim (position_from 0 ids edge.from) [
  | none ↦ none
  | some i ↦ elim (position_from 0 ids edge.to) [ none ↦ none | some j ↦ some (i, j) ]
]

-- The edges that `WorkflowGraph::new` adds: those whose ends are known
unfoldable pub index_edges : ExecutionWorkflow → List IndexEdge
index_edges workflow = filter_map (edge_indices (ids_of workflow)) workflow.edges

abbrev pub size_of : ExecutionWorkflow → ℕ
size_of workflow = length workflow.nodes

abbrev pub id_at : List NodeId → ℕ → Option NodeId
id_at [] i = none
id_at (id ∷ ids) zero = some id
id_at (id ∷ ids) (suc i) = id_at ids i

-- `self.graph[node]` of each index; every index that the graph returns is one of its nodes.
abbrev pub ids_at : List NodeId → List ℕ → List NodeId
ids_at ids indices = filter_map (id_at ids) indices

-- `seen` and `queue` of `reachable_from`
pub record Search : Type 0 where
  pub seen : List ℕ
  pub queue : List ℕ

-- The body of the loop over the neighbours
abbrev pub visit : Search → ℕ → Search
visit s next =
    if contains s.seen next
    then s
    else record { seen = next ∷ s.seen; queue = s.queue ++ next ∷ [] }

abbrev pub visit_all : Search → List ℕ → Search
visit_all s [] = s
visit_all s (next ∷ rest) = visit_all (visit s next) rest

-- The `while` loop on fuel; `none` means that the fuel ran out.
abbrev pub search_loop : (ℕ → List ℕ) → ℕ → Search → Option (List ℕ)
search_loop outgoing zero s = none
search_loop outgoing (suc fuel) s = elim s.queue [
  | [] ↦ some s.seen
  | node ∷ rest ↦
      search_loop outgoing fuel (visit_all (record { seen = s.seen; queue = rest }) (outgoing node))
]

abbrev pub numbers_below : ℕ → List ℕ
numbers_below zero = []
numbers_below (suc n) = numbers_below n ++ n ∷ []

abbrev pub search_from : (ℕ → List ℕ) → ℕ → Option ℕ → Option (List ℕ)
search_from outgoing size none = some []
search_from outgoing size (some start) =
    search_loop outgoing (size + 1) (record { seen = start ∷ []; queue = start ∷ [] })

abbrev pub or_empty : Option (List ℕ) → List ℕ
or_empty none = []
or_empty (some xs) = xs

module _ (workflow : ExecutionWorkflow)
    (g : DiGraph (size_of workflow) (index_edges workflow)) where
  -- `reachable_from`, before the ids are collected; the fuel is one round more than there are nodes.
  unfoldable pub reachable_indices : NodeId → Option (List ℕ)
  reachable_indices entry =
      search_from g.outgoing (size_of workflow) (position_from 0 (ids_of workflow) entry)

  unfoldable pub reachable_from : NodeId → List NodeId
  unfolding reachable_indices
  reachable_from entry = distinct (ids_at (ids_of workflow) (or_empty (reachable_indices entry)))

  abbrev pub is_ready : List NodeId → ℕ → Bool
  is_ready completed i =
      not (any (contains completed) (ids_at (ids_of workflow) (i ∷ [])))
      && all (contains completed) (ids_at (ids_of workflow) (g.incoming i))

  -- `runnable`
  unfoldable pub runnable_ids : List NodeId → List NodeId
  runnable_ids completed =
      ids_at (ids_of workflow) (filter (is_ready completed) (numbers_below (size_of workflow)))

  -- The loop of `max_runnable_width` on fuel
  abbrev pub width_loop : ℕ → List NodeId → ℕ → Option ℕ
  width_loop zero completed width = none
  width_loop (suc fuel) completed width =
      let wave = runnable_ids completed in
      let rest = width_loop fuel (completed ++ wave) (max width (length wave)) in
      if is_empty wave then some width else rest

  unfoldable pub max_runnable_width : ℕ
  unfolding runnable_ids
  max_runnable_width = elim (width_loop (size_of workflow + 1) [] 0) [ none ↦ 0 | some w ↦ w ]

  -- `topological_order`, `entry_nodes` and `contains`
  abbrev pub order_of : Option (List ℕ) → Option (List NodeId)
  order_of none = none
  order_of (some order) = some (ids_at (ids_of workflow) order)

  unfoldable pub graph_of : WorkflowGraph
  unfolding reachable_from max_runnable_width
  graph_of = record {
    is_cyclic = g.is_cyclic_directed;
    entry_nodes = ids_at (ids_of workflow) g.externals;
    reachable_from = reachable_from;
    max_runnable_width = max_runnable_width;
    topological_order = order_of g.toposort;
    has_node = λ id. is_some (position_from 0 (ids_of workflow) id);
  }
