-- ===== src/Workflow/Graph/Exact.antt =====
-- `reachable_from` of graph.rs ends, and what it answers.
use fineract_ai_reports.Prelude.{
  Option-cases, ==_refl, string_eq, nat_eq, ◌∈◌, contains, int_eq, ℕ, ◌+◌, ◌<◌, ◌≡◌, refl, sym, ◌∙◌,
  subst, ◌↔◌, inl, inr, none, some, List, [], ◌∷◌, arith,
}
use fineract_ai_reports.Workflow.Contract.{NodeId, node_id_eq, ExecutionWorkflow}
use fineract_ai_reports.Workflow.Verify.{position_from}
use fineract_ai_reports.Workflow.Verify.Whole.{distinct, ids_of}
use fineract_ai_reports.Workflow.Graph.{
  Walk, DiGraph, index_edges, size_of, id_at, ids_at, Search, reachable_indices, reachable_from,
}
use fineract_ai_reports.Workflow.Graph.Unseen.{unseen-le, unseen-found}
use fineract_ai_reports.Workflow.Graph.Ends.{search_loop_ends, work}
use fineract_ai_reports.Workflow.Graph.Reaches.{search_loop-exact}
use fineract_ai_reports.Workflow.Graph.Ids.{
  mem-filter_map, filter_map-mem, position_from-id, ids_of-length, edge-index_edges,
}
use fineract_ai_reports.Workflow.Graph.Once.{mem-distinct}

-- A walk in the graph from the node of one id to a node of another
pub record WalksTo (workflow : ExecutionWorkflow) (entry id : NodeId) : Type 0 where
  pub start : ℕ
  pub end : ℕ
  pub entry_known : position_from 0 (ids_of workflow) entry ≡ some start
  pub id_known : id_at (ids_of workflow) end ≡ some id
  pub walk : Walk (index_edges workflow) start end

module _ (workflow : ExecutionWorkflow)
    (g : DiGraph (size_of workflow) (index_edges workflow)) where
  outgoing-small : (i j : ℕ) → j ∈ g.outgoing i → j < size_of workflow
  outgoing-small i j m =
      let (edge, in_edges, i_small, j_small, i_at, j_at) =
        edge-index_edges workflow ((g.outgoing_law i j).0 m) in
      j_small

  -- Searching for as many rounds as there are nodes and one more is enough.
  pub reachable_indices_ends :
      (entry : NodeId) {start : ℕ}
      → position_from 0 (ids_of workflow) entry ≡ some start
      → (found : List ℕ) × (reachable_indices workflow g entry ≡ some found)
        × ((i : ℕ) → (i ∈ found) ↔ Walk (index_edges workflow) start i)
  unfolding reachable_indices
  reachable_indices_ends entry {start} known =
      let (small, at) = position_from-id (ids_of workflow) entry known in
      let first : Search = record { seen = start ∷ []; queue = start ∷ [] } in
      let start_small : start < size_of workflow = omega (arith, ids_of-length workflow) in
      let enough : work (size_of workflow) first < size_of workflow + 1 = omega (
        arith,
        unseen-found (contains []) (contains (start ∷ [])) (size_of workflow) (λ i h. cc)
            start_small refl (rw (==_refl start) refl),
        unseen-le (contains []) (size_of workflow),
      ) in
      let (found, ends) =
        search_loop_ends (size_of workflow) g.outgoing outgoing-small (size_of workflow + 1) first
          enough in
      (
        found,
        rw known ends,
        search_loop-exact (index_edges workflow) g.outgoing g.outgoing_law start
            (size_of workflow + 1) found ends,
      )

  unknown-reachable_from :
      (entry : NodeId)
      → position_from 0 (ids_of workflow) entry ≡ none
      → reachable_from workflow g entry ≡ []
  unfolding reachable_from reachable_indices
  unknown-reachable_from entry unknown = rw unknown refl

  -- `reachable_from` answers with the ids of exactly the nodes to which a walk leads from the entry;
  -- for an entry that is not in the graph there are none.
  pub reachable_from-exact :
      (entry id : NodeId) → (id ∈ reachable_from workflow g entry) ↔ WalksTo workflow entry id
  unfolding reachable_from
  reachable_from-exact entry id = elim (Option-cases (position_from 0 (ids_of workflow) entry)) [
    | inl unknown ↦ (
      λ m. absurd (subst (λ xs. id ∈ xs) (unknown-reachable_from entry unknown) m),
      λ w. let no_start : none ≡ some w.start = sym unknown ∙ w.entry_known in cc,
    )
    | inr (start, known) ↦
        let (found, ends, exact) = reachable_indices_ends entry known in
        let ids = ids_at (ids_of workflow) found in
        let answer : reachable_from workflow g entry ≡ distinct ids = rw ends refl in
        (
          λ m.
              let m' = (mem-distinct ids id).0 (subst (λ xs. id ∈ xs) answer m) in
              let (i, in_found, at) = mem-filter_map (id_at (ids_of workflow)) found m' in
              record {
                start = start;
                end = i;
                entry_known = known;
                id_known = at;
                walk = (exact i).0 in_found;
              },
          λ w.
              let starts : some w.start ≡ some start = sym w.entry_known ∙ known in
              let same : w.start ≡ start = cc in
              let walk = subst (λ s. Walk (index_edges workflow) s w.end) same w.walk in
              let m =
                filter_map-mem (id_at (ids_of workflow)) found ((exact w.end).1 walk) w.id_known in
              subst (λ xs. id ∈ xs) (sym answer) ((mem-distinct ids id).1 m),
        )
  ]
