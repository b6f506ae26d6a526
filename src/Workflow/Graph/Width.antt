-- ===== src/Workflow/Graph/Width.antt =====
-- `max_runnable_width` of graph.rs ends, and which waves it bounds.
use fineract_ai_reports.Prelude.{
  string_eq, nat_eq, ◌∈◌, mem-append, int_eq, ℕ, zero, suc, ◌<◌, inl, inr, List, [], ◌∷◌, ◌++◌,
  arith, length, is_empty, max, ◌≤◌, ◌≡◌, refl, sym, ap, ◌∙◌, subst, ◌⊎◌, false, some, append-nil,
  leb, leb→le, Bool-cases, Option-cases, filter, any, contains, mem-filter, contains→mem,
  mem→contains, mem-append_left, mem-append_right, ◌+◌, Bool, true,
}
use fineract_ai_reports.Workflow.Contract.{NodeId, node_id_eq, ExecutionWorkflow}
use fineract_ai_reports.Workflow.Verify.{}
use fineract_ai_reports.Workflow.Verify.Whole.{ids_of}
use fineract_ai_reports.Workflow.Graph.{
  DiGraph, index_edges, size_of, numbers_below, runnable_ids, width_loop, id_at, ids_at, is_ready,
  max_runnable_width,
}
use fineract_ai_reports.Workflow.Graph.Unseen.{unseen, unseen-le, unseen-found}
use fineract_ai_reports.Workflow.Graph.Ends.{List-cases}
use fineract_ai_reports.Workflow.Graph.Ids.{filter_map-some, filter_map-none, mem-filter_map}

pub numbers_below-lt : (n : ℕ) {i : ℕ} → i ∈ numbers_below n → i < n
numbers_below-lt zero m = absurd m
numbers_below-lt (suc n) {i} m = elim (mem-append i (numbers_below n) (n ∷ []) m) [
  | inl below ↦ omega (arith, numbers_below-lt n below)
  | inr (inl last) ↦ omega arith
  | inr (inr none_in) ↦ absurd none_in
]

-- From one set of completed ids to another by waves: all that is ready completes together.
pub data WaveFrom (ready : List NodeId → List NodeId) : List NodeId → List NodeId → Type 0 where
  now : {completed : List NodeId} → WaveFrom ready completed completed
  later :
      {completed other : List NodeId}
      → WaveFrom ready (completed ++ ready completed) other
      → WaveFrom ready completed other

-- After a set at which nothing is ready there is no other.
stuck :
    (ready : List NodeId → List NodeId) (completed other : List NodeId)
    → ready completed ≡ []
    → WaveFrom ready completed other
    → other ≡ completed
stuck ready completed other nothing now = refl
stuck ready completed other nothing (later waves) =
    let same : completed ++ ready completed ≡ completed =
      ap (λ xs. completed ++ xs) nothing ∙ append-nil completed in
    let nothing' = subst (λ c. ready c ≡ []) (sym same) nothing in
    stuck ready (completed ++ ready completed) other nothing' waves ∙ same

-- What a width says of the waves
pub record IsWidest (ready : List NodeId → List NodeId) (completed : List NodeId) (width : ℕ)
    : Type 0 where
  pub bounds : (other : List NodeId) → WaveFrom ready completed other → length (ready other) ≤ width
  pub attained :
      (other : List NodeId) × WaveFrom ready completed other × (length (ready other) ≡ width)

module _ (workflow : ExecutionWorkflow)
    (g : DiGraph (size_of workflow) (index_edges workflow)) where
  abbrev ready : List NodeId → List NodeId
  ready = runnable_ids workflow g

  record Widens (completed : List NodeId) (before width : ℕ) : Type 0 where
    keeps : before ≤ width
    bounds : (other : List NodeId) → WaveFrom ready completed other → length (ready other) ≤ width
    attained :
        (before ≡ width)
        ⊎ ((other : List NodeId) × WaveFrom ready completed other × (length (ready other) ≡ width))

  Widens-stuck :
      (completed : List NodeId) (width : ℕ) → ready completed ≡ [] → Widens completed width width
  Widens-stuck completed width nothing = record {
    keeps = omega arith;
    bounds = λ other waves.
        let e = stuck ready completed other nothing waves in
        omega (arith, ap length (ap ready e ∙ nothing));
    attained = inl refl;
  }

  Widens-wave :
      (completed : List NodeId) (before width : ℕ)
      → Widens (completed ++ ready completed) (max before (length (ready completed))) width
      → Widens completed before width
  Widens-wave completed before width w = record {
    keeps = omega (arith, w.keeps);
    bounds = λ other waves. wave other waves;
    attained = elim w.attained [
      | inr (other, waves, e) ↦ inr (other, later waves, e)
      | inl e ↦ elim (Bool-cases (leb (length (ready completed)) before)) [
        | inl t ↦ inl (omega (arith, e, leb→le (length (ready completed)) before t))
        | inr f ↦ inr (completed, now, ground arith)
      ]
    ];
  }
    where
      wave : (other : List NodeId) → WaveFrom ready completed other → length (ready other) ≤ width
      wave other now = omega (arith, w.keeps)
      wave other (later waves) = w.bounds other waves

  width_loop-Widens :
      (fuel : ℕ) (completed : List NodeId) (before : ℕ) {width : ℕ}
      → width_loop workflow g fuel completed before ≡ some width
      → Widens completed before width
  width_loop-Widens zero completed before h = cc
  width_loop-Widens (suc fuel) completed before {width} h = elim (List-cases (ready completed)) [
    | inl nothing ↦
        let h' : some before ≡ some width = rw (nothing, width_loop) at h in
        let same : before ≡ width = cc in
        subst (Widens completed before) same (Widens-stuck completed before nothing)
    | inr (id, rest, e) ↦
        let more : is_empty (ready completed) ≡ false = rw e refl in
        let h' : width_loop workflow g fuel (completed ++ ready completed)
              (max before (length (ready completed)))
            ≡ some width =
          rw (more, width_loop) at h in
        Widens-wave completed before width (
          width_loop-Widens fuel (completed ++ ready completed)
            (max before (length (ready completed))) h')
  ]

  abbrev done_at : List NodeId → ℕ → Bool
  done_at completed i = any (contains completed) (ids_at (ids_of workflow) (i ∷ []))

  done_at-contains :
      (completed : List NodeId) (i : ℕ) {id : NodeId}
      → id_at (ids_of workflow) i ≡ some id
      → done_at completed i ≡ contains completed id
  done_at-contains completed i {id} at =
      let alone = filter_map-some (id_at (ids_of workflow)) i [] at in
      ap (any (contains completed)) alone ∙ ground arith

  done_at-append :
      (completed wave : List NodeId) (i : ℕ)
      → done_at completed i ≡ true
      → done_at (completed ++ wave) i ≡ true
  done_at-append completed wave i h = elim (Option-cases (id_at (ids_of workflow) i)) [
    | inl nothing ↦
        let none_there = filter_map-none (id_at (ids_of workflow)) i [] nothing in
        let h' : false ≡ true = sym (ap (any (contains completed)) none_there) ∙ h in cc
    | inr (id, at) ↦
        let m = contains→mem completed id (sym (done_at-contains completed i at) ∙ h) in
        done_at-contains (completed ++ wave) i at
        ∙ mem→contains (completed ++ wave) id (mem-append_left id completed wave m)
  ]

  -- A wave with a node completes a node that was not completed.
  wave-completes :
      (completed : List NodeId) {id : NodeId} {rest : List NodeId}
      → ready completed ≡ id ∷ rest
      → unseen (done_at (completed ++ ready completed)) (size_of workflow)
        < unseen (done_at completed) (size_of workflow)
  unfolding runnable_ids
  wave-completes completed {id} e =
      let in_wave : id ∈ ready completed = subst (λ xs. id ∈ xs) (sym e) (inl refl) in
      let (i, kept, at) =
        mem-filter_map (id_at (ids_of workflow))
          (filter (is_ready workflow g completed) (numbers_below (size_of workflow))) in_wave in
      let (ok_now, below) =
        mem-filter (is_ready workflow g completed) (numbers_below (size_of workflow)) kept in
      let later_done =
        mem→contains (completed ++ ready completed) id
          (mem-append_right id completed (ready completed) in_wave) in
      unseen-found (done_at completed) (done_at (completed ++ ready completed)) (size_of workflow)
        (done_at-append completed (ready completed)) (numbers_below-lt (size_of workflow) below)
        (ground (arith, ok_now)) (done_at-contains (completed ++ ready completed) i at ∙ later_done)

  width_loop_ends :
      (fuel : ℕ) (completed : List NodeId) (before : ℕ)
      → unseen (done_at completed) (size_of workflow) < fuel
      → (width : ℕ) × (width_loop workflow g fuel completed before ≡ some width)
  width_loop_ends zero completed before h = absurd (omega arith)
  width_loop_ends (suc fuel) completed before h = elim (List-cases (ready completed)) [
    | inl nothing ↦ (before, rw (nothing, width_loop) refl)
    | inr (id, rest, e) ↦
        let more : is_empty (ready completed) ≡ false = rw e refl in
        let (width, ends) =
          width_loop_ends fuel (completed ++ ready completed)
            (max before (length (ready completed))) (omega (arith, wave-completes completed e)) in
        (width, rw (more, width_loop) ends)
  ]

  -- `max_runnable_width` is the size of the largest wave when, from nothing completed, all nodes that
  -- are runnable complete together, again and again.
  pub max_runnable_width-IsWidest :
      IsWidest (runnable_ids workflow g) [] (max_runnable_width workflow g)
  unfolding max_runnable_width
  max_runnable_width-IsWidest =
      let (width, ends) =
        width_loop_ends (size_of workflow + 1) [] 0
          (omega (arith, unseen-le (done_at []) (size_of workflow))) in
      let w = width_loop-Widens (size_of workflow + 1) [] 0 ends in
      rw (ends, max_runnable_width)
        (record {
          bounds = w.bounds;
          attained = elim w.attained [
            | inr wave ↦ wave
            | inl none_wide ↦ ([], now, omega (arith, none_wide, w.bounds [] now))
          ];
        })
