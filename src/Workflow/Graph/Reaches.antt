-- ===== src/Workflow/Graph/Reaches.antt =====
-- What the loop of `reachable_from` has seen, as the ends of walks.
use fineract_ai_reports.Prelude.{
  Bool-cases, string_eq, nat_eq, ◌∈◌, contains, contains→mem, mem-append_left, mem-append_right,
  mem-append, int_eq, ℕ, ◌≡◌, refl, sym, subst, ◌↔◌, ◌⊎◌, inl, inr, some, List, [], ◌∷◌, arith,
  ⊎_elim,
}
use fineract_ai_reports.Workflow.Contract.{node_id_eq}
use fineract_ai_reports.Workflow.Graph.{
  IndexEdge, Walk, here, step, Search, visit, visit_all, search_loop,
}
use fineract_ai_reports.Workflow.Graph.Unseen.{}
use fineract_ai_reports.Workflow.Graph.Ends.{round, search_loop_rule}
use fineract_ai_reports.Workflow.Verify.{}
use fineract_ai_reports.Workflow.Verify.Whole.{}

-- What offering the neighbours changes
record Offered (s : Search) (nexts : List ℕ) (t : Search) : Type 0 where
  seen : (i : ℕ) → (i ∈ t.seen) ↔ ((i ∈ s.seen) ⊎ (i ∈ nexts))
  fresh : (i : ℕ) → i ∈ t.seen → (i ∈ s.seen) ⊎ (i ∈ t.queue)
  waiting : (i : ℕ) → i ∈ s.queue → i ∈ t.queue
  queued : (i : ℕ) → i ∈ t.queue → (i ∈ s.queue) ⊎ (i ∈ t.seen)

visit-Offered : (s : Search) (next : ℕ) → Offered s (next ∷ []) (visit s next)
visit-Offered s next = elim (Bool-cases (contains s.seen next)) [
  | inl t ↦
      let m = contains→mem s.seen next t in
      rw t (record {
        seen = λ i. (
          inl,
          ⊎_elim (λ h. h)
              (⊎_elim (λ e. subst (λ j. j ∈ s.seen) (sym e) m) (λ none_in. absurd none_in)),
        );
        fresh = λ i. inl;
        waiting = λ i h. h;
        queued = λ i. inl;
      })
  | inr f ↦ rw f (record {
    seen = λ i. ground arith;
    fresh = λ i h. ⊎_elim (λ e. inr (mem-append_right i s.queue (next ∷ []) (inl e))) inl h;
    waiting = λ i. mem-append_left i s.queue (next ∷ []);
    queued = λ i h. ground (arith, mem-append i s.queue (next ∷ []) h);
  })
]

visit_all-Offered : (s : Search) (nexts : List ℕ) → Offered s nexts (visit_all s nexts)
visit_all-Offered s [] = record {
  seen = λ i. (inl, ⊎_elim (λ h. h) (λ none_in. absurd none_in));
  fresh = λ i. inl;
  waiting = λ i h. h;
  queued = λ i. inl;
}
visit_all-Offered s (next ∷ rest) =
    let one = visit-Offered s next in
    let more = visit_all-Offered (visit s next) rest in
    record {
      seen = λ i. ground (arith, one.seen i, more.seen i);
      fresh = λ i h. ground (arith, one.fresh i, more.fresh i h, more.waiting i);
      waiting = λ i h. more.waiting i (one.waiting i h);
      queued = λ i h. ground (arith, one.queued i, more.queued i h, more.seen i);
    }

module _ (edges : List IndexEdge) (outgoing : ℕ → List ℕ)
    (law : (i j : ℕ) → (j ∈ outgoing i) ↔ (◌∈◌ {A = IndexEdge} (i, j) edges)) (start : ℕ) where
  record Inv (s : Search) : Type 0 where
    source : start ∈ s.seen
    queued : (i : ℕ) → i ∈ s.queue → i ∈ s.seen
    sound : (i : ℕ) → i ∈ s.seen → Walk edges start i
    closed : (i j : ℕ) → i ∈ s.seen → j ∈ outgoing i → (i ∈ s.queue) ⊎ (j ∈ s.seen)

  Inv-start : Inv (record { seen = start ∷ []; queue = start ∷ [] })
  Inv-start = record {
    source = inl refl;
    queued = λ i h. h;
    sound = λ i h. elim h [ inl e ↦ rw e here | inr none_in ↦ absurd none_in ];
    closed = λ i j m _. inl m;
  }

  Inv-round :
      (s : Search) (node : ℕ) (rest : List ℕ)
      → s.queue ≡ node ∷ rest
      → Inv s
      → Inv (round outgoing s node rest)
  Inv-round s node rest e h =
      let popped : Search = record { seen = s.seen; queue = rest } in
      let o = visit_all-Offered popped (outgoing node) in
      let was : (i : ℕ) → i ∈ node ∷ rest → i ∈ s.queue = λ i m. subst (λ q. i ∈ q) (sym e) m in
      let is : (i : ℕ) → i ∈ s.queue → i ∈ node ∷ rest = λ i m. subst (λ q. i ∈ q) e m in
      record {
        source = (o.seen start).1 (inl h.source);
        queued = λ i m. ground (arith, o.queued i m, o.seen i, h.queued i, was i);
        sound = λ i m. elim ((o.seen i).0 m) [
          | inl old ↦ h.sound i old
          | inr new ↦
              step i (h.sound node (h.queued node (was node (inl refl)))) ((law node i).0 new)
        ];
        closed = λ i j m edge. elim (o.fresh i m) [
          | inr now ↦ inl now
          | inl old ↦ elim (h.closed i j old edge) [
            | inr j_seen ↦ inr ((o.seen j).1 (inl j_seen))
            | inl i_queued ↦ elim (is i i_queued) [
              | inr r ↦ inl (o.waiting i r)
              | inl same ↦ inr ((o.seen j).1 (inr (subst (λ k. j ∈ outgoing k) same edge)))
            ]
          ]
        ];
      }

  complete : (t : Search) → Inv t → t.queue ≡ [] → {i : ℕ} → Walk edges start i → i ∈ t.seen
  complete t h e here = h.source
  complete t h e (step {i} j walk edge) =
      elim (h.closed i j (complete t h e walk) ((law i j).1 edge)) [
        | inl waiting ↦ absurd (subst (λ q. i ∈ q) e waiting)
        | inr m ↦ m
      ]

  pub search_loop-exact :
      (fuel : ℕ) (found : List ℕ)
      → search_loop outgoing fuel (record { seen = start ∷ []; queue = start ∷ [] }) ≡ some found
      → (i : ℕ) → (i ∈ found) ↔ Walk edges start i
  search_loop-exact fuel found ends i =
      let (t, inv, empty, e) =
        search_loop_rule outgoing Inv Inv-round fuel
          (record { seen = start ∷ []; queue = start ∷ [] }) Inv-start ends in
      (
        λ m. inv.sound i (subst (λ xs. i ∈ xs) (sym e) m),
        λ walk. subst (λ xs. i ∈ xs) e (complete t inv empty walk),
      )
