-- ===== src/Workflow/Compile/Justified.antt =====
-- Why `resolve_ambiguity` answers as it does.
use fineract_ai_reports.Prelude.{
  Bool-cases, ◌==◌, ==→≡, string_eq, nat_eq, ◌∈◌, filter_map, find-some, int_eq, String, ◌≡◌, refl,
  sym, ap, ◌∙◌, subst, ◌↔◌, ◌⊎◌, inl, inr, ◌&&◌, some, List, [], ◌∷◌, arith,
}
use fineract_ai_reports.Knowledge.{
  parameter_type_eq, operator_eq, CapabilityKnowledge, KnowledgeCatalog,
}
use fineract_ai_reports.Policy.{approved}
use fineract_ai_reports.Workflow.Compile.Acquisition.{}
use fineract_ai_reports.Workflow.Compile.Ambiguity.{
  candidate_of, comes_first, insert_by_id, sort_by_id, dedup_after, dedup_by_id, candidates,
}
use fineract_ai_reports.Workflow.Graph.Ids.{mem-filter_map, filter_map-mem}

-- The catalog approves the capability, and it was asked for.

pub record IsCandidate (catalog : KnowledgeCatalog) (ids : List String) (c : CapabilityKnowledge)
    : Type 0 where
  pub asked : c.id ∈ ids
  pub chosen : candidate_of catalog c.id ≡ some c

candidate_of-id :
    (catalog : KnowledgeCatalog) (id : String) {c : CapabilityKnowledge}
    → candidate_of catalog id ≡ some c
    → c.id ≡ id
candidate_of-id catalog id {c} h =
    let (passes, known) =
      find-some (λ (x : CapabilityKnowledge). (x.id == id) && approved x) catalog.capabilities h in
    ==→≡ c.id id (ground arith)

module _ (a : CapabilityKnowledge) where
  mem-insert_by_id :
      (c : CapabilityKnowledge) (xs : List CapabilityKnowledge)
      → (a ∈ insert_by_id c xs) ↔ ((a ≡ c) ⊎ (a ∈ xs))
  mem-insert_by_id c [] = (λ m. m, λ m. m)
  mem-insert_by_id c (x ∷ xs) = elim (Bool-cases (comes_first c x)) [
    | inl t ↦ rw (t, insert_by_id) (λ m. m, λ m. m)
    | inr f ↦
        let rest = mem-insert_by_id c xs in
        rw (f, insert_by_id)
          (
            λ m. elim m [
              | inl e ↦ inr (inl e)
              | inr r ↦ elim (rest.0 r) [ inl e ↦ inl e | inr s ↦ inr (inr s) ]
            ],
            λ m. elim m [
              | inl e ↦ inr (rest.1 (inl e))
              | inr (inl e) ↦ inl e
              | inr (inr s) ↦ inr (rest.1 (inr s))
            ],
          )
  ]

  mem-sort_by_id : (xs : List CapabilityKnowledge) → (a ∈ sort_by_id xs) ↔ (a ∈ xs)
  mem-sort_by_id [] = (λ m. m, λ m. m)
  mem-sort_by_id (x ∷ xs) =
      let one = mem-insert_by_id x (sort_by_id xs) in
      let rest = mem-sort_by_id xs in
      (
        λ m. elim (one.0 m) [ inl e ↦ inl e | inr r ↦ inr (rest.0 r) ],
        λ m. elim m [ inl e ↦ one.1 (inl e) | inr r ↦ one.1 (inr (rest.1 r)) ],
      )

  dedup_after-mem :
      (last : CapabilityKnowledge) (xs : List CapabilityKnowledge)
      → a ∈ dedup_after last xs
      → a ∈ xs
  dedup_after-mem last [] m = m
  dedup_after-mem last (x ∷ xs) m = elim (Bool-cases (x.id == last.id)) [
    | inl t ↦
        let m' : a ∈ dedup_after last xs = rw (t, dedup_after) at m in
        inr (dedup_after-mem last xs m')
    | inr f ↦
        let m' : a ∈ x ∷ dedup_after x xs = rw (f, dedup_after) at m in
        elim m' [ inl e ↦ inl e | inr r ↦ inr (dedup_after-mem x xs r) ]
  ]

  -- What is dropped has the id of one that is kept.
  mem-dedup_after :
      (last : CapabilityKnowledge) (xs : List CapabilityKnowledge)
      → a ∈ xs
      → (k : CapabilityKnowledge) × (k ∈ last ∷ dedup_after last xs) × (a.id ≡ k.id)
  mem-dedup_after last [] m = absurd m
  mem-dedup_after last (x ∷ xs) m = elim (Bool-cases (x.id == last.id)) [
    | inl t ↦
        rw (t, dedup_after)
          (elim m [
            | inl e ↦
                (last, inl refl, ap (λ (c : CapabilityKnowledge). c.id) e ∙ ==→≡ x.id last.id t)
            | inr r ↦ mem-dedup_after last xs r
          ])
    | inr f ↦
        rw (f, dedup_after)
          (elim m [
            | inl e ↦ (x, inr (inl refl), ap (λ (c : CapabilityKnowledge). c.id) e)
            | inr r ↦ let (k, in_rest, same) = mem-dedup_after x xs r in (k, inr in_rest, same)
          ])
  ]

module _ (catalog : KnowledgeCatalog) (ids : List String) where
  abbrev pub sorted : List CapabilityKnowledge
  sorted = sort_by_id (filter_map (candidate_of catalog) ids)

  sorted-IsCandidate : (c : CapabilityKnowledge) → (c ∈ sorted) ↔ IsCandidate catalog ids c
  sorted-IsCandidate c =
      let by_id = mem-sort_by_id c (filter_map (candidate_of catalog) ids) in
      (
        λ m.
            let (id, asked, e) = mem-filter_map (candidate_of catalog) ids (by_id.0 m) in
            let same = candidate_of-id catalog id e in
            record {
              asked = subst (λ i. i ∈ ids) (sym same) asked;
              chosen = ap (candidate_of catalog) same ∙ e;
            },
        λ h. by_id.1 (filter_map-mem (candidate_of catalog) ids h.asked h.chosen),
      )

  dedup_by_id-mem :
      (c : CapabilityKnowledge) (xs : List CapabilityKnowledge) → c ∈ dedup_by_id xs → c ∈ xs
  dedup_by_id-mem c [] m = m
  dedup_by_id-mem c (x ∷ xs) (inl e) = inl e
  dedup_by_id-mem c (x ∷ xs) (inr m) = inr (dedup_after-mem c x xs m)

  mem-dedup_by_id :
      (c : CapabilityKnowledge) (xs : List CapabilityKnowledge)
      → c ∈ xs
      → (k : CapabilityKnowledge) × (k ∈ dedup_by_id xs) × (c.id ≡ k.id)
  mem-dedup_by_id c [] m = absurd m
  mem-dedup_by_id c (x ∷ xs) (inl e) = (x, inl refl, ap (λ (y : CapabilityKnowledge). y.id) e)
  mem-dedup_by_id c (x ∷ xs) (inr m) = mem-dedup_after c x xs m

  -- The list of candidates holds exactly the approved capabilities that were asked for.
  pub candidates-exact :
      (c : CapabilityKnowledge) → (c ∈ candidates catalog ids) ↔ IsCandidate catalog ids c
  unfolding candidates
  candidates-exact c = (
    λ m. (sorted-IsCandidate c).0 (dedup_by_id-mem c sorted m),
    λ h.
        let (k, kept, same) = mem-dedup_by_id c sorted ((sorted-IsCandidate c).1 h) in
        let other = (sorted-IsCandidate k).0 (dedup_by_id-mem k sorted kept) in
        let both : some c ≡ some k = sym h.chosen ∙ ap (candidate_of catalog) same ∙ other.chosen in
        let one : c ≡ k = cc in subst (λ y. y ∈ candidates catalog ids) (sym one) kept,
  )
