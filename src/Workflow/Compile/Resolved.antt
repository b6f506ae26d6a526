-- ===== src/Workflow/Compile/Resolved.antt =====
-- Each answer of `resolve_ambiguity` has its reason.
use fineract_ai_reports.Prelude.{
  Bool-cases, Option-cases, ◌==◌, string_eq, nat_eq, ◌∈◌, find-some, int_eq, String, ◌≡◌, refl, ap,
  ◌∙◌, subst, ◌↔◌, inl, inr, true, false, some, List, [], ◌∷◌, map, filter, mem-filter, sym, Bool,
  Option, none,
}
use fineract_ai_reports.Knowledge.{
  parameter_type_eq, operator_eq, CapabilityKnowledge, ShapeOption, DatasetKnowledge,
  KnowledgeCatalog,
}
use fineract_ai_reports.Workflow.Compile.Acquisition.{AcquisitionFacts}
use fineract_ai_reports.Workflow.Compile.Ambiguity.{
  AmbiguityOutcome, select, probe_with, clarify, unsupported_request, dedup_after, dedup_by_id,
  is_fact_compatible, is_probe_role, first_shape, probe_shape, option_for, candidates, ask_or_probe,
  choose, resolve_ambiguity,
}
use fineract_ai_reports.Workflow.Compile.Justified.{IsCandidate, sorted, candidates-exact, sorted}
use fineract_ai_reports.Workflow.Compile.Comparison.{}

filter-mem :
    {A : Type 0} (p : A → Bool) (xs : List A) {a : A} → a ∈ xs → p a ≡ true → a ∈ filter p xs
filter-mem p [] m t = absurd m
filter-mem p (x ∷ xs) (inl e) t = let t' : p x ≡ true = sym (ap p e) ∙ t in rw (t', filter) (inl e)
filter-mem p (x ∷ xs) (inr m) t = elim (Bool-cases (p x)) [
  | inl yes_x ↦ rw (yes_x, filter) (inr (filter-mem p xs m t))
  | inr f ↦ rw (f, filter) (filter-mem p xs m t)
]

module _ (catalog : KnowledgeCatalog) (ids : List String) (facts : AcquisitionFacts) where
  abbrev Candidate : CapabilityKnowledge → Type 0
  Candidate = IsCandidate catalog ids

  abbrev pub IsOption : String × String → Type 0
  IsOption o = (c : CapabilityKnowledge) × Candidate c × (o ≡ option_for c)

  -- The reason of an answer
  pub data IsJustified : AmbiguityOutcome → Type 0 where
    only_candidate :
        (c : CapabilityKnowledge)
        → Candidate c
        → ((d : CapabilityKnowledge) → Candidate d → d ≡ c)
        → IsJustified (select c.id true)
    only_compatible :
        (c : CapabilityKnowledge)
        → Candidate c
        → is_fact_compatible facts c ≡ true
        → ((d : CapabilityKnowledge) → Candidate d → is_fact_compatible facts d ≡ true → d ≡ c)
        → IsJustified (select c.id true)
    probes :
        (c d : CapabilityKnowledge) (dataset : DatasetKnowledge) (s : ShapeOption)
        → Candidate c
        → Candidate d
        → (d.id == c.id) ≡ false
        → dataset ∈ catalog.datasets
        → s ∈ dataset.shapes
        → is_probe_role s.role ≡ true
        → IsJustified (probe_with dataset.id s.id)
    asks :
        (c d : CapabilityKnowledge) (options : List (String × String))
        → Candidate c
        → Candidate d
        → (d.id == c.id) ≡ false
        → ((o : String × String) → (◌∈◌ {A = String × String} o options) ↔ IsOption o)
        → IsJustified (clarify options)
    none_left : ((c : CapabilityKnowledge) → ¬ Candidate c) → IsJustified unsupported_request

  dedup_after-fresh :
      (last d : CapabilityKnowledge) (xs rest : List CapabilityKnowledge)
      → dedup_after last xs ≡ d ∷ rest
      → (d.id == last.id) ≡ false
  dedup_after-fresh last d [] rest h = cc
  dedup_after-fresh last d (x ∷ xs) rest h = elim (Bool-cases (x.id == last.id)) [
    | inl t ↦
        let h' : dedup_after last xs ≡ d ∷ rest = rw (t, dedup_after) at h in
        dedup_after-fresh last d xs rest h'
    | inr f ↦
        let h' : x ∷ dedup_after x xs ≡ d ∷ rest = rw (f, dedup_after) at h in
        let same : x ≡ d = cc in
        subst (λ (y : CapabilityKnowledge). (y.id == last.id) ≡ false) same f
  ]

  dedup_by_id-fresh :
      (c d : CapabilityKnowledge) (xs rest : List CapabilityKnowledge)
      → dedup_by_id xs ≡ c ∷ d ∷ rest
      → (d.id == c.id) ≡ false
  dedup_by_id-fresh c d [] rest h = cc
  dedup_by_id-fresh c d (x ∷ xs) rest h =
      let same : x ≡ c = cc in
      let after : dedup_after x xs ≡ d ∷ rest = cc in
      subst (λ (y : CapabilityKnowledge). (d.id == y.id) ≡ false) same
        (dedup_after-fresh x d xs rest after)

  probe_shape-known :
      (datasets : List DatasetKnowledge) {p : String × String}
      → probe_shape datasets ≡ some p
      → (dataset : DatasetKnowledge) × (s : ShapeOption) × (dataset ∈ datasets)
        × (s ∈ dataset.shapes)
        × (is_probe_role s.role ≡ true)
        × (p ≡ (dataset.id, s.id))
  probe_shape-known [] h = cc
  probe_shape-known (d ∷ rest) {p} h = elim (Option-cases (first_shape d.shapes)) [
    | inl nothing ↦
        let h' : probe_shape rest ≡ some p = rw (nothing, probe_shape) at h in
        let (dataset, s, known, shaped, role, e) = probe_shape-known rest h' in
        (dataset, s, inr known, shaped, role, e)
    | inr (s, found_shape) ↦
        let (role, shaped) =
          find-some (λ (x : ShapeOption). is_probe_role x.role) d.shapes found_shape in
        let h' : some (d.id, s.id) ≡ some p = rw (found_shape, probe_shape) at h in
        (d, s, inl refl, shaped, role, cc)
  ]

  mem-options :
      (cs : List CapabilityKnowledge) (o : String × String)
      → (◌∈◌ {A = String × String} o (map option_for cs))
        ↔ ((c : CapabilityKnowledge) × (c ∈ cs) × (o ≡ option_for c))
  mem-options [] o = (λ m. absurd m, λ (c, known, e). absurd known)
  mem-options (x ∷ cs) o =
      let rest = mem-options cs o in
      (
        λ m. elim m [
          | inl e ↦ (x, inl refl, e)
          | inr r ↦ let (c, known, e) = rest.0 r in (c, inr known, e)
        ],
        λ (c, known, e). elim known [
          | inl same ↦ inl (e ∙ ap option_for same)
          | inr r ↦ inr (rest.1 (c, r, e))
        ],
      )

  exact : (c : CapabilityKnowledge) → (c ∈ candidates catalog ids) ↔ Candidate c
  exact = candidates-exact catalog ids

  in_list :
      {cs : List CapabilityKnowledge}
      → candidates catalog ids ≡ cs
      → (c : CapabilityKnowledge) → (c ∈ cs) ↔ Candidate c
  in_list e c = (
    λ m. (exact c).0 (subst (λ xs. c ∈ xs) (sym e) m),
    λ h. subst (λ xs. c ∈ xs) e ((exact c).1 h),
  )

  ask_or_probe-IsJustified :
      (c d : CapabilityKnowledge) (rest : List CapabilityKnowledge)
      → candidates catalog ids ≡ c ∷ d ∷ rest
      → (p : Option (String × String)) → probe_shape catalog.datasets ≡ p
      → IsJustified (ask_or_probe (c ∷ d ∷ rest) p)
  unfolding candidates
  ask_or_probe-IsJustified c d rest e none h =
      asks c d (map option_for (c ∷ d ∷ rest)) ((in_list e c).0 (inl refl))
        ((in_list e d).0 (inr (inl refl))) (dedup_by_id-fresh c d (sorted catalog ids) rest e)
        (λ o.
          let listed = mem-options (c ∷ d ∷ rest) o in
          (
            λ m. let (x, known, same) = listed.0 m in (x, (in_list e x).0 known, same),
            λ (x, known, same). listed.1 (x, (in_list e x).1 known, same),
          ))
  ask_or_probe-IsJustified c d rest e (some p) h =
      let (dataset, s, known, shaped, role, same) = probe_shape-known catalog.datasets h in
      subst (λ (q : String × String). IsJustified (probe_with q.0 q.1)) (sym same)
        (probes c d dataset s ((in_list e c).0 (inl refl)) ((in_list e d).0 (inr (inl refl)))
          (dedup_by_id-fresh c d (sorted catalog ids) rest e) known shaped role)

  choose-IsJustified :
      (cs compatible : List CapabilityKnowledge)
      → candidates catalog ids ≡ cs
      → filter (is_fact_compatible facts) cs ≡ compatible
      → IsJustified (choose cs compatible (probe_shape catalog.datasets))
  choose-IsJustified [] [] e f = none_left (λ c h. (in_list e c).1 h)
  choose-IsJustified [] (c ∷ compatible) e f = cc
  choose-IsJustified (c ∷ []) compatible e f =
      only_candidate c ((in_list e c).0 (inl refl))
        (λ d h. elim ((in_list e d).1 h) [ inl same ↦ same | inr none_in ↦ absurd none_in ])
  choose-IsJustified (c ∷ d ∷ rest) (x ∷ []) e f =
      let filtered : x ∈ filter (is_fact_compatible facts) (c ∷ d ∷ rest) =
        subst (λ xs. x ∈ xs) (sym f) (inl refl) in
      let (fits, known) = mem-filter (is_fact_compatible facts) (c ∷ d ∷ rest) filtered in
      only_compatible x ((in_list e x).0 known) fits (λ y h fit.
        let kept = filter-mem (is_fact_compatible facts) (c ∷ d ∷ rest) ((in_list e y).1 h) fit in
        elim (subst (λ xs. y ∈ xs) f kept) [ inl same ↦ same | inr none_in ↦ absurd none_in ])
  choose-IsJustified (c ∷ d ∷ rest) [] e f =
      ask_or_probe-IsJustified c d rest e (probe_shape catalog.datasets) refl
  choose-IsJustified (c ∷ d ∷ rest) (x ∷ y ∷ more) e f =
      ask_or_probe-IsJustified c d rest e (probe_shape catalog.datasets) refl

  -- Each answer to an ambiguous request has its reason: a capability is selected only where it is the
  -- one approved capability that was asked for, or the one of them whose required facts are known; a
  -- probe is a shape of the catalog made for it, and with a question to the user it comes only where
  -- two approved capabilities were asked for; the question offers exactly the approved capabilities
  -- that were asked for; and nothing is offered only where none is approved.
  pub resolve_ambiguity-IsJustified : IsJustified (resolve_ambiguity ids facts catalog)
  unfolding resolve_ambiguity
  resolve_ambiguity-IsJustified =
      choose-IsJustified (candidates catalog ids)
        (filter (is_fact_compatible facts) (candidates catalog ids)) refl refl
