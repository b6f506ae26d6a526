-- ===== src/Workflow/Graph/Once.antt =====
-- A set of ids as a list without repetitions: its size against the list that it is collected from.
use fineract_ai_reports.Prelude.{
  Bool-cases, ◌==◌, ==→≡, ==_refl, string_eq, nat_eq, length, filter, ◌∈◌, contains, contains→mem,
  mem→contains, int_eq, ◌≤◌, ◌<◌, ◌≡◌, refl, sym, subst, ◌↔◌, inl, inr, false, not, List, [], ◌∷◌,
  arith,
}
use fineract_ai_reports.Workflow.Contract.{NodeId, node_id_eq}
use fineract_ai_reports.Workflow.Verify.Whole.{distinct}

abbrev pub AllOnce : List NodeId → Type 0
AllOnce [] = Unit {0}
AllOnce (id ∷ ids) = (contains ids id ≡ false) × AllOnce ids

mem-distinct→ : (ids : List NodeId) (id : NodeId) → id ∈ distinct ids → id ∈ ids
mem-distinct→ [] id m = absurd m
mem-distinct→ (x ∷ ids) id m = elim (Bool-cases (contains ids x)) [
  | inl t ↦ let m' : id ∈ distinct ids = rw (t, distinct) at m in inr (mem-distinct→ ids id m')
  | inr f ↦
      let m' : id ∈ x ∷ distinct ids = rw (f, distinct) at m in
      elim m' [ inl e ↦ inl e | inr r ↦ inr (mem-distinct→ ids id r) ]
]

mem→distinct : (ids : List NodeId) (id : NodeId) → id ∈ ids → id ∈ distinct ids
mem→distinct [] id m = absurd m
mem→distinct (x ∷ ids) id m = elim (Bool-cases (contains ids x)) [
  | inl t ↦
      let old = contains→mem ids x t in
      let in_ids : id ∈ ids = elim m [ inl e ↦ subst (λ y. y ∈ ids) (sym e) old | inr r ↦ r ] in
      rw (t, distinct) (mem→distinct ids id in_ids)
  | inr f ↦
      let kept : id ∈ x ∷ distinct ids = elim m [
        | inl e ↦ inl e
        | inr r ↦ inr (mem→distinct ids id r)
      ] in
      rw (f, distinct) kept
]

pub mem-distinct : (ids : List NodeId) (id : NodeId) → (id ∈ distinct ids) ↔ (id ∈ ids)
mem-distinct ids id = (mem-distinct→ ids id, mem→distinct ids id)

pub distinct-AllOnce : (ids : List NodeId) → AllOnce (distinct ids)
distinct-AllOnce [] = tt
distinct-AllOnce (x ∷ ids) = elim (Bool-cases (contains ids x)) [
  | inl t ↦ rw (t, distinct) (distinct-AllOnce ids)
  | inr f ↦
      let fresh : contains (distinct ids) x ≡ false =
        elim (Bool-cases (contains (distinct ids) x)) [
          | inl t ↦ cc (mem→contains ids x (mem-distinct→ ids x (contains→mem (distinct ids) x t)))
          | inr g ↦ g
        ] in
      rw (f, distinct) (fresh, distinct-AllOnce ids)
]

abbrev others : NodeId → List NodeId → List NodeId
others id = filter (λ (x : NodeId). not (x == id))

length-others-le : (id : NodeId) (ids : List NodeId) → length (others id ids) ≤ length ids
length-others-le id [] = omega arith
length-others-le id (x ∷ ids) = ground (arith, length-others-le id ids)

length-others : (id : NodeId) (ids : List NodeId) → id ∈ ids → length (others id ids) < length ids
length-others id [] m = absurd m
length-others id (x ∷ ids) (inl e) = rw (e, ==_refl x) (omega (arith, length-others-le id ids))
length-others id (x ∷ ids) (inr m) = ground (arith, length-others id ids m)

mem-others : (id y : NodeId) (ids : List NodeId) → (y == id) ≡ false → y ∈ ids → y ∈ others id ids
mem-others id y [] f m = absurd m
mem-others id y (x ∷ ids) f (inl e) = let f' : (x == id) ≡ false = rw e at f in rw f' (inl e)
mem-others id y (x ∷ ids) f (inr m) = elim (Bool-cases (x == id)) [
  | inl t ↦ rw (t, filter) (mem-others id y ids f m)
  | inr g ↦ rw (g, filter) (inr (mem-others id y ids f m))
]

AllOnce-le :
    (xs ys : List NodeId) → AllOnce xs → ((id : NodeId) → id ∈ xs → id ∈ ys) → length xs ≤ length ys
AllOnce-le [] ys once within = omega arith
AllOnce-le (x ∷ xs) ys (fresh, once) within =
    let keeps : (id : NodeId) → id ∈ xs → id ∈ others x ys = λ id m. elim (Bool-cases (id == x)) [
      | inl t ↦ let m' = subst (λ y. y ∈ xs) (==→≡ id x t) m in cc (mem→contains xs x m')
      | inr f ↦ mem-others x id ys f (within id (inr m))
    ] in
    omega (arith, AllOnce-le xs (others x ys) once keeps, length-others x ys (within x (inl refl)))

-- A set that is as large as the list it is within holds all of the list.
pub AllOnce-fills :
    (xs ys : List NodeId)
    → AllOnce xs
    → ((id : NodeId) → id ∈ xs → id ∈ ys)
    → length xs ≡ length ys
    → (id : NodeId) → id ∈ ys
    → id ∈ xs
AllOnce-fills xs ys once within full id m = elim (Bool-cases (contains xs id)) [
  | inl t ↦ contains→mem xs id t
  | inr f ↦
      let within' : (y : NodeId) → y ∈ id ∷ xs → y ∈ ys =
        λ y m'. elim m' [ inl e ↦ subst (λ z. z ∈ ys) (sym e) m | inr r ↦ within y r ] in
      absurd (omega (arith, AllOnce-le (id ∷ xs) ys (f, once) within'))
]
