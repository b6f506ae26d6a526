-- ===== src/Workflow/Graph/Ends.antt =====
-- The `while` loop of `reachable_from` ends, and an invariant of its rounds holds of what it answers.
use fineract_ai_reports.Prelude.{
  Bool-cases, ==_refl, string_eq, nat_eq, length, ◌∈◌, contains, length-append, int_eq, ℕ, zero,
  suc, ◌+◌, ◌≤◌, ◌<◌, ◌≡◌, refl, inl, inr, true, some, List, [], ◌∷◌, arith, ap, ◌⊎◌,
}
use fineract_ai_reports.Workflow.Graph.{Search, visit, visit_all, search_loop}
use fineract_ai_reports.Workflow.Graph.Unseen.{unseen, unseen-found}

pub List-cases {ℓ} :
    {A : Type ℓ} (xs : List A) → (xs ≡ []) ⊎ ((x : A) × (rest : List A) × (xs ≡ x ∷ rest))
List-cases [] = inl refl
List-cases (x ∷ rest) = inr (x, rest, refl)

-- The state of the loop after the node has been taken from the queue and its neighbours offered
abbrev pub round : (ℕ → List ℕ) → Search → ℕ → List ℕ → Search
round outgoing s node rest = visit_all (record { seen = s.seen; queue = rest }) (outgoing node)

module _ (n : ℕ) where
  abbrev pub work : Search → ℕ
  work s = unseen (contains s.seen) n + length s.queue

  visit-work : (s : Search) (next : ℕ) → next < n → work (visit s next) ≤ work s
  visit-work s next small = elim (Bool-cases (contains s.seen next)) [
    | inl t ↦ rw t (omega arith)
    | inr f ↦
        let keep : (i : ℕ) → contains s.seen i ≡ true → contains (next ∷ s.seen) i ≡ true =
          λ i h. ground (arith, h) in
        let found =
          unseen-found (contains s.seen) (contains (next ∷ s.seen)) n keep small f
            (rw (==_refl next) refl) in
        rw f (omega (arith, found, length-append s.queue (next ∷ [])))
  ]

  visit_all-work :
      (s : Search) (nexts : List ℕ)
      → ((j : ℕ) → j ∈ nexts → j < n)
      → work (visit_all s nexts) ≤ work s
  visit_all-work s [] small = omega arith
  visit_all-work s (next ∷ rest) small = omega (
    arith,
    visit-work s next (small next (inl refl)),
    visit_all-work (visit s next) rest (λ j m. small j (inr m)),
  )

  pub search_loop_ends :
      (outgoing : ℕ → List ℕ)
      → ((i j : ℕ) → j ∈ outgoing i → j < n)
      → (fuel : ℕ) (s : Search) → work s < fuel
      → (found : List ℕ) × (search_loop outgoing fuel s ≡ some found)
  search_loop_ends outgoing small zero s h = absurd (omega arith)
  search_loop_ends outgoing small (suc fuel) s h = elim (List-cases s.queue) [
    | inl empty ↦ (s.seen, rw empty refl)
    | inr (node, rest, e) ↦
        let less =
          visit_all-work (record { seen = s.seen; queue = rest }) (outgoing node) (small node) in
        rw e (
          search_loop_ends outgoing small fuel (round outgoing s node rest)
            (omega (arith, less, ap length e)))
  ]

-- An invariant that a round keeps holds at the end, where the queue is empty.
pub search_loop_rule {ℓ} :
    (outgoing : ℕ → List ℕ) (P : Search → Type ℓ)
    → ((s : Search) (node : ℕ) (rest : List ℕ)
        → s.queue ≡ node ∷ rest
        → P s
        → P (round outgoing s node rest))
    → (fuel : ℕ) (s : Search) {found : List ℕ} → P s
    → search_loop outgoing fuel s ≡ some found
    → (t : Search) × P t × (t.queue ≡ []) × (t.seen ≡ found)
search_loop_rule outgoing P keep zero s p h = cc
search_loop_rule outgoing P keep (suc fuel) s {found} p h = elim (List-cases s.queue) [
  | inl empty ↦ let h' : some s.seen ≡ some found = rw empty at h in (s, p, empty, cc)
  | inr (node, rest, e) ↦
      search_loop_rule outgoing P keep fuel (round outgoing s node rest) (keep s node rest e p)
        (rw e at h)
]
