-- ===== src/Job/Tables.antt =====
-- What an `UPDATE … WHERE` leaves in a table.
use fineract_ai_reports.Prelude.{
  Bool-cases, string_eq, nat_eq, All, ◌∈◌, int_eq, ◌≡◌, refl, ap, ◌∙◌, ◌⊎◌, inl, inr, Bool, true,
  false, List, [], ◌∷◌, arith, ◌+◌,
}
use fineract_ai_reports.Workflow.State.{update_where, count_where}

module _ {A : Type 0} (test : A → Bool) (change : A → A) where
  -- A row of the updated table is one that has passed, changed, or one that has not.
  pub mem-update_where :
      (rows : List A) {b : A}
      → b ∈ update_where test change rows
      → (a : A) × (a ∈ rows) × (((test a ≡ true) × (b ≡ change a)) ⊎ ((test a ≡ false) × (b ≡ a)))
  mem-update_where [] m = absurd m
  mem-update_where (x ∷ rows) (inr m) =
      let (a, in_rows, which) = mem-update_where rows m in (a, inr in_rows, which)
  mem-update_where (x ∷ rows) {b} (inl e) = elim (Bool-cases (test x)) [
    | inl t ↦ let e' : b ≡ change x = rw t at e in (x, inl refl, inl (t, e'))
    | inr f ↦ let e' : b ≡ x = rw f at e in (x, inl refl, inr (f, e'))
  ]

  -- An update that finds no row changes nothing.
  pub update_where-none :
      (rows : List A) → count_where test rows ≡ 0 → update_where test change rows ≡ rows
  update_where-none [] h = refl
  update_where-none (x ∷ rows) h = elim (Bool-cases (test x)) [
    | inl t ↦ let h' : 1 + count_where test rows ≡ 0 = rw t at h in absurd (omega arith)
    | inr f ↦
        let h' : 0 + count_where test rows ≡ 0 = rw f at h in
        rw f (ap (λ xs. x ∷ xs) (update_where-none rows (omega arith)))
  ]

  pub All-update_where :
      (P Q : A → Type 0)
      → ((a : A) → test a ≡ true → P a → Q (change a))
      → ((a : A) → test a ≡ false → P a → Q a)
      → (rows : List A) → All P rows
      → All Q (update_where test change rows)
  All-update_where P Q changed kept [] h = tt
  All-update_where P Q changed kept (x ∷ rows) (p, h) = elim (Bool-cases (test x)) [
    | inl t ↦ rw t (changed x t p, All-update_where P Q changed kept rows h)
    | inr f ↦ rw f (kept x f p, All-update_where P Q changed kept rows h)
  ]

pub count_where-none :
    {A : Type 0} (test : A → Bool) (rows : List A)
    → ((a : A) → a ∈ rows → test a ≡ false)
    → count_where test rows ≡ 0
count_where-none test [] h = refl
count_where-none test (x ∷ rows) h =
    let rest = count_where-none test rows (λ a m. h a (inr m)) in
    rw (h x (inl refl)) (omega (arith, rest))

pub count_where-mem :
    {A : Type 0} (test : A → Bool) (rows : List A) {a : A}
    → count_where test rows ≡ 0
    → a ∈ rows
    → test a ≡ false
count_where-mem test [] h m = absurd m
count_where-mem test (x ∷ rows) {a} h m = elim (Bool-cases (test x)) [
  | inl t ↦ let h' : 1 + count_where test rows ≡ 0 = rw t at h in absurd (omega arith)
  | inr f ↦
      let h' : 0 + count_where test rows ≡ 0 = rw f at h in
      elim m [ inl e ↦ ap test e ∙ f | inr r ↦ count_where-mem test rows (omega arith) r ]
]
