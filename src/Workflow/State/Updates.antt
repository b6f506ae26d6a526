-- ===== src/Workflow/State/Updates.antt =====
-- What an `UPDATE` does to the answers of the queries on the same table.
use mathlib.Core.Option
use fineract_ai_reports.Prelude.{
  if◌then◌else◌, nat_eq, string_eq, find, int_eq, ◌≡◌, refl, Bool, List, [], ◌∷◌, arith,
}
use fineract_ai_reports.Workflow.State.{update_where, count_where}

module _ {A : Type 0} (p test : A → Bool) (change : A → A)
    (kept : (x : A) → p (change x) ≡ p x) where
  pub find-update_where :
      (rows : List A)
      → find p (update_where test change rows)
        ≡ Option.map (λ x. if test x then change x else x) (find p rows)
  find-update_where [] = refl
  find-update_where (x ∷ rows) = ground (arith, kept x, find-update_where rows)

  pub count_where-update_where :
      (rows : List A) → count_where p (update_where test change rows) ≡ count_where p rows
  count_where-update_where [] = refl
  count_where-update_where (x ∷ rows) = ground (arith, kept x, count_where-update_where rows)
