-- ===== src/Dataset/Grammar/Accepted.antt =====
-- Exactly the lists of ordering terms are accepted.
use fineract_ai_reports.Prelude.{
  nat_beq, Bool-cases, string_eq, nat_eq, all, All, ok, >>=-eq-ok, Text, codes, is_whitespace,
  is_blank, starts_with, contains_text, int_eq, ℕ, ◌≡◌, refl, sym, ◌∙◌, ◌↔◌, inl, inr, true, false,
  List, [], ◌∷◌, arith, nat_beq_iff,
}
use fineract_ai_reports.Dataset.Grammar.{
  split, split_whitespace, is_comma, validate_term, check_terms, forbidden, check_tokens,
  validate_sql_expr,
}
use fineract_ai_reports.Dataset.Grammar.Words.{all-split}
use fineract_ai_reports.Dataset.Grammar.Safe.{is_safe, check_terms_safe}
use fineract_ai_reports.Dataset.Grammar.Exact.{IsOrderTerm, term, check_words→, check_words←}

abbrev AreOrderTerms : List Text → Type 0
AreOrderTerms terms = All (λ t. IsOrderTerm (split_whitespace t)) terms

check_terms→ : (terms : List Text) → check_terms terms ≡ ok tt → AreOrderTerms terms
unfolding validate_term
check_terms→ [] h = tt
check_terms→ (t ∷ terms) h =
    let (u, good, rest) = >>=-eq-ok (validate_term t) (λ _. check_terms terms) h in
    (check_words→ t (split_whitespace t) good, check_terms→ terms rest)

check_terms← : (terms : List Text) → AreOrderTerms terms → check_terms terms ≡ ok tt
unfolding validate_term
check_terms← [] h = refl
check_terms← (t ∷ terms) h = rw (check_words← t (split_whitespace t) h.0) (check_terms← terms h.1)

-- A text of safe characters does not contain a token that starts with an unsafe one.
contains_text_safe :
    (s : Text) (c : ℕ) (cs : Text)
    → all is_safe s ≡ true
    → is_safe c ≡ false
    → contains_text s (c ∷ cs) ≡ false
unfolding contains_text starts_with
contains_text_safe [] c cs h unsafe = refl
contains_text_safe (d ∷ ds) c cs h unsafe = elim (Bool-cases (nat_beq d c)) [
  | inl t ↦
      let e : d ≡ c = ground arith in
      let bad : is_safe d ≡ false = rw e unsafe in let good : is_safe d ≡ true = ground arith in cc
  | inr f ↦ rw f (contains_text_safe ds c cs (ground arith) unsafe)
]

check_tokens_safe : (s : Text) → all is_safe s ≡ true → check_tokens s forbidden ≡ ok tt
unfolding is_whitespace
check_tokens_safe s h =
    rw
      (
        contains_text_safe s b';' [] h refl,
        contains_text_safe s b'-' (codes "-") h refl,
        contains_text_safe s b'/' (codes "*") h refl,
        contains_text_safe s b'*' (codes "/") h refl,
        contains_text_safe s 39 [] h refl,
        contains_text_safe s 34 [] h refl,
        contains_text_safe s b'(' [] h refl,
        contains_text_safe s b')' [] h refl,
      )
      refl

comma_ne : (c : ℕ) → is_whitespace c ≡ true → is_comma c ≡ false
comma_ne c h = elim (Bool-cases (is_comma c)) [
  | inr f ↦ f
  | inl t ↦
      let e : c ≡ b',' = (nat_beq_iff c b',').0 t in
      let bad : is_whitespace c ≡ false = rw e (unfold is_whitespace in refl) in cc
]

blank_terms : (s : Text) → all is_whitespace s ≡ true → split is_comma s ≡ s ∷ []
unfolding split
blank_terms [] h = refl
blank_terms (c ∷ cs) h = rw (comma_ne c (ground arith), blank_terms cs (ground arith)) refl

blank_words : (s : Text) → all is_whitespace s ≡ true → split_whitespace s ≡ []
unfolding split_whitespace split
blank_words [] h = refl
blank_words (c ∷ cs) h =
    let space : is_whitespace c ≡ true = ground arith in rw space (blank_words cs (ground arith))

no_words : ¬ IsOrderTerm []
no_words (term good a n e) = cc

not_blank : (s : Text) → AreOrderTerms (split is_comma s) → is_blank s ≡ false
unfolding is_blank
not_blank s h = elim (Bool-cases (all is_whitespace s)) [
  | inr f ↦ f
  | inl t ↦
      let h' : AreOrderTerms (s ∷ []) = rw (blank_terms s t) at h in
      absurd (no_words (rw (blank_words s t) at h'.0))
]

accepted→ : (expr : Text) → validate_sql_expr expr ≡ ok tt → AreOrderTerms (split is_comma expr)
unfolding validate_sql_expr
accepted→ expr h = elim (Bool-cases (is_blank expr)) [
  | inl t ↦ cc (rw t at h)
  | inr f ↦
      let (u, clean, terms) =
        >>=-eq-ok (check_tokens expr forbidden) (λ _. check_terms (split is_comma expr))
          (rw f at h) in
      check_terms→ (split is_comma expr) terms
]

accepted← : (expr : Text) → AreOrderTerms (split is_comma expr) → validate_sql_expr expr ≡ ok tt
unfolding validate_sql_expr is_whitespace
accepted← expr h =
    let terms = check_terms← (split is_comma expr) h in
    let safe : all is_safe expr ≡ true =
      sym (all-split is_safe is_comma expr (λ c k. ground arith))
      ∙ check_terms_safe (split is_comma expr) terms in
    rw (not_blank expr h, check_tokens_safe expr safe) terms

-- An expression is accepted exactly if each of its comma-separated pieces is one ordering term: a
-- bare or table-qualified identifier, optionally a direction, optionally a place for nulls.
pub validate_sql_expr_exact :
    (expr : Text)
    → (validate_sql_expr expr ≡ ok tt)
      ↔ All (λ t. IsOrderTerm (split_whitespace t)) (split is_comma expr)
validate_sql_expr_exact expr = (accepted→ expr, accepted← expr)
