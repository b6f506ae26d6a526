-- ===== src/Dataset/Grammar/Safe.antt =====
-- An accepted expression cannot extend the statement: it has no character that could.
use fineract_ai_reports.Prelude.{
  ltb, leb, Bool-cases, string_eq, nat_eq, length, all, ok, >>=-eq-ok, Text, codes, is_whitespace,
  is_blank, int_eq, ℕ, String, ◌≡◌, refl, sym, ◌∙◌, inl, inr, Bool, true, ◌&&◌, ◌||◌, List, [], ◌∷◌,
  map, arith,
}
use fineract_ai_reports.Dataset.Grammar.{
  split, split_whitespace, to_upper, reads_as, continues_identifier, is_part, is_dot, is_comma,
  check_parts, validate_identifier, is_direction, drop_direction, is_nulls, check_rest, check_words,
  validate_term, check_terms, forbidden, check_tokens, validate_sql_expr,
}
use fineract_ai_reports.Dataset.Grammar.Words.{all-split, all-split_whitespace, text_beq→≡}

-- Letters, digits, `_`, `.`, `,` and white space.
abbrev pub is_safe : ℕ → Bool
is_safe c = continues_identifier c || is_dot c || is_comma c || is_whitespace c

all-imp :
    (p q : ℕ → Bool) (s : Text)
    → ((c : ℕ) → p c ≡ true → q c ≡ true)
    → all p s ≡ true
    → all q s ≡ true
all-imp p q [] imp h = refl
all-imp p q (c ∷ cs) imp h = ground (arith, all-imp p q cs imp, imp c)

abbrev is_capital : ℕ → Bool
is_capital c = leb b'A' c && leb c b'Z'

to_upper_capital : (s : Text) → all is_capital (map to_upper s) ≡ true → all is_safe s ≡ true
unfolding is_whitespace
to_upper_capital [] h = refl
to_upper_capital (c ∷ cs) h = ground (arith, to_upper_capital cs)

-- A keyword has only letters.
pub reads_as_safe :
    (capitals : String) (word : Text)
    → all is_capital (codes capitals) ≡ true
    → reads_as capitals word ≡ true
    → all is_safe word ≡ true
unfolding reads_as
reads_as_safe capitals word caps h =
    to_upper_capital word (rw (text_beq→≡ (map to_upper word) (codes capitals) h) caps)

is_part_safe : (part : Text) → is_part part ≡ true → all is_safe part ≡ true
unfolding is_whitespace
is_part_safe [] h = refl
is_part_safe (c ∷ cs) h =
    ground (arith, all-imp continues_identifier is_safe cs (λ d k. ground arith))

check_parts_safe :
    (identifier : Text) (parts : List Text)
    → check_parts identifier parts ≡ ok tt
    → all (all is_safe) parts ≡ true
check_parts_safe identifier [] h = refl
check_parts_safe identifier (part ∷ parts) h = elim (Bool-cases (is_part part)) [
  | inl t ↦ ground (arith, is_part_safe part t, check_parts_safe identifier parts (rw t at h))
  | inr f ↦ cc (rw f at h)
]

pub validate_identifier_safe :
    (identifier : Text) → validate_identifier identifier ≡ ok tt → all is_safe identifier ≡ true
unfolding validate_identifier is_whitespace
validate_identifier_safe identifier h =
    elim (Bool-cases (ltb 2 (length (split is_dot identifier)))) [
      | inl t ↦ cc (rw t at h)
      | inr f ↦
          sym (all-split is_safe is_dot identifier (λ c k. ground arith))
          ∙ check_parts_safe identifier (split is_dot identifier) (rw f at h)
    ]

is_nulls_safe : (a b : Text) → is_nulls a b ≡ true → all (all is_safe) (a ∷ b ∷ []) ≡ true
is_nulls_safe a b h =
    ground (
      arith,
      reads_as_safe "NULLS" a refl,
      reads_as_safe "FIRST" b refl,
      reads_as_safe "LAST" b refl,
    )

check_rest_safe :
    (term : Text) (words : List Text)
    → check_rest term words ≡ ok tt
    → all (all is_safe) words ≡ true
check_rest_safe term [] h = refl
check_rest_safe term (a ∷ []) h = cc
check_rest_safe term (a ∷ b ∷ []) h = elim (Bool-cases (is_nulls a b)) [
  | inl t ↦ is_nulls_safe a b t
  | inr f ↦ cc (rw f at h)
]
check_rest_safe term (a ∷ b ∷ c ∷ words) h = cc

drop_direction_safe :
    (words : List Text)
    → all (all is_safe) (drop_direction words) ≡ true
    → all (all is_safe) words ≡ true
drop_direction_safe [] h = refl
drop_direction_safe (word ∷ words) h = elim (Bool-cases (is_direction word)) [
  | inl t ↦ ground (arith, reads_as_safe "ASC" word refl, reads_as_safe "DESC" word refl)
  | inr f ↦ rw f at h
]

check_words_safe :
    (term : Text) (words : List Text)
    → check_words term words ≡ ok tt
    → all (all is_safe) words ≡ true
check_words_safe term [] h = cc
check_words_safe term (identifier ∷ words) h =
    let (u, good, rest) =
      >>=-eq-ok (validate_identifier identifier) (λ _. check_rest term (drop_direction words)) h in
    ground (
      arith,
      validate_identifier_safe identifier good,
      drop_direction_safe words (check_rest_safe term (drop_direction words) rest),
    )

pub check_terms_safe :
    (terms : List Text) → check_terms terms ≡ ok tt → all (all is_safe) terms ≡ true
unfolding validate_term is_whitespace
check_terms_safe [] h = refl
check_terms_safe (term ∷ terms) h =
    let (u, good, rest) = >>=-eq-ok (validate_term term) (λ _. check_terms terms) h in
    ground (
      arith,
      all-split_whitespace is_safe term (λ c k. ground arith),
      check_words_safe term (split_whitespace term) good,
      check_terms_safe terms rest,
    )

-- Every character of an accepted expression is a letter, a digit, `_`, `.`, `,` or white space: it
-- has no quote, bracket, semicolon, operator or comment sign.
pub validate_sql_expr_safe :
    (expr : Text) → validate_sql_expr expr ≡ ok tt → all is_safe expr ≡ true
unfolding validate_sql_expr is_whitespace
validate_sql_expr_safe expr h = elim (Bool-cases (is_blank expr)) [
  | inl t ↦ cc (rw t at h)
  | inr f ↦
      let (u, clean, terms) =
        >>=-eq-ok (check_tokens expr forbidden) (λ _. check_terms (split is_comma expr))
          (rw f at h) in
      sym (all-split is_safe is_comma expr (λ c k. ground arith))
      ∙ check_terms_safe (split is_comma expr) terms
]
