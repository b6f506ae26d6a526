-- ===== src/Dataset/Grammar/Exact.antt =====
-- What an ordering term is, and that `validate_term` accepts exactly those.
use fineract_ai_reports.Prelude.{
  ltb, Bool-cases, string_eq, nat_eq, length, is_empty, ok, >>=-eq-ok, Text, codes, put_first,
  int_eq, ℕ, ◌≡◌, refl, inl, inr, Bool, true, false, ◌||◌, List, [], ◌∷◌, ◌++◌, map, arith,
}
use fineract_ai_reports.Dataset.Grammar.{
  split, to_upper, reads_as, is_part, is_dot, check_parts, validate_identifier, is_direction,
  drop_direction, is_nulls, check_rest, check_words,
}
use fineract_ai_reports.Dataset.Grammar.Words.{text_beq→≡}

-- A bare or table-qualified identifier.

pub data IsIdentifier : List Text → Type 0 where
  bare : {column : Text} → is_part column ≡ true → IsIdentifier (column ∷ [])
  qualified :
      {table column : Text}
      → is_part table ≡ true
      → is_part column ≡ true
      → IsIdentifier (table ∷ column ∷ [])

-- Optionally `ASC` or `DESC`, in any case.
pub data IsDirection : List Text → Type 0 where
  no_direction : IsDirection []
  direction :
      {word : Text} → (reads_as "ASC" word || reads_as "DESC" word) ≡ true → IsDirection (word ∷ [])

-- Optionally `NULLS FIRST` or `NULLS LAST`, in any case.
pub data IsNulls : List Text → Type 0 where
  no_nulls : IsNulls []
  nulls :
      {a b : Text}
      → reads_as "NULLS" a ≡ true
      → (reads_as "FIRST" b || reads_as "LAST" b) ≡ true
      → IsNulls (a ∷ b ∷ [])

-- The words of a term
pub data IsOrderTerm : List Text → Type 0 where
  term :
      {identifier : Text} {asc last words : List Text}
      → IsIdentifier (split is_dot identifier)
      → IsDirection asc
      → IsNulls last
      → words ≡ identifier ∷ asc ++ last
      → IsOrderTerm words

check_parts→ :
    (identifier : Text) (parts : List Text)
    → check_parts identifier parts ≡ ok tt
    → ltb 2 (length parts) ≡ false
    → is_empty parts ≡ false
    → IsIdentifier parts
check_parts→ identifier [] h few full = cc
check_parts→ identifier (a ∷ []) h few full = bare (ground arith)
check_parts→ identifier (a ∷ b ∷ []) h few full = qualified (ground arith) (ground arith)
check_parts→ identifier (a ∷ b ∷ c ∷ parts) h few full = absurd (ground arith)

split_full : (stop : ℕ → Bool) (s : Text) → is_empty (split stop s) ≡ false
unfolding split
split_full stop [] = refl
split_full stop (c ∷ cs) = elim (Bool-cases (stop c)) [
  | inl t ↦ rw t refl
  | inr f ↦ rw f (full (split stop cs))
]
  where
    full : (pieces : List Text) → is_empty (put_first c pieces) ≡ false
    full [] = refl
    full (piece ∷ pieces) = refl

validate_identifier→ :
    (identifier : Text)
    → validate_identifier identifier ≡ ok tt
    → IsIdentifier (split is_dot identifier)
unfolding validate_identifier
validate_identifier→ identifier h = elim (Bool-cases (ltb 2 (length (split is_dot identifier)))) [
  | inl t ↦ cc (rw t at h)
  | inr f ↦
      check_parts→ identifier (split is_dot identifier) (rw f at h) f (split_full is_dot identifier)
]

validate_identifier← :
    (identifier : Text) (parts : List Text)
    → split is_dot identifier ≡ parts
    → IsIdentifier parts
    → validate_identifier identifier ≡ ok tt
unfolding validate_identifier
validate_identifier← identifier (a ∷ []) e (bare h) = rw (e, h) refl
validate_identifier← identifier (a ∷ b ∷ []) e (qualified h k) = rw (e, h, k) refl
validate_identifier← identifier [] e d = elim d [ ]
validate_identifier← identifier (a ∷ b ∷ c ∷ parts) e d = elim d [ ]

check_rest→ : (t : Text) (words : List Text) → check_rest t words ≡ ok tt → IsNulls words
check_rest→ t [] h = no_nulls
check_rest→ t (a ∷ []) h = cc
check_rest→ t (a ∷ b ∷ []) h = elim (Bool-cases (is_nulls a b)) [
  | inl good ↦ nulls (ground arith) (ground arith)
  | inr bad ↦ cc (rw bad at h)
]
check_rest→ t (a ∷ b ∷ c ∷ words) h = cc

pub check_words→ : (t : Text) (words : List Text) → check_words t words ≡ ok tt → IsOrderTerm words
check_words→ t [] h = cc
check_words→ t (identifier ∷ words) h =
    let (u, good, rest) =
      >>=-eq-ok (validate_identifier identifier) (λ _. check_rest t (drop_direction words)) h in
    after words rest (validate_identifier→ identifier good)
  where
    after :
        (ws : List Text)
        → check_rest t (drop_direction ws) ≡ ok tt
        → IsIdentifier (split is_dot identifier)
        → IsOrderTerm (identifier ∷ ws)
    after [] rest good = term good no_direction no_nulls refl
    after (word ∷ ws) rest good = elim (Bool-cases (is_direction word)) [
      | inl d ↦ term good (direction d) (check_rest→ t ws (rw d at rest)) refl
      | inr f ↦ term good no_direction (check_rest→ t (word ∷ ws) (rw f at rest)) refl
    ]

-- `NULLS` is no direction.
nulls_ne : (a : Text) → reads_as "NULLS" a ≡ true → is_direction a ≡ false
unfolding reads_as
nulls_ne a h = rw (text_beq→≡ (map to_upper a) (codes "NULLS") h) refl

pub check_words← : (t : Text) (words : List Text) → IsOrderTerm words → check_words t words ≡ ok tt
check_words← t words (term {identifier = i} good no_direction no_nulls e) =
    rw (e, validate_identifier← i (split is_dot i) refl good) refl
check_words← t words (term {identifier = i} good (direction d) no_nulls e) =
    rw (e, validate_identifier← i (split is_dot i) refl good, d) refl
check_words← t words (term {identifier = i} good no_direction (nulls {a = a} n l) e) =
    rw (e, validate_identifier← i (split is_dot i) refl good, nulls_ne a n, n, l) refl
check_words← t words (term {identifier = i} good (direction d) (nulls n l) e) =
    rw (e, validate_identifier← i (split is_dot i) refl good, d, n, l) refl
