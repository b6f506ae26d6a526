-- ===== src/Dataset/Grammar.antt =====
-- crates/chat/src/knowledge/dataset/grammar.rs: which declared SQL expressions may be put into a
-- statement. The messages of the errors are their constructors.
pub mod Words
pub mod Safe
pub mod Exact
pub mod Accepted
use fineract_ai_reports.Prelude.{
  ltb, leb, nat_beq, if◌then◌else◌, string_eq, nat_eq, length, is_empty, filter, all, Result, ok,
  err, ◌>>=◌, Text, codes, is_whitespace, trim_start, put_first, int_eq, ℕ, ◌-◌, String, refl, Bool,
  true, false, ◌&&◌, ◌||◌, not, List, [], ◌∷◌, map, is_blank, contains_text, ◌≡◌,
}

pub data ExprError : Type 0 where
  expression_empty empty_term : ExprError
  forbidden_token : Text → ExprError
  unexpected_tokens : Text → ExprError
  too_many_qualifiers : Text → ExprError
  invalid_identifier : Text → ExprError

-- `split(stop)`: the pieces between the characters that stop, at least one
unfoldable pub split : (ℕ → Bool) → Text → List Text
split stop [] = [] ∷ []
split stop (c ∷ cs) = let rest = split stop cs in if stop c then [] ∷ rest else put_first c rest

-- `split_whitespace()`
unfoldable pub split_whitespace : Text → List Text
unfolding split is_whitespace
split_whitespace s = filter (λ word. not (is_empty word)) (split is_whitespace s)

abbrev trim_end : Text → Text
trim_end [] = []
trim_end (c ∷ cs) =
    let rest = trim_end cs in if is_empty rest && is_whitespace c then [] else c ∷ rest

-- `trim()`
abbrev pub trim : Text → Text
trim s = trim_end (trim_start s)

-- `to_ascii_uppercase()` of a character
abbrev pub to_upper : ℕ → ℕ
to_upper c = if leb b'a' c && leb c b'z' then c - 32 else c

abbrev pub text_beq : Text → Text → Bool
text_beq [] [] = true
text_beq (c ∷ cs) (d ∷ ds) = nat_beq c d && text_beq cs ds
text_beq _ _ = false

-- `eq_ignore_ascii_case`, and `to_ascii_uppercase` against a word in capitals
unfoldable pub reads_as : String → Text → Bool
reads_as capitals word = text_beq (map to_upper word) (codes capitals)

abbrev pub is_letter : ℕ → Bool
is_letter c = leb b'a' c && leb c b'z' || leb b'A' c && leb c b'Z'

abbrev pub is_digit : ℕ → Bool
is_digit c = leb b'0' c && leb c b'9'

abbrev pub starts_identifier : ℕ → Bool
starts_identifier c = is_letter c || nat_beq c b'_'

abbrev pub continues_identifier : ℕ → Bool
continues_identifier c = is_letter c || is_digit c || nat_beq c b'_'

abbrev pub is_part : Text → Bool
is_part [] = false
is_part (c ∷ cs) = starts_identifier c && all continues_identifier cs

abbrev pub is_dot : ℕ → Bool
is_dot c = nat_beq c b'.'

abbrev pub is_comma : ℕ → Bool
is_comma c = nat_beq c b','

-- The loop over the parts
abbrev pub check_parts : Text → List Text → Result (Unit {0}) ExprError
check_parts identifier [] = ok tt
check_parts identifier (part ∷ parts) =
    if not (is_part part) then err (invalid_identifier identifier) else check_parts identifier parts

unfoldable pub validate_identifier : Text → Result (Unit {0}) ExprError
unfolding split
validate_identifier identifier =
    let parts = split is_dot identifier in
    if ltb 2 (length parts)
    then err (too_many_qualifiers identifier)
    else check_parts identifier parts

abbrev pub is_direction : Text → Bool
is_direction word = reads_as "ASC" word || reads_as "DESC" word

abbrev pub drop_direction : List Text → List Text
drop_direction [] = []
drop_direction (word ∷ words) = if is_direction word then words else word ∷ words

abbrev pub is_nulls : Text → Text → Bool
is_nulls a b = reads_as "NULLS" a && (reads_as "FIRST" b || reads_as "LAST" b)

-- The match on what is left of the words
abbrev pub check_rest : Text → List Text → Result (Unit {0}) ExprError
check_rest term [] = ok tt
check_rest term (a ∷ b ∷ []) = if is_nulls a b then ok tt else err (unexpected_tokens (trim term))
check_rest term _ = err (unexpected_tokens (trim term))

abbrev pub check_words : Text → List Text → Result (Unit {0}) ExprError
check_words term [] = err empty_term
check_words term (identifier ∷ words) =
    validate_identifier identifier >>= λ _. check_rest term (drop_direction words)

unfoldable pub validate_term : Text → Result (Unit {0}) ExprError
unfolding split_whitespace reads_as
validate_term term = check_words term (split_whitespace term)

abbrev pub check_terms : List Text → Result (Unit {0}) ExprError
check_terms [] = ok tt
check_terms (term ∷ terms) = validate_term term >>= λ _. check_terms terms

abbrev pub forbidden : List String
forbidden = ";" ∷ "--" ∷ "/*" ∷ "*/" ∷ "'" ∷ "\"" ∷ "(" ∷ ")" ∷ []

-- The loop over the forbidden tokens
abbrev pub check_tokens : Text → List String → Result (Unit {0}) ExprError
check_tokens expr [] = ok tt
check_tokens expr (token ∷ tokens) =
    if contains_text expr (codes token)
    then err (forbidden_token (codes token))
    else check_tokens expr tokens

unfoldable pub validate_sql_expr : Text → Result (Unit {0}) ExprError
unfolding is_blank contains_text validate_term split
validate_sql_expr expr =
    if is_blank expr
    then err expression_empty
    else check_tokens expr forbidden >>= λ _. check_terms (split is_comma expr)
