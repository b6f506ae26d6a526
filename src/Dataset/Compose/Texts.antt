-- ===== src/Dataset/Compose/Texts.antt =====
-- The fixed texts of compose.rs.
use fineract_ai_reports.Prelude.{
  if◌then◌else◌, ◌==◌, string_eq, nat_eq, contains, int_eq, String, ◌≡◌, refl, subst, Bool, true,
  false, ◌||◌, none, some, List, [], ◌∷◌,
}
use fineract_ai_reports.Dataset.Compose.{filter_cast}

-- The texts that the composer writes around what it is given: those of a statement, of a predicate,
-- the casts and the operators.

abbrev pub statement_texts : List String
statement_texts =
    "WITH source AS (\n" ∷ "\n),\nbase AS (\n  SELECT *\n  FROM source\n  WHERE TRUE" ∷ "\n)\n"
    ∷ "\nORDER BY " ∷ []

abbrev pub predicate_texts : List String
predicate_texts =
    "\n  AND ($" ∷ "\n    AND ($" ∷ " IS NULL OR " ∷ " IS NULL OR $" ∷ " IS NULL OR lower("
    ∷ ") = lower($" ∷ "))" ∷ "[] IS NULL OR " ∷ " = ANY($" ∷ "[]))" ∷ " BETWEEN $" ∷ " AND $" ∷ ")"
    ∷ " " ∷ " $" ∷ []

abbrev pub casts : List String
casts = "::date" ∷ "::bigint" ∷ "::bool" ∷ "::text" ∷ "::numeric" ∷ []

abbrev pub operator_texts : List String
operator_texts = "=" ∷ "<" ∷ "<=" ∷ ">" ∷ ">=" ∷ []

abbrev pub is_fixed_text : String → Bool
is_fixed_text t =
    contains casts t
    || contains operator_texts t
    || contains predicate_texts t
    || contains statement_texts t

cast_of-known :
    (date integer boolean string decimal : Bool) {cast : String}
    → (if date
        then some "::date"
        else if integer
        then some "::bigint"
        else if boolean
        then some "::bool"
        else if string
        then some "::text"
        else if decimal
        then some "::numeric"
        else none)
      ≡ some cast
    → is_fixed_text cast ≡ true
cast_of-known true i b s d {cast} h =
    let same : "::date" ≡ cast = cc in subst (λ t. is_fixed_text t ≡ true) same refl
cast_of-known false true b s d {cast} h =
    let same : "::bigint" ≡ cast = cc in subst (λ t. is_fixed_text t ≡ true) same refl
cast_of-known false false true s d {cast} h =
    let same : "::bool" ≡ cast = cc in subst (λ t. is_fixed_text t ≡ true) same refl
cast_of-known false false false true d {cast} h =
    let same : "::text" ≡ cast = cc in subst (λ t. is_fixed_text t ≡ true) same refl
cast_of-known false false false false true {cast} h =
    let same : "::numeric" ≡ cast = cc in subst (λ t. is_fixed_text t ≡ true) same refl
cast_of-known false false false false false {cast} h = cc

pub is_fixed_text-filter_cast :
    (kind cast : String) → filter_cast kind ≡ some cast → is_fixed_text cast ≡ true
unfolding filter_cast
is_fixed_text-filter_cast kind cast h =
    cast_of-known (kind == "date") (kind == "integer") (kind == "boolean") (kind == "string")
      (kind == "decimal") h
