-- ===== src/Dataset/Compose.antt =====
-- crates/chat/src/knowledge/dataset/compose.rs: one statement from authored SQL and declared
-- expressions. A statement is the list of the pieces that `format!` and `push_str` join.
pub mod Branches
pub mod Texts
pub mod Authored
pub mod Numbered
use fineract_ai_reports.Prelude.{
  codes, if◌then◌else◌, ◌==◌, string_eq, nat_eq, length, is_empty, filter, find, Result, ok, err,
  ok_or, ◌>>=◌, int_eq, ℕ, ◌+◌, String, Bool, true, false, ◌&&◌, ◌||◌, not, Option, none, some,
  List, [], ◌∷◌, ◌++◌,
}
use fineract_ai_reports.Knowledge.{
  parameter_type_eq, QueryParameter, FilterOperator, equal, in_list, less, less_equal, greater,
  greater_equal, between, FilterSlot, OrderByOption, ShapeOption, DatasetKnowledge, shape,
  operator_eq,
}
use fineract_ai_reports.Dataset.Grammar.{ExprError, validate_sql_expr}

pub data SqlPiece : Type 0 where
  template : String → SqlPiece  -- of the composer itself
  authored : String → SqlPiece  -- the contents of a file
  expression : String → SqlPiece  -- declared by the dataset
  placeholder : ℕ → SqlPiece  -- `$n`

pub record FilterBind : Type 0 where
  pub filter_id : String
  pub operator : FilterOperator
  pub placeholder : ℕ
  pub max_array_len : Option ℕ

pub record ComposedSql : Type 0 where
  pub sql : List SqlPiece
  pub filter_binds : List FilterBind

pub data ComposeError : Type 0 where
  unknown_shape requires_fragment unknown_order_by : ComposeError
  unsupported_filter_type case_insensitive_needs_equality : ComposeError
  invalid_expr : ExprError → ComposeError

-- `filter_cast`
unfoldable pub filter_cast : String → Option String
filter_cast kind =
    if kind == "date"
    then some "::date"
    else if kind == "integer"
    then some "::bigint"
    else if kind == "boolean"
    then some "::bool"
    else if kind == "string"
    then some "::text"
    else if kind == "decimal"
    then some "::numeric"
    else none

-- `FilterOperator::as_sql`
unfoldable pub as_sql : FilterOperator → String
as_sql equal = "="
as_sql in_list = "= ANY"
as_sql less = "<"
as_sql less_equal = "<="
as_sql greater = ">"
as_sql greater_equal = ">="
as_sql between = "BETWEEN"

abbrev pub lower_equality : String → String → ℕ → List SqlPiece
lower_equality expr cast n =
    template "\n    AND ($"
    ∷ placeholder n
    ∷ template cast
    ∷ template " IS NULL OR lower("
    ∷ expression expr
    ∷ template ") = lower($"
    ∷ placeholder n
    ∷ template cast
    ∷ template "))"
    ∷ []

abbrev pub operator_predicate : String → FilterOperator → String → ℕ → List SqlPiece
operator_predicate expr in_list cast n =
    template "\n  AND ($"
    ∷ placeholder n
    ∷ template cast
    ∷ template "[] IS NULL OR "
    ∷ expression expr
    ∷ template " = ANY($"
    ∷ placeholder n
    ∷ template cast
    ∷ template "[]))"
    ∷ []
operator_predicate expr between cast n =
    template "\n  AND ($"
    ∷ placeholder n
    ∷ template cast
    ∷ template " IS NULL OR $"
    ∷ placeholder (n + 1)
    ∷ template cast
    ∷ template " IS NULL OR "
    ∷ expression expr
    ∷ template " BETWEEN $"
    ∷ placeholder n
    ∷ template " AND $"
    ∷ placeholder (n + 1)
    ∷ template ")"
    ∷ []
operator_predicate expr operator cast n =
    template "\n  AND ($"
    ∷ placeholder n
    ∷ template cast
    ∷ template " IS NULL OR "
    ∷ expression expr
    ∷ template " "
    ∷ template (as_sql operator)
    ∷ template " $"
    ∷ placeholder n
    ∷ template ")"
    ∷ []

-- `predicate`
unfoldable pub predicate :
    String → FilterOperator → String → Bool → ℕ → Result (List SqlPiece) ComposeError
unfolding filter_cast
predicate expr operator kind case_insensitive n =
    ok_or unsupported_filter_type (filter_cast kind) >>= λ cast.
    (if case_insensitive
      then if not (kind == "string") || not (operator == equal)
        then err case_insensitive_needs_equality
        else ok (lower_equality expr cast n)
      else ok (operator_predicate expr operator cast n))

abbrev pub check_expr : String → Result (Unit {0}) ComposeError
check_expr expr = elim (validate_sql_expr (codes expr)) [
  | ok u ↦ ok tt
  | err reason ↦ err (invalid_expr reason)
]

-- How many placeholders a bind takes
abbrev pub bind_width : FilterOperator → ℕ
bind_width operator = if operator == between then 2 else 1

abbrev pub max_array_len_of : FilterOperator → Option ℕ → Option ℕ
max_array_len_of operator row_cap = if operator == in_list then row_cap else none

-- What the loops carry: the last placeholder that is taken, `predicates` and `filter_binds`.
pub record Composing : Type 0 where
  pub last : ℕ
  pub predicates : List SqlPiece
  pub binds : List FilterBind

-- The loop over the operators of a filter
abbrev pub compose_operators :
    Option ℕ → FilterSlot → List FilterOperator → Composing → Result Composing ComposeError
compose_operators row_cap filter [] s = ok s
compose_operators row_cap filter (operator ∷ rest) s =
    predicate filter.expr operator filter.kind filter.case_insensitive (s.last + 1) >>= λ pieces.
    compose_operators row_cap filter rest (record {
      last = s.last + bind_width operator;
      predicates = s.predicates ++ pieces;
      binds =
          s.binds
          ++ record {
            filter_id = filter.id;
            operator = operator;
            placeholder = s.last + 1;
            max_array_len = max_array_len_of operator row_cap;
          }
            ∷ [];
    })

-- The loop over the filters
abbrev pub compose_filters : Option ℕ → List FilterSlot → Composing → Result Composing ComposeError
compose_filters row_cap [] s = ok s
compose_filters row_cap (filter ∷ rest) s = check_expr filter.expr >>= λ _.
    compose_operators row_cap filter filter.operators s >>= λ t. compose_filters row_cap rest t

-- `DatasetKnowledge::order_by_expr`
unfoldable pub order_by_expr : DatasetKnowledge → String → Option String
order_by_expr dataset id =
    elim (find (λ (option : OrderByOption). option.id == id) dataset.order_by) [
      | none ↦ none
      | some option ↦ some option.expr
    ]

abbrev pub order_by_clause : DatasetKnowledge → Option String → Result (List SqlPiece) ComposeError
order_by_clause dataset none = ok []
order_by_clause dataset (some id) = ok_or unknown_order_by (order_by_expr dataset id) >>= λ expr.
    check_expr expr >>= λ _. ok (template "\nORDER BY " ∷ expression expr ∷ [])

abbrev pub is_none : {A : Type 0} → Option A → Bool
is_none none = true
is_none (some a) = false

-- `ShapeOption::parameters`
unfoldable pub shape_parameters : ShapeOption → DatasetKnowledge → List QueryParameter
shape_parameters s dataset = if is_empty s.parameters then dataset.parameters else s.parameters

abbrev pub statement : String → List SqlPiece → String → List SqlPiece → List SqlPiece
statement source predicates fragment order =
    template "WITH source AS (\n"
    ∷ authored source
    ∷ template "\n),\nbase AS (\n  SELECT *\n  FROM source\n  WHERE TRUE"
    ∷ (predicates ++ (template "\n)\n" ∷ authored fragment ∷ order))

abbrev pub start : ShapeOption → DatasetKnowledge → Composing
start s dataset = record { last = length (shape_parameters s dataset); predicates = []; binds = [] }

-- What follows the early return for a dataset whose source is a whole statement
abbrev pub compose_parts :
    DatasetKnowledge
    → ShapeOption
    → Option String
    → String
    → String
    → Result ComposedSql ComposeError
compose_parts dataset s order_by_id source fragment =
    compose_filters s.row_cap dataset.filters (start s dataset) >>= λ composing.
    order_by_clause dataset order_by_id >>= λ order. ok (record {
      sql = statement source composing.predicates fragment order;
      filter_binds = composing.binds;
    })

unfoldable pub compose :
    DatasetKnowledge
    → String
    → Option String
    → String
    → Option String
    → Result ComposedSql ComposeError
unfolding shape predicate shape_parameters order_by_expr
compose dataset shape_id order_by_id source fragment =
    ok_or unknown_shape (shape dataset shape_id) >>= λ s.
    (if is_none s.fragment && is_empty dataset.filters && is_none order_by_id
      then ok (record { sql = authored source ∷ []; filter_binds = [] })
      else ok_or requires_fragment fragment >>= λ f. compose_parts dataset s order_by_id source f)
