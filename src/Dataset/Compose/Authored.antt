-- ===== src/Dataset/Compose/Authored.antt =====
-- Where each piece of a composed statement comes from.
use fineract_ai_reports.Prelude.{
  nat_beq, ◌==◌, string_eq, nat_eq, any, All, any-append, ok, Result-cases, codes, int_eq, ℕ, ◌+◌,
  String, ◌≡◌, refl, ◌⊎◌, inl, inr, Bool, true, ◌&&◌, ◌||◌, Option, some, List, [], ◌∷◌, ◌++◌,
  Bool-cases, filter, All-append, ok_or, >>=-eq-ok, not, none, arith, sym,
}
use fineract_ai_reports.Knowledge.{
  parameter_type_eq, FilterOperator, equal, in_list, less, less_equal, greater, greater_equal,
  between, operator_eq, FilterSlot, DatasetKnowledge,
}
use fineract_ai_reports.Dataset.Grammar.{validate_sql_expr}
use fineract_ai_reports.Dataset.Compose.Branches.{compose-cases, ok_or-eq-ok}
use fineract_ai_reports.Dataset.Compose.Texts.{is_fixed_text, is_fixed_text-filter_cast}
use fineract_ai_reports.Dataset.Compose.{
  SqlPiece, template, authored, expression, placeholder, FilterBind, operator_predicate, predicate,
  check_expr, ComposedSql, unknown_order_by, unsupported_filter_type, filter_cast, lower_equality,
  max_array_len_of, Composing, compose_operators, compose_filters, order_by_expr, order_by_clause,
  compose, statement, start, as_sql,
}

-- The placeholders of a bind: its own, and the next one where it is a range.

abbrev pub takes : ℕ → FilterBind → Bool
takes n b = nat_beq n b.placeholder || (b.operator == between) && nat_beq n (b.placeholder + 1)

-- A piece is one of the fixed texts of the composer, a whole authored file, an accepted expression, or a
-- placeholder of one of the binds.
abbrev pub ComesFrom : String → Option String → List FilterBind → SqlPiece → Type 0
ComesFrom source fragment binds (template t) = is_fixed_text t ≡ true
ComesFrom source fragment binds (authored t) = (t ≡ source) ⊎ (some t ≡ fragment)
ComesFrom source fragment binds (expression e) = validate_sql_expr (codes e) ≡ ok tt
ComesFrom source fragment binds (placeholder n) = any (takes n) binds ≡ true

check_expr-ok :
    (e : String) {u : Unit {0}} → check_expr e ≡ ok u → validate_sql_expr (codes e) ≡ ok tt
check_expr-ok e h = elim (Result-cases (validate_sql_expr (codes e))) [
  | inl (u, accepted) ↦ accepted
  | inr (reason, refused) ↦ cc (rw (refused, check_expr) at h)
]

module _ (source : String) (fragment : Option String) where
  abbrev From : List FilterBind → List SqlPiece → Type 0
  From binds pieces = All (ComesFrom source fragment binds) pieces

  ComesFrom-append :
      (binds more : List FilterBind) (p : SqlPiece)
      → ComesFrom source fragment binds p
      → ComesFrom source fragment (binds ++ more) p
  ComesFrom-append binds more (template t) h = h
  ComesFrom-append binds more (authored t) h = h
  ComesFrom-append binds more (expression e) h = h
  ComesFrom-append binds more (placeholder n) h = rw (any-append (takes n) binds more, h)

  From-append :
      (binds more : List FilterBind) (pieces : List SqlPiece)
      → From binds pieces
      → From (binds ++ more) pieces
  From-append binds more [] h = tt
  From-append binds more (p ∷ ps) h =
      (ComesFrom-append binds more p h.0, From-append binds more ps h.1)

  module _ (binds : List FilterBind) (expr cast : String) (n : ℕ) where
    operator_predicate-From :
        (operator : FilterOperator)
        → is_fixed_text cast ≡ true
        → validate_sql_expr (codes expr) ≡ ok tt
        → any (takes n) binds ≡ true
        → ((operator ≡ between) → any (takes (n + 1)) binds ≡ true)
        → From binds (operator_predicate expr operator cast n)
    unfolding as_sql
    operator_predicate-From equal c h k l = search (h, k, c, tt)
    operator_predicate-From in_list c h k l = search (h, k, c, tt)
    operator_predicate-From less c h k l = search (h, k, c, tt)
    operator_predicate-From less_equal c h k l = search (h, k, c, tt)
    operator_predicate-From greater c h k l = search (h, k, c, tt)
    operator_predicate-From greater_equal c h k l = search (h, k, c, tt)
    operator_predicate-From between c h k l = let next = l refl in search (h, k, c, next, tt)

  predicate-From :
      (binds : List FilterBind) (expr : String) (n : ℕ) (operator : FilterOperator) (kind : String)
      (insensitive : Bool) (pieces : List SqlPiece)
      → validate_sql_expr (codes expr) ≡ ok tt
      → any (takes n) binds ≡ true
      → ((operator ≡ between) → any (takes (n + 1)) binds ≡ true)
      → predicate expr operator kind insensitive n ≡ ok pieces
      → From binds pieces
  unfolding predicate
  predicate-From binds expr n operator kind insensitive pieces h k l e =
      let (cast, known, f) = >>=-eq-ok (ok_or unsupported_filter_type (filter_cast kind)) _ e in
      let c =
        is_fixed_text-filter_cast kind cast
          (ok_or-eq-ok unsupported_filter_type (filter_cast kind) known) in
      elim (Bool-cases insensitive) [
        | inr plain ↦
            let same : operator_predicate expr operator cast n ≡ pieces = cc (rw plain at f) in
            rw (← same) (operator_predicate-From binds expr cast n operator c h k l)
        | inl lower ↦ elim (Bool-cases (not (kind == "string") || not (operator == equal))) [
          | inl misused ↦ cc (rw (lower, misused) at f)
          | inr used ↦
              let same : lower_equality expr cast n ≡ pieces = cc (rw (lower, used) at f) in
              rw (← same) (search (h, k, c, tt))
        ]
      ]

  module _ (row_cap : Option ℕ) where
    bind_of : FilterSlot → FilterOperator → ℕ → FilterBind
    bind_of filter operator last = record {
      filter_id = filter.id;
      operator = operator;
      placeholder = last + 1;
      max_array_len = max_array_len_of operator row_cap;
    }

    takes_first :
        (binds : List FilterBind) (filter : FilterSlot) (operator : FilterOperator) (last : ℕ)
        → any (takes (last + 1)) (binds ++ bind_of filter operator last ∷ []) ≡ true
    unfolding bind_of
    takes_first binds filter operator last =
        rw (any-append (takes (last + 1)) binds (bind_of filter operator last ∷ [])) (ground arith)

    takes_second :
        (binds : List FilterBind) (filter : FilterSlot) (operator : FilterOperator) (last : ℕ)
        → operator ≡ between
        → any (takes (last + 1 + 1)) (binds ++ bind_of filter operator last ∷ []) ≡ true
    unfolding bind_of
    takes_second binds filter operator last range =
        rw (any-append (takes (last + 1 + 1)) binds (bind_of filter operator last ∷ []), range)
          (ground arith)

    compose_operators-From :
        (filter : FilterSlot) (operators : List FilterOperator) (s t : Composing)
        → validate_sql_expr (codes filter.expr) ≡ ok tt
        → From s.binds s.predicates
        → compose_operators row_cap filter operators s ≡ ok t
        → From t.binds t.predicates
    unfolding bind_of
    compose_operators-From filter [] s t valid from h = let same : s ≡ t = cc in rw (← same) from
    compose_operators-From filter (operator ∷ rest) s t valid from h =
        let (pieces, e, f) =
          >>=-eq-ok
            (predicate filter.expr operator filter.kind filter.case_insensitive (s.last + 1)) _ h in
        let new = bind_of filter operator s.last ∷ [] in
        compose_operators-From filter rest _ t valid
          (All-append (ComesFrom source fragment (s.binds ++ new)) s.predicates pieces
            (From-append s.binds new s.predicates from)
            (predicate-From (s.binds ++ new) filter.expr (s.last + 1) operator filter.kind
              filter.case_insensitive pieces valid (takes_first s.binds filter operator s.last)
              (takes_second s.binds filter operator s.last) e))
          f

    compose_filters-From :
        (filters : List FilterSlot) (s t : Composing)
        → From s.binds s.predicates
        → compose_filters row_cap filters s ≡ ok t
        → From t.binds t.predicates
    compose_filters-From [] s t from h = let same : s ≡ t = cc in rw (← same) from
    compose_filters-From (filter ∷ rest) s t from h =
        let (u, valid, f) = >>=-eq-ok (check_expr filter.expr) _ h in
        let (r, e, g) = >>=-eq-ok (compose_operators row_cap filter filter.operators s) _ f in
        compose_filters-From rest r t
          (compose_operators-From filter filter.operators s r (check_expr-ok filter.expr valid) from
            e)
          g

  order_by_clause-From :
      (dataset : DatasetKnowledge) (order_by_id : Option String) (binds : List FilterBind)
      (pieces : List SqlPiece)
      → order_by_clause dataset order_by_id ≡ ok pieces
      → From binds pieces
  order_by_clause-From dataset none binds pieces h = let same : [] ≡ pieces = cc in rw (← same) tt
  order_by_clause-From dataset (some id) binds pieces h =
      let (expr, known, f) = >>=-eq-ok (ok_or unknown_order_by (order_by_expr dataset id)) _ h in
      let (u, valid, g) = >>=-eq-ok (check_expr expr) _ f in
      let same : template "\nORDER BY " ∷ expression expr ∷ [] ≡ pieces = cc in
      rw (← same) (refl, (check_expr-ok expr valid, tt))

  statement-From :
      (binds : List FilterBind) (predicates : List SqlPiece) (text : String) (order : List SqlPiece)
      → some text ≡ fragment
      → From binds predicates
      → From binds order
      → From binds (statement source predicates text order)
  statement-From binds predicates text order e p o = (
    refl,
    (
      inl refl,
      (
        refl,
        All-append (ComesFrom source fragment binds) predicates
            (template "\n)\n" ∷ authored text ∷ order) p (refl, (inr e, o)),
      ),
    ),
  )

-- Each piece of a statement that is composed is one of the fixed texts that the composer writes
-- around what it is given, casts and operators included, the whole source file
-- or the whole fragment, a declared expression that the grammar accepts, or a placeholder that
-- stands for one of the returned binds.
pub compose_authored :
    (dataset : DatasetKnowledge) (shape_id : String) (order_by_id : Option String) (source : String)
    (fragment : Option String) (composed : ComposedSql)
    → compose dataset shape_id order_by_id source fragment ≡ ok composed
    → All (ComesFrom source fragment composed.filter_binds) composed.sql
compose_authored dataset shape_id order_by_id source fragment composed h =
    let (s, found, ways) = compose-cases dataset shape_id order_by_id source fragment composed h in
    elim ways [
      | inl w ↦ rw (← w.verbatim) (inl refl, tt)
      | inr j ↦ rw (← j.joined) (
          statement-From source fragment j.composing.binds j.composing.predicates j.text j.order
            (sym j.given)
            (compose_filters-From source fragment s.row_cap dataset.filters (start s dataset)
              j.composing tt j.filtered)
            (order_by_clause-From source fragment dataset order_by_id j.composing.binds j.order
              j.ordered_by))
    ]
