-- ===== src/Dataset/Compose/Branches.antt =====
-- The two ways in which a statement is composed.
use fineract_ai_reports.Prelude.{
  Bool-cases, Option-cases, string_eq, nat_eq, is_empty, ok, ok_or, >>=-eq-ok, int_eq, String, ◌≡◌,
  refl, ◌⊎◌, inl, inr, true, ◌&&◌, Option, some, List, [], ◌∷◌, arith,
}
use fineract_ai_reports.Knowledge.{
  parameter_type_eq, operator_eq, ShapeOption, DatasetKnowledge, shape,
}
use fineract_ai_reports.Dataset.Compose.{
  SqlPiece, authored, ComposedSql, unknown_shape, requires_fragment, Composing, compose_filters,
  order_by_clause, is_none, statement, start, compose,
}

pub ok_or-eq-ok : {T E : Type 0} (e : E) (o : Option T) {v : T} → ok_or e o ≡ ok v → o ≡ some v
ok_or-eq-ok e o h = elim (Option-cases o) [
  | inl missing ↦ cc (rw missing at h)
  | inr (w, given) ↦ cc (rw given at h)
]

-- The source as it stands, for a dataset without filters
pub record IsWhole (dataset : DatasetKnowledge) (source : String) (composed : ComposedSql)
    : Type 0 where
  pub unfiltered : dataset.filters ≡ []
  pub verbatim : record { sql = authored source ∷ []; filter_binds = [] } ≡ composed

pub record IsJoined (dataset : DatasetKnowledge) (s : ShapeOption) (order_by_id : Option String)
    (source : String) (fragment : Option String) (composed : ComposedSql) : Type 0 where
  pub composing : Composing
  pub order : List SqlPiece
  pub text : String
  pub given : fragment ≡ some text
  pub filtered : compose_filters s.row_cap dataset.filters (start s dataset) ≡ ok composing
  pub ordered_by : order_by_clause dataset order_by_id ≡ ok order
  pub joined :
      record {
        sql = statement source composing.predicates text order;
        filter_binds = composing.binds;
      }
      ≡ composed

is_empty→ : {A : Type 0} (xs : List A) → is_empty xs ≡ true → xs ≡ []
is_empty→ [] h = refl
is_empty→ (x ∷ xs) h = cc

pub compose-cases :
    (dataset : DatasetKnowledge) (shape_id : String) (order_by_id : Option String) (source : String)
    (fragment : Option String) (composed : ComposedSql)
    → compose dataset shape_id order_by_id source fragment ≡ ok composed
    → (s : ShapeOption) × (shape dataset shape_id ≡ some s)
      × (IsWhole dataset source composed ⊎ IsJoined dataset s order_by_id source fragment composed)
unfolding compose
compose-cases dataset shape_id order_by_id source fragment composed h =
    let (s, found, f) = >>=-eq-ok (ok_or unknown_shape (shape dataset shape_id)) _ h in
    (
      s,
      ok_or-eq-ok unknown_shape (shape dataset shape_id) found,
      elim (Bool-cases (is_none s.fragment && is_empty dataset.filters && is_none order_by_id)) [
        | inl whole ↦ inl (record {
          unfiltered = is_empty→ dataset.filters (ground arith);
          verbatim = cc (rw whole at f);
        })
        | inr parts ↦
            let (text, given, g) = >>=-eq-ok (ok_or requires_fragment fragment) _ (rw parts at f) in
            let (t, e, k) =
              >>=-eq-ok (compose_filters s.row_cap dataset.filters (start s dataset)) _ g in
            let (order, l, m) = >>=-eq-ok (order_by_clause dataset order_by_id) _ k in
            inr (record {
              composing = t;
              order = order;
              text = text;
              given = ok_or-eq-ok requires_fragment fragment given;
              filtered = e;
              ordered_by = l;
              joined = cc m;
            })
      ],
    )
