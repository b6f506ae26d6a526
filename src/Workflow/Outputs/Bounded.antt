-- ===== src/Workflow/Outputs/Bounded.antt =====
-- SQL is found wherever it stands, and typed outputs are within the node's row cap.
use fineract_ai_reports.Prelude.{
  string_eq, nat_eq, int_eq, String, ◌≡◌, refl, true, arith, ltb, Bool-cases, Option-cases, ==_refl,
  ok, ℤ, pos, ℕ, ◌^◌, ◌≤◌, ◌<◌, ◌↔◌, inl, inr, some, List, [], ◌∷◌, ◌++◌,
}
use fineract_ai_reports.Json.{
  Json, text, array, object, Items, cons, Fields, field, null, bool, integer, float, nil, end, get,
  as_array, count_items, and_then,
}
use fineract_ai_reports.Workflow.Ledger.{
  WorkflowNodeRun, completed_run, completes, count_cardinality, cardinality_for,
}
use fineract_ai_reports.Workflow.Ledger.Decisions.{find_last-snoc}
use fineract_ai_reports.Workflow.Outputs.{
  reads_as_sql, contains_sql, any_item_sql, any_field_sql, typed_query_output,
  typed_resolver_output,
}

mutual
  -- A string value that stands somewhere in a JSON value; the keys of objects do not count.
  pub data Occurs (s : String) : Json → Type 0 where
    here : Occurs s (text s)
    in_array : {items : Items} → OccursInItems s items → Occurs s (array items)
    in_object : {fields : Fields} → OccursInFields s fields → Occurs s (object fields)

  pub data OccursInItems (s : String) : Items → Type 0 where
    item_here : {v : Json} {rest : Items} → Occurs s v → OccursInItems s (cons v rest)
    item_later : {v : Json} {rest : Items} → OccursInItems s rest → OccursInItems s (cons v rest)

  pub data OccursInFields (s : String) : Fields → Type 0 where
    field_here :
        {k : String} {v : Json} {rest : Fields} → Occurs s v → OccursInFields s (field k v rest)
    field_later :
        {k : String} {v : Json} {rest : Fields}
        → OccursInFields s rest
        → OccursInFields s (field k v rest)

mutual
  unfolding contains_sql

  contains_sql← :
      (s : String) (v : Json) → Occurs s v → reads_as_sql s ≡ true → contains_sql v ≡ true
  contains_sql← s (text t) here h = h
  contains_sql← s (array items) (in_array o) h = any_item_sql← s items o h
  contains_sql← s (object fields) (in_object o) h = any_field_sql← s fields o h
  contains_sql← s null o h = elim o [ ]
  contains_sql← s (bool b) o h = elim o [ ]
  contains_sql← s (integer n) o h = elim o [ ]
  contains_sql← s (float f) o h = elim o [ ]

  any_item_sql← :
      (s : String) (items : Items)
      → OccursInItems s items
      → reads_as_sql s ≡ true
      → any_item_sql items ≡ true
  any_item_sql← s nil o h = elim o [ ]
  any_item_sql← s (cons v rest) (item_here o) h = rw (contains_sql← s v o h) refl
  any_item_sql← s (cons v rest) (item_later o) h = ground (arith, any_item_sql← s rest o h)

  any_field_sql← :
      (s : String) (fields : Fields)
      → OccursInFields s fields
      → reads_as_sql s ≡ true
      → any_field_sql fields ≡ true
  any_field_sql← s end o h = elim o [ ]
  any_field_sql← s (field k v rest) (field_here o) h = rw (contains_sql← s v o h) refl
  any_field_sql← s (field k v rest) (field_later o) h = ground (arith, any_field_sql← s rest o h)

abbrev Found : (String → Type 0) → Type 0
Found P = (s : String) × P s × (reads_as_sql s ≡ true)

mutual
  unfolding contains_sql

  contains_sql→ : (v : Json) → contains_sql v ≡ true → Found (λ s. Occurs s v)
  contains_sql→ (text t) h = (t, here, h)
  contains_sql→ (array items) h = let (s, o, k) = any_item_sql→ items h in (s, in_array o, k)
  contains_sql→ (object fields) h = let (s, o, k) = any_field_sql→ fields h in (s, in_object o, k)
  contains_sql→ null h = cc
  contains_sql→ (bool b) h = cc
  contains_sql→ (integer n) h = cc
  contains_sql→ (float f) h = cc

  any_item_sql→ : (items : Items) → any_item_sql items ≡ true → Found (λ s. OccursInItems s items)
  any_item_sql→ nil h = cc
  any_item_sql→ (cons v rest) h = elim (Bool-cases (contains_sql v)) [
    | inl t ↦ let (s, o, k) = contains_sql→ v t in (s, item_here o, k)
    | inr f ↦ let (s, o, k) = any_item_sql→ rest (rw f at h) in (s, item_later o, k)
  ]

  any_field_sql→ :
      (fields : Fields) → any_field_sql fields ≡ true → Found (λ s. OccursInFields s fields)
  any_field_sql→ end h = cc
  any_field_sql→ (field k v rest) h = elim (Bool-cases (contains_sql v)) [
    | inl t ↦ let (s, o, r) = contains_sql→ v t in (s, field_here o, r)
    | inr f ↦ let (s, o, r) = any_field_sql→ rest (rw f at h) in (s, field_later o, r)
  ]

-- The search that refuses a proposal finds SQL in a JSON value exactly if one of its string values,
-- at any depth, reads as SQL: it has one of the needles, in any case.
pub contains_sql_exact :
    (v : Json) → (contains_sql v ≡ true) ↔ ((s : String) × Occurs s v × (reads_as_sql s ≡ true))
contains_sql_exact v = (contains_sql→ v, λ found. let (s, o, h) = found in contains_sql← s v o h)

-- A query output that is accepted is the result itself, and has a list of at most as many rows as
-- the node may return.
pub typed_query_output_bounded :
    (result output : Json) (row_cap : ℕ)
    → typed_query_output result row_cap ≡ ok output
    → (output ≡ result)
      × ((rows : Items) × (and_then (get result "rows") as_array ≡ some rows)
          × (count_items rows ≤ row_cap))
unfolding typed_query_output
typed_query_output_bounded result output row_cap h =
    elim (Option-cases (and_then (get result "rows") as_array)) [
      | inl missing ↦ cc (rw missing at h)
      | inr (rows, found) ↦ elim (Bool-cases (ltb row_cap (count_items rows))) [
        | inl over ↦ cc (rw (found, over) at h)
        | inr within ↦
            let e : ok result ≡ ok output = rw (found, within) at h in
            (cc, (rows, found, ground arith))
      ]
    ]

-- Once a resolver's output is the output of its node's last completed run, a branch on that node
-- decides by the number of resolved rows, whatever the run's own row count says; the row cap being
-- one of 32 bits.
pub cardinality_for-typed_resolver_output :
    (runs : List WorkflowNodeRun) (run : WorkflowNodeRun) (duration returned : ℤ) (rows : Items)
    (row_cap : ℕ) (output : Json)
    → row_cap < 2 ^ 32
    → typed_resolver_output rows row_cap ≡ ok output
    → cardinality_for (runs ++ completed_run run duration output returned ∷ []) run.node_id
      ≡ count_cardinality (pos (count_items rows))
unfolding typed_resolver_output cardinality_for completed_run
cardinality_for-typed_resolver_output runs run duration returned rows row_cap output small h =
    elim (Bool-cases (ltb row_cap (count_items rows))) [
      | inl over ↦ cc (rw over at h)
      | inr within ↦
          let fits : ltb (count_items rows) (2 ^ 63) ≡ true = ground arith in
          let e : object (
                field "row_count" (integer (pos (count_items rows)))
                  (field "rows" (array rows) end))
              ≡ output =
            cc (rw within at h) in
          rw
            (find_last-snoc (completes run.node_id) runs
              (completed_run run duration output returned) (rw (==_refl run.node_id)))
            (rw (← e) (rw fits refl))
    ]
