-- ===== src/Workflow/Redaction/Laws.antt =====
-- A redacted output holds none of the sensitive keys at any depth, and keeps everything else.
use fineract_ai_reports.Prelude.{
  nat_eq, string_eq, ◌∈◌, contains, int_eq, String, ◌≡◌, refl, Bool, true, ◌&&◌, not, List, [], ◌∷◌,
  arith, if◌then◌else◌, Bool-cases, ◌==◌, ==_refl, is_empty, inl, inr, false, Option, none, some,
}
use fineract_ai_reports.Json.{
  Json, null, bool, integer, float, text, array, object, Items, nil, cons, Fields, end, field,
  remove_field, remove_fields, get_field, get,
}
use fineract_ai_reports.Json.Keys.{has_key, has_key-remove_fields, get_field-remove_fields}
use fineract_ai_reports.Workflow.Contract.{node_id_eq, exact_sensitive_input, NodeInput}
use fineract_ai_reports.Workflow.Redaction.{
  redact_fields, redact_items, redact_values, sensitive_fields, is_exact_sensitive,
  persisted_output,
}

-- No object in the value, at any depth, has the key `k`.
unfoldable mutual
  pub is_clean : String → Json → Bool
  is_clean k (object fields) = not (has_key fields k) && clean_fields k fields
  is_clean k (array items) = clean_items k items
  is_clean k null = true
  is_clean k (bool b) = true
  is_clean k (integer n) = true
  is_clean k (float f) = true
  is_clean k (text s) = true

  pub clean_items : String → Items → Bool
  clean_items k nil = true
  clean_items k (cons v rest) = is_clean k v && clean_items k rest

  pub clean_fields : String → Fields → Bool
  clean_fields k end = true
  clean_fields k (field j v rest) = is_clean k v && clean_fields k rest

clean_fields-remove_field :
    (k j : String) (fields : Fields)
    → clean_fields k fields ≡ true
    → clean_fields k (remove_field fields j) ≡ true
unfolding clean_fields
clean_fields-remove_field k j end h = refl
clean_fields-remove_field k j (field i v rest) h =
    ground (arith, clean_fields-remove_field k j rest)

clean_fields-remove_fields :
    (k : String) (js : List String) (fields : Fields)
    → clean_fields k fields ≡ true
    → clean_fields k (remove_fields fields js) ≡ true
clean_fields-remove_fields k [] fields h = h
clean_fields-remove_fields k (j ∷ js) fields h =
    clean_fields-remove_fields k js (remove_field fields j) (clean_fields-remove_field k j fields h)

mutual
  unfolding is_clean clean_items clean_fields redact_fields redact_items redact_values

  redact_fields_clean :
      (keys : List String) (k : String) (v : Json)
      → contains keys k ≡ true
      → is_clean k (redact_fields keys v) ≡ true
  redact_fields_clean keys k (object fields) h = ground (
    arith,
    has_key-remove_fields keys (redact_values keys fields) k,
    clean_fields-remove_fields k keys (redact_values keys fields),
    redact_values_clean keys k fields h,
  )
  redact_fields_clean keys k (array items) h = redact_items_clean keys k items h
  redact_fields_clean keys k null h = refl
  redact_fields_clean keys k (bool b) h = refl
  redact_fields_clean keys k (integer n) h = refl
  redact_fields_clean keys k (float f) h = refl
  redact_fields_clean keys k (text s) h = refl

  redact_items_clean :
      (keys : List String) (k : String) (items : Items)
      → contains keys k ≡ true
      → clean_items k (redact_items keys items) ≡ true
  redact_items_clean keys k nil h = refl
  redact_items_clean keys k (cons v rest) h =
      ground (arith, redact_fields_clean keys k v h, redact_items_clean keys k rest h)

  redact_values_clean :
      (keys : List String) (k : String) (fields : Fields)
      → contains keys k ≡ true
      → clean_fields k (redact_values keys fields) ≡ true
  redact_values_clean keys k end h = refl
  redact_values_clean keys k (field j v rest) h =
      ground (arith, redact_fields_clean keys k v h, redact_values_clean keys k rest h)

contains-sensitive_fields :
    (inputs : List NodeInput) (i : NodeInput)
    → i ∈ inputs
    → i.source ≡ exact_sensitive_input
    → contains (sensitive_fields inputs) i.parameter ≡ true
contains-sensitive_fields [] i m s = absurd m
contains-sensitive_fields (j ∷ rest) i (inl e) s =
    let s' : is_exact_sensitive j.source ≡ true = rw (← e, s) in
    rw (s', e) (rw (==_refl j.parameter))
contains-sensitive_fields (j ∷ rest) i (inr m) s =
    ground (arith, contains-sensitive_fields rest i m s)

-- Whatever a node returns, no object of its durable output, at any depth, has a key that is the
-- parameter of one of the node's exact sensitive inputs.
pub persisted_output_clean :
    (inputs : List NodeInput) (i : NodeInput) (output : Json)
    → i ∈ inputs
    → i.source ≡ exact_sensitive_input
    → is_clean i.parameter (persisted_output inputs output) ≡ true
unfolding persisted_output
persisted_output_clean inputs i output m s =
    let h = contains-sensitive_fields inputs i m s in
    ground (arith, redact_fields_clean (sensitive_fields inputs) i.parameter output h)

abbrev pub redact_option : List String → Option Json → Option Json
redact_option keys none = none
redact_option keys (some v) = some (redact_fields keys v)

get_field-redact_values :
    (keys : List String) (fields : Fields) (k : String)
    → get_field (redact_values keys fields) k ≡ redact_option keys (get_field fields k)
unfolding redact_values
get_field-redact_values keys end k = refl
get_field-redact_values keys (field j v rest) k = elim (Bool-cases (j == k)) [
  | inl t ↦ rw t
  | inr f ↦ rw f (get_field-redact_values keys rest k)
]

-- A field that no sensitive input names is still there, with its own nested values redacted.
pub get-persisted_output :
    (inputs : List NodeInput) (fields : Fields) (k : String)
    → contains (sensitive_fields inputs) k ≡ false
    → get (persisted_output inputs (object fields)) k ≡ (
        if is_empty (sensitive_fields inputs)
        then get_field fields k
        else redact_option (sensitive_fields inputs) (get_field fields k))
unfolding persisted_output redact_fields
get-persisted_output inputs fields k h = ground (
  arith,
  get_field-remove_fields (sensitive_fields inputs) (redact_values (sensitive_fields inputs) fields)
      k,
  get_field-redact_values (sensitive_fields inputs) fields k,
)
