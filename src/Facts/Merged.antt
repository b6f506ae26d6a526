-- ===== src/Facts/Merged.antt =====
-- `merge_observations` of merge.rs: the facts of a request, the strongest source last.
use fineract_ai_reports.Prelude.{
  nat_beq, if◌then◌else◌, ◌==◌, string_eq, nat_eq, find, Result, ok, err, ok_or, ◌>>=◌, ℤ, int_eq,
  max, ℕ, String, ◌≡◌, refl, Bool, true, false, ◌&&◌, not, Option, none, some, List, [], ◌∷◌,
}
use fineract_ai_reports.Knowledge.{parameter_type_eq, ConstraintField}
use fineract_ai_reports.Facts.{
  LimitMode, mode_all, mode_default, mode_limit, mode_top_n, ListPatch, replace_ids, add_ids,
  remove_ids, TypedFactValue, clear_value, limit_mode_value, integer_value, date_value,
  currency_code_value, metric_value, decimal_value, domain_value, person_name_value,
  client_id_value, office_value, product_value, charge_type_value, account_number_value,
  id_list_value, FactSourceKind, Confidence, is_confidence, FactObservation, ConstraintContract,
  Entries, EffectiveConstraints, MergeError, job_mismatch, invalid_confidence, missing_contract,
  conflicting_replay, field_beq, lookup, insert_entry, rank, validate_fact, apply_fact,
}
use fineract_ai_reports.Facts.Ordered.{ordered, Reorders, ordered-Reorders}

abbrev pub mode_beq : LimitMode → LimitMode → Bool
mode_beq mode_all mode_all = true
mode_beq mode_default mode_default = true
mode_beq mode_limit mode_limit = true
mode_beq mode_top_n mode_top_n = true
mode_beq _ _ = false

abbrev pub ids_beq : List ℤ → List ℤ → Bool
ids_beq [] [] = true
ids_beq (a ∷ xs) (b ∷ ys) = (a == b) && ids_beq xs ys
ids_beq _ _ = false

abbrev pub patch_beq : ListPatch → ListPatch → Bool
patch_beq (replace_ids a) (replace_ids b) = ids_beq a b
patch_beq (add_ids a) (add_ids b) = ids_beq a b
patch_beq (remove_ids a) (remove_ids b) = ids_beq a b
patch_beq _ _ = false

abbrev pub value_beq : TypedFactValue → TypedFactValue → Bool
value_beq clear_value clear_value = true
value_beq (limit_mode_value a) (limit_mode_value b) = mode_beq a b
value_beq (integer_value a) (integer_value b) = a == b
value_beq (date_value a) (date_value b) = a == b
value_beq (currency_code_value a) (currency_code_value b) = a == b
value_beq (metric_value a) (metric_value b) = a == b
value_beq (decimal_value a) (decimal_value b) = a == b
value_beq (domain_value a) (domain_value b) = a == b
value_beq (person_name_value a) (person_name_value b) = a == b
value_beq (client_id_value a) (client_id_value b) = a == b
value_beq (office_value a) (office_value b) = a == b
value_beq (product_value a) (product_value b) = a == b
value_beq (charge_type_value a) (charge_type_value b) = a == b
value_beq (account_number_value a) (account_number_value b) = a == b
value_beq (id_list_value a) (id_list_value b) = patch_beq a b
value_beq _ _ = false

-- A key of `seen` and its value; the rank tells the source kinds apart.
pub record SeenFact : Type 0 where
  pub kind : FactSourceKind
  pub source : String
  pub field : ConstraintField
  pub value : TypedFactValue

abbrev pub is_seen : FactObservation → SeenFact → Bool
is_seen o s =
    nat_beq (rank s.kind) (rank o.source_kind)
    && (s.source == o.source_id)
    && field_beq s.field o.field_path

abbrev pub seen_as : FactObservation → SeenFact
seen_as o = record {
  kind = o.source_kind;
  source = o.source_id;
  field = o.field_path;
  value = o.typed_value;
}

-- The variables of the loop
pub record Merging : Type 0 where
  pub seen : List SeenFact
  pub values : Entries TypedFactValue
  pub winners : Entries ℕ
  pub created_at : ℕ

abbrev pub is_advisory : FactObservation → Bool
is_advisory o = nat_beq (rank o.source_kind) 0

abbrev pub bad_confidence : Option Confidence → Bool
bad_confidence none = false
bad_confidence (some v) = not (is_confidence v)

abbrev pub take_fact : FactObservation → Merging → Merging
take_fact o m = record {
  seen = seen_as o ∷ m.seen;
  values = if is_advisory o then m.values else apply_fact m.values o.field_path o.typed_value;
  winners = if is_advisory o then m.winners else insert_entry m.winners o.field_path o.id;
  created_at = if is_advisory o then m.created_at else max m.created_at o.observed_at;
}

-- What follows the validation; a replay of the same value changes nothing.
abbrev pub take_new : FactObservation → Merging → Option SeenFact → Result Merging MergeError
take_new o m none = ok (take_fact o m)
take_new o m (some old) =
    if value_beq old.value o.typed_value then ok m else err (conflicting_replay o.field_path)

abbrev pub check_fact : FactObservation → Entries ConstraintContract → Result (Unit {0}) MergeError
check_fact o contracts =
    ok_or (missing_contract o.field_path) (lookup contracts o.field_path) >>= λ contract.
    validate_fact o.field_path o.typed_value contract

-- One round of the loop
abbrev pub merge_one :
    ℕ → Entries ConstraintContract → FactObservation → Merging → Result Merging MergeError
merge_one job contracts o m =
    if not (o.job_id == job)
    then err job_mismatch
    else if bad_confidence o.confidence
    then err invalid_confidence
    else check_fact o contracts >>= λ _. take_new o m (find (is_seen o) m.seen)

abbrev pub merge_all :
    ℕ → Entries ConstraintContract → List FactObservation → Merging → Result Merging MergeError
merge_all job contracts [] m = ok m
merge_all job contracts (o ∷ os) m =
    merge_one job contracts o m >>= λ next. merge_all job contracts os next

abbrev pub merge_start : Merging
merge_start = record { seen = []; values = []; winners = []; created_at = 0 }

abbrev pub constraints_of : ℕ → ℤ → Merging → EffectiveConstraints
constraints_of job revision m = record {
  id = 0;
  job_id = job;
  revision = revision;
  schema_version = 1;
  values = m.values;
  winning_observation_ids = m.winners;
  created_at = m.created_at;
}

unfoldable pub merge_observations :
    ℕ
    → ℤ
    → List FactObservation
    → Entries ConstraintContract
    → Result EffectiveConstraints MergeError
unfolding ordered validate_fact apply_fact
merge_observations job revision observations contracts =
    merge_all job contracts (ordered observations) merge_start >>= λ m.
    ok (constraints_of job revision m)

-- The merge does not depend on the order in which observations with different ids arrive, nor does
-- the error that it reports.
pub merge_observations-Reorders :
    (job : ℕ) (revision : ℤ) (contracts : Entries ConstraintContract) (xs ys : List FactObservation)
    → Reorders xs ys
    → merge_observations job revision xs contracts ≡ merge_observations job revision ys contracts
unfolding merge_observations
merge_observations-Reorders job revision contracts xs ys r = rw (ordered-Reorders xs ys r) refl
