-- ===== src/Facts.antt =====
-- Facts about a request: crates/chat/src/assistant/context/canonical_state/contracts.rs and merge.rs.
-- A `BTreeMap` is the list of its entries, read and written by key. Ids and instants are numbers; a
-- date, an amount or a domain that is only copied and compared is a string.
pub mod Ordered
pub mod Merged
pub mod Filtered
pub mod Advisory
pub mod Accepted
use fineract_ai_reports.Prelude.{
  ltb, leb, nat_beq, if◌then◌else◌, string_eq, nat_eq, filter, contains, Result, ok, err, ℤ, pos,
  int_eq, ℕ, ◌^◌, String, Bool, true, false, ◌&&◌, not, Option, none, some, List, [], ◌∷◌, ◌++◌,
}
use fineract_ai_reports.Knowledge.{
  parameter_type_eq, ConstraintField, limit_mode, limit_value, from_date, to_date, currency_code,
  metric, transaction_amount, domain, person_name, client_id, office, product, product_ids,
  office_ids, charge_type, account_number,
}

pub data LimitMode : Type 0 where
  mode_all mode_default mode_limit mode_top_n : LimitMode

pub data ListPatch : Type 0 where
  replace_ids : List ℤ → ListPatch
  add_ids : List ℤ → ListPatch
  remove_ids : List ℤ → ListPatch

pub data TypedFactValue : Type 0 where
  clear_value : TypedFactValue
  limit_mode_value : LimitMode → TypedFactValue
  integer_value : ℤ → TypedFactValue
  date_value currency_code_value metric_value decimal_value domain_value : String → TypedFactValue
  person_name_value : String → TypedFactValue
  client_id_value : ℤ → TypedFactValue
  office_value product_value charge_type_value account_number_value : String → TypedFactValue
  id_list_value : ListPatch → TypedFactValue

pub data FactSourceKind : Type 0 where
  original_request clarification deterministic_resolver approved_default : FactSourceKind
  llm_advisory : FactSourceKind

-- An `f32`: a finite one is a multiple of 2 ^ -149.
pub data Confidence : Type 0 where
  not_a_number infinite : Confidence
  finite : ℤ → Confidence

abbrev pub is_confidence : Confidence → Bool
is_confidence (finite (pos n)) = leb n (2 ^ 149)
is_confidence _ = false

pub record FactObservation : Type 0 where
  pub id : ℕ
  pub job_id : ℕ
  pub sequence : ℤ  -- i64
  pub source_kind : FactSourceKind
  pub source_id : String
  pub field_path : ConstraintField
  pub typed_value : TypedFactValue
  pub confidence : Option Confidence
  pub extractor_version : String
  pub observed_at : ℕ

pub record ConstraintContract : Type 0 where
  pub clearable : Bool
  pub list : Bool

abbrev pub Entries : Type 0 → Type 0
Entries A = List (ConstraintField × A)

pub record EffectiveConstraints : Type 0 where
  pub id : ℕ
  pub job_id : ℕ
  pub revision : ℤ
  pub schema_version : ℕ
  pub values : Entries TypedFactValue
  pub winning_observation_ids : Entries ℕ
  pub created_at : ℕ

pub data MergeError : Type 0 where
  job_mismatch invalid_confidence : MergeError
  missing_contract invalid_value clear_rejected conflicting_replay : ConstraintField → MergeError

-- Where a field stands in `ConstraintField`, whose order is derived.
abbrev pub field_index : ConstraintField → ℕ
field_index limit_mode = 0
field_index limit_value = 1
field_index from_date = 2
field_index to_date = 3
field_index currency_code = 4
field_index metric = 5
field_index transaction_amount = 6
field_index domain = 7
field_index person_name = 8
field_index client_id = 9
field_index office = 10
field_index product = 11
field_index product_ids = 12
field_index office_ids = 13
field_index charge_type = 14
field_index account_number = 15

abbrev pub field_beq : ConstraintField → ConstraintField → Bool
field_beq a b = nat_beq (field_index a) (field_index b)

-- `get`, `insert` and `remove` of a map that is ordered by its keys.
abbrev pub lookup : {A : Type 0} → Entries A → ConstraintField → Option A
lookup [] k = none
lookup ((j, v) ∷ rest) k = if field_beq j k then some v else lookup rest k

abbrev pub insert_entry : {A : Type 0} → Entries A → ConstraintField → A → Entries A
insert_entry [] k v = (k, v) ∷ []
insert_entry ((j, w) ∷ rest) k v =
    let later = (j, w) ∷ insert_entry rest k v in
    if field_beq j k
    then (k, v) ∷ rest
    else if ltb (field_index k) (field_index j)
    then (k, v) ∷ (j, w) ∷ rest
    else later

abbrev pub remove_entry : {A : Type 0} → Entries A → ConstraintField → Entries A
remove_entry [] k = []
remove_entry ((j, w) ∷ rest) k =
    let others = remove_entry rest k in if field_beq j k then others else (j, w) ∷ others

abbrev pub rank : FactSourceKind → ℕ
rank llm_advisory = 0
rank approved_default = 1
rank deterministic_resolver = 2
rank original_request = 3
rank clarification = 4

-- Which values a field takes, apart from `Clear`.
abbrev pub fits : ConstraintField → TypedFactValue → Bool
fits limit_mode (limit_mode_value m) = true
fits limit_value (integer_value n) = true
fits from_date (date_value d) = true
fits to_date (date_value d) = true
fits currency_code (currency_code_value c) = true
fits metric (metric_value m) = true
fits transaction_amount (decimal_value d) = true
fits domain (domain_value d) = true
fits person_name (person_name_value p) = true
fits office (office_value o) = true
fits product (product_value p) = true
fits product_ids (id_list_value p) = true
fits office_ids (id_list_value p) = true
fits _ _ = false

abbrev pub is_id_list : TypedFactValue → Bool
is_id_list (id_list_value patch) = true
is_id_list _ = false

abbrev pub bool_beq : Bool → Bool → Bool
bool_beq true b = b
bool_beq false b = not b

abbrev pub is_clear : TypedFactValue → Bool
is_clear clear_value = true
is_clear _ = false

-- `validate`
unfoldable pub validate_fact :
    ConstraintField → TypedFactValue → ConstraintContract → Result (Unit {0}) MergeError
validate_fact field value contract =
    if is_clear value
    then (if contract.clearable then ok tt else err (clear_rejected field))
    else if fits field value && bool_beq contract.list (is_id_list value)
    then ok tt
    else err (invalid_value field)

-- The ids that a list patch is applied to, and the patch
abbrev pub listed : Option TypedFactValue → List ℤ
listed (some (id_list_value (replace_ids ids))) = ids
listed _ = []

abbrev pub push_new : List ℤ → List ℤ → List ℤ
push_new ids [] = ids
push_new ids (id ∷ rest) = push_new (if contains ids id then ids else ids ++ id ∷ []) rest

abbrev pub patched : List ℤ → ListPatch → List ℤ
patched ids (replace_ids new) = new
patched ids (add_ids new) = push_new ids new
patched ids (remove_ids old) = filter (λ id. not (contains old id)) ids

-- `apply`
unfoldable pub apply_fact :
    Entries TypedFactValue → ConstraintField → TypedFactValue → Entries TypedFactValue
apply_fact values field clear_value = remove_entry values field
apply_fact values field (id_list_value patch) =
    insert_entry values field
      (id_list_value (replace_ids (patched (listed (lookup values field)) patch)))
apply_fact values field value = insert_entry values field value

abbrev contract_for : ConstraintField → Bool → Bool → ConstraintField × ConstraintContract
contract_for field clearable list = (field, record { clearable = clearable; list = list })

unfoldable pub executable_constraint_contracts : Entries ConstraintContract
executable_constraint_contracts =
    contract_for limit_mode false false
    ∷ contract_for limit_value true false
    ∷ contract_for from_date true false
    ∷ contract_for to_date true false
    ∷ contract_for currency_code true false
    ∷ contract_for metric true false
    ∷ contract_for transaction_amount true false
    ∷ contract_for domain false false
    ∷ contract_for person_name true false
    ∷ contract_for office true false
    ∷ contract_for product true false
    ∷ contract_for product_ids true true
    ∷ contract_for office_ids true true
    ∷ contract_for charge_type true false
    ∷ contract_for account_number true false
    ∷ []
