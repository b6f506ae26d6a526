-- ===== src/Facts/Accepted.antt =====
-- Which values of a field the merge accepts.
use fineract_ai_reports.Prelude.{
  string_eq, nat_eq, err, int_eq, ◌≡◌, refl, Bool, true, false, arith, pos, [], Bool-cases, ok, ◌↔◌,
  inl, inr, some,
}
use fineract_ai_reports.Knowledge.{
  parameter_type_eq, ConstraintField, limit_mode, limit_value, from_date, to_date, currency_code,
  metric, transaction_amount, domain, person_name, client_id, office, product, product_ids,
  office_ids, charge_type, account_number,
}
use fineract_ai_reports.Facts.{
  TypedFactValue, ConstraintContract, invalid_value, fits, is_clear, validate_fact, mode_all,
  replace_ids, limit_mode_value, integer_value, date_value, currency_code_value, metric_value,
  decimal_value, domain_value, person_name_value, client_id_value, office_value, product_value,
  charge_type_value, account_number_value, id_list_value, lookup, executable_constraint_contracts,
}
use fineract_ai_reports.Facts.Ordered.{}
use fineract_ai_reports.Facts.Merged.{}

-- Fields that exist, and have values and contracts, but that no clause of `validate` names.

abbrev pub is_unstorable : ConstraintField → Bool
is_unstorable client_id = true
is_unstorable charge_type = true
is_unstorable account_number = true
is_unstorable _ = false

fits_unstorable :
    (field : ConstraintField) (value : TypedFactValue)
    → is_unstorable field ≡ true
    → fits field value ≡ false
fits_unstorable client_id v h = ground arith
fits_unstorable charge_type v h = ground arith
fits_unstorable account_number v h = ground arith
fits_unstorable limit_mode v h = cc
fits_unstorable limit_value v h = cc
fits_unstorable from_date v h = cc
fits_unstorable to_date v h = cc
fits_unstorable currency_code v h = cc
fits_unstorable metric v h = cc
fits_unstorable transaction_amount v h = cc
fits_unstorable domain v h = cc
fits_unstorable person_name v h = cc
fits_unstorable office v h = cc
fits_unstorable product v h = cc
fits_unstorable product_ids v h = cc
fits_unstorable office_ids v h = cc

-- Whatever the contract, a client id, a charge type and an account number take no value: `validate`
-- rejects every fact about them that does not clear them.
pub validate_fact_unstorable :
    (field : ConstraintField) (value : TypedFactValue) (contract : ConstraintContract)
    → is_unstorable field ≡ true
    → is_clear value ≡ false
    → validate_fact field value contract ≡ err (invalid_value field)
unfolding validate_fact
validate_fact_unstorable field value contract h set = rw (set, fits_unstorable field value h) refl

-- A value for each field that has one.
abbrev sample : ConstraintField → TypedFactValue
sample limit_mode = limit_mode_value mode_all
sample limit_value = integer_value (pos 10)
sample from_date = date_value "2026-01-01"
sample to_date = date_value "2026-01-31"
sample currency_code = currency_code_value "USD"
sample metric = metric_value "balance"
sample transaction_amount = decimal_value "10.00"
sample domain = domain_value "loan"
sample person_name = person_name_value "Ana"
sample office = office_value "North"
sample product = product_value "Basic"
sample product_ids = id_list_value (replace_ids [])
sample office_ids = id_list_value (replace_ids [])
sample client_id = client_id_value (pos 1)
sample charge_type = charge_type_value "Fee"
sample account_number = account_number_value "1"

-- The contract of a storable field lets a value of its type pass.
sample_passes :
    (field : ConstraintField) (contract : ConstraintContract)
    → lookup executable_constraint_contracts field ≡ some contract
    → is_unstorable field ≡ false
    → validate_fact field (sample field) contract ≡ ok tt
unfolding executable_constraint_contracts validate_fact
sample_passes limit_mode contract h k = ground arith
sample_passes limit_value contract h k = ground arith
sample_passes from_date contract h k = ground arith
sample_passes to_date contract h k = ground arith
sample_passes currency_code contract h k = ground arith
sample_passes metric contract h k = ground arith
sample_passes transaction_amount contract h k = ground arith
sample_passes domain contract h k = ground arith
sample_passes person_name contract h k = ground arith
sample_passes client_id contract h k = cc
sample_passes office contract h k = ground arith
sample_passes product contract h k = ground arith
sample_passes product_ids contract h k = ground arith
sample_passes office_ids contract h k = ground arith
sample_passes charge_type contract h k = cc
sample_passes account_number contract h k = cc

sample_set : (field : ConstraintField) → is_clear (sample field) ≡ false
sample_set limit_mode = refl
sample_set limit_value = refl
sample_set from_date = refl
sample_set to_date = refl
sample_set currency_code = refl
sample_set metric = refl
sample_set transaction_amount = refl
sample_set domain = refl
sample_set person_name = refl
sample_set client_id = refl
sample_set office = refl
sample_set product = refl
sample_set product_ids = refl
sample_set office_ids = refl
sample_set charge_type = refl
sample_set account_number = refl

-- Of the fields that have a contract, exactly those other than the charge type and the account
-- number accept some fact that does not clear them.
pub validate_fact_exact :
    (field : ConstraintField) (contract : ConstraintContract)
    → lookup executable_constraint_contracts field ≡ some contract
    → ((value : TypedFactValue) × (is_clear value ≡ false)
        × (validate_fact field value contract ≡ ok tt))
      ↔ (is_unstorable field ≡ false)
validate_fact_exact field contract h = (
  λ accepted. elim (Bool-cases (is_unstorable field)) [
    | inr storable ↦ storable
    | inl unstorable ↦
        let (value, set, passes) = accepted in
        cc (validate_fact_unstorable field value contract unstorable set)
  ],
  λ storable. (sample field, sample_set field, sample_passes field contract h storable),
)
