-- ===== src/Samples/Observations.antt =====
-- Examples of Facts.
use fineract_ai_reports.Prelude.{
  string_eq, nat_eq, Result, ok, err, pos, int_eq, ℕ, String, ◌≡◌, refl, true, false, Option, none,
  some, [], ◌∷◌, arith, ◌↔◌,
}
use fineract_ai_reports.Knowledge.{parameter_type_eq, office, charge_type}
use fineract_ai_reports.Facts.{
  TypedFactValue, office_value, FactSourceKind, original_request, clarification, llm_advisory,
  FactObservation, ConstraintContract, Entries, EffectiveConstraints, MergeError, lookup,
  validate_fact, is_clear, executable_constraint_contracts,
}
use fineract_ai_reports.Facts.Ordered.{swap}
use fineract_ai_reports.Facts.Merged.{merge_observations, merge_observations-Reorders}
use fineract_ai_reports.Facts.Accepted.{is_unstorable, validate_fact_exact}

abbrev observed : ℕ → FactSourceKind → String → FactObservation
observed id kind name = record {
  id = id;
  job_id = 5;
  sequence = pos id;
  source_kind = kind;
  source_id = "message";
  field_path = office;
  typed_value = office_value name;
  confidence = none;
  extractor_version = "example";
  observed_at = id;
}

abbrev office_contract : Entries ConstraintContract
office_contract = (office, record { clearable = true; list = false }) ∷ []

abbrev asked : FactObservation
asked = observed 1 original_request "North"

abbrev corrected : FactObservation
corrected = observed 2 clarification "South"

abbrev advised : FactObservation
advised = observed 3 llm_advisory "West"

merge_observations-Reorders_example :
    merge_observations 5 (pos 1) (asked ∷ corrected ∷ []) office_contract
    ≡ merge_observations 5 (pos 1) (corrected ∷ asked ∷ []) office_contract
merge_observations-Reorders_example =
    merge_observations-Reorders 5 (pos 1) office_contract (asked ∷ corrected ∷ [])
      (corrected ∷ asked ∷ []) (swap (λ e. absurd (omega (arith, e))))

abbrev office_of : Result EffectiveConstraints MergeError → Option TypedFactValue
office_of (err e) = none
office_of (ok c) = lookup c.values office

-- The clarification wins over the request, and the advice has no say.
corrected_wins :
    office_of (merge_observations 5 (pos 1) (corrected ∷ asked ∷ advised ∷ []) office_contract)
    ≡ some (office_value "South")
unfolding merge_observations
corrected_wins = refl

abbrev merged_offices : Result EffectiveConstraints MergeError
merged_offices = merge_observations 5 (pos 1) (corrected ∷ asked ∷ advised ∷ []) office_contract

abbrev offices : EffectiveConstraints
offices = record {
  id = 0;
  job_id = 5;
  revision = pos 1;
  schema_version = 1;
  values = (office, office_value "South") ∷ [];
  winning_observation_ids = (office, 2) ∷ [];
  created_at = 2;
}

validate_fact_exact_example :
    ((value : TypedFactValue) × (is_clear value ≡ false)
      × (validate_fact charge_type value (record { clearable = true; list = false }) ≡ ok tt))
    ↔ (is_unstorable charge_type ≡ false)
unfolding executable_constraint_contracts
validate_fact_exact_example =
    validate_fact_exact charge_type (record { clearable = true; list = false }) refl
