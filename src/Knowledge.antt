-- ===== src/Knowledge.antt =====
-- The approved catalog: crates/chat/src/knowledge/model.rs, dataset/model.rs and the parameter
-- policies of catalog/parameter_policy.rs. Records keep the fields that the modelled code reads.
use fineract_ai_reports.Prelude.{
  PartialEq, ◌==◌, string_eq, nat_eq, find, ℤ, int_eq, ℕ, String, ◌≡◌, ◌↔◌, Bool, true, false,
  Option, List, arith,
}
use fineract_ai_reports.Json.{Json}

pub data Sensitivity : Type 0 where
  public_business pii filter_only masked_output never_use : Sensitivity

pub data ParameterType : Type 0 where
  date integer integer_array string currency : ParameterType

abbrev pub parameter_type_beq : ParameterType → ParameterType → Bool
parameter_type_beq date date = true
parameter_type_beq integer integer = true
parameter_type_beq integer_array integer_array = true
parameter_type_beq string string = true
parameter_type_beq currency currency = true
parameter_type_beq _ _ = false

pub parameter_type_beq_iff : (a b : ParameterType) → (parameter_type_beq a b ≡ true) ↔ (a ≡ b)
parameter_type_beq_iff a b = ground arith

instance abbrev pub parameter_type_eq : PartialEq ParameterType
parameter_type_eq = record { eq = parameter_type_beq; eq_law = parameter_type_beq_iff }

-- crates/chat/src/assistant/context/canonical_state/contracts.rs
pub data ConstraintField : Type 0 where
  limit_mode limit_value from_date to_date currency_code metric transaction_amount : ConstraintField
  domain person_name client_id office product product_ids office_ids : ConstraintField
  charge_type account_number : ConstraintField

pub data ShapeRole : Type 0 where
  terminal resolver probe : ShapeRole

pub record QueryParameter : Type 0 where
  pub name : String
  pub kind : String
  pub required : Bool
  pub source : Option String

pub record QueryKnowledge : Type 0 where
  pub id : String
  pub parameters : List QueryParameter
  pub timeout_ms : Option ℕ

-- catalog/parameter_policy.rs. A date is the number of its day.
pub data DefaultExpr : Type 0 where
  business_today wall_today : DefaultExpr
  business_today_minus_days business_today_minus_months : ℕ → DefaultExpr  -- u16
  business_today_minus_years : ℕ → DefaultExpr  -- u16
  start_of_month_business_today end_of_month_business_today unbounded : DefaultExpr
  authorized_scope_default : DefaultExpr
  literal_int : ℤ → DefaultExpr
  literal_date : ℕ → DefaultExpr

pub data ResolutionStrategy : Type 0 where
  from_authorized_scope from_catalog_default from_deterministic_extraction : ResolutionStrategy
  from_verified_user_text from_safe_prior_selection from_prior_step : ResolutionStrategy
  from_authorized_data_probe by_clarifying : ResolutionStrategy

pub record ProbeRef : Type 0 where
  pub dataset_id : String
  pub shape_id : String
  pub output_slot : String

pub record ParameterPolicy : Type 0 where
  pub name : String
  pub kind : ParameterType
  pub required : Bool
  pub default : Option DefaultExpr
  pub fill_when_missing : Bool
  pub user_may_override : Bool
  pub hard_cap : Option ℤ
  pub user_required : Bool
  pub resolution : List ResolutionStrategy
  pub probe : Option ProbeRef

-- dataset/model.rs
pub data FilterOperator : Type 0 where
  equal in_list less less_equal greater greater_equal between : FilterOperator

abbrev pub operator_beq : FilterOperator → FilterOperator → Bool
operator_beq equal equal = true
operator_beq in_list in_list = true
operator_beq less less = true
operator_beq less_equal less_equal = true
operator_beq greater greater = true
operator_beq greater_equal greater_equal = true
operator_beq between between = true
operator_beq _ _ = false

pub operator_beq_iff : (a b : FilterOperator) → (operator_beq a b ≡ true) ↔ (a ≡ b)
operator_beq_iff a b = ground arith

instance abbrev pub operator_eq : PartialEq FilterOperator
operator_eq = record { eq = operator_beq; eq_law = operator_beq_iff }

pub data FilterInputPolicy : Type 0 where
  ordinary exact_identifier : FilterInputPolicy

pub record FilterSlot : Type 0 where
  pub id : String
  pub expr : String
  pub kind : String
  pub case_insensitive : Bool
  pub input_policy : FilterInputPolicy
  pub operators : List FilterOperator

pub record DatasetRecipeFilter : Type 0 where
  pub filter_id : String
  pub operator : FilterOperator
  pub parameter : Option String
  pub value : Option Json

pub record DatasetRecipe : Type 0 where
  pub dataset_id : String
  pub shape_id : String
  pub order_by_id : Option String
  pub filters : List DatasetRecipeFilter
  pub projection : List String

pub record CapabilityGuards : Type 0 where
  pub max_limit : Option ℤ

pub record CapabilityKnowledge : Type 0 where
  pub id : String
  pub status : String
  pub query_id : String
  pub output_mode : String
  pub display_name : Option String
  pub dataset_recipe : Option DatasetRecipe
  pub parameter_policies : List ParameterPolicy
  pub guards : CapabilityGuards

pub record EntityMetadata : Type 0 where
  pub kind : String

-- `Zero`, `One` and `Many` of `Cardinality`.
pub data SlotCardinality : Type 0 where
  zero one many : SlotCardinality

pub record ProducedSlot : Type 0 where
  pub slot : String
  pub kind : String
  pub sensitivity : Sensitivity
  pub cardinality : SlotCardinality

pub record OrderByOption : Type 0 where
  pub id : String
  pub expr : String

pub record DatasetOutputField : Type 0 where
  pub name : String

pub record ShapeOption : Type 0 where
  pub id : String
  pub role : ShapeRole
  pub row_cap : Option ℕ
  pub grouped_by : Option String
  pub produces : List ProducedSlot
  pub fragment : Option String
  pub order_by : List String
  pub output_fields : List DatasetOutputField
  pub parameters : List QueryParameter

pub record DatasetKnowledge : Type 0 where
  pub id : String
  pub filters : List FilterSlot
  pub entity : Option EntityMetadata
  pub shapes : List ShapeOption
  pub order_by : List OrderByOption
  pub output_fields : List DatasetOutputField
  pub parameters : List QueryParameter
  pub timeout_ms : Option ℕ

-- `DatasetKnowledge::shape`
unfoldable pub shape : DatasetKnowledge → String → Option ShapeOption
shape dataset shape_id = find (λ s. s.id == shape_id) dataset.shapes

pub record KnowledgeCatalog : Type 0 where
  pub capabilities : List CapabilityKnowledge
  pub queries : List QueryKnowledge
  pub parameter_bindings : List (String × List ConstraintField)
  pub datasets : List DatasetKnowledge
