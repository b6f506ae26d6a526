-- ===== src/Samples/Access.antt =====
-- Examples of Policy and of Workflow/Compose and Workflow/Redaction.
use fineract_ai_reports.Prelude.{
  nat_eq, string_eq, ◌∈◌, pos, int_eq, ◌≡◌, refl, inl, true, some, [], ◌∷◌,
}
use fineract_ai_reports.Knowledge.{pii, integer, string, parameter_type_eq}
use fineract_ai_reports.Json.{integer, text, object, Fields, end, field}
use fineract_ai_reports.Policy.{effective_office_scope}
use fineract_ai_reports.Policy.Scope.{effective_office_scope-mem}
use fineract_ai_reports.Workflow.Contract.{
  node_id_eq, many_rows, exact_sensitive_input, NodeInput, NodeOutputSlot,
}
use fineract_ai_reports.Workflow.Redaction.{persisted_output}
use fineract_ai_reports.Workflow.Redaction.Laws.{is_clean, persisted_output_clean}
use fineract_ai_reports.Samples.Values.{officer}

effective_office_scope-mem_example : pos 4 ∈ officer.office_ids
unfolding effective_office_scope
effective_office_scope-mem_example =
    effective_office_scope-mem officer (some (pos 4 ∷ [])) (pos 4 ∷ []) (pos 4) refl (inl refl)

abbrev name_input : NodeInput
name_input = record { parameter = "client_name"; kind = string; source = exact_sensitive_input }

abbrev client_fields : Fields
client_fields = field "client_name" (text "Ana") (field "balance" (integer (pos 10)) end)

persisted_output_clean_example :
    is_clean "client_name" (persisted_output (name_input ∷ []) (object client_fields)) ≡ true
persisted_output_clean_example =
    persisted_output_clean (name_input ∷ []) name_input (object client_fields) (inl refl) refl

abbrev name_slot : NodeOutputSlot
name_slot = record {
  name = "client_name";
  kind = string;
  sensitivity = pii;
  cardinality = many_rows;
}
