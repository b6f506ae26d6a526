-- ===== src/Dataset/Plan.antt =====
-- crates/chat/src/knowledge/dataset/plan.rs: every statement that a dataset can produce.
pub mod Declared
use fineract_ai_reports.Prelude.{
  if◌then◌else◌, string_eq, nat_eq, is_empty, ◌∈◌, concat, int_eq, String, ◌≡◌, refl, inl, inr,
  Option, none, some, List, [], ◌∷◌, map,
}
use fineract_ai_reports.Knowledge.{parameter_type_eq, ShapeOption, DatasetKnowledge, shape}

-- A statement: the id of a shape and that of an order
abbrev pub Combination : Type 0
Combination = String × Option String

abbrev pub with_order : ShapeOption → String → Combination
with_order s order_by_id = (s.id, some order_by_id)

-- The body of the loop over the shapes
abbrev pub combinations_of : ShapeOption → List Combination
combinations_of s = if is_empty s.order_by then (s.id, none) ∷ [] else map (with_order s) s.order_by

unfoldable pub executable_combinations : DatasetKnowledge → List Combination
executable_combinations dataset = concat (map combinations_of dataset.shapes)
