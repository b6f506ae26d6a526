-- ===== src/Samples/Planned.antt =====
-- Examples of Dataset/Plan.
use fineract_ai_reports.Prelude.{string_eq, nat_eq, int_eq, ◌≡◌, refl, none, some, [], ◌∷◌}
use fineract_ai_reports.Knowledge.{parameter_type_eq, ShapeOption, DatasetKnowledge}
use fineract_ai_reports.Samples.Values.{shape_named, dataset_of}
use fineract_ai_reports.Dataset.Plan.{executable_combinations}

abbrev listing : ShapeOption
listing = shape_named "list" ("a" ∷ "b" ∷ [])

abbrev total : ShapeOption
total = shape_named "total" []

abbrev charges : DatasetKnowledge
charges = dataset_of (listing ∷ total ∷ [])

expands_each_shape :
    executable_combinations charges ≡ ("list", some "a") ∷ ("list", some "b") ∷ ("total", none) ∷ []
unfolding executable_combinations
expands_each_shape = refl
