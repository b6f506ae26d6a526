-- ===== src/Json/Keys.antt =====
-- Which keys a map has after keys are removed from it.
use fineract_ai_reports.Prelude.{
  if◌then◌else◌, ◌==◌, nat_eq, string_eq, contains, int_eq, String, ◌≡◌, refl, Bool, false, ◌&&◌,
  ◌||◌, not, none, some, List, [], ◌∷◌, arith,
}
use fineract_ai_reports.Json.{
  Json, Fields, end, field, get_field, remove_field, remove_fields, insert_field,
}

-- The keys of a map, at its own level.
abbrev pub has_key : Fields → String → Bool
has_key end k = false
has_key (field j v rest) k = (j == k) || has_key rest k

pub has_key-remove_field :
    (fields : Fields) (k j : String)
    → has_key (remove_field fields k) j ≡ (not (k == j) && has_key fields j)
has_key-remove_field end k j = ground arith
has_key-remove_field (field i v rest) k j = ground (
  arith,
  has_key-remove_field rest k j,
  string_eq.eq_law i k,
  string_eq.eq_law i j,
  string_eq.eq_law k j,
)

pub has_key-remove_fields :
    (ks : List String) (fields : Fields) (j : String)
    → has_key (remove_fields fields ks) j ≡ (not (contains ks j) && has_key fields j)
has_key-remove_fields [] fields j = refl
has_key-remove_fields (k ∷ ks) fields j =
    ground
      (arith, has_key-remove_fields ks (remove_field fields k) j, has_key-remove_field fields k j)

pub get_field-remove_field :
    (fields : Fields) (k j : String)
    → get_field (remove_field fields k) j ≡ (if k == j then none else get_field fields j)
get_field-remove_field end k j = ground arith
get_field-remove_field (field i v rest) k j = ground (
  arith,
  get_field-remove_field rest k j,
  string_eq.eq_law i k,
  string_eq.eq_law i j,
  string_eq.eq_law k j,
)

pub get_field-remove_fields :
    (ks : List String) (fields : Fields) (j : String)
    → get_field (remove_fields fields ks) j ≡ (if contains ks j then none else get_field fields j)
get_field-remove_fields [] fields j = refl
get_field-remove_fields (k ∷ ks) fields j =
    ground (
      arith,
      get_field-remove_fields ks (remove_field fields k) j,
      get_field-remove_field fields k j,
    )

pub get_field-insert_field :
    (fields : Fields) (k j : String) (v : Json)
    → get_field (insert_field fields k v) j ≡ (if k == j then some v else get_field fields j)
get_field-insert_field end k j v = refl
get_field-insert_field (field i w rest) k j v = ground (
  arith,
  get_field-insert_field rest k j v,
  string_eq.eq_law i k,
  string_eq.eq_law i j,
  string_eq.eq_law k j,
)
