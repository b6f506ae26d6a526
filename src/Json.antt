-- ===== src/Json.antt =====
-- JSON values by the constructors that the program matches on, and the operations that it calls.
-- An object is the list of its entries; the maps that the program builds have each key once.
pub mod Keys
use fineract_ai_reports.Prelude.{
  ltb, if◌then◌else◌, ◌==◌, nat_eq, string_eq, ℤ, pos, negsuc, int_eq, ℕ, suc, ◌^◌, String, Bool,
  Option, none, some, List, [], ◌∷◌,
}

mutual
  pub data Json : Type 0 where
    null : Json
    bool : Bool → Json
    integer : ℤ → Json
    float : String → Json
    text : String → Json
    array : Items → Json
    object : Fields → Json

  pub data Items : Type 0 where
    nil : Items
    cons : Json → Items → Items

  pub data Fields : Type 0 where
    end : Fields
    field : String → Json → Fields → Fields

-- `map.get(key)`
abbrev pub get_field : Fields → String → Option Json
get_field end k = none
get_field (field j v rest) k = if j == k then some v else get_field rest k

-- `map.remove(key)`: the map without the key
abbrev pub remove_field : Fields → String → Fields
remove_field end k = end
remove_field (field j v rest) k =
    let others = remove_field rest k in if j == k then others else field j v others

abbrev pub remove_fields : Fields → List String → Fields
remove_fields fields [] = fields
remove_fields fields (k ∷ ks) = remove_fields (remove_field fields k) ks

-- `map.insert(key, value)`
abbrev pub insert_field : Fields → String → Json → Fields
insert_field end k v = field k v end
insert_field (field j w rest) k v =
    if j == k then field k v rest else field j w (insert_field rest k v)

-- `value.get(key)`: nothing where the value is no object
abbrev pub get : Json → String → Option Json
get (object fields) k = get_field fields k
get _ k = none

abbrev pub as_str : Json → Option String
as_str (text s) = some s
as_str _ = none

-- `as_i64`: nothing where the number is no integer of 64 bits
abbrev pub as_i64 : Json → Option ℤ
as_i64 (integer (pos n)) = if ltb n (2 ^ 63) then some (pos n) else none
as_i64 (integer (negsuc n)) = if ltb n (2 ^ 63) then some (negsuc n) else none
as_i64 _ = none

abbrev pub as_array : Json → Option Items
as_array (array items) = some items
as_array _ = none

abbrev pub count_items : Items → ℕ
count_items nil = 0
count_items (cons v rest) = suc (count_items rest)

abbrev pub and_then : {A B : Type 0} → Option A → (A → Option B) → Option B
and_then none f = none
and_then (some a) f = f a
