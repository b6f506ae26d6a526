-- ===== src/Dataset/Plan/Declared.antt =====
-- The statements that are enumerated are those that the dataset declares.
use fineract_ai_reports.Prelude.{
  Bool-cases, string_eq, nat_eq, is_empty, ◌∈◌, concat, mem-append_left, mem-append_right,
  mem-append, int_eq, String, ◌≡◌, refl, ap, ◌↔◌, inl, inr, true, false, none, List, [], ◌∷◌, map,
}
use fineract_ai_reports.Knowledge.{parameter_type_eq, ShapeOption, DatasetKnowledge}
use fineract_ai_reports.Dataset.Plan.{
  Combination, with_order, combinations_of, executable_combinations,
}

-- A statement that a shape declares: without an order exactly if the shape lists no order.
pub data Declares (s : ShapeOption) (c : Combination) : Type 0 where
  unordered : s.order_by ≡ [] → c ≡ (s.id, none) → Declares s c
  ordered_by : (order : String) → order ∈ s.order_by → c ≡ with_order s order → Declares s c

paired→ :
    (s : ShapeOption) (orders : List String) (c : Combination)
    → c ∈ map (with_order s) orders
    → (order : String) × (order ∈ orders) × (c ≡ with_order s order)
paired→ s [] c m = absurd m
paired→ s (o ∷ os) c (inl e) = (o, inl refl, e)
paired→ s (o ∷ os) c (inr m) = let (order, k, e) = paired→ s os c m in (order, inr k, e)

paired← :
    (s : ShapeOption) (orders : List String) (order : String)
    → order ∈ orders
    → ◌∈◌ {A = Combination} (with_order s order) (map (with_order s) orders)
paired← s [] order m = absurd m
paired← s (o ∷ os) order (inl e) = inl (ap (with_order s) e)
paired← s (o ∷ os) order (inr m) = inr (paired← s os order m)

is_empty→ : (orders : List String) → is_empty orders ≡ true → orders ≡ []
is_empty→ [] h = refl
is_empty→ (o ∷ os) h = cc

mem-is_empty : (orders : List String) (order : String) → order ∈ orders → is_empty orders ≡ false
mem-is_empty [] order m = absurd m
mem-is_empty (o ∷ os) order m = refl

combinations_of→ : (s : ShapeOption) (c : Combination) → c ∈ combinations_of s → Declares s c
combinations_of→ s c m = elim (Bool-cases (is_empty s.order_by)) [
  | inl t ↦ elim (rw t at m) [ inl e ↦ unordered (is_empty→ s.order_by t) e | inr k ↦ absurd k ]
  | inr f ↦ let (order, k, e) = paired→ s s.order_by c (rw f at m) in ordered_by order k e
]

combinations_of← : (s : ShapeOption) (c : Combination) → Declares s c → c ∈ combinations_of s
combinations_of← s c (unordered none_listed e) = rw none_listed (inl e)
combinations_of← s c (ordered_by order k e) =
    rw (mem-is_empty s.order_by order k, e) (paired← s s.order_by order k)

concat_map→ :
    (shapes : List ShapeOption) (c : Combination)
    → c ∈ concat (map combinations_of shapes)
    → (s : ShapeOption) × (s ∈ shapes) × Declares s c
concat_map→ [] c m = absurd m
concat_map→ (s ∷ ss) c m =
    elim (mem-append c (combinations_of s) (concat (map combinations_of ss)) m) [
      | inl k ↦ (s, inl refl, combinations_of→ s c k)
      | inr k ↦ let (t, l, d) = concat_map→ ss c k in (t, inr l, d)
    ]

concat_map← :
    (shapes : List ShapeOption) (c : Combination) (s : ShapeOption)
    → s ∈ shapes
    → Declares s c
    → c ∈ concat (map combinations_of shapes)
concat_map← [] c s m d = absurd m
concat_map← (t ∷ ts) c s (inl e) d =
    mem-append_left c (combinations_of t) (concat (map combinations_of ts))
      (combinations_of← t c (rw e at d))
concat_map← (t ∷ ts) c s (inr m) d =
    mem-append_right c (combinations_of t) (concat (map combinations_of ts))
      (concat_map← ts c s m d)

-- The statements that a dataset can produce are exactly those that one of its shapes declares: each
-- of the shape's orders, or no order where the shape lists none.
pub executable_combinations_exact :
    (dataset : DatasetKnowledge) (c : Combination)
    → (c ∈ executable_combinations dataset)
      ↔ ((s : ShapeOption) × (s ∈ dataset.shapes) × Declares s c)
unfolding executable_combinations
executable_combinations_exact dataset c = (
  concat_map→ dataset.shapes c,
  λ declared. let (s, m, d) = declared in concat_map← dataset.shapes c s m d,
)
