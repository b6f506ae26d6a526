-- ===== src/Progress/Packing.antt =====
-- How the blocks group the lines and the pieces of prose group the words: consecutive whole items,
-- each group closed by its own rule, and at most one group left open at the end.
use fineract_ai_reports.Prelude.{
  nat_eq, string_eq, is_empty, All, concat, Text, int_eq, ◌≡◌, false, List, [], ◌∷◌, ◌++◌,
  Bool-cases, concat-append, refl, sym, ap, ◌∙◌, inl, inr, true, append-nil,
}
use fineract_ai_reports.Progress.{flush}

-- `pieces` are the concatenations of consecutive groups of `items`: every group but the last is
-- `Closed`, and the last one is `Closed` or `Open`.

pub data Packs (Closed Open : List Text → Type 0) : List Text → List Text → Type 0 where
  empty : {items : List Text} → items ≡ [] → Packs Closed Open items []
  open_end :
      {items : List Text} (piece : Text)
      → piece ≡ concat items
      → is_empty piece ≡ false
      → Open items
      → Packs Closed Open items (piece ∷ [])
  closed :
      (group rest : List Text) (piece : Text) {items pieces : List Text}
      → items ≡ group ++ rest
      → piece ≡ concat group
      → is_empty piece ≡ false
      → Closed group
      → Packs Closed Open rest pieces
      → Packs Closed Open items (piece ∷ pieces)

-- No piece of a packing is empty.
pub Packs-full :
    {Closed Open : List Text → Type 0} {items pieces : List Text}
    → Packs Closed Open items pieces
    → All (λ p. is_empty p ≡ false) pieces
Packs-full (empty e) = tt
Packs-full (open_end piece e n o) = (n, tt)
Packs-full (closed group rest piece e p n c r) = (n, Packs-full r)

pub concat-snoc :
    (group : List Text) (item : Text) → concat group ++ item ≡ concat (group ++ item ∷ [])
concat-snoc group item =
    sym (concat-append group (item ∷ []) ∙ ap (λ r. concat group ++ r) (append-nil item))

pub append_full : (s t : Text) → is_empty t ≡ false → is_empty (s ++ t) ≡ false
append_full [] t h = h
append_full (c ∷ s) t h = refl

abbrev pub IsFull : List Text → Type 0
IsFull items = All (λ p. is_empty p ≡ false) items

pub concat_empty : (xss : List Text) → is_empty xss ≡ true → concat xss ≡ []
concat_empty [] h = refl
concat_empty (xs ∷ xss) h = cc

pub IsFull-concat : (group : List Text) → IsFull group → is_empty (concat group) ≡ true → group ≡ []
IsFull-concat [] full h = refl
IsFull-concat ([] ∷ group) full h = cc full.0
IsFull-concat ((c ∷ s) ∷ group) full h = cc

pub flush-Packs :
    {Closed Open : List Text → Type 0} (group : List Text)
    → IsFull group
    → Open group
    → Packs Closed Open group (flush (concat group))
flush-Packs group full h = elim (Bool-cases (is_empty (concat group))) [
  | inl t ↦ rw t (empty (IsFull-concat group full t))
  | inr f ↦ rw f (open_end (concat group) refl f h)
]
