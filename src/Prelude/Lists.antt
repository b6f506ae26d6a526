-- ===== src/Prelude/Lists.antt =====
-- Sequences (`Vec`, slices, iterators): measures by native numbers, searches and folds.
use Prim.Native.Nat.{ℕ, zero, suc, ◌+◌, ◌≤◌}
use mathlib.Core.Path.{◌≡◌, refl, ap, sym, ◌∙◌}
use mathlib.Core.Logic.{◌⊎◌, inl, inr}
use mathlib.Core.Bool.{Bool, true, false, ◌&&◌, ◌||◌}
use mathlib.Core.Option.{Option, none, some}
use mathlib.Core.List.{List, [], ◌∷◌, ◌++◌, append_assoc}
use native.Mathlib.Omega.{arith}
use fineract_ai_reports.Prelude.Tests.{
  if◌then◌else◌, PartialEq, ◌==◌, Bool-cases, ==_refl, ==→≡, string_eq, nat_eq,
}

module _ {ℓ} {A : Type ℓ} where
  abbrev pub length : List A → ℕ
  length [] = 0
  length (x ∷ xs) = suc (length xs)

  abbrev pub is_empty : List A → Bool
  is_empty [] = true
  is_empty (x ∷ xs) = false

  abbrev pub take : ℕ → List A → List A
  take zero xs = []
  take (suc n) [] = []
  take (suc n) (x ∷ xs) = x ∷ take n xs

  -- `iter().filter(p).collect()`
  abbrev pub filter : (A → Bool) → List A → List A
  filter p [] = []
  filter p (x ∷ xs) = let rest = filter p xs in if p x then x ∷ rest else rest

  -- `iter().find(p)`
  abbrev pub find : (A → Bool) → List A → Option A
  find p [] = none
  find p (x ∷ xs) = if p x then some x else find p xs

  -- `iter().rev().find(p)`: the last item that passes
  abbrev pub find_last : (A → Bool) → List A → Option A
  find_last p [] = none
  find_last p (x ∷ xs) = elim (find_last p xs) [
    | some y ↦ some y
    | none ↦ if p x then some x else none
  ]

  abbrev pub any : (A → Bool) → List A → Bool
  any p [] = false
  any p (x ∷ xs) = p x || any p xs

  abbrev pub all : (A → Bool) → List A → Bool
  all p [] = true
  all p (x ∷ xs) = p x && all p xs

  -- A predicate of every item.
  abbrev pub All {κ} : (A → Type κ) → List A → Type κ
  All P [] = Unit
  All P (x ∷ xs) = P x × All P xs

module _ {A : Type 0} where
  infix 40 ◌∈◌
  abbrev pub ◌∈◌ : A → List A → Type 0
  a ∈ [] = ⊥
  a ∈ x ∷ xs = (a ≡ x) ⊎ (a ∈ xs)

abbrev pub filter_map {ℓ κ} : {A : Type ℓ} {B : Type κ} → (A → Option B) → List A → List B
filter_map f [] = []
filter_map f (x ∷ xs) = let rest = filter_map f xs in elim (f x) [ none ↦ rest | some y ↦ y ∷ rest ]

abbrev pub concat {ℓ} : {A : Type ℓ} → List (List A) → List A
concat [] = []
concat (xs ∷ xss) = xs ++ concat xss

-- `contains`
abbrev pub contains {ℓ} : {A : Type ℓ} ⦃e : PartialEq A⦄ → List A → A → Bool
contains [] a = false
contains (x ∷ xs) a = (x == a) || contains xs a

module _ {ℓ} {A : Type ℓ} where
  pub length-append : (xs ys : List A) → length (xs ++ ys) ≡ length xs + length ys
  length-append [] ys = omega arith
  length-append (x ∷ xs) ys = omega (arith, length-append xs ys)

  pub concat-append : (xss yss : List (List A)) → concat (xss ++ yss) ≡ concat xss ++ concat yss
  concat-append [] yss = refl
  concat-append (xs ∷ xss) yss =
      ap (λ r. xs ++ r) (concat-append xss yss) ∙ sym (append_assoc xs (concat xss) (concat yss))

  pub All-append {κ} : (P : A → Type κ) (xs ys : List A) → All P xs → All P ys → All P (xs ++ ys)
  All-append P [] ys h k = k
  All-append P (x ∷ xs) ys h k = (h.0, All-append P xs ys h.1 k)

  pub any-append : (p : A → Bool) (xs ys : List A) → any p (xs ++ ys) ≡ (any p xs || any p ys)
  any-append p [] ys = refl
  any-append p (x ∷ xs) ys = ground (arith, any-append p xs ys)

  pub filter-append :
      (p : A → Bool) (xs ys : List A) → filter p (xs ++ ys) ≡ filter p xs ++ filter p ys
  filter-append p [] ys = refl
  filter-append p (x ∷ xs) ys = elim (Bool-cases (p x)) [
    | inl h ↦ rw h (ap (λ r. x ∷ r) (filter-append p xs ys))
    | inr h ↦ rw h (filter-append p xs ys)
  ]

  -- The test holds of all that passed the filter.
  pub all-filter : (p : A → Bool) (xs : List A) → all p (filter p xs) ≡ true
  all-filter p [] = refl
  all-filter p (x ∷ xs) = elim (Bool-cases (p x)) [
    | inl h ↦ rw h (rw h (all-filter p xs))
    | inr h ↦ rw h (all-filter p xs)
  ]

  pub any-filter : (p q : A → Bool) (xs : List A) → any p (filter q xs) ≡ any (λ x. q x && p x) xs
  any-filter p q [] = refl
  any-filter p q (x ∷ xs) = elim (Bool-cases (q x)) [
    | inl h ↦ rw h (ap (λ r. p x || r) (any-filter p q xs))
    | inr h ↦ rw h (any-filter p q xs)
  ]

module _ {A : Type 0} where
  pub all-mem : (p : A → Bool) {a : A} (xs : List A) → all p xs ≡ true → a ∈ xs → p a ≡ true
  all-mem p [] h m = absurd m
  all-mem p (x ∷ xs) h (inl e) = rw e (ground arith)
  all-mem p (x ∷ xs) h (inr m) = all-mem p xs (ground arith) m

  pub All-mem : (P : A → Type 0) {a : A} (xs : List A) → All P xs → a ∈ xs → P a
  All-mem P [] h m = absurd m
  All-mem P (x ∷ xs) h (inl e) = rw e h.0
  All-mem P (x ∷ xs) h (inr m) = All-mem P xs h.1 m

  pub any-mem : (p : A → Bool) {a : A} (xs : List A) → p a ≡ true → a ∈ xs → any p xs ≡ true
  any-mem p [] h m = absurd m
  any-mem p (x ∷ xs) h (inl e) = let h' : p x ≡ true = rw e at h in rw h'
  any-mem p (x ∷ xs) h (inr m) = ground (arith, any-mem p xs h m)

  -- A search that succeeds ends at an item that passes.
  pub find-some :
      (p : A → Bool) (xs : List A) {a : A} → find p xs ≡ some a → (p a ≡ true) × (a ∈ xs)
  find-some p [] h = cc
  find-some p (x ∷ xs) {a} h = elim (Bool-cases (p x)) [
    | inl t ↦ let e : x ≡ a = cc (rw t at h) in (rw (← e) t, inl (sym e))
    | inr f ↦ let rest = find-some p xs (rw f at h) in (rest.0, inr rest.1)
  ]

  pub mem-filter : (p : A → Bool) (xs : List A) {a : A} → a ∈ filter p xs → (p a ≡ true) × (a ∈ xs)
  mem-filter p [] m = absurd m
  mem-filter p (x ∷ xs) {a} m = elim (Bool-cases (p x)) [
    | inl t ↦
        let m' : (a ≡ x) ⊎ (a ∈ filter p xs) = rw t at m in
        elim m' [
          | inl e ↦ (rw e t, inl e)
          | inr k ↦ let rest = mem-filter p xs k in (rest.0, inr rest.1)
        ]
    | inr f ↦ let rest = mem-filter p xs (rw f at m) in (rest.0, inr rest.1)
  ]

module _ {A : Type 0} ⦃e : PartialEq A⦄ where
  pub contains→mem : (xs : List A) (a : A) → contains xs a ≡ true → a ∈ xs
  contains→mem [] a h = cc
  contains→mem (x ∷ xs) a h = elim (Bool-cases (x == a)) [
    | inl t ↦ inl (sym (==→≡ x a t))
    | inr f ↦ inr (contains→mem xs a (rw f at h))
  ]

  pub mem→contains : (xs : List A) (a : A) → a ∈ xs → contains xs a ≡ true
  mem→contains [] a m = absurd m
  mem→contains (x ∷ xs) a (inl p) = rw p (rw (==_refl x))
  mem→contains (x ∷ xs) a (inr m) = ground (arith, mem→contains xs a m)

module _ {ℓ} {A : Type ℓ} ⦃e : PartialEq A⦄ where
  pub contains-filter :
      (p : A → Bool) (xs : List A) (a : A) → contains (filter p xs) a ≡ (contains xs a && p a)
  contains-filter p [] a = refl
  contains-filter p (x ∷ xs) a = elim (Bool-cases (p x)) [
    | inl t ↦ elim (Bool-cases (x == a)) [
      | inl s ↦ rw (← ==→≡ x a s) (ground (arith, contains-filter p xs a, ==_refl x))
      | inr s ↦ ground (arith, contains-filter p xs a)
    ]
    | inr f ↦ elim (Bool-cases (x == a)) [
      | inl s ↦
          let f' : p a ≡ false = rw (==→≡ x a s) at f in ground (arith, contains-filter p xs a)
      | inr s ↦ ground (arith, contains-filter p xs a)
    ]
  ]

module _ {A : Type 0} (a : A) where
  pub mem-append_left : (xs ys : List A) → a ∈ xs → a ∈ xs ++ ys
  mem-append_left [] ys m = absurd m
  mem-append_left (x ∷ xs) ys (inl e) = inl e
  mem-append_left (x ∷ xs) ys (inr m) = inr (mem-append_left xs ys m)

  pub mem-append_right : (xs ys : List A) → a ∈ ys → a ∈ xs ++ ys
  mem-append_right [] ys m = m
  mem-append_right (x ∷ xs) ys m = inr (mem-append_right xs ys m)

  pub mem-append : (xs ys : List A) → a ∈ xs ++ ys → (a ∈ xs) ⊎ (a ∈ ys)
  mem-append [] ys m = inr m
  mem-append (x ∷ xs) ys (inl e) = inl (inl e)
  mem-append (x ∷ xs) ys (inr m) = elim (mem-append xs ys m) [ inl k ↦ inl (inr k) | inr k ↦ inr k ]

module _ {ℓ κ} {A : Type ℓ} (P : A → Type κ) where
  pub All-take : (n : ℕ) (xs : List A) → All P xs → All P (take n xs)
  All-take zero xs h = tt
  All-take (suc n) [] h = tt
  All-take (suc n) (x ∷ xs) h = (h.0, All-take n xs h.1)

module _ {ℓ} {A : Type ℓ} where
  pub length-take : (n : ℕ) (xs : List A) → length (take n xs) ≤ n
  length-take zero xs = omega arith
  length-take (suc n) [] = omega arith
  length-take (suc n) (x ∷ xs) = omega (arith, length-take n xs)

module _ {ℓ κ μ} {A : Type ℓ} {P : A → Type κ} {Q : A → Type μ} (f : (a : A) → P a → Q a) where
  pub All-weaken : (xs : List A) → All P xs → All Q xs
  All-weaken [] h = tt
  All-weaken (x ∷ xs) h = (f x h.0, All-weaken xs h.1)
