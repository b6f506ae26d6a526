-- ===== src/Facts/Ordered.antt =====
-- The order in which `merge_observations` of merge.rs takes the observations.
use fineract_ai_reports.Prelude.{
  ltb, leb, nat_beq, if◌then◌else◌, string_eq, nat_eq, ℤ, pos, negsuc, int_eq, ◌≡◌, Bool, true,
  false, ◌&&◌, ◌||◌, not, List, [], ◌∷◌, Bool-cases, ℕ, refl, ap, ◌∙◌, ◌≢◌, inl, inr, arith,
}
use fineract_ai_reports.Facts.{FactObservation, rank}

abbrev pub int_le : ℤ → ℤ → Bool
int_le (pos a) (pos b) = leb a b
int_le (pos a) (negsuc b) = false
int_le (negsuc a) (pos b) = true
int_le (negsuc a) (negsuc b) = leb b a

abbrev pub int_same : ℤ → ℤ → Bool
int_same (pos a) (pos b) = nat_beq a b
int_same (negsuc a) (negsuc b) = nat_beq a b
int_same _ _ = false

-- The order of the tuples `(rank, sequence, id)`
abbrev pub key_le : ℕ → ℤ → ℕ → ℕ → ℤ → ℕ → Bool
key_le r s i r' s' i' =
    ltb r r' || nat_beq r r' && (not (int_same s s') && int_le s s' || int_same s s' && leb i i')

-- The key of the first is not after that of the second.
abbrev pub not_after : FactObservation → FactObservation → Bool
not_after a b = key_le (rank a.source_kind) a.sequence a.id (rank b.source_kind) b.sequence b.id

-- `sort_by_key`, which is stable
unfoldable pub insert_observation : FactObservation → List FactObservation → List FactObservation
insert_observation o [] = o ∷ []
insert_observation o (p ∷ rest) =
    let later = p ∷ insert_observation o rest in if not_after o p then o ∷ p ∷ rest else later

unfoldable pub ordered : List FactObservation → List FactObservation
unfolding insert_observation
ordered [] = []
ordered (o ∷ rest) = insert_observation o (ordered rest)

key_le_total :
    (r : ℕ) (s : ℤ) (i r' : ℕ) (s' : ℤ) (i' : ℕ)
    → key_le r s i r' s' i' ≡ false
    → key_le r' s' i' r s i ≡ true
key_le_total r (pos a) i r' (pos b) i' h = ground arith
key_le_total r (pos a) i r' (negsuc b) i' h = ground arith
key_le_total r (negsuc a) i r' (pos b) i' h = ground arith
key_le_total r (negsuc a) i r' (negsuc b) i' h = ground arith

key_le_antisym :
    (r : ℕ) (s : ℤ) (i r' : ℕ) (s' : ℤ) (i' : ℕ)
    → key_le r s i r' s' i' ≡ true
    → key_le r' s' i' r s i ≡ true
    → i ≡ i'
key_le_antisym r (pos a) i r' (pos b) i' h k = ground arith
key_le_antisym r (pos a) i r' (negsuc b) i' h k = ground arith
key_le_antisym r (negsuc a) i r' (pos b) i' h k = ground arith
key_le_antisym r (negsuc a) i r' (negsuc b) i' h k = ground arith

key_le_trans :
    (r : ℕ) (s : ℤ) (i r' : ℕ) (s' : ℤ) (i' r'' : ℕ) (s'' : ℤ) (i'' : ℕ)
    → key_le r s i r' s' i' ≡ true
    → key_le r' s' i' r'' s'' i'' ≡ true
    → key_le r s i r'' s'' i'' ≡ true
key_le_trans r (pos a) i r' (pos b) i' r'' (pos c) i'' h k = ground arith
key_le_trans r (pos a) i r' (pos b) i' r'' (negsuc c) i'' h k = ground arith
key_le_trans r (pos a) i r' (negsuc b) i' r'' (pos c) i'' h k = ground arith
key_le_trans r (pos a) i r' (negsuc b) i' r'' (negsuc c) i'' h k = ground arith
key_le_trans r (negsuc a) i r' (pos b) i' r'' (pos c) i'' h k = ground arith
key_le_trans r (negsuc a) i r' (pos b) i' r'' (negsuc c) i'' h k = ground arith
key_le_trans r (negsuc a) i r' (negsuc b) i' r'' (pos c) i'' h k = ground arith
key_le_trans r (negsuc a) i r' (negsuc b) i' r'' (negsuc c) i'' h k = ground arith

pub not_after_total : (a b : FactObservation) → not_after a b ≡ false → not_after b a ≡ true
not_after_total a b h =
    key_le_total (rank a.source_kind) a.sequence a.id (rank b.source_kind) b.sequence b.id h

not_after_antisym :
    (a b : FactObservation) → not_after a b ≡ true → not_after b a ≡ true → a.id ≡ b.id
not_after_antisym a b h k =
    key_le_antisym (rank a.source_kind) a.sequence a.id (rank b.source_kind) b.sequence b.id h k

pub not_after_trans :
    (a b c : FactObservation) → not_after a b ≡ true → not_after b c ≡ true → not_after a c ≡ true
not_after_trans a b c h k =
    key_le_trans (rank a.source_kind) a.sequence a.id (rank b.source_kind) b.sequence b.id
      (rank c.source_kind) c.sequence c.id h k

-- Two observations with different ids are put in place in either order.
insert_observation_comm :
    (a b : FactObservation) (os : List FactObservation)
    → a.id ≢ b.id
    → insert_observation a (insert_observation b os)
      ≡ insert_observation b (insert_observation a os)
unfolding insert_observation
insert_observation_comm a b [] ne = elim (Bool-cases (not_after a b)) [
  | inl t ↦ elim (Bool-cases (not_after b a)) [
    | inl u ↦ absurd (ne (not_after_antisym a b t u))
    | inr u ↦ rw (t, u) refl
  ]
  | inr t ↦ rw (t, not_after_total a b t) refl
]
insert_observation_comm a b (p ∷ os) ne = elim (Bool-cases (not_after b p)) [
  | inl bp ↦ elim (Bool-cases (not_after a p)) [
    | inl after ↦ elim (Bool-cases (not_after a b)) [
      | inl ab ↦ elim (Bool-cases (not_after b a)) [
        | inl ba ↦ absurd (ne (not_after_antisym a b ab ba))
        | inr ba ↦ rw (bp, after) (rw (ab, ba) (rw bp refl))
      ]
      | inr ab ↦ rw (bp, after) (rw (ab, not_after_total a b ab) refl)
    ]
    | inr after ↦ elim (Bool-cases (not_after a b)) [
      | inl ab ↦ let k = not_after_trans a b p ab bp in cc
      | inr ab ↦ rw (bp, after) (rw (ab, bp) refl)
    ]
  ]
  | inr bp ↦ elim (Bool-cases (not_after a p)) [
    | inl after ↦ elim (Bool-cases (not_after b a)) [
      | inl ba ↦ let k = not_after_trans b a p ba after in cc
      | inr ba ↦ rw (bp, after) (rw ba (rw bp refl))
    ]
    | inr after ↦ rw (bp, after) (rw bp (ap (λ r. p ∷ r) (insert_observation_comm a b os ne)))
  ]
]

-- The same observations in another order, where those that change places have different ids.
pub data Reorders : List FactObservation → List FactObservation → Type 0 where
  same : {os : List FactObservation} → Reorders os os
  under :
      {o : FactObservation} {xs ys : List FactObservation}
      → Reorders xs ys
      → Reorders (o ∷ xs) (o ∷ ys)
  swap :
      {a b : FactObservation} {os : List FactObservation}
      → a.id ≢ b.id
      → Reorders (a ∷ b ∷ os) (b ∷ a ∷ os)
  then_again : {xs ys zs : List FactObservation} → Reorders xs ys → Reorders ys zs → Reorders xs zs

pub ordered-Reorders : (xs ys : List FactObservation) → Reorders xs ys → ordered xs ≡ ordered ys
unfolding ordered
ordered-Reorders xs ys same = refl
ordered-Reorders x y (under {o = o} {xs = xs} {ys = ys} r) =
    ap (insert_observation o) (ordered-Reorders xs ys r)
ordered-Reorders x y (swap {a = a} {b = b} {os = os} ne) =
    insert_observation_comm a b (ordered os) ne
ordered-Reorders xs zs (then_again {ys = ys} r s) =
    ordered-Reorders xs ys r ∙ ordered-Reorders ys zs s
