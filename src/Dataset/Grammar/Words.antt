-- ===== src/Dataset/Grammar/Words.antt =====
-- What the words and pieces of a text leave out: only the characters that were split at.
use fineract_ai_reports.Prelude.{
  Bool-cases, string_eq, nat_eq, is_empty, filter, all, Text, is_whitespace, put_first, int_eq, ℕ,
  ◌≡◌, refl, ap, ◌∙◌, inl, inr, Bool, true, ◌&&◌, not, List, [], ◌∷◌, arith,
}
use fineract_ai_reports.Dataset.Grammar.{split, split_whitespace, text_beq}

all-put_first :
    (p : ℕ → Bool) (c : ℕ) (pieces : List Text)
    → all (all p) (put_first c pieces) ≡ (p c && all (all p) pieces)
all-put_first p c [] = ground arith
all-put_first p c (piece ∷ pieces) = ground arith

-- If the pieces have only good characters and so are the separators, the text has only good ones.
pub all-split :
    (p stop : ℕ → Bool) (s : Text)
    → ((c : ℕ) → stop c ≡ true → p c ≡ true)
    → all (all p) (split stop s) ≡ all p s
unfolding split
all-split p stop [] sep = refl
all-split p stop (c ∷ cs) sep = elim (Bool-cases (stop c)) [
  | inl t ↦ ground (arith, all-split p stop cs sep, sep c t)
  | inr f ↦ ground (arith, all-split p stop cs sep, all-put_first p c (split stop cs))
]

-- Dropping empty pieces drops no character.
all-filter_full :
    (p : ℕ → Bool) (pieces : List Text)
    → all (all p) (filter (λ word. not (is_empty word)) pieces) ≡ all (all p) pieces
all-filter_full p [] = refl
all-filter_full p ([] ∷ pieces) = all-filter_full p pieces
all-filter_full p ((c ∷ cs) ∷ pieces) = ground (arith, all-filter_full p pieces)

pub all-split_whitespace :
    (p : ℕ → Bool) (s : Text)
    → ((c : ℕ) → is_whitespace c ≡ true → p c ≡ true)
    → all (all p) (split_whitespace s) ≡ all p s
unfolding split_whitespace
all-split_whitespace p s sep =
    all-filter_full p (split is_whitespace s) ∙ all-split p is_whitespace s sep

pub text_beq→≡ : (s t : Text) → text_beq s t ≡ true → s ≡ t
text_beq→≡ [] [] h = refl
text_beq→≡ (c ∷ cs) (d ∷ ds) h =
    let heads : c ≡ d = ground arith in rw heads (ap (λ r. d ∷ r) (text_beq→≡ cs ds (ground arith)))
text_beq→≡ [] (d ∷ ds) h = cc
text_beq→≡ (c ∷ cs) [] h = cc

pub text_beq_refl : (s : Text) → text_beq s s ≡ true
text_beq_refl [] = refl
text_beq_refl (c ∷ cs) = ground (arith, text_beq_refl cs)
