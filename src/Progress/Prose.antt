-- ===== src/Progress/Prose.antt =====
-- `split_prose` of crates/chat/src/job/progress/chunk.rs packs whole words.
use fineract_ai_reports.Prelude.{
  leb, leb→le, Bool-cases, nat_eq, string_eq, is_empty, concat, All-append, Text, is_whitespace,
  byte_len, split_inclusive, concat-split_inclusive, split_inclusive_full, int_eq, ◌≤◌, ◌<◌, ◌≡◌,
  refl, sym, inl, inr, true, false, ◌&&◌, not, List, [], ◌∷◌, ◌++◌, append-nil, append_assoc, arith,
}
use fineract_ai_reports.Progress.{target_chars, prose_loop, split_prose}
use fineract_ai_reports.Progress.Packing.{
  Packs, closed, concat-snoc, append_full, IsFull, concat_empty, flush-Packs,
}
use fineract_ai_reports.Progress.Lossless.{concat-prose_loop}

-- The group ends with the word that takes it to the target length, and not before.
pub record Filled (group : List Text) : Type 0 where
  pub before : List Text
  pub last : Text
  pub splits : group ≡ before ++ last ∷ []
  pub short_before : byte_len (concat before) < target_chars
  pub long : target_chars ≤ byte_len (concat group)

abbrev pub IsShort : List Text → Type 0
IsShort group = byte_len (concat group) < target_chars

prose_loop-Packs :
    (before words : List Text)
    → IsFull before
    → IsFull words
    → IsShort before
    → Packs Filled IsShort (before ++ words) (prose_loop (concat before) words)
unfolding prose_loop
prose_loop-Packs before [] kept full short = rw append-nil (flush-Packs before kept short)
prose_loop-Packs before (word ∷ rest) kept full short =
    elim (Bool-cases (leb target_chars (byte_len (concat before ++ word)))) [
      | inl long ↦ rw long (
          closed (before ++ word ∷ []) rest (concat before ++ word)
            (sym (append_assoc before (word ∷ []) rest)) (concat-snoc before word)
            (append_full (concat before) word full.0)
            (record {
              before = before;
              last = word;
              splits = refl;
              short_before = short;
              long = rw (← concat-snoc before word) (leb→le _ _ long);
            })
            (prose_loop-Packs [] rest tt full.1 (unfold byte_len in omega arith)))
      | inr f ↦
          rw (f, concat-snoc before word, ← append_assoc before (word ∷ []) rest)
            (prose_loop-Packs (before ++ word ∷ []) rest
              (All-append (λ p. is_empty p ≡ false) before (word ∷ []) kept (full.0, tt)) full.1
              (rw (← concat-snoc before word) (ground arith)))
    ]

-- The pieces of prose are whole words in their order; each piece but the last is the shortest run
-- of words that takes at least `target_chars` bytes, and the last one may be shorter.
pub split_prose-Packs :
    (block : Text) → Packs Filled IsShort (split_inclusive is_whitespace block) (split_prose block)
unfolding split_prose
split_prose-Packs block =
    let packs =
      prose_loop-Packs [] (split_inclusive is_whitespace block) tt
        (split_inclusive_full is_whitespace block) (unfold byte_len in omega arith) in
    elim (Bool-cases
      (is_empty (prose_loop [] (split_inclusive is_whitespace block)) && not (is_empty block))) [
        | inl t ↦ absurd (never t)
        | inr f ↦ rw f packs
      ]
  where
    never : ¬ (
        (is_empty (prose_loop [] (split_inclusive is_whitespace block)) && not (is_empty block))
        ≡ true)
    never t = ground (
      arith,
      concat_empty (prose_loop [] (split_inclusive is_whitespace block)),
      concat-prose_loop [] (split_inclusive is_whitespace block),
      concat-split_inclusive is_whitespace block,
    )
