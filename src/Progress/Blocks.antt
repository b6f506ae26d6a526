-- ===== src/Progress/Blocks.antt =====
-- `split_blocks` of crates/chat/src/job/progress/chunk.rs packs whole lines and keeps fences together.
use fineract_ai_reports.Prelude.{
  if◌then◌else◌, Bool-cases, nat_eq, string_eq, is_empty, concat, All-append, Text, is_blank,
  split_inclusive, split_inclusive_full, int_eq, ◌≡◌, refl, sym, inl, inr, Bool, true, false, ◌&&◌,
  not, List, [], ◌∷◌, ◌++◌, append-nil, append_assoc, arith,
}
use fineract_ai_reports.Progress.{is_newline, opens_fence, block_loop, split_blocks}
use fineract_ai_reports.Progress.Packing.{
  Packs, closed, concat-snoc, append_full, IsFull, flush-Packs,
}

-- Whether a line after these is inside a fence.
pub inside_fence : Bool → List Text → Bool
inside_fence f [] = f
inside_fence f (line ∷ rest) = inside_fence (if opens_fence line then not f else f) rest

inside_fence-snoc :
    (f : Bool) (group : List Text) (line : Text)
    → inside_fence f (group ++ line ∷ [])
      ≡ (if opens_fence line then not (inside_fence f group) else inside_fence f group)
unfolding inside_fence
inside_fence-snoc f [] line = refl
inside_fence-snoc f (l ∷ group) line =
    inside_fence-snoc (if opens_fence l then not f else f) group line

-- A group of lines with every fence that it opens closed again.
abbrev pub IsBalanced : List Text → Type 0
IsBalanced group = inside_fence false group ≡ false

abbrev pub IsAny : List Text → Type 0
IsAny group = Unit

block_loop-Packs :
    (before lines : List Text) (f : Bool)
    → IsFull before
    → IsFull lines
    → inside_fence false before ≡ f
    → Packs IsBalanced IsAny (before ++ lines) (block_loop f (concat before) lines)
unfolding block_loop
block_loop-Packs before [] f kept full e = rw append-nil (flush-Packs before kept tt)
block_loop-Packs before (line ∷ rest) f kept full e =
    let kept' = All-append (λ p. is_empty p ≡ false) before (line ∷ []) kept (full.0, tt) in
    let shut : inside_fence false (before ++ line ∷ []) ≡ false
        → Packs IsBalanced IsAny (before ++ line ∷ rest)
            ((concat before ++ line) ∷ block_loop false [] rest) =
      λ now.
        closed (before ++ line ∷ []) rest (concat before ++ line)
          (sym (append_assoc before (line ∷ []) rest)) (concat-snoc before line)
          (append_full (concat before) line full.0) now
          (block_loop-Packs [] rest false tt full.1 (unfold inside_fence in refl)) in
    let grow : (f' : Bool)
        → inside_fence false (before ++ line ∷ []) ≡ f'
        → Packs IsBalanced IsAny (before ++ line ∷ rest)
            (block_loop f' (concat before ++ line) rest) =
      λ f' now.
        rw (concat-snoc before line, ← append_assoc before (line ∷ []) rest)
          (block_loop-Packs (before ++ line ∷ []) rest f' kept' full.1 now) in
    let next = inside_fence-snoc false before line in
    elim (Bool-cases (opens_fence line)) [
      | inl o ↦ elim (Bool-cases f) [
        | inl i ↦ rw (o, i) (shut (ground arith))
        | inr i ↦ rw (o, i) (grow true (ground arith))
      ]
      | inr o ↦ elim (Bool-cases (not f && is_blank line && not (is_empty (concat before)))) [
        | inl c ↦ rw (o, c) (let ff : f ≡ false = ground arith in rw ff (shut (ground arith)))
        | inr c ↦ rw (o, c) (grow f (ground arith))
      ]
    ]

-- Blocks are runs of whole lines in their order, and every block that another one follows has
-- closed each fence that it opened: a fenced block of code is never cut.
pub split_blocks-Packs :
    (markdown : Text)
    → Packs IsBalanced IsAny (split_inclusive is_newline markdown) (split_blocks markdown)
unfolding split_blocks
split_blocks-Packs markdown =
    block_loop-Packs [] (split_inclusive is_newline markdown) false tt
      (split_inclusive_full is_newline markdown) (unfold inside_fence in refl)
