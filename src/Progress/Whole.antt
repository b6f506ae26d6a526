-- ===== src/Progress/Whole.antt =====
-- `chunk_markdown` of crates/chat/src/job/progress/chunk.rs streams atomic blocks as one piece.
use fineract_ai_reports.Prelude.{
  Bool-cases, nat_eq, string_eq, is_empty, All, ◌∈◌, All-append, mem-append_right, Text, int_eq,
  ◌≡◌, inl, inr, true, false, List, [], ◌∷◌,
}
use fineract_ai_reports.Progress.{
  split_blocks, is_atomic, chunk_block, chunk_blocks, chunk_markdown,
}
use fineract_ai_reports.Progress.Packing.{Packs-full, IsFull}
use fineract_ai_reports.Progress.Prose.{split_prose-Packs}
use fineract_ai_reports.Progress.Blocks.{split_blocks-Packs}

mem-chunk_blocks :
    (blocks : List Text) (b : Text) → is_atomic b ≡ true → b ∈ blocks → b ∈ chunk_blocks blocks
mem-chunk_blocks [] b h m = absurd m
mem-chunk_blocks (c ∷ rest) b h (inl e) = let h' : is_atomic c ≡ true = rw e at h in rw h' (inl e)
mem-chunk_blocks (c ∷ rest) b h (inr m) =
    mem-append_right b (chunk_block c) (chunk_blocks rest) (mem-chunk_blocks rest b h m)

piece-IsFull : (b : Text) → is_empty b ≡ false → IsFull (chunk_block b)
piece-IsFull b h = elim (Bool-cases (is_atomic b)) [
  | inl t ↦ rw t (h, tt)
  | inr f ↦ rw f (Packs-full (split_prose-Packs b))
]

chunk_blocks-IsFull : (blocks : List Text) → IsFull blocks → IsFull (chunk_blocks blocks)
chunk_blocks-IsFull [] h = tt
chunk_blocks-IsFull (b ∷ rest) h =
    All-append (λ p. is_empty p ≡ false) (chunk_block b) (chunk_blocks rest) (piece-IsFull b h.0)
      (chunk_blocks-IsFull rest h.1)

-- No streamed piece is empty, and a block that is only meaningful whole, a table or a fenced
-- block, is streamed as one piece.
pub chunk_markdown_whole :
    (markdown : Text)
    → All (λ p. is_empty p ≡ false) (chunk_markdown markdown)
      × ((b : Text) → b ∈ split_blocks markdown → is_atomic b ≡ true → b ∈ chunk_markdown markdown)
unfolding chunk_markdown
chunk_markdown_whole markdown = (
  chunk_blocks-IsFull (split_blocks markdown) (Packs-full (split_blocks-Packs markdown)),
  λ b m h. mem-chunk_blocks (split_blocks markdown) b h m,
)
