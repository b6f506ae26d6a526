-- ===== src/Progress/Lossless.antt =====
-- The pieces, put one after the other, are the message.
use fineract_ai_reports.Prelude.{
  nat_eq, string_eq, concat, Text, split_inclusive, int_eq, ◌≡◌, refl, ◌∙◌, Bool, false, not, List,
  [], ◌∷◌, ◌++◌, append_assoc, arith, concat-append, is_whitespace, concat-split_inclusive,
  append-nil,
}
use fineract_ai_reports.Progress.{
  block_loop, split_blocks, prose_loop, is_newline, split_prose, chunk_block, chunk_blocks,
  chunk_markdown,
}

concat-block_loop :
    (in_fence : Bool) (current : Text) (lines : List Text)
    → concat (block_loop in_fence current lines) ≡ current ++ concat lines
unfolding block_loop
concat-block_loop f [] [] = refl
concat-block_loop f (c ∷ cs) [] = refl
concat-block_loop f current (line ∷ rest) = ground (
  arith,
  append_assoc current line (concat rest),
  concat-block_loop false [] rest,
  concat-block_loop f [] rest,
  concat-block_loop f (current ++ line) rest,
  concat-block_loop (not f) (current ++ line) rest,
)

pub concat-split_blocks : (s : Text) → concat (split_blocks s) ≡ s
unfolding split_blocks
concat-split_blocks s =
    concat-block_loop false [] (split_inclusive is_newline s) ∙ concat-split_inclusive is_newline s

pub concat-prose_loop :
    (current : Text) (words : List Text)
    → concat (prose_loop current words) ≡ current ++ concat words
unfolding prose_loop
concat-prose_loop [] [] = refl
concat-prose_loop (c ∷ cs) [] = refl
concat-prose_loop current (word ∷ rest) = ground (
  arith,
  append_assoc current word (concat rest),
  concat-prose_loop [] rest,
  concat-prose_loop (current ++ word) rest,
)

pub concat-split_prose : (block : Text) → concat (split_prose block) ≡ block
unfolding split_prose
concat-split_prose block = ground (
  arith,
  concat-prose_loop [] (split_inclusive is_whitespace block),
  concat-split_inclusive is_whitespace block,
  append-nil block,
)

concat-chunk_blocks : (blocks : List Text) → concat (chunk_blocks blocks) ≡ concat blocks
concat-chunk_blocks [] = refl
concat-chunk_blocks (b ∷ bs) =
    concat-append (chunk_block b) (chunk_blocks bs)
    ∙ ground (arith, concat-split_prose b, append-nil b, concat-chunk_blocks bs)

-- Appending the streamed pieces in order gives the markdown back, whatever it holds.
pub concat-chunk_markdown : (markdown : Text) → concat (chunk_markdown markdown) ≡ markdown
unfolding chunk_markdown
concat-chunk_markdown markdown =
    concat-chunk_blocks (split_blocks markdown) ∙ concat-split_blocks markdown
