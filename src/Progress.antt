-- ===== src/Progress.antt =====
-- crates/chat/src/job/progress/chunk.rs: rendered markdown is cut into pieces for streaming.
-- A `push` onto the vector of pieces is the head of the list that the rest of the loop returns.
pub mod Lossless
pub mod Packing
pub mod Prose
pub mod Blocks
pub mod Whole
use fineract_ai_reports.Prelude.{
  leb, nat_beq, if◌then◌else◌, nat_eq, string_eq, is_empty, any, Text, codes, is_whitespace,
  byte_len, trim_start, is_blank, starts_with, contains_text, split_inclusive, int_eq, ℕ, Bool,
  false, ◌&&◌, ◌||◌, not, List, [], ◌∷◌, ◌++◌,
}

abbrev pub target_chars : ℕ
target_chars = 48

abbrev pub fence : Text
fence = codes "```"

abbrev pub is_newline : ℕ → Bool
is_newline c = nat_beq c 10

abbrev pub flush : Text → List Text
flush current = if is_empty current then [] else current ∷ []

abbrev pub opens_fence : Text → Bool
opens_fence line = starts_with (trim_start line) fence

-- The loop of `split_blocks` over the lines, with `in_fence` and `current`.
pub block_loop : Bool → Text → List Text → List Text
block_loop in_fence current [] = flush current
block_loop in_fence current (line ∷ rest) =
    let joined = current ++ line in
    let toggled = block_loop (not in_fence) joined rest in
    let closed = joined ∷ block_loop false [] rest in
    let cut = joined ∷ block_loop in_fence [] rest in
    let grown = block_loop in_fence joined rest in
    if opens_fence line
    then (if in_fence then closed else toggled)
    else if not in_fence && is_blank line && not (is_empty current)
    then cut
    else grown

pub split_blocks : Text → List Text
unfolding block_loop split_inclusive starts_with trim_start is_blank
split_blocks markdown = block_loop false [] (split_inclusive is_newline markdown)

-- What `lines` takes off a line's end: its `\n`, and then a `\r` before that.
abbrev strip_last : ℕ → Text → Text
strip_last e [] = []
strip_last e (c ∷ []) = if nat_beq c e then [] else c ∷ []
strip_last e (c ∷ d ∷ cs) = c ∷ strip_last e (d ∷ cs)

abbrev ends_with : ℕ → Text → Bool
ends_with e [] = false
ends_with e (c ∷ []) = nat_beq c e
ends_with e (c ∷ d ∷ cs) = ends_with e (d ∷ cs)

abbrev strip_line : Text → Text
strip_line line = if ends_with 10 line then strip_last 13 (strip_last 10 line) else line

pub is_atomic : Text → Bool
unfolding contains_text split_inclusive trim_start
is_atomic block =
    contains_text block fence
    || any (λ line. starts_with (trim_start (strip_line line)) (codes "|"))
        (split_inclusive is_newline block)

-- The loop of `split_prose` over the words, with `current`.
pub prose_loop : Text → List Text → List Text
prose_loop current [] = flush current
prose_loop current (word ∷ rest) =
    let joined = current ++ word in
    let cut = joined ∷ prose_loop [] rest in
    let grown = prose_loop joined rest in if leb target_chars (byte_len joined) then cut else grown

pub split_prose : Text → List Text
unfolding prose_loop byte_len split_inclusive is_whitespace
split_prose block =
    let chunks = prose_loop [] (split_inclusive is_whitespace block) in
    if is_empty chunks && not (is_empty block) then block ∷ [] else chunks

abbrev pub chunk_block : Text → List Text
chunk_block block = if is_atomic block then block ∷ [] else split_prose block

abbrev pub chunk_blocks : List Text → List Text
chunk_blocks [] = []
chunk_blocks (block ∷ rest) = chunk_block block ++ chunk_blocks rest

pub chunk_markdown : Text → List Text
unfolding split_blocks is_atomic split_prose
chunk_markdown markdown = chunk_blocks (split_blocks markdown)
