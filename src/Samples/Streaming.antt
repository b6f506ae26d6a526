-- ===== src/Samples/Streaming.antt =====
-- Examples of Progress.
use fineract_ai_reports.Prelude.{nat_eq, string_eq, concat, Text, codes, int_eq, ◌≡◌}
use fineract_ai_reports.Progress.{chunk_markdown}
use fineract_ai_reports.Progress.Lossless.{concat-chunk_markdown}

abbrev report : Text
report = codes "Two loans.\n\n```\nid\n```\n| a | b |"

concat-chunk_markdown_example : concat (chunk_markdown report) ≡ report
concat-chunk_markdown_example = concat-chunk_markdown report
