-- ===== src/Samples/Expressions.antt =====
-- Examples of Dataset/Grammar, two of them from the tests of grammar.rs.
use fineract_ai_reports.Prelude.{
  string_eq, nat_eq, all, All, ok, err, Text, codes, trim_start, int_eq, ◌≡◌, refl, ◌↔◌, true,
}
use fineract_ai_reports.Dataset.Grammar.{
  unexpected_tokens, split, split_whitespace, is_comma, validate_identifier, validate_sql_expr,
}
use fineract_ai_reports.Dataset.Grammar.Safe.{is_safe, validate_sql_expr_safe}
use fineract_ai_reports.Dataset.Grammar.Accepted.{validate_sql_expr_exact}
use fineract_ai_reports.Dataset.Grammar.Exact.{IsOrderTerm}

accepts_ordering : validate_sql_expr (codes "sac.due ASC NULLS last, sac.id DESC") ≡ ok tt
unfolding validate_sql_expr validate_identifier
accepts_ordering = refl

rejects_union :
    validate_sql_expr (codes "sac.id DESC UNION SELECT 1")
    ≡ err (unexpected_tokens (codes "sac.id DESC UNION SELECT 1"))
unfolding validate_sql_expr validate_identifier trim_start
rejects_union = refl

abbrev ordering : Text
ordering = codes "sac.due ASC NULLS last, sac.id DESC"

validate_sql_expr_safe_example : all is_safe ordering ≡ true
validate_sql_expr_safe_example = validate_sql_expr_safe ordering accepts_ordering

validate_sql_expr_exact_example :
    (validate_sql_expr ordering ≡ ok tt)
    ↔ All (λ term. IsOrderTerm (split_whitespace term)) (split is_comma ordering)
validate_sql_expr_exact_example = validate_sql_expr_exact ordering
