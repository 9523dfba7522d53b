-- ===== src/BooleanExpr/Tests.antt =====
-- The parser of boolean_expr.rs on concrete queries.
use trust_meta.Base.{
  ◌≡◌, ◌≢◌, true, false, inl, inr, Bool-cases, bytes_eq_iff, refl, [], ◌∷◌, Bytes, ascii, bytes_eq,
}
use trust_meta.Text.{starts_with}
use trust_meta.Assoc.{Assoc, get}
use trust_meta.BooleanExpr.{
  BooleanExpr, keyword, and, or, negation, Files, has, union, intersection, filter, get_keywords,
  keyword_files, evaluate,
}
use trust_meta.BooleanExpr.Evaluate.{
  selects, has_negation, evaluate-selects, evaluate-selects_plain, evaluate-get_keywords,
}
use trust_meta.BooleanExpr.Total.{parse_boolean_expr_ends}
use trust_meta.BooleanExpr.Parser.{
  drop, is_whitespace, is_operator_boundary, is_boundary, is_eof, peek_char, peeks, skip_from,
  skip_whitespace, prev_char, matches_operator_at, paren_from, find_matching_paren,
  operator_between, any_operator, operator_from, contains_top_level_operator, looks_like_group,
  trim_start, trim_end, trim,
}
use trust_meta.BooleanExpr.Grammar.{
  ok, out_of_fuel, at_close, at_operator, phrase_end, phrase_between, parse_keyword_phrase,
  phrase_result, close_group, parse_expression, parse_all, parse_boolean_expr,
}

program : Unit {0}
unfolding starts_with drop is_whitespace is_operator_boundary is_boundary is_eof peek_char peeks
    skip_from skip_whitespace prev_char matches_operator_at paren_from find_matching_paren
    operator_between any_operator operator_from contains_top_level_operator looks_like_group
    trim_start trim_end trim at_close at_operator phrase_end phrase_between phrase_result
    parse_keyword_phrase close_group parse_expression parse_all parse_boolean_expr
program = tt

group_and_not :
    parse_boolean_expr (ascii "(rust OR go) AND NOT C")
    ≡ ok (and (or (keyword (ascii "rust")) (keyword (ascii "go"))) (negation (keyword (ascii "C"))))
unfolding program
group_and_not = refl

-- A keyword in parentheses without an operator is a phrase.
phrase : parse_boolean_expr (ascii " f(x) ORB ") ≡ ok (keyword (ascii "f(x) ORB"))
unfolding program
phrase = refl

parse_boolean_expr_ends_example : parse_boolean_expr (ascii "NOT (a AND") ≢ out_of_fuel
parse_boolean_expr_ends_example = parse_boolean_expr_ends (ascii "NOT (a AND")

abbrev query : BooleanExpr
query = and (keyword (ascii "rust")) (or (keyword (ascii "go")) (keyword (ascii "c")))

abbrev results : Assoc Files
results = (ascii "rust", ascii "1" ∷ ascii "2" ∷ []) ∷ (ascii "go", ascii "2" ∷ []) ∷ []

abbrev more_results : Assoc Files
more_results = (ascii "zig", ascii "3" ∷ []) ∷ results

-- A query with a negation, which the files of another keyword answer.
abbrev negated : BooleanExpr
negated = or (keyword (ascii "go")) (negation (keyword (ascii "rust")))

go_found : has (ascii "2") (evaluate negated results) ≡ true
unfolding evaluate keyword_files get has union filter bytes_eq
go_found = refl

evaluate-selects_example : selects negated results (ascii "2") ≡ true
evaluate-selects_example = evaluate-selects negated results (ascii "2") go_found

no_negation : has_negation query ≡ false
unfolding has_negation
no_negation = refl

evaluate-selects_plain_example :
    has (ascii "2") (evaluate query results) ≡ selects query results (ascii "2")
evaluate-selects_plain_example = evaluate-selects_plain query results (ascii "2") no_negation

-- The query of the module's comment has no results, though it selects the file 1.
abbrev and_not : BooleanExpr
and_not = and (keyword (ascii "rust")) (negation (keyword (ascii "go")))

and_not_empty : (evaluate and_not results ≡ []) × (selects and_not results (ascii "1") ≡ true)
unfolding evaluate selects intersection keyword_files get has filter bytes_eq
and_not_empty = (refl, refl)

no_zig : has (ascii "zig") (get_keywords query) ≢ true
unfolding has get_keywords union filter bytes_eq
no_zig h = cc h

same_files :
    (kw : Bytes)
    → has kw (get_keywords query) ≡ true
    → keyword_files results kw ≡ keyword_files more_results kw
unfolding keyword_files get bytes_eq
same_files kw h = elim (Bool-cases (bytes_eq (ascii "zig") kw)) [
  | inr other ↦ rw other refl
  | inl same ↦ absurd (no_zig (rw (← (bytes_eq_iff (ascii "zig") kw).0 same) at h))
]

evaluate-get_keywords_example : evaluate query results ≡ evaluate query more_results
evaluate-get_keywords_example = evaluate-get_keywords query results more_results same_files
