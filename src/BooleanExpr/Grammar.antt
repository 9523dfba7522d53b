-- ===== src/BooleanExpr/Grammar.antt =====
-- crates/common/src/boolean_expr.rs: the recursive descent parser, on fuel.
use trust_meta.Base.{
  ℕ, zero, suc, ◌+◌, ◌-◌, ◌*◌, Bool, true, false, ◌&&◌, ◌||◌, [], ◌∷◌, Option, length, take,
  if◌then◌else◌, Bytes, ascii,
}
use trust_meta.BooleanExpr.{BooleanExpr, keyword, and, or, negation}
use trust_meta.BooleanExpr.Parser.{
  drop, is_eof, peek_char, peeks, skip_whitespace, matches_operator_at, looks_like_group, trim,
}

pub data ParseError : Type 0 where
  expected_keyword : ParseError
  expected_close : ParseError
  unexpected_token : Option ℕ → ParseError

-- `Result`, or the end of the model's fuel.
pub data ParseResult {ℓ} (A : Type ℓ) : Type ℓ where
  ok : A → ParseResult A
  err : ParseError → ParseResult A
  out_of_fuel : ParseResult A

infixl 5 ◌>>=◌
abbrev pub ◌>>=◌ {ℓ κ} :
    {A : Type ℓ} {B : Type κ} → ParseResult A → (A → ParseResult B) → ParseResult B
ok a >>= f = f a
err e >>= f = err e
out_of_fuel >>= f = out_of_fuel

-- An expression, and the position after it.
abbrev pub Parsed : Type 0
Parsed = ParseResult (BooleanExpr × ℕ)

abbrev pub op_and : Bytes
op_and = ascii "AND"

abbrev pub op_or : Bytes
op_or = ascii "OR"

abbrev pub op_not : Bytes
op_not = ascii "NOT"

-- `allow_right_paren && self.peek_char() == Some(')')`.
unfoldable pub at_close : Bytes → Bool → ℕ → Bool
unfolding peeks
at_close input allow_right_paren pos = allow_right_paren && peeks input pos b')'

unfoldable pub at_operator : Bytes → ℕ → Bool
unfolding matches_operator_at
at_operator input pos =
    matches_operator_at input pos op_and
    || matches_operator_at input pos op_or
    || matches_operator_at input pos op_not

-- The loop of `parse_keyword_phrase`, over the characters from `pos` on: where the phrase ends.
unfoldable pub phrase_end : Bytes → Bool → Bytes → ℕ → ℕ
unfolding at_close at_operator
phrase_end input allow_right_paren [] pos = pos
phrase_end input allow_right_paren (ch ∷ rest) pos =
    let next = phrase_end input allow_right_paren rest (pos + 1) in
    if at_close input allow_right_paren pos || at_operator input pos then pos else next

unfoldable pub phrase_between : Bytes → ℕ → ℕ → Bytes
unfolding trim drop
phrase_between input start end = trim (take (end - start) (drop start input))

-- The phrase, trimmed, up to `end`.
unfoldable pub phrase_result : Bytes → ℕ → Parsed
phrase_result [] end = err expected_keyword
phrase_result (c ∷ cs) end = ok (keyword (c ∷ cs), end)

unfoldable pub parse_keyword_phrase : Bytes → Bool → ℕ → Parsed
unfolding phrase_end phrase_between phrase_result drop
parse_keyword_phrase input allow_right_paren start =
    let end = phrase_end input allow_right_paren (drop start input) start in
    phrase_result (phrase_between input start end) end

-- The closing parenthesis of a group.
unfoldable pub close_group : Bytes → BooleanExpr → ℕ → Parsed
unfolding skip_whitespace peeks
close_group input expr pos =
    let close = skip_whitespace input pos in
    if peeks input close b')' then ok (expr, close + 1) else err expected_close

unfoldable mutual
  unfolding at_close matches_operator_at skip_whitespace peeks looks_like_group parse_keyword_phrase
      close_group

  pub parse_expression : ℕ → Bytes → Bool → ℕ → Parsed
  parse_expression zero input allow_right_paren pos = out_of_fuel
  parse_expression (suc fuel) input allow_right_paren pos = do
    (left, after) ← parse_term fuel input allow_right_paren pos
    expression_loop fuel input allow_right_paren left after

  -- The loop of `parse_expression`.
  pub expression_loop : ℕ → Bytes → Bool → BooleanExpr → ℕ → Parsed
  expression_loop zero input allow_right_paren left pos = out_of_fuel
  expression_loop (suc fuel) input allow_right_paren left pos =
      let here = skip_whitespace input pos in
      elim (at_close input allow_right_paren here) [
        | true ↦ ok (left, here)
        | false ↦ elim (matches_operator_at input here op_or) [
          | false ↦ ok (left, here)
          | true ↦ do
            (right, after) ← parse_term fuel input allow_right_paren (here + length op_or)
            expression_loop fuel input allow_right_paren (or left right) after
        ]
      ]

  pub parse_term : ℕ → Bytes → Bool → ℕ → Parsed
  parse_term zero input allow_right_paren pos = out_of_fuel
  parse_term (suc fuel) input allow_right_paren pos = do
    (left, after) ← parse_factor fuel input allow_right_paren pos
    term_loop fuel input allow_right_paren left after

  -- The loop of `parse_term`.
  pub term_loop : ℕ → Bytes → Bool → BooleanExpr → ℕ → Parsed
  term_loop zero input allow_right_paren left pos = out_of_fuel
  term_loop (suc fuel) input allow_right_paren left pos =
      let here = skip_whitespace input pos in
      elim (at_close input allow_right_paren here) [
        | true ↦ ok (left, here)
        | false ↦ elim (matches_operator_at input here op_and) [
          | false ↦ ok (left, here)
          | true ↦ do
            (right, after) ← parse_factor fuel input allow_right_paren (here + length op_and)
            term_loop fuel input allow_right_paren (and left right) after
        ]
      ]

  pub parse_factor : ℕ → Bytes → Bool → ℕ → Parsed
  parse_factor zero input allow_right_paren pos = out_of_fuel
  parse_factor (suc fuel) input allow_right_paren pos =
      let here = skip_whitespace input pos in
      elim (matches_operator_at input here op_not) [
        | true ↦ do
          (expr, after) ← parse_factor fuel input allow_right_paren (here + length op_not)
          ok (negation expr, after)
        | false ↦ elim (peeks input here b'(' && looks_like_group input here) [
          | true ↦ do
            (expr, after) ← parse_expression fuel input true (here + 1)
            close_group input expr after
          | false ↦ parse_keyword_phrase input allow_right_paren here
        ]
      ]

-- `parse`: what is left after the expression is an error.
unfoldable pub parse_all : ℕ → Bytes → ParseResult BooleanExpr
unfolding skip_whitespace parse_expression is_eof peek_char
parse_all fuel input = do
  (expr, after) ← parse_expression fuel input false (skip_whitespace input 0)
  let end = skip_whitespace input after
  if is_eof input end then ok expr else err (unexpected_token (peek_char input end))

unfoldable pub parse_boolean_expr : Bytes → ParseResult BooleanExpr
unfolding parse_all
parse_boolean_expr input = parse_all (3 * length input + 4) input
