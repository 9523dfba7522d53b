-- ===== src/BooleanExpr/Total.antt =====
-- crates/common/src/boolean_expr.rs: the parser ends on every input.
use trust_meta.Base.{
  ℕ, zero, suc, ◌+◌, ◌-◌, ◌*◌, ◌≤◌, ◌<◌, ◌≡◌, ◌≢◌, Bool, true, false, ◌&&◌, ◌||◌, [], ◌∷◌, Option,
  length, get_elem?, get_elem?-lt, Option-cases, Bool-cases, inl, inr, Bytes, arith, Empty,
  if◌then◌else◌,
}
use trust_meta.Text.{starts_with}
use trust_meta.BooleanExpr.{BooleanExpr, and, or}
use trust_meta.BooleanExpr.Parser.{
  drop, is_whitespace, peek_char, peeks, skip_from, skip_whitespace, matches_operator_at,
  looks_like_group,
}
use trust_meta.BooleanExpr.Grammar.{
  ParseResult, ok, err, unexpected_token, out_of_fuel, ◌>>=◌, Parsed, op_and, op_or, op_not,
  at_close, at_operator, phrase_end, phrase_result, parse_keyword_phrase, close_group,
  parse_expression, expression_loop, parse_term, term_loop, parse_factor, parse_all,
  parse_boolean_expr,
}

length-drop : (n : ℕ) (xs : Bytes) → length (drop n xs) ≡ length xs - n
unfolding drop
length-drop zero xs = omega arith
length-drop (suc n) [] = omega arith
length-drop (suc n) (x ∷ xs) = omega (arith, length-drop n xs)

skip_from_bounds :
    (rest : Bytes) (pos : ℕ) → (pos ≤ skip_from rest pos) × (skip_from rest pos ≤ pos + length rest)
unfolding skip_from
skip_from_bounds [] pos = (omega arith, omega arith)
skip_from_bounds (ch ∷ rest) pos =
    let (from, to) = skip_from_bounds rest (pos + 1) in
    elim (Bool-cases (is_whitespace ch)) [
      | inl blank ↦ rw blank (omega arith, omega arith)
      | inr other ↦ rw other (omega arith, omega arith)
    ]

starts_with-length :
    (prefix text : Bytes) → starts_with prefix text ≡ true → length prefix ≤ length text
unfolding starts_with
starts_with-length [] text h = omega arith
starts_with-length (p ∷ prefix) [] h = absurd (cc h)
starts_with-length (p ∷ prefix) (x ∷ text) h = ground (arith, starts_with-length prefix text)

module _ (input : Bytes) where
  skip_whitespace_bounds :
      (pos : ℕ)
      → pos ≤ length input
      → (pos ≤ skip_whitespace input pos) × (skip_whitespace input pos ≤ length input)
  unfolding skip_whitespace
  skip_whitespace_bounds pos fits =
      let (from, to) = skip_from_bounds (drop pos input) pos in
      (from, omega (arith, length-drop pos input))

  operator_fits :
      (pos : ℕ) (op : Bytes)
      → pos ≤ length input
      → matches_operator_at input pos op ≡ true
      → pos + length op ≤ length input
  unfolding matches_operator_at
  operator_fits pos op fits h =
      let begins : starts_with op (drop pos input) ≡ true = ground arith in
      let long = starts_with-length op (drop pos input) begins in
      omega (arith, length-drop pos input)

  peeks-lt : (pos c : ℕ) → peeks input pos c ≡ true → pos < length input
  unfolding peeks peek_char
  peeks-lt pos c h = elim (Option-cases (get_elem? input pos)) [
    | inl e ↦ absurd (cc (rw (e, peeks) at h))
    | inr (x, e) ↦ get_elem?-lt input pos e
  ]

  phrase_end_bounds :
      (allow : Bool) (rest : Bytes) (pos : ℕ)
      → (pos ≤ phrase_end input allow rest pos)
        × (phrase_end input allow rest pos ≤ pos + length rest)
  unfolding phrase_end
  phrase_end_bounds allow [] pos = (omega arith, omega arith)
  phrase_end_bounds allow (ch ∷ rest) pos =
      let (from, to) = phrase_end_bounds allow rest (pos + 1) in
      elim (Bool-cases (at_close input allow pos || at_operator input pos)) [
        | inl stop ↦ rw stop (omega arith, omega arith)
        | inr on ↦ rw on (omega arith, omega arith)
      ]

  -- A result that is no lack of fuel, and whose position is from `start` to the input's end.
  abbrev Ends : ℕ → Parsed → Type 0
  Ends start (ok (expr, after)) = (start ≤ after) × (after ≤ length input)
  Ends start (err e) = Unit
  Ends start out_of_fuel = Empty

  Ends-weaken : (start later : ℕ) (r : Parsed) → start ≤ later → Ends later r → Ends start r
  Ends-weaken start later (ok (expr, after)) le (from, to) = (omega arith, to)
  Ends-weaken start later (err e) le h = tt
  Ends-weaken start later out_of_fuel le h = h

  bind-Ends :
      (start : ℕ) (r : Parsed) (f : BooleanExpr × ℕ → Parsed)
      → Ends start r
      → ((expr : BooleanExpr) (after : ℕ)
          → start ≤ after
          → after ≤ length input
          → Ends start (f (expr, after)))
      → Ends start (r >>= f)
  bind-Ends start (ok (expr, after)) f (from, to) next = next expr after from to
  bind-Ends start (err e) f h next = tt
  bind-Ends start out_of_fuel f h next = h

  phrase_result-Ends :
      (start end : ℕ) (phrase : Bytes)
      → start ≤ end
      → end ≤ length input
      → Ends start (phrase_result phrase end)
  unfolding phrase_result
  phrase_result-Ends start end [] from to = tt
  phrase_result-Ends start end (c ∷ cs) from to = (from, to)

  parse_keyword_phrase-Ends :
      (allow : Bool) (pos : ℕ)
      → pos ≤ length input
      → Ends pos (parse_keyword_phrase input allow pos)
  unfolding parse_keyword_phrase
  parse_keyword_phrase-Ends allow pos fits =
      let (from, to) = phrase_end_bounds allow (drop pos input) pos in
      phrase_result-Ends pos (phrase_end input allow (drop pos input) pos) _ from
        (omega (arith, length-drop pos input))

  close_group-Ends :
      (expr : BooleanExpr) (pos : ℕ) → pos ≤ length input → Ends pos (close_group input expr pos)
  unfolding close_group
  close_group-Ends expr pos fits =
      let here = skip_whitespace input pos in
      let (from, to) = skip_whitespace_bounds pos fits in
      elim (Bool-cases (peeks input here b')')) [
        | inl close ↦ rw close (omega arith, omega (arith, peeks-lt here b')' close))
        | inr open_group ↦ rw open_group tt
      ]

  -- With enough fuel for what is left of the input, every parser ends.
  record HasFuel (fuel : ℕ) : Type 0 where
    expression :
        (allow : Bool) (pos : ℕ)
        → pos ≤ length input
        → 3 * (length input - pos) + 3 ≤ fuel
        → Ends pos (parse_expression fuel input allow pos)
    expressions :
        (allow : Bool) (left : BooleanExpr) (pos : ℕ)
        → pos ≤ length input
        → 3 * (length input - pos) + 2 ≤ fuel
        → Ends pos (expression_loop fuel input allow left pos)
    term :
        (allow : Bool) (pos : ℕ)
        → pos ≤ length input
        → 3 * (length input - pos) + 2 ≤ fuel
        → Ends pos (parse_term fuel input allow pos)
    terms :
        (allow : Bool) (left : BooleanExpr) (pos : ℕ)
        → pos ≤ length input
        → 3 * (length input - pos) + 1 ≤ fuel
        → Ends pos (term_loop fuel input allow left pos)
    factor :
        (allow : Bool) (pos : ℕ)
        → pos ≤ length input
        → 3 * (length input - pos) + 1 ≤ fuel
        → Ends pos (parse_factor fuel input allow pos)

  module _ (fuel : ℕ) (v : HasFuel fuel) where
    expression-Ends :
        (allow : Bool) (pos : ℕ)
        → pos ≤ length input
        → 3 * (length input - pos) + 3 ≤ suc fuel
        → Ends pos (parse_expression (suc fuel) input allow pos)
    unfolding parse_expression
    expression-Ends allow pos fits enough =
        bind-Ends pos (parse_term fuel input allow pos) _ (v.term allow pos fits (omega arith))
          (λ left after from to.
            Ends-weaken pos after _ from (v.expressions allow left after to (omega arith)))

    term-Ends :
        (allow : Bool) (pos : ℕ)
        → pos ≤ length input
        → 3 * (length input - pos) + 2 ≤ suc fuel
        → Ends pos (parse_term (suc fuel) input allow pos)
    unfolding parse_expression
    term-Ends allow pos fits enough =
        bind-Ends pos (parse_factor fuel input allow pos) _ (v.factor allow pos fits (omega arith))
          (λ left after from to.
            Ends-weaken pos after _ from (v.terms allow left after to (omega arith)))

    expressions-Ends :
        (allow : Bool) (left : BooleanExpr) (pos : ℕ)
        → pos ≤ length input
        → 3 * (length input - pos) + 2 ≤ suc fuel
        → Ends pos (expression_loop (suc fuel) input allow left pos)
    unfolding parse_expression
    expressions-Ends allow left pos fits enough =
        let here = skip_whitespace input pos in
        let (from, to) = skip_whitespace_bounds pos fits in
        elim (Bool-cases (at_close input allow here)) [
          | inl close ↦ rw (close, expression_loop, Ends) (from, to)
          | inr inside ↦ elim (Bool-cases (matches_operator_at input here op_or)) [
            | inr last ↦ rw (inside, last, expression_loop, Ends) (from, to)
            | inl more ↦
                rw (inside, more, expression_loop, Ends)
                  (let room = operator_fits here op_or to more in
                    let next = here + length op_or in
                    Ends-weaken pos next _ (omega arith) (
                      bind-Ends next (parse_term fuel input allow next) _
                        (v.term allow next room (omega arith))
                        (λ right after from' to'.
                          Ends-weaken next after _ from'
                            (v.expressions allow (or left right) after to' (omega arith)))))
          ]
        ]

    terms-Ends :
        (allow : Bool) (left : BooleanExpr) (pos : ℕ)
        → pos ≤ length input
        → 3 * (length input - pos) + 1 ≤ suc fuel
        → Ends pos (term_loop (suc fuel) input allow left pos)
    unfolding parse_expression
    terms-Ends allow left pos fits enough =
        let here = skip_whitespace input pos in
        let (from, to) = skip_whitespace_bounds pos fits in
        elim (Bool-cases (at_close input allow here)) [
          | inl close ↦ rw (close, term_loop, Ends) (from, to)
          | inr inside ↦ elim (Bool-cases (matches_operator_at input here op_and)) [
            | inr last ↦ rw (inside, last, term_loop, Ends) (from, to)
            | inl more ↦
                rw (inside, more, term_loop, Ends)
                  (let room = operator_fits here op_and to more in
                    let next = here + length op_and in
                    Ends-weaken pos next _ (omega arith) (
                      bind-Ends next (parse_factor fuel input allow next) _
                        (v.factor allow next room (omega arith))
                        (λ right after from' to'.
                          Ends-weaken next after _ from'
                            (v.terms allow (and left right) after to' (omega arith)))))
          ]
        ]

    factor-Ends :
        (allow : Bool) (pos : ℕ)
        → pos ≤ length input
        → 3 * (length input - pos) + 1 ≤ suc fuel
        → Ends pos (parse_factor (suc fuel) input allow pos)
    unfolding parse_expression
    factor-Ends allow pos fits enough =
        let here = skip_whitespace input pos in
        let (from, to) = skip_whitespace_bounds pos fits in
        elim (Bool-cases (matches_operator_at input here op_not)) [
          | inl negated ↦
              rw (negated, parse_factor, Ends)
                (let room = operator_fits here op_not to negated in
                  let next = here + length op_not in
                  Ends-weaken pos next _ (omega arith) (
                    bind-Ends next (parse_factor fuel input allow next) _
                      (v.factor allow next room (omega arith))
                      (λ expr after from' to'. (from', to'))))
          | inr plain ↦ elim (Bool-cases (peeks input here b'(' && looks_like_group input here)) [
            | inr phrase ↦
                rw (plain, phrase, parse_factor, Ends)
                  (Ends-weaken pos here _ from (parse_keyword_phrase-Ends allow here to))
            | inl group ↦
                rw (plain, group, parse_factor, Ends)
                  (let opens : peeks input here b'(' ≡ true = ground arith in
                    let room = peeks-lt here b'(' opens in
                    Ends-weaken pos (here + 1) _ (omega arith) (
                      bind-Ends (here + 1) (parse_expression fuel input true (here + 1)) _
                        (v.expression true (here + 1) (omega arith) (omega arith))
                        (λ expr after from' to'.
                          Ends-weaken (here + 1) after _ from' (close_group-Ends expr after to'))))
          ]
        ]

  has_fuel : (fuel : ℕ) → HasFuel fuel
  has_fuel zero = record {
    expression = λ allow pos fits enough. absurd (omega arith);
    expressions = λ allow left pos fits enough. absurd (omega arith);
    term = λ allow pos fits enough. absurd (omega arith);
    terms = λ allow left pos fits enough. absurd (omega arith);
    factor = λ allow pos fits enough. absurd (omega arith);
  }
  has_fuel (suc fuel) =
      let v = has_fuel fuel in
      record {
        expression = expression-Ends fuel v;
        expressions = expressions-Ends fuel v;
        term = term-Ends fuel v;
        terms = terms-Ends fuel v;
        factor = factor-Ends fuel v;
      }

bind_returns :
    (input : Bytes) (start : ℕ) (r : Parsed) (f : BooleanExpr × ℕ → ParseResult BooleanExpr)
    → Ends input start r
    → ((expr : BooleanExpr) (after : ℕ) → f (expr, after) ≢ out_of_fuel)
    → (r >>= f) ≢ out_of_fuel
bind_returns input start (ok (expr, after)) f ends next = next expr after
bind_returns input start (err e) f ends next = λ h. absurd (cc h)
bind_returns input start out_of_fuel f ends next = λ h. elim ends [ ]

eof_returns :
    (expr : BooleanExpr) (token : Option ℕ) (eof : Bool)
    → (if eof then ok expr else err (unexpected_token token)) ≢ out_of_fuel
eof_returns expr token true = λ h. absurd (cc h)
eof_returns expr token false = λ h. absurd (cc h)

-- On every input the parser returns an expression or an error within the fuel that it is given, so
-- that each of its loops and nested calls ends.
pub parse_boolean_expr_ends : (input : Bytes) → parse_boolean_expr input ≢ out_of_fuel
unfolding parse_boolean_expr parse_all
parse_boolean_expr_ends input =
    let start = skip_whitespace input 0 in
    let (from, to) = skip_whitespace_bounds input 0 (omega arith) in
    let fuel = 3 * length input + 4 in
    bind_returns input start (parse_expression fuel input false start) _
      ((has_fuel input fuel).expression false start to (omega arith))
      (λ expr after. eof_returns expr _ _)
