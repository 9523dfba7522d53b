-- ===== src/BooleanExpr/Parser.antt =====
-- crates/common/src/boolean_expr.rs: the parser's scanner. The input is a list of characters, and a
-- position counts them, where the source counts the bytes of their encoding.
use trust_meta.Base.{
  ℕ, zero, suc, ◌+◌, ◌-◌, Bool, true, false, ◌&&◌, ◌||◌, List, [], ◌∷◌, Option, none, some, length,
  get_elem?, take, leb, ◌==◌, if◌then◌else◌, Bytes, ascii,
}
use trust_meta.Text.{starts_with}

unfoldable pub drop : ℕ → Bytes → Bytes
drop zero xs = xs
drop (suc n) [] = []
drop (suc n) (x ∷ xs) = drop n xs

abbrev pub member : ℕ → List ℕ → Bool
member c [] = false
member c (x ∷ xs) = c == x || member c xs

-- `char::is_whitespace`: the characters of Unicode's property White_Space.
unfoldable pub is_whitespace : ℕ → Bool
is_whitespace ch =
    (leb 9 ch && leb ch 13)
    || (leb 0x2000 ch && leb ch 0x200a)
    || member ch (32 ∷ 0x85 ∷ 0xa0 ∷ 0x1680 ∷ 0x2028 ∷ 0x2029 ∷ 0x202f ∷ 0x205f ∷ 0x3000 ∷ [])

unfoldable pub is_operator_boundary : ℕ → Bool
unfolding is_whitespace
is_operator_boundary ch = is_whitespace ch || member ch (b'(' ∷ b')' ∷ b',' ∷ b';' ∷ [])

-- `.map(Self::is_operator_boundary).unwrap_or(true)`.
unfoldable pub is_boundary : Option ℕ → Bool
unfolding is_operator_boundary
is_boundary none = true
is_boundary (some ch) = is_operator_boundary ch

unfoldable pub is_eof : Bytes → ℕ → Bool
is_eof input pos = leb (length input) pos

unfoldable pub peek_char : Bytes → ℕ → Option ℕ
peek_char input pos = get_elem? input pos

-- `self.peek_char() == Some(ch)`.
unfoldable pub peeks : Bytes → ℕ → ℕ → Bool
unfolding peek_char
peeks input pos ch = elim (peek_char input pos) [ none ↦ false | some c ↦ c == ch ]

-- The loop of `skip_whitespace`, over the characters from `pos` on.
unfoldable pub skip_from : Bytes → ℕ → ℕ
unfolding is_whitespace
skip_from [] pos = pos
skip_from (ch ∷ rest) pos =
    let next = skip_from rest (pos + 1) in if is_whitespace ch then next else pos

unfoldable pub skip_whitespace : Bytes → ℕ → ℕ
unfolding skip_from drop
skip_whitespace input pos = skip_from (drop pos input) pos

unfoldable pub prev_char : Bytes → ℕ → Option ℕ
prev_char input zero = none
prev_char input (suc pos) = get_elem? input pos

unfoldable pub matches_operator_at : Bytes → ℕ → Bytes → Bool
unfolding starts_with drop prev_char is_boundary
matches_operator_at input pos op =
    starts_with op (drop pos input)
    && is_boundary (prev_char input pos)
    && is_boundary (get_elem? input (pos + length op))

-- The loop of `find_matching_paren`. `saturating_sub` is the subtraction.
unfoldable pub paren_from : Bytes → ℕ → ℕ → Option ℕ
paren_from [] depth index = none
paren_from (ch ∷ rest) depth index =
    let depth' = if ch == b'(' then depth + 1 else if ch == b')' then depth - 1 else depth in
    let found = paren_from rest depth' (index + 1) in
    if ch == b')' && depth' == 0 then some index else found

unfoldable pub find_matching_paren : Bytes → ℕ → Option ℕ
unfolding paren_from drop
find_matching_paren input pos = paren_from (drop pos input) 0 pos

abbrev pub operators : List Bytes
operators = ascii "AND" ∷ ascii "OR" ∷ ascii "NOT" ∷ []

-- One operator at `index`, within `start..end`.
unfoldable pub operator_between : Bytes → ℕ → ℕ → ℕ → Bytes → Bool
unfolding starts_with drop prev_char is_boundary
operator_between input start end index op =
    starts_with op (take (end - index) (drop index input))
    && (index == start || is_boundary (prev_char input index))
    && (leb end (index + length op) || is_boundary (get_elem? input (index + length op)))

unfoldable pub any_operator : (Bytes → Bool) → List Bytes → Bool
any_operator test [] = false
any_operator test (op ∷ ops) = test op || any_operator test ops

-- The loop of `contains_top_level_operator`, over `rounds` characters. Its end is a place of the
-- input, so each of them is there.
unfoldable pub operator_from : Bytes → ℕ → ℕ → ℕ → ℕ → Bool
unfolding is_operator_boundary operator_between any_operator
operator_from input start end zero index = false
operator_from input start end (suc rounds) index =
    let later = operator_from input start end rounds (index + 1) in
    elim (get_elem? input index) [
      | none ↦ false
      | some ch ↦
          if is_operator_boundary ch
          then later
          else any_operator (operator_between input start end index) operators || later
    ]

unfoldable pub contains_top_level_operator : Bytes → ℕ → ℕ → Bool
unfolding operator_from
contains_top_level_operator input start end = operator_from input start end (end - start) start

unfoldable pub looks_like_group : Bytes → ℕ → Bool
unfolding peeks find_matching_paren contains_top_level_operator
looks_like_group input pos =
    if peeks input pos b'('
    then elim (find_matching_paren input pos) [
      | none ↦ false
      | some close_pos ↦ contains_top_level_operator input (pos + 1) close_pos
    ]
    else false

-- `str::trim`.
unfoldable pub trim_start : Bytes → Bytes
unfolding is_whitespace
trim_start [] = []
trim_start (ch ∷ rest) =
    let trimmed = trim_start rest in if is_whitespace ch then trimmed else ch ∷ rest

unfoldable pub trim_end : Bytes → Bytes
unfolding is_whitespace
trim_end [] = []
trim_end (ch ∷ rest) = elim (trim_end rest) [
  | [] ↦ if is_whitespace ch then [] else ch ∷ []
  | c ∷ cs ↦ ch ∷ c ∷ cs
]

unfoldable pub trim : Bytes → Bytes
unfolding trim_start trim_end
trim text = trim_end (trim_start text)
