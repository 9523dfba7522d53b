-- ===== src/BooleanExpr.antt =====
-- crates/common/src/boolean_expr.rs: queries of keywords, what they mean over sets of files, and how
-- they print. The parser is in Parser and Grammar.
pub mod Evaluate
pub mod Parser
pub mod Grammar
pub mod Total
mod Tests
use trust_meta.Base.{
  ℕ, Bool, true, false, not, List, [], ◌∷◌, ◌++◌, Option, none, some, Bytes, bytes_eq, ascii,
  if◌then◌else◌,
}
use trust_meta.Assoc.{Assoc, get}

pub data BooleanExpr : Type 0 where
  keyword : Bytes → BooleanExpr
  and : BooleanExpr → BooleanExpr → BooleanExpr
  or : BooleanExpr → BooleanExpr → BooleanExpr
  negation : BooleanExpr → BooleanExpr

-- A `HashSet<String>` is a list of its elements in the order of iteration.
abbrev pub Files : Type 0
Files = List Bytes

unfoldable pub has : Bytes → Files → Bool
has x [] = false
has x (y ∷ ys) = let rest = has x ys in if bytes_eq y x then true else rest

unfoldable pub filter : (Bytes → Bool) → Files → Files
filter keep [] = []
filter keep (x ∷ xs) = let rest = filter keep xs in if keep x then x ∷ rest else rest

-- `intersection`, and `union` or `extend`.
unfoldable pub intersection : Files → Files → Files
unfolding has filter
intersection xs ys = filter (λ x. has x ys) xs

unfoldable pub union : Files → Files → Files
unfolding has filter
union xs ys = xs ++ filter (λ y. not (has y xs)) ys

unfoldable pub get_keywords : BooleanExpr → Files
unfolding union
get_keywords (keyword kw) = kw ∷ []
get_keywords (and left right) = union (get_keywords left) (get_keywords right)
get_keywords (or left right) = union (get_keywords left) (get_keywords right)
get_keywords (negation expr) = get_keywords expr

-- `keyword_results.get(kw).cloned().unwrap_or_default()`.
unfoldable pub keyword_files : Assoc Files → Bytes → Files
unfolding get
keyword_files keyword_results kw = elim (get kw keyword_results) [ none ↦ [] | some files ↦ files ]

unfoldable pub evaluate : BooleanExpr → Assoc Files → Files
unfolding keyword_files intersection union
evaluate (keyword kw) keyword_results = keyword_files keyword_results kw
evaluate (and left right) keyword_results =
    intersection (evaluate left keyword_results) (evaluate right keyword_results)
evaluate (or left right) keyword_results =
    union (evaluate left keyword_results) (evaluate right keyword_results)
evaluate (negation expr) keyword_results = []

unfoldable pub to_string : BooleanExpr → Bytes
to_string (keyword kw) = kw
to_string (and left right) =
    ascii "(" ++ to_string left ++ ascii " AND " ++ to_string right ++ ascii ")"
to_string (or left right) =
    ascii "(" ++ to_string left ++ ascii " OR " ++ to_string right ++ ascii ")"
to_string (negation expr) = ascii "(NOT " ++ to_string expr ++ ascii ")"
