-- ===== src/BooleanExpr/Evaluate.antt =====
-- What an expression's files are, file by file, and on which keywords they depend.
use trust_meta.Base.{
  Bool, true, false, not, ◌&&◌, ◌||◌, [], ◌∷◌, ◌++◌, Bytes, bytes_eq, bytes_eq_iff, bytes_eq_refl,
  ◌≡◌, refl, ap, ◌∙◌, ◌⊎◌, inl, inr, Bool-cases,
}
use trust_meta.Assoc.{Assoc}
use trust_meta.BooleanExpr.{
  BooleanExpr, keyword, and, or, negation, Files, has, filter, intersection, union, get_keywords,
  keyword_files, evaluate,
}

absorb : (a b : Bool) → (a || (b && not a)) ≡ (a || b)
absorb true b = refl
absorb false true = refl
absorb false false = refl

or_right : (a b : Bool) → b ≡ true → (a || b) ≡ true
or_right true b h = refl
or_right false b h = h

and_false : (b : Bool) → (b && false) ≡ false
and_false true = refl
and_false false = refl

and_parts : (a b : Bool) → (a && b) ≡ true → (a ≡ true) × (b ≡ true)
and_parts true b h = (refl, h)
and_parts false b h = absurd (cc h)

or_parts : (a b : Bool) → (a || b) ≡ true → (a ≡ true) ⊎ (b ≡ true)
or_parts true b h = inl refl
or_parts false b h = inr h

or_false : (a b : Bool) → (a || b) ≡ false → (a ≡ false) × (b ≡ false)
or_false true b h = absurd (cc h)
or_false false b h = (refl, h)

has-append : (x : Bytes) (xs ys : Files) → has x (xs ++ ys) ≡ (has x xs || has x ys)
unfolding has
has-append x [] ys = refl
has-append x (y ∷ xs) ys = elim (Bool-cases (bytes_eq y x)) [
  | inl same ↦ rw same refl
  | inr other ↦ rw other (has-append x xs ys)
]

has-filter :
    (x : Bytes) (keep : Bytes → Bool) (xs : Files) → has x (filter keep xs) ≡ (has x xs && keep x)
unfolding has filter
has-filter x keep [] = refl
has-filter x keep (y ∷ xs) = elim (Bool-cases (bytes_eq y x)) [
  | inl same ↦
      let is = (bytes_eq_iff y x).0 same in
      elim (Bool-cases (keep x)) [
        | inl kept ↦ rw (is, kept) (rw (bytes_eq_refl x) refl)
        | inr gone ↦
            rw (is, gone)
              (rw (bytes_eq_refl x) (has-filter x keep xs ∙ rw gone (and_false (has x xs))))
      ]
  | inr other ↦ elim (Bool-cases (keep y)) [
    | inl kept ↦ rw (kept, other) (has-filter x keep xs)
    | inr gone ↦ rw (gone, other) (has-filter x keep xs)
  ]
]

has-intersection : (x : Bytes) (xs ys : Files) → has x (intersection xs ys) ≡ (has x xs && has x ys)
unfolding intersection
has-intersection x xs ys = has-filter x (λ y. has y ys) xs

has-union : (x : Bytes) (xs ys : Files) → has x (union xs ys) ≡ (has x xs || has x ys)
unfolding union
has-union x xs ys =
    has-append x xs (filter (λ y. not (has y xs)) ys)
    ∙ ap (λ b. has x xs || b) (has-filter x (λ y. not (has y xs)) ys)
    ∙ absorb (has x xs) (has x ys)

-- Whether an expression selects a file, as the comments on the constructors say: a negation is the
-- complement.
unfoldable pub selects : BooleanExpr → Assoc Files → Bytes → Bool
selects (keyword kw) results file = has file (keyword_files results kw)
selects (and left right) results file = selects left results file && selects right results file
selects (or left right) results file = selects left results file || selects right results file
selects (negation expr) results file = not (selects expr results file)

unfoldable pub has_negation : BooleanExpr → Bool
has_negation (keyword kw) = false
has_negation (and left right) = has_negation left || has_negation right
has_negation (or left right) = has_negation left || has_negation right
has_negation (negation expr) = true

-- Every file in the result of evaluate is one that the expression selects in the sense of the
-- comments on its constructors: an AND selects what both sides do, an OR what one of them does, and
-- a NOT the complement.
pub evaluate-selects :
    (expr : BooleanExpr) (keyword_results : Assoc Files) (file : Bytes)
    → has file (evaluate expr keyword_results) ≡ true
    → selects expr keyword_results file ≡ true
unfolding evaluate selects
evaluate-selects (keyword kw) results file h = h
evaluate-selects (and left right) results file h =
    let both = rw (has-intersection file (evaluate left results) (evaluate right results)) at h in
    let (l, r) = and_parts _ _ both in
    rw (evaluate-selects left results file l, evaluate-selects right results file r) refl
evaluate-selects (or left right) results file h =
    let either = rw (has-union file (evaluate left results) (evaluate right results)) at h in
    elim (or_parts _ _ either) [
      | inl l ↦ rw (evaluate-selects left results file l) refl
      | inr r ↦ or_right _ _ (evaluate-selects right results file r)
    ]
evaluate-selects (negation expr) results file h = absurd (unfold has in cc h)

-- For an expression without a NOT, evaluate has exactly the files that the expression selects:
-- those of a keyword in the map, those of both sides of an AND, and those of either side of an OR.
pub evaluate-selects_plain :
    (expr : BooleanExpr) (keyword_results : Assoc Files) (file : Bytes)
    → has_negation expr ≡ false
    → has file (evaluate expr keyword_results) ≡ selects expr keyword_results file
unfolding evaluate selects has_negation
evaluate-selects_plain (keyword kw) results file plain = refl
evaluate-selects_plain (and left right) results file plain =
    let (l, r) = or_false _ _ plain in
    has-intersection file (evaluate left results) (evaluate right results)
    ∙ rw (evaluate-selects_plain left results file l, evaluate-selects_plain right results file r)
        refl
evaluate-selects_plain (or left right) results file plain =
    let (l, r) = or_false _ _ plain in
    has-union file (evaluate left results) (evaluate right results)
    ∙ rw (evaluate-selects_plain left results file l, evaluate-selects_plain right results file r)
        refl
evaluate-selects_plain (negation expr) results file plain = absurd (cc plain)

-- An expression evaluates to the same files over any two maps that give the keywords of
-- get_keywords the same files.
pub evaluate-get_keywords :
    (expr : BooleanExpr) (results results' : Assoc Files)
    → ((kw : Bytes)
        → has kw (get_keywords expr) ≡ true
        → keyword_files results kw ≡ keyword_files results' kw)
    → evaluate expr results ≡ evaluate expr results'
unfolding evaluate get_keywords
evaluate-get_keywords (keyword kw) results results' agree =
    agree kw (unfold has in (rw (bytes_eq_refl kw) refl))
evaluate-get_keywords (and left right) results results' agree =
    rw
      (
        evaluate-get_keywords left results results'
            (λ kw h. agree kw (rw (has-union kw (get_keywords left) (get_keywords right), h) refl)),
        evaluate-get_keywords right results results' (λ kw h.
            agree kw (has-union kw (get_keywords left) (get_keywords right) ∙ or_right _ _ h)),
      )
      refl
evaluate-get_keywords (or left right) results results' agree =
    rw
      (
        evaluate-get_keywords left results results'
            (λ kw h. agree kw (rw (has-union kw (get_keywords left) (get_keywords right), h) refl)),
        evaluate-get_keywords right results results' (λ kw h.
            agree kw (has-union kw (get_keywords left) (get_keywords right) ∙ or_right _ _ h)),
      )
      refl
evaluate-get_keywords (negation expr) results results' agree = refl
