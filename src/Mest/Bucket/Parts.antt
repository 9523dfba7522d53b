-- ===== src/Mest/Bucket/Parts.antt =====
-- crates/storager/ads_lib/src/mest/bucket.rs: a value as the list of its parts.
use trust_meta.Base.{
  ℕ, ◌≡◌, refl, ap, ◌∙◌, true, false, List, [], ◌∷◌, ◌++◌, inl, inr, Bool-cases, Bytes, ◌==◌,
  if◌then◌else◌, arith, length, ◌<◌,
}
use trust_meta.Text.{contains, split_on, has_part}
use trust_meta.Mest.Dotted.{split_on-last}
use trust_meta.Mest.Segment.{merge, parts_of}

split_on-cons :
    (c : ℕ) (xs : Bytes) → (part : Bytes) × (parts : List Bytes) × (split_on c xs ≡ part ∷ parts)
unfolding split_on
split_on-cons c [] = ([], [], refl)
split_on-cons c (x ∷ xs) =
    let (part, parts, is) = split_on-cons c xs in
    elim (Bool-cases (x == c)) [
      | inl same ↦ ([], split_on c xs, rw same refl)
      | inr differs ↦ (x ∷ part, parts, rw (differs, is) refl)
    ]

-- Splitting two texts with the separator between them splits each.
split_on-append :
    (c : ℕ) (xs ys : Bytes) → split_on c (xs ++ c ∷ ys) ≡ split_on c xs ++ split_on c ys
unfolding split_on
split_on-append c [] ys = let same : (c == c) ≡ true = ground arith in rw same refl
split_on-append c (x ∷ xs) ys = elim (Bool-cases (x == c)) [
  | inl same ↦ rw (same, split_on-append c xs ys) refl
  | inr differs ↦
      let (part, parts, is) = split_on-cons c xs in rw (differs, split_on-append c xs ys, is) refl
]

-- For a new value that is not empty and holds no comma, the parts of the merged value are those of
-- the old one, with the new value behind them where it was not among them.
pub merge-parts_of :
    (old newv : Bytes)
    → 0 < length newv
    → contains b',' newv ≡ false
    → parts_of (merge old newv)
      ≡ (if has_part newv (parts_of old) then parts_of old else parts_of old ++ newv ∷ [])
unfolding merge parts_of has_part
merge-parts_of old [] some_text plain = absurd (omega arith)
merge-parts_of [] (d ∷ newv) some_text plain = split_on-last b',' (d ∷ newv) plain
merge-parts_of (c ∷ old) (d ∷ newv) some_text plain =
    elim (Bool-cases (has_part (d ∷ newv) (split_on b',' (c ∷ old)))) [
      | inl there ↦ rw there refl
      | inr fresh ↦ rw fresh (
          split_on-append b',' (c ∷ old) (d ∷ newv)
          ∙ ap (λ t. split_on b',' (c ∷ old) ++ t) (split_on-last b',' (d ∷ newv) plain))
    ]
