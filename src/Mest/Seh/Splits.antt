-- ===== src/Mest/Seh/Splits.antt =====
-- crates/storager/ads_lib/src/mest/seh.rs: a split of a bucket leaves a directory with the same values.
use mathlib.Core.List.{reverse}
use mathlib.Core.Option.{some-injective}
use trust_meta.Base.{
  ℕ, suc, ◌<◌, ◌≤◌, ◌≡◌, refl, sym, ap, ◌∙◌, true, false, List, [], ◌∷◌, ◌++◌, Option, none, some,
  length, length-append, get_elem?, get_elem?-some, inl, inr, Bool-cases, Bytes, bytes_eq,
  bytes_eq_iff, ltb, ◌==◌, ==_iff, if◌then◌else◌, done, done-injective, bind-done, arith,
}
use trust_meta.Assoc.{Assoc, get}
use trust_meta.Mest.Digits.{digit_at_mixed, digits_prefix_mixed, digit_at_mixed-lt}
use trust_meta.Mest.Dotted.{dotted, dotted-injective}
use trust_meta.Mest.Segment.{segment_key}
use trust_meta.Mest.Bucket.{Bucket, child_bucket, get_value, get_segment_key, find_in, value_at}
use trust_meta.Mest.Bucket.Gather.{valid-get_value}
use trust_meta.Mest.Bucket.Split.{IsSplit, split_bucket-IsSplit}
use trust_meta.Mest.Seh.{Seh, with_children, split_at}
use trust_meta.Mest.Seh.Directory.{
  IsLeaf, IsDirectory, path, length-digits, digits-small, digits-suc, find_value, find_value-path,
}
use trust_meta.Mest.Seh.Children.{
  its_digits, its_depth, child_digits-small, shares, child_path, child_small, child_reverse, table,
  table-child, table-others, table-cases,
}

-- A table with other buckets and another depth.
abbrev pub with_table : Seh → Assoc Bucket → ℕ → Seh
with_table seh ht gd = record seh { ht = ht; gd = gd }

module _ (sha256 : Bytes → Bytes) (seh : Seh) (dir : IsDirectory sha256 seh) (key : Bytes) (n : ℕ)
    (b : Bucket) (at : get (path seh.rdx key n) seh.ht ≡ some b) (children : List Bucket)
    (many : length children ≡ b.rdx)
    (all : (d : ℕ) (child : Bucket) → get_elem? children d ≡ some child → IsSplit sha256 b d child)
    (gd : ℕ) (deeper : suc n ≤ gd) (as_deep : seh.gd ≤ gd) where
  abbrev ht' : Assoc Bucket
  ht' = table sha256 seh dir key n b at children many all

  abbrev seh' : Seh
  seh' = with_table seh ht' gd

  old-IsLeaf : IsLeaf sha256 seh (path seh.rdx key n) b
  old-IsLeaf = dir.leaf (path seh.rdx key n) b at

  -- The child that a key of the bucket goes to.
  child_of :
      (k : Bytes)
      → path seh.rdx k n ≡ path seh.rdx key n
      → (c : Bucket) × (get_elem? children (digit_at_mixed k seh.rdx n) ≡ some c)
        × (get (path seh.rdx k (suc n)) ht' ≡ some c)
  child_of k same =
      let small = digit_at_mixed-lt k seh.rdx n dir.positive in
      let rdx = old-IsLeaf.rdx in
      let (c, at_d) =
        get_elem?-some children (digit_at_mixed k seh.rdx n) (omega (arith, small, many, rdx)) in
      (
        c,
        at_d,
        ap (λ t. get t ht') (child_path sha256 seh dir key n b at k same)
            ∙ table-child sha256 seh dir key n b at children many all (digit_at_mixed k seh.rdx n) c
                at_d,
      )

  child-get_value :
      (k : Bytes) (c : Bucket) (old : Option Bytes)
      → get_elem? children (digit_at_mixed k seh.rdx n) ≡ some c
      → get_value b k ≡ done old
      → get_value c k ≡ done old
  child-get_value k c old at_d was =
      let split = all (digit_at_mixed k seh.rdx n) c at_d in
      let digit : digit_at_mixed k b.rdx b.ld ≡ digit_at_mixed k seh.rdx n =
        ap (λ r. digit_at_mixed k r b.ld) old-IsLeaf.rdx
        ∙ ap (digit_at_mixed k seh.rdx) (its_depth sha256 seh dir key n b at) in
      let here : (digit_at_mixed k seh.rdx n == digit_at_mixed k b.rdx b.ld) ≡ true =
        (==_iff _ _).1 (sym digit) in
      split.values k old was ∙ ap (λ t. done (if t then old else none)) here

  -- The bucket of a key in the new directory, with the value that it had.
  located :
      (k : Bytes)
      → (m : ℕ) × (c : Bucket) × (m ≤ gd)
        × (get (path seh.rdx k m) ht' ≡ some c)
        × ((old : Option Bytes) → find_value seh k ≡ done old → get_value c k ≡ done old)
  located k =
      let (m, c, le, was_at) = dir.covered k in
      let found = find_value-path sha256 seh dir k m c le was_at in
      elim (Bool-cases (bytes_eq (path seh.rdx k m) (path seh.rdx key n))) [
        | inr differs ↦ (
          m,
          c,
          omega (arith, as_deep, le),
          table-others sha256 seh dir key n b at children many all k m c differs was_at,
          λ old was. sym found ∙ was,
        )
        | inl same ↦
            let is = (bytes_eq_iff (path seh.rdx k m) (path seh.rdx key n)).0 same in
            let lists =
              dotted-injective (digits_prefix_mixed k seh.rdx m) (digits_prefix_mixed key seh.rdx n)
                (digits-small k seh.rdx m dir.positive dir.i32)
                (digits-small key seh.rdx n dir.positive dir.i32) is in
            let level : m ≡ n =
              sym (length-digits k seh.rdx m) ∙ ap length lists ∙ length-digits key seh.rdx n in
            let it : c ≡ b = some-injective c b (sym was_at ∙ ap (λ t. get t seh.ht) is ∙ at) in
            let (e, at_d, at_e) = child_of k (ap (path seh.rdx k) (sym level) ∙ is) in
            (
              suc n,
              e,
              deeper,
              at_e,
              λ old was.
                  child-get_value k e old at_d (ap (λ x. get_value x k) (sym it) ∙ sym found ∙ was),
            )
      ]

  -- A key of the bucket has no other bucket that stays.
  none_stays :
      (k : Bytes) (m : ℕ) (c : Bucket)
      → path seh.rdx k n ≡ path seh.rdx key n
      → bytes_eq (path seh.rdx k m) (path seh.rdx key n) ≡ false
      → get (path seh.rdx k m) seh.ht ≡ some c
      → ⊥
  none_stays k m c shared differs before =
      let level = dir.unique k n m b c (ap (λ t. get t seh.ht) shared ∙ at) before in
      let same : path seh.rdx k m ≡ path seh.rdx key n = ap (path seh.rdx k) (sym level) ∙ shared in
      cc ((bytes_eq_iff (path seh.rdx k m) (path seh.rdx key n)).1 same, differs)

  new_unique :
      (k : Bytes) (m m' : ℕ) (c c' : Bucket)
      → get (path seh.rdx k m) ht' ≡ some c
      → get (path seh.rdx k m') ht' ≡ some c'
      → m ≡ m'
  new_unique k m m' c c' at_m at_m' =
      let cases = table-cases sha256 seh dir key n b at children many all in
      elim (cases (path seh.rdx k m) c at_m) [
        | inl (d, at_d, is) ↦
            let (level, shared, _) =
              shares sha256 seh dir key n b at k m d
                (child_small sha256 seh dir key n b at children many all d c at_d) is in
            elim (cases (path seh.rdx k m') c' at_m') [
              | inl (d', at_d', is') ↦
                  let (level', _, _) =
                    shares sha256 seh dir key n b at k m' d'
                      (child_small sha256 seh dir key n b at children many all d' c' at_d') is' in
                  level ∙ sym level'
              | inr (differs, before) ↦ absurd (none_stays k m' c' shared differs before)
            ]
        | inr (differs, before) ↦ elim (cases (path seh.rdx k m') c' at_m') [
          | inl (d', at_d', is') ↦
              let (_, shared, _) =
                shares sha256 seh dir key n b at k m' d'
                  (child_small sha256 seh dir key n b at children many all d' c' at_d') is' in
              absurd (none_stays k m c shared differs before)
          | inr (differs', before') ↦ dir.unique k m m' c c' before before'
        ]
      ]

  -- The keys of a child share its digits.
  child-owned :
      (d : ℕ) (c : Bucket)
      → get_elem? children d ≡ some c
      → (k value : Bytes) → get_value c k ≡ done (some value)
      → digits_prefix_mixed k seh.rdx c.ld ≡ reverse c.bucket_key
  unfolding child_bucket get_value get_segment_key
  child-owned d c at_d k value has =
      let split = all d c at_d in
      let (sk, its, _) = bind-done (segment_key c.seg_num k) (λ s. value_at (find_in c s k)) has in
      let (old, was) =
        valid-get_value sha256 b old-IsLeaf.valid k sk
          (ap (λ x. segment_key x k) (sym split.frame.seg_num) ∙ its) in
      let value_is = done-injective (sym (split.values k old was) ∙ has) in
      let rev = child_reverse sha256 seh dir key n b at children many all d c at_d in
      elim (Bool-cases (d == digit_at_mixed k b.rdx b.ld)) [
        | inr away ↦ absurd (cc (ap (λ t. if t then old else none) (sym away) ∙ value_is))
        | inl here ↦
            let kept : old ≡ some value = ap (λ t. if t then old else none) (sym here) ∙ value_is in
            let front =
              old-IsLeaf.owned k value (was ∙ ap done kept)
              ∙ its_digits sha256 seh dir key n b at in
            let last : digit_at_mixed k seh.rdx b.ld ≡ d =
              ap (λ r. digit_at_mixed k r b.ld) (sym old-IsLeaf.rdx) ∙ sym ((==_iff _ _).0 here) in
            let ld : c.ld ≡ suc b.ld = split.frame.ld ∙ (omega arith) in
            ap (digits_prefix_mixed k seh.rdx) ld
            ∙ digits-suc k seh.rdx b.ld
            ∙ ap (λ xs. xs ++ digit_at_mixed k seh.rdx b.ld ∷ []) front
            ∙ ap (λ x. digits_prefix_mixed key seh.rdx n ++ x ∷ []) last
            ∙ sym rev
      ]

  child-IsLeaf :
      (text : Bytes) (d : ℕ) (c : Bucket)
      → get_elem? children d ≡ some c
      → text ≡ dotted (digits_prefix_mixed key seh.rdx n ++ d ∷ [])
      → IsLeaf sha256 seh' text c
  unfolding child_bucket
  child-IsLeaf text d c at_d is =
      let split = all d c at_d in
      let rev = child_reverse sha256 seh dir key n b at children many all d c at_d in
      let ld = its_depth sha256 seh dir key n b at in
      record {
        its_text = is ∙ ap dotted (sym rev);
        small = rw rev (
            child_digits-small sha256 seh dir key n b at d
              (child_small sha256 seh dir key n b at children many all d c at_d));
        depth = omega (
          arith,
          split.frame.ld,
          ld,
          ap length rev,
          length-append (digits_prefix_mixed key seh.rdx n) (d ∷ []),
          length-digits key seh.rdx n,
        );
        rdx = split.frame.rdx ∙ old-IsLeaf.rdx;
        capacity = split.frame.capacity ∙ old-IsLeaf.capacity;
        seg_num = split.frame.seg_num ∙ old-IsLeaf.seg_num;
        valid = split.valid;
        owned = λ k value has. child-owned d c at_d k value has;
      }

  pub table-IsDirectory : IsDirectory sha256 seh'
  table-IsDirectory = record {
    positive = dir.positive;
    i32 = dir.i32;
    counted = dir.counted;
    leaf = λ text c there.
        elim (table-cases sha256 seh dir key n b at children many all text c there) [
          | inl (d, at_d, is) ↦ child-IsLeaf text d c at_d is
          | inr (_, before) ↦
              let l = dir.leaf text c before in
              record {
                its_text = l.its_text;
                small = l.small;
                depth = l.depth;
                rdx = l.rdx;
                capacity = l.capacity;
                seg_num = l.seg_num;
                valid = l.valid;
                owned = l.owned;
              }
        ];
    covered = λ k. let (m, c, le, there, _) = located k in (m, c, le, there);
    unique = new_unique;
  }

  pub table-find_value :
      (k : Bytes) (old : Option Bytes) → find_value seh k ≡ done old → find_value seh' k ≡ done old
  table-find_value k old was =
      let (m, c, le, there, value) = located k in
      find_value-path sha256 seh' table-IsDirectory k m c le there ∙ value old was

  pub table-key : (c : Bucket) × (get (path seh.rdx key (suc n)) ht' ≡ some c)
  table-key = let (c, _, there) = child_of key refl in (c, there)

module _ (sha256 : Bytes → Bytes) (seh : Seh) (dir : IsDirectory sha256 seh) (key : Bytes) (n : ℕ)
    (b : Bucket) (at : get (path seh.rdx key n) seh.ht ≡ some b) where
  with_children-table :
      (children : List Bucket) (many : length children ≡ b.rdx)
      (all : (d : ℕ) (child : Bucket)
        → get_elem? children d ≡ some child
        → IsSplit sha256 b d child)
      → (gd : ℕ) × (with_children seh b.bucket_key children
          ≡ done (with_table seh (table sha256 seh dir key n b at children many all) gd))
        × (suc n ≤ gd)
        × (seh.gd ≤ gd)
  unfolding with_children child_bucket
  with_children-table [] many all =
      let leaf = dir.leaf (path seh.rdx key n) b at in
      let p = dir.positive in let r = leaf.rdx in absurd (omega arith)
  with_children-table (c ∷ children) many all =
      let split = all 0 c refl in
      let ld = split.frame.ld in
      let depth = its_depth sha256 seh dir key n b at in
      (if ltb seh.gd c.ld then c.ld else seh.gd, refl, ground arith, ground arith)

  -- A split returns, and leaves the directory one deeper at the key.
  pub split_at-IsDirectory :
      (ht : Assoc Bucket) × (gd : ℕ) × (split_at sha256 seh b ≡ done (with_table seh ht gd))
      × IsDirectory sha256 (with_table seh ht gd)
      × ((k : Bytes) (old : Option Bytes)
          → find_value seh k ≡ done old
          → find_value (with_table seh ht gd) k ≡ done old)
      × (suc n ≤ gd)
      × (c : Bucket) × (get (path seh.rdx key (suc n)) ht ≡ some c)
  unfolding split_at
  split_at-IsDirectory =
      let leaf = dir.leaf (path seh.rdx key n) b at in
      let positive : 0 < b.rdx = let p = dir.positive in let r = leaf.rdx in omega arith in
      let (children, run, many, all) = split_bucket-IsSplit sha256 b leaf.valid positive in
      let ht = table sha256 seh dir key n b at children many all in
      let (gd, put, deeper, as_deep) = with_children-table children many all in
      (
        ht,
        gd,
        rw run put,
        table-IsDirectory sha256 seh dir key n b at children many all gd deeper as_deep,
        table-find_value sha256 seh dir key n b at children many all gd deeper as_deep,
        deeper,
        (table-key sha256 seh dir key n b at children many all gd deeper as_deep).0,
        (table-key sha256 seh dir key n b at children many all gd deeper as_deep).1,
      )
