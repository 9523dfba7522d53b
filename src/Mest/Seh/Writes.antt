-- ===== src/Mest/Seh/Writes.antt =====
-- crates/storager/ads_lib/src/mest/seh.rs: a bucket that is written in its place in the directory.
use mathlib.Core.List.{reverse}
use mathlib.Core.Option.{some-injective}
use mathlib.Core.Path.{subst}
use trust_meta.Base.{
  ℕ, ◌≤◌, ◌≡◌, sym, ap, ◌∙◌, false, Option, some, inl, inr, Bool-cases, Bytes, bytes_eq,
  bytes_eq_iff, if◌then◌else◌, done, done-injective, bind-done,
}
use trust_meta.Assoc.{Assoc, get, replace, get-replace, get-replace_other}
use trust_meta.Mest.Digits.{digits_prefix_mixed}
use trust_meta.Mest.Segment.{segment_key}
use trust_meta.Mest.Bucket.{Bucket, get_value, get_segment_key, find_in, value_at}
use trust_meta.Mest.Bucket.Valid.{IsValid}
use trust_meta.Mest.Bucket.Insert.{IsSameFrame}
use trust_meta.Mest.Bucket.Gather.{valid-get_value}
use trust_meta.Mest.Seh.{Seh}
use trust_meta.Mest.Seh.Directory.{IsLeaf, IsDirectory, path, find_value, find_value-path}
use trust_meta.Mest.Seh.Children.{its_digits, its_depth}
use trust_meta.Mest.Seh.Splits.{with_table}

-- The directory with a bucket in the place of another, where the values of the routed key alone change.
module _ (sha256 : Bytes → Bytes) (seh : Seh) (dir : IsDirectory sha256 seh) (key : Bytes) (n : ℕ)
    (b b' : Bucket) (le : n ≤ seh.gd) (at : get (path seh.rdx key n) seh.ht ≡ some b)
    (valid : IsValid sha256 b') (frame : IsSameFrame b b') (f : Option Bytes → Option Bytes)
    (values : (k : Bytes) (old : Option Bytes)
      → get_value b k ≡ done old
      → get_value b' k ≡ done (if bytes_eq key k then f old else old)) where
  abbrev pub ht' : Assoc Bucket
  ht' = replace (path seh.rdx key n) b' seh.ht

  abbrev pub seh' : Seh
  seh' = with_table seh ht' seh.gd

  old-IsLeaf : IsLeaf sha256 seh (path seh.rdx key n) b
  old-IsLeaf = dir.leaf (path seh.rdx key n) b at

  pub written_here : get (path seh.rdx key n) ht' ≡ some b'
  written_here = get-replace (path seh.rdx key n) b' b seh.ht at

  written_other :
      (text : Bytes) → bytes_eq (path seh.rdx key n) text ≡ false → get text ht' ≡ get text seh.ht
  written_other text differs = get-replace_other (path seh.rdx key n) text b' seh.ht differs

  -- What stands at a place stood there before, or is the new bucket.
  was_there :
      (text : Bytes) (c : Bucket)
      → get text ht' ≡ some c
      → (c0 : Bucket) × (get text seh.ht ≡ some c0)
  was_there text c there = elim (Bool-cases (bytes_eq (path seh.rdx key n) text)) [
    | inl same ↦
        (b, ap (λ t. get t seh.ht) (sym ((bytes_eq_iff (path seh.rdx key n) text).0 same)) ∙ at)
    | inr differs ↦ (c, sym (written_other text differs) ∙ there)
  ]

  new_owned :
      (k value : Bytes)
      → get_value b' k ≡ done (some value)
      → digits_prefix_mixed k seh.rdx b'.ld ≡ reverse b'.bucket_key
  unfolding get_value get_segment_key
  new_owned k value has =
      let (sk, its, _) =
        bind-done (segment_key b'.seg_num k) (λ s. value_at (find_in b' s k)) has in
      let (old, was) =
        valid-get_value sha256 b old-IsLeaf.valid k sk
          (ap (λ x. segment_key x k) (sym frame.seg_num) ∙ its) in
      let value_is = done-injective (sym (values k old was) ∙ has) in
      let owned : digits_prefix_mixed k seh.rdx b.ld ≡ reverse b.bucket_key =
        elim (Bool-cases (bytes_eq key k)) [
          | inl same ↦
              ap (λ x. digits_prefix_mixed x seh.rdx b.ld) (sym ((bytes_eq_iff key k).0 same))
              ∙ ap (digits_prefix_mixed key seh.rdx) (its_depth sha256 seh dir key n b at)
              ∙ sym (its_digits sha256 seh dir key n b at)
          | inr other ↦
              old-IsLeaf.owned k value
                (was ∙ ap done (ap (λ t. if t then f old else old) (sym other) ∙ value_is))
        ] in
      ap (digits_prefix_mixed k seh.rdx) frame.ld ∙ owned ∙ ap reverse (sym frame.bucket_key)

  new-IsLeaf : IsLeaf sha256 seh' (path seh.rdx key n) b'
  new-IsLeaf = record {
    its_text = rw frame.bucket_key old-IsLeaf.its_text;
    small = rw frame.bucket_key old-IsLeaf.small;
    depth = rw (frame.bucket_key, frame.ld) old-IsLeaf.depth;
    rdx = frame.rdx ∙ old-IsLeaf.rdx;
    capacity = frame.capacity ∙ old-IsLeaf.capacity;
    seg_num = frame.seg_num ∙ old-IsLeaf.seg_num;
    valid = valid;
    owned = new_owned;
  }

  -- Each key keeps its place, and has its new value there.
  located :
      (k : Bytes)
      → (m : ℕ) × (c : Bucket) × (m ≤ seh.gd)
        × (get (path seh.rdx k m) ht' ≡ some c)
        × ((old : Option Bytes)
            → find_value seh k ≡ done old
            → get_value c k ≡ done (if bytes_eq key k then f old else old))
  located k =
      let (m, c, small, there) = dir.covered k in
      let found = find_value-path sha256 seh dir k m c small there in
      elim (Bool-cases (bytes_eq (path seh.rdx key n) (path seh.rdx k m))) [
        | inl same ↦
            let is = (bytes_eq_iff (path seh.rdx key n) (path seh.rdx k m)).0 same in
            let it : c ≡ b =
              some-injective c b (sym there ∙ ap (λ t. get t seh.ht) (sym is) ∙ at) in
            (
              m,
              b',
              small,
              ap (λ t. get t ht') (sym is) ∙ written_here,
              λ old was. values k old (ap (λ x. get_value x k) (sym it) ∙ sym found ∙ was),
            )
        | inr differs ↦
            let other : bytes_eq key k ≡ false = elim (Bool-cases (bytes_eq key k)) [
              | inr differ ↦ differ
              | inl alike ↦
                  let is = (bytes_eq_iff key k).0 alike in
                  let level =
                    dir.unique k n m b c (ap (λ x. get (path seh.rdx x n) seh.ht) (sym is) ∙ at)
                      there in
                  let same : path seh.rdx key n ≡ path seh.rdx k m =
                    ap (λ x. path seh.rdx x n) is ∙ ap (path seh.rdx k) level in
                  absurd
                    (cc ((bytes_eq_iff (path seh.rdx key n) (path seh.rdx k m)).1 same, differs))
            ] in
            (
              m,
              c,
              small,
              written_other (path seh.rdx k m) differs ∙ there,
              λ old was. sym found ∙ was ∙ ap (λ t. done (if t then f old else old)) (sym other),
            )
      ]

  pub written-IsDirectory : IsDirectory sha256 seh'
  written-IsDirectory = record {
    positive = dir.positive;
    i32 = dir.i32;
    counted = dir.counted;
    leaf = λ text c there. elim (Bool-cases (bytes_eq (path seh.rdx key n) text)) [
      | inl same ↦
          let is = (bytes_eq_iff (path seh.rdx key n) text).0 same in
          let it : b' ≡ c =
            some-injective b' c (sym written_here ∙ ap (λ t. get t ht') is ∙ there) in
          subst (λ x. IsLeaf sha256 seh' x c) is
            (subst (IsLeaf sha256 seh' (path seh.rdx key n)) it new-IsLeaf)
      | inr differs ↦
          let l = dir.leaf text c (sym (written_other text differs) ∙ there) in
          record {
            its_text = l.its_text;
            small = l.small;
            depth = l.depth;
            rdx = l.rdx;
            capacity = l.capacity;
            seg_num = l.seg_num;
            valid = l.valid;
            owned = l.owned;
          }
    ];
    covered = λ k. let (m, c, small, there, _) = located k in (m, c, small, there);
    unique = λ k m m' c c' there there'.
        let (c0, before) = was_there (path seh.rdx k m) c there in
        let (c0', before') = was_there (path seh.rdx k m') c' there' in
        dir.unique k m m' c0 c0' before before';
  }

  pub written-find_value :
      (k : Bytes) (old : Option Bytes)
      → find_value seh k ≡ done old
      → find_value seh' k ≡ done (if bytes_eq key k then f old else old)
  written-find_value k old was =
      let (m, c, small, there, value) = located k in
      find_value-path sha256 seh' written-IsDirectory k m c small there ∙ value old was
