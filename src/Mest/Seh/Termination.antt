-- ===== src/Mest/Seh/Termination.antt =====
-- crates/storager/ads_lib/src/mest/seh.rs: how many splits an insert takes.
use trust_meta.Base.{
  ℕ, zero, suc, ◌+◌, ◌≤◌, ◌≡◌, ◌≢◌, ◌++◌, refl, sym, ap, ◌∙◌, true, List, [], ◌∷◌, Option, some,
  inl, inr, ◌⊎◌, Bool-cases, Bytes, bytes_eq, length, length-append, length-map, get_elem?, take,
  leb, if◌then◌else◌, done, diverge, bind-done, arith,
}
use trust_meta.Assoc.{Assoc, get}
use trust_meta.Mest.Digits.{digits_prefix_mixed}
use trust_meta.Mest.Dotted.{dotted}
use trust_meta.Mest.Segment.{Kvpair, segment_key, all_kvs}
use trust_meta.Mest.Bucket.{Bucket, get_segment_key, get_value, find_in, value_at}
use trust_meta.Mest.Bucket.Insert.{merged}
use trust_meta.Mest.Bucket.Size.{IsNodup, keys_of, valid-IsNodup, pair-get_value}
use trust_meta.Mest.Seh.{
  Seh, SehBucketInsertResult, ensure_root, size_of, split_loop, insert_kvpair,
}
use trust_meta.Mest.Seh.Directory.{IsDirectory, path, find_value, find_value-path, take-digits}
use trust_meta.Mest.Seh.Children.{its_digits, its_depth}
use trust_meta.Mest.Seh.Splits.{with_table}
use trust_meta.Mest.Seh.Inserts.{
  IsRouted, HaveSameValues, IsInsertedTable, find_value-total, split_step, write_pair-IsRouted,
  ended-IsInsertedTable, split_loop-IsRouted,
}

-- The inserted key, or a key that has a value.
abbrev pub IsHeld : Seh → Bytes → Bytes → Type 0
IsHeld seh key k =
    (bytes_eq key k ≡ true) ⊎ ((value : Bytes) × (find_value seh k ≡ done (some value)))

-- No more keys than a bucket can take share their first digits with a key.
abbrev pub FewShare : Seh → Bytes → ℕ → Type 0
FewShare seh key depth =
    (keys : List Bytes)
    → IsNodup keys
    → ((i : ℕ) (k : Bytes)
        → get_elem? keys i ≡ some k
        → IsHeld seh key k
          × (digits_prefix_mixed k seh.rdx depth ≡ digits_prefix_mixed key seh.rdx depth))
    → length keys ≤ seh.bucket_capacity

size_of-length : (segs : Assoc (List Kvpair)) → size_of segs ≡ length (keys_of (all_kvs segs))
unfolding size_of all_kvs
size_of-length [] = refl
size_of-length ((h, kvs) ∷ segs) =
    let rest = size_of-length segs in
    omega (
      arith,
      rest,
      length-append kvs (all_kvs segs),
      length-map (kvs ++ all_kvs segs) (λ (kv : Kvpair). kv.key),
      length-map (all_kvs segs) (λ (kv : Kvpair). kv.key),
    )

module _ (sha256 : Bytes → Bytes) where
  -- A key with an answer has a segment key.
  find_value-segment :
      (seh : Seh)
      → IsDirectory sha256 seh
      → (k : Bytes) (old : Option Bytes) → find_value seh k ≡ done old
      → (seg_key : Bytes) × (segment_key seh.bucket_seg_num k ≡ done seg_key)
  unfolding get_value get_segment_key
  find_value-segment seh dir k old was =
      let (n, b, le, at) = dir.covered k in
      let leaf = dir.leaf (path seh.rdx k n) b at in
      let was' : get_value b k ≡ done old =
        sym (find_value-path sha256 seh dir k n b le at) ∙ was in
      let (sk, its, _) = bind-done (segment_key b.seg_num k) (λ s. value_at (find_in b s k)) was' in
      (sk, ap (λ s. segment_key s k) (sym leaf.seg_num) ∙ its)

  -- A bucket that deep is not too full.
  bucket-fits :
      (seh : Seh) (key : Bytes) (b : Bucket) (r : IsRouted sha256 seh key b) (depth : ℕ)
      → depth ≤ r.depth
      → FewShare seh key depth
      → leb (size_of b.segments) b.capacity ≡ true
  bucket-fits seh key b r depth deep few =
      let dir = r.directory in
      let leaf = dir.leaf (path seh.rdx key r.depth) b r.here in
      let keys = keys_of (all_kvs b.segments) in
      let most : length keys ≤ seh.bucket_capacity =
        few keys (valid-IsNodup sha256 b leaf.valid) (λ i k at.
          let (value, has) = pair-get_value sha256 b leaf.valid i k at in
          let ld = its_depth sha256 seh dir key r.depth b r.here in
          let shared : digits_prefix_mixed k seh.rdx r.depth
              ≡ digits_prefix_mixed key seh.rdx r.depth =
            ap (digits_prefix_mixed k seh.rdx) (sym ld)
            ∙ leaf.owned k value has
            ∙ its_digits sha256 seh dir key r.depth b r.here in
          let same : path seh.rdx k r.depth ≡ path seh.rdx key r.depth = ap dotted shared in
          (
            inr (
              value,
              find_value-path sha256 seh dir k r.depth b r.as_deep
                    (ap (λ t. get t seh.ht) same ∙ r.here)
                  ∙ has,
            ),
            sym (take-digits k seh.rdx depth r.depth deep)
                ∙ ap (take depth) shared
                ∙ take-digits key seh.rdx depth r.depth deep,
          )) in
      let size = size_of-length b.segments in let capacity = leaf.capacity in ground arith

  -- Values that a table had before.
  values_back :
      (seh seh' : Seh)
      → IsDirectory sha256 seh
      → IsDirectory sha256 seh'
      → HaveSameValues seh seh'
      → (k value : Bytes) → find_value seh' k ≡ done (some value)
      → find_value seh k ≡ done (some value)
  values_back seh seh' dir dir' same k value now =
      let (sk, its) = find_value-segment seh' dir' k (some value) now in
      let (old, was) =
        find_value-total sha256 seh dir k sk (ap (λ n. segment_key n k) (sym same.0) ∙ its) in
      was ∙ sym (same.1 k old was) ∙ now

  -- With splits down to that depth the loop ends.
  split_loop-ends :
      (splits : ℕ) (seh : Seh) (key : Bytes) (b : Bucket) (r : IsRouted sha256 seh key b)
      (depth : ℕ)
      → depth ≤ r.depth + splits
      → FewShare seh key depth
      → split_loop sha256 splits seh key b ≢ diverge
  unfolding split_loop
  split_loop-ends zero seh key b r depth enough few out =
      let fits = bucket-fits seh key b r depth (omega arith) few in
      cc (rw (fits, split_loop) at out)
  split_loop-ends (suc splits) seh key b r depth enough few out =
      elim (Bool-cases (leb (size_of b.segments) b.capacity)) [
        | inl fits ↦ cc (rw (fits, split_loop) at out)
        | inr full ↦
            let (ht, gd, c, r1, level, same, next) = split_step sha256 splits seh key b r full in
            let seh1 = with_table seh ht gd in
            let few1 : FewShare seh1 key depth = λ keys once each. few keys once (λ i k at.
              let (held, shared) = each i k at in
              (
                elim held [
                  | inl same_key ↦ inl same_key
                  | inr (value, now) ↦
                      inr (value, values_back seh seh1 r.directory r1.directory same k value now)
                ],
                shared,
              )) in
            split_loop-ends splits seh1 key c r1 depth (omega arith) few1 (sym next ∙ out)
      ]

-- What is held after the pair is written was held before, or is its key.
before_write :
    (sha256 : Bytes → Bytes) (seh seh' : Seh) (kv : Kvpair)
    → IsDirectory sha256 seh
    → IsDirectory sha256 seh'
    → seh'.bucket_seg_num ≡ seh.bucket_seg_num
    → ((k : Bytes) (old : Option Bytes)
        → find_value seh k ≡ done old
        → find_value seh' k ≡ done (if bytes_eq kv.key k then some (merged old kv.value) else old))
    → (k : Bytes) → IsHeld seh' kv.key k
    → IsHeld seh kv.key k
before_write sha256 seh seh' kv dir dir' seg_num written k (inl same) = inl same
before_write sha256 seh seh' kv dir dir' seg_num written k (inr (value, now)) =
    elim (Bool-cases (bytes_eq kv.key k)) [
      | inl same ↦ inl same
      | inr differs ↦
          let (sk, its) = find_value-segment sha256 seh' dir' k (some value) now in
          let (old, was) =
            find_value-total sha256 seh dir k sk (ap (λ n. segment_key n k) (sym seg_num) ∙ its) in
          let after : find_value seh' k ≡ done old =
            written k old was
            ∙ ap (λ t. done (if t then some (merged old kv.value) else old)) differs in
          inr (value, was ∙ sym after ∙ now)
    ]

-- On a directory (after the root bucket is put in), for a key with a segment key, where of the keys
-- with a value and the inserted one no more than a bucket's capacity share as many first digits
-- with the inserted key as splits may be followed, insert_kvpair returns within these splits a
-- directory in which the key's value is merged with the new one and every other key has its old
-- value, and the key's value with a root and a proof that verify_proof accepts.
pub insert_kvpair-returns :
    (sha256 : Bytes → Bytes) (splits : ℕ) (seh : Seh) (kv : Kvpair) (seg_key : Bytes)
    → IsDirectory sha256 (ensure_root seh)
    → segment_key (ensure_root seh).bucket_seg_num kv.key ≡ done seg_key
    → FewShare (ensure_root seh) kv.key splits
    → (seh' : Seh) × (result : SehBucketInsertResult) × (insert_kvpair sha256 splits seh kv
        ≡ done (seh', result))
      × IsInsertedTable sha256 (ensure_root seh) seh' kv result
insert_kvpair-returns sha256 splits seh kv seg_key dir its few =
    let (ht1, b1, run1, routed1, written) =
      write_pair-IsRouted sha256 (ensure_root seh) kv seg_key dir its in
    let seh1 = with_table (ensure_root seh) ht1 (ensure_root seh).gd in
    let few1 : FewShare seh1 kv.key splits = λ keys once each. few keys once (λ i k at.
      let (held, shared) = each i k at in
      (
        before_write sha256 (ensure_root seh) seh1 kv dir routed1.directory refl written k held,
        shared,
      )) in
    elim (split_loop-IsRouted sha256 splits seh1 kv.key b1 routed1) [
      | inl out ↦
          absurd
            (split_loop-ends sha256 splits seh1 kv.key b1 routed1 splits (omega arith) few1 out)
      | inr (seh2, b2, run2, routed2, same, fits) ↦
          let (result, run, is) =
            ended-IsInsertedTable sha256 splits seh kv seg_key dir its seh1 seh2 b1 b2 run1 written
              refl run2 routed2 same fits in
          (seh2, result, run, is)
    ]
