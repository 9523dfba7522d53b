-- ===== src/Mest/Seh/Refines.antt =====
-- crates/storager/ads_lib/src/mest/seh.rs: the table as a map from keys to values, over any run of
-- inserts and deletes.
use trust_meta.Base.{
  ℕ, ◌^◌, ◌<◌, ◌≡◌, refl, sym, ap, ◌∙◌, Bool, false, Option, none, some, inl, inr, Bytes, bytes_eq,
  length, ◌==◌, if◌then◌else◌, done, done-injective, arith,
}
use trust_meta.Mest.Segment.{Kvpair, segment_key}
use trust_meta.Mest.Bucket.Insert.{merged}
use trust_meta.Mest.Bucket.Delete.{deleted}
use trust_meta.Mest.Seh.{
  Seh, SehBucketInsertResult, new, ensure_root, insert_kvpair, delete_kvpair_value,
}
use trust_meta.Mest.Seh.Directory.{IsDirectory, find_value}
use trust_meta.Mest.Seh.Inserts.{insert_kvpair-IsInsertedTable}
use trust_meta.Mest.Seh.Answers.{
  ensure_root-IsDirectory, ensure_root-find_value, delete_kvpair_value-find_value,
}

-- What a table promises: a value for each key.
abbrev pub ValueMap : Type 0
ValueMap = Bytes → Option Bytes

abbrev pub put : Kvpair → ValueMap → ValueMap
put kv f k = if bytes_eq kv.key k then some (merged (f k) kv.value) else f k

abbrev pub drop : Bytes → Bytes → ValueMap → ValueMap
drop key value f k = if bytes_eq key k then deleted value (f k) else f k

module _ (sha256 : Bytes → Bytes) (rdx bc bs : ℕ) where
  -- The tables that calls can lead to, and the maps that they lead to.
  pub data Reaches : Seh → ValueMap → Type 0 where
    start : Reaches (ensure_root (new rdx bc bs)) (λ k. none)
    inserts :
        (splits : ℕ) (seh seh' : Seh) (f : ValueMap) (kv : Kvpair) (seg_key : Bytes)
        (result : SehBucketInsertResult)
        → Reaches seh f
        → segment_key bs kv.key ≡ done seg_key
        → insert_kvpair sha256 splits seh kv ≡ done (seh', result)
        → Reaches seh' (put kv f)
    deletes :
        (seh seh' : Seh) (f : ValueMap) (key value seg_key : Bytes) (changed : Bool)
        → Reaches seh f
        → segment_key bs key ≡ done seg_key
        → 0 < length value
        → delete_kvpair_value sha256 seh key value ≡ done (seh', changed)
        → Reaches seh' (drop key value f)

  -- The table implements the map.
  pub record Implements (seh : Seh) (f : ValueMap) : Type 0 where
    pub directory : IsDirectory sha256 seh
    pub seg_num : seh.bucket_seg_num ≡ bs
    pub values :
        (k seg_key : Bytes) → segment_key bs k ≡ done seg_key → find_value seh k ≡ done (f k)

  root_seg_num : (ensure_root (new rdx bc bs)).bucket_seg_num ≡ bs
  unfolding ensure_root
  root_seg_num = refl

  rooted : (seh : Seh) → IsDirectory sha256 seh → ensure_root seh ≡ seh
  unfolding ensure_root
  rooted seh dir =
      let some_buckets : (seh.buckets_number == 0) ≡ false = let c = dir.counted in ground arith in
      rw some_buckets refl

  inserts-Implements :
      (splits : ℕ) (seh seh' : Seh) (f : ValueMap) (kv : Kvpair) (seg_key : Bytes)
      (result : SehBucketInsertResult)
      → Implements seh f
      → segment_key bs kv.key ≡ done seg_key
      → insert_kvpair sha256 splits seh kv ≡ done (seh', result)
      → Implements seh' (put kv f)
  inserts-Implements splits seh seh' f kv seg_key result i its run =
      let root = rooted seh i.directory in
      let dir : IsDirectory sha256 (ensure_root seh) = rw root i.directory in
      let its' : segment_key (ensure_root seh).bucket_seg_num kv.key ≡ done seg_key =
        ap (λ (s : Seh). segment_key s.bucket_seg_num kv.key) root
        ∙ ap (λ n. segment_key n kv.key) i.seg_num
        ∙ its in
      elim (insert_kvpair-IsInsertedTable sha256 splits seh kv seg_key dir its') [
        | inl out ↦ absurd (cc (out, run))
        | inr (seh1, result1, run1, is) ↦
            let same : seh1 ≡ seh' =
              ap (λ (x : Seh × SehBucketInsertResult). x.0) (done-injective (sym run1 ∙ run)) in
            rw (← same) (record {
              directory = is.routed.directory;
              seg_num = is.seg_num ∙ ap (λ (s : Seh). s.bucket_seg_num) root ∙ i.seg_num;
              values = λ k sk its_k.
                  is.values k (f k) (ap (λ s. find_value s k) root ∙ i.values k sk its_k);
            })
      ]

  deletes-Implements :
      (seh seh' : Seh) (f : ValueMap) (key value seg_key : Bytes) (changed : Bool)
      → Implements seh f
      → segment_key bs key ≡ done seg_key
      → 0 < length value
      → delete_kvpair_value sha256 seh key value ≡ done (seh', changed)
      → Implements seh' (drop key value f)
  deletes-Implements seh seh' f key value seg_key changed i its some_text run =
      let (seh1, changed1, run1, dir, seg_num, values) =
        delete_kvpair_value-find_value sha256 seh key value seg_key i.directory
          (ap (λ n. segment_key n key) i.seg_num ∙ its) some_text in
      let same : seh1 ≡ seh' = ap (λ (x : Seh × Bool). x.0) (done-injective (sym run1 ∙ run)) in
      rw (← same) (record {
        directory = dir;
        seg_num = seg_num ∙ i.seg_num;
        values = λ k sk its_k. values k (f k) (i.values k sk its_k);
      })

  -- With a positive radix that an i32 holds, every table that inserts and deletes lead to, each of
  -- a key with a segment key and each delete of a text that is not empty, is a directory (each key
  -- has one bucket, whose place is the key's digits, and the pairs of a bucket are of its prefix)
  -- and gives each key with a segment key the value of the map that the same calls lead to.
  pub Reaches-Implements :
      0 < rdx → rdx < 2 ^ 31 → (seh : Seh) (f : ValueMap) → Reaches seh f → Implements seh f
  Reaches-Implements positive i32 _ _ start =
      let dir = ensure_root-IsDirectory sha256 rdx bc bs positive i32 in
      record {
        directory = dir;
        seg_num = root_seg_num;
        values = λ k sk its. ensure_root-find_value sha256 rdx bc bs k sk dir its;
      }
  Reaches-Implements positive i32 _ _ (inserts splits seh seh' f kv seg_key result r its run) =
      inserts-Implements splits seh seh' f kv seg_key result
        (Reaches-Implements positive i32 seh f r) its run
  Reaches-Implements positive i32 _ _
        (deletes seh seh' f key value seg_key changed r its some_text run) =
      deletes-Implements seh seh' f key value seg_key changed
        (Reaches-Implements positive i32 seh f r) its some_text run
