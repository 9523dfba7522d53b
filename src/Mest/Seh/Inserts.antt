-- ===== src/Mest/Seh/Inserts.antt =====
-- crates/storager/ads_lib/src/mest/seh.rs: an insert into the table, and its splits.
use mathlib.Core.Path.{subst}
use trust_meta.Base.{
  ℕ, zero, suc, ◌≤◌, ◌≡◌, refl, sym, ap, ◌∙◌, true, false, Option, some, inl, inr, ◌⊎◌, Bool-cases,
  Bytes, bytes_eq, bytes_eq_refl, leb, if◌then◌else◌, done, diverge,
}
use trust_meta.Assoc.{Assoc, get, replace}
use trust_meta.Merkle.{verify_proof}
use trust_meta.Mest.Segment.{Kvpair, segment_key}
use trust_meta.Mest.Bucket.{Bucket, get_value, get_segment_key, get_segment_roots_sorted}
use trust_meta.Mest.Bucket.Valid.{IsValid}
use trust_meta.Mest.Bucket.Insert.{merged}
use trust_meta.Mest.Bucket.Gather.{valid-get_value}
use trust_meta.Mest.Bucket.Values.{insert-IsInserted, inserted-get_value, get_proof-verify_proof}
use trust_meta.Mest.Seh.{
  Seh, SehBucketInsertResult, ensure_root, target, size_of, split_at, split_loop, insert_result,
  write_pair, insert_kvpair, get_bucket_by_key, unwrap,
}
use trust_meta.Mest.Seh.Directory.{
  IsDirectory, path, find_value, find_value-path, get_bucket_entry-path, get_bucket_by_key-path,
}
use trust_meta.Mest.Seh.Splits.{with_table, split_at-IsDirectory}
use trust_meta.Mest.Seh.Writes.{written-IsDirectory, written-find_value, written_here}

-- A directory in which a key is routed to a bucket.
pub record IsRouted (sha256 : Bytes → Bytes) (seh : Seh) (key : Bytes) (b : Bucket) : Type 0 where
  pub directory : IsDirectory sha256 seh
  pub depth : ℕ
  pub as_deep : depth ≤ seh.gd
  pub here : get (path seh.rdx key depth) seh.ht ≡ some b

-- Two tables with the same length of segment keys and the same values.
abbrev pub HaveSameValues : Seh → Seh → Type 0
HaveSameValues seh seh' =
    (seh'.bucket_seg_num ≡ seh.bucket_seg_num)
    × ((k : Bytes) (old : Option Bytes)
        → find_value seh k ≡ done old
        → find_value seh' k ≡ done old)

module _ (sha256 : Bytes → Bytes) where
  -- A table answers for each key that has a segment key.
  pub find_value-total :
      (seh : Seh)
      → IsDirectory sha256 seh
      → (k seg_key : Bytes) → segment_key seh.bucket_seg_num k ≡ done seg_key
      → (old : Option Bytes) × (find_value seh k ≡ done old)
  find_value-total seh dir k seg_key its =
      let (n, b, le, at) = dir.covered k in
      let leaf = dir.leaf (path seh.rdx k n) b at in
      let (old, was) =
        valid-get_value sha256 b leaf.valid k seg_key
          (ap (λ s. segment_key s k) leaf.seg_num ∙ its) in
      (old, find_value-path sha256 seh dir k n b le at ∙ was)

  pub routed-find_value :
      (seh : Seh) (key : Bytes) (b : Bucket)
      → IsRouted sha256 seh key b
      → find_value seh key ≡ get_value b key
  routed-find_value seh key b r =
      find_value-path sha256 seh r.directory key r.depth b r.as_deep r.here

  next_split :
      (splits : ℕ) (seh : Seh) (key : Bytes) (b : Bucket) (seh' : Seh) (b' : Bucket)
      → leb (size_of b.segments) b.capacity ≡ false
      → split_at sha256 seh b ≡ done seh'
      → unwrap (get_bucket_by_key seh' key) ≡ done b'
      → split_loop sha256 (suc splits) seh key b ≡ split_loop sha256 splits seh' key b'
  unfolding split_loop
  next_split splits seh key b seh' b' full run found = rw full (rw run (rw found refl))

  -- One round of the loop: the split, and the key's next bucket.
  pub split_step :
      (splits : ℕ) (seh : Seh) (key : Bytes) (b : Bucket) (r : IsRouted sha256 seh key b)
      → leb (size_of b.segments) b.capacity ≡ false
      → (ht : Assoc Bucket) × (gd : ℕ) × (c : Bucket) × (routed : IsRouted sha256
          (with_table seh ht gd)
          key
          c)
        × (routed.depth ≡ suc r.depth)
        × HaveSameValues seh (with_table seh ht gd)
        × (split_loop sha256 (suc splits) seh key b
            ≡ split_loop sha256 splits (with_table seh ht gd) key c)
  split_step splits seh key b r full =
      let (ht, gd, run, dir, same, deeper, c, there) =
        split_at-IsDirectory sha256 seh r.directory key r.depth b r.here in
      let seh1 = with_table seh ht gd in
      let found : unwrap (get_bucket_by_key seh1 key) ≡ done c =
        ap unwrap (get_bucket_by_key-path sha256 seh1 dir key (suc r.depth) c deeper there) in
      (
        ht,
        gd,
        c,
        record { directory = dir; depth = suc r.depth; as_deep = deeper; here = there },
        refl,
        (refl, same),
        next_split splits seh key b seh1 c full run found,
      )

  -- The loop ends at a bucket that is not too full, or follows all the splits that it may.
  pub split_loop-IsRouted :
      (splits : ℕ) (seh : Seh) (key : Bytes) (b : Bucket)
      → IsRouted sha256 seh key b
      → (split_loop sha256 splits seh key b ≡ diverge)
        ⊎ ((seh' : Seh) × (b' : Bucket) × (split_loop sha256 splits seh key b ≡ done (seh', b'))
            × IsRouted sha256 seh' key b'
            × HaveSameValues seh seh'
            × (leb (size_of b'.segments) b'.capacity ≡ true))
  unfolding split_loop
  split_loop-IsRouted zero seh key b r = elim (Bool-cases (leb (size_of b.segments) b.capacity)) [
    | inl fits ↦ inr (seh, b, rw fits refl, r, (refl, λ k old was. was), fits)
    | inr full ↦ inl (rw full refl)
  ]
  split_loop-IsRouted (suc splits) seh key b r =
      elim (Bool-cases (leb (size_of b.segments) b.capacity)) [
        | inl fits ↦ inr (seh, b, rw fits refl, r, (refl, λ k old was. was), fits)
        | inr full ↦
            let (ht, gd, c, r1, _, same, next) = split_step splits seh key b r full in
            elim (split_loop-IsRouted splits (with_table seh ht gd) key c r1) [
              | inl out ↦ inl (next ∙ out)
              | inr (seh', b', run', r', same', fits) ↦ inr (
                seh',
                b',
                next ∙ run',
                r',
                (same'.0, λ k old was. same'.1 k old (same.1 k old was)),
                fits,
              )
            ]
      ]

  -- The pair is written, and the value of its key is merged.
  pub write_pair-IsRouted :
      (seh : Seh) (kv : Kvpair) (seg_key : Bytes)
      → IsDirectory sha256 seh
      → segment_key seh.bucket_seg_num kv.key ≡ done seg_key
      → (ht : Assoc Bucket) × (b' : Bucket) × (write_pair sha256 seh kv
          ≡ done (with_table seh ht seh.gd, b'))
        × IsRouted sha256 (with_table seh ht seh.gd) kv.key b'
        × ((k : Bytes) (old : Option Bytes)
            → find_value seh k ≡ done old
            → find_value (with_table seh ht seh.gd) k
              ≡ done (if bytes_eq kv.key k then some (merged old kv.value) else old))
  unfolding write_pair target get_segment_key
  write_pair-IsRouted seh kv seg_key dir its =
      let (n, b, le, at) = dir.covered kv.key in
      let leaf = dir.leaf (path seh.rdx kv.key n) b at in
      let mine = ap (λ s. segment_key s kv.key) leaf.seg_num ∙ its in
      let entry = get_bucket_entry-path sha256 seh dir kv.key n b le at in
      let aimed : target seh kv.key ≡ done (path seh.rdx kv.key n, b) = rw (entry, target) refl in
      let (b', run, is) = insert-IsInserted sha256 b kv seg_key leaf.valid mine in
      let values = inserted-get_value sha256 b kv seg_key leaf.valid mine b' is in
      let f : Option Bytes → Option Bytes = λ old. some (merged old kv.value) in
      let written =
        written-find_value sha256 seh dir kv.key n b b' le at is.valid is.frame f values in
      (
        replace (path seh.rdx kv.key n) b' seh.ht,
        b',
        rw aimed (rw run refl),
        record {
          directory =
              written-IsDirectory sha256 seh dir kv.key n b b' le at is.valid is.frame f values;
          depth = n;
          as_deep = le;
          here = written_here sha256 seh dir kv.key n b b' le at is.valid is.frame f values;
        },
        written,
      )

  -- The value of the key is returned, with a proof.
  insert_result-done :
      (b : Bucket) (key value : Bytes)
      → IsValid sha256 b
      → get_value b key ≡ done (some value)
      → (result : SehBucketInsertResult) × (insert_result sha256 b key ≡ done result)
        × (result.bucket ≡ b)
        × (result.value ≡ value)
        × (verify_proof sha256 result.value result.seg_root_hash result.mht_proof ≡ true)
  unfolding insert_result
  insert_result-done b key value valid has =
      let (root, proof, run, accepts) = get_proof-verify_proof sha256 b key value valid has in
      (
        record {
          bucket = b;
          bucket_key = b.bucket_key;
          value = value;
          seg_root_hash = root;
          mht_proof = proof;
          leaf_segment_roots = get_segment_roots_sorted b;
        },
        rw run refl,
        refl,
        refl,
        accepts,
      )

-- What the table and the answer are after an insert.
pub record IsInsertedTable (sha256 : Bytes → Bytes) (seh seh' : Seh) (kv : Kvpair)
    (result : SehBucketInsertResult) : Type 0 where
  pub routed : IsRouted sha256 seh' kv.key result.bucket
  pub seg_num : seh'.bucket_seg_num ≡ seh.bucket_seg_num
  pub values :
      (k : Bytes) (old : Option Bytes)
      → find_value seh k ≡ done old
      → find_value seh' k ≡ done (if bytes_eq kv.key k then some (merged old kv.value) else old)
  pub value : find_value seh' kv.key ≡ done (some result.value)
  pub proves : verify_proof sha256 result.value result.seg_root_hash result.mht_proof ≡ true
  pub fits : leb (size_of result.bucket.segments) result.bucket.capacity ≡ true

-- An insert whose loop of splits has ended returns.
pub ended-IsInsertedTable :
    (sha256 : Bytes → Bytes) (splits : ℕ) (seh : Seh) (kv : Kvpair) (seg_key : Bytes)
    → IsDirectory sha256 (ensure_root seh)
    → segment_key (ensure_root seh).bucket_seg_num kv.key ≡ done seg_key
    → (seh1 seh2 : Seh) (b1 b2 : Bucket) → write_pair sha256 (ensure_root seh) kv ≡ done (seh1, b1)
    → ((k : Bytes) (old : Option Bytes)
        → find_value (ensure_root seh) k ≡ done old
        → find_value seh1 k ≡ done (if bytes_eq kv.key k then some (merged old kv.value) else old))
    → seh1.bucket_seg_num ≡ (ensure_root seh).bucket_seg_num
    → split_loop sha256 splits seh1 kv.key b1 ≡ done (seh2, b2)
    → IsRouted sha256 seh2 kv.key b2
    → HaveSameValues seh1 seh2
    → leb (size_of b2.segments) b2.capacity ≡ true
    → (result : SehBucketInsertResult) × (insert_kvpair sha256 splits seh kv ≡ done (seh2, result))
      × IsInsertedTable sha256 (ensure_root seh) seh2 kv result
unfolding insert_kvpair
ended-IsInsertedTable sha256 splits seh kv seg_key dir its seh1 seh2 b1 b2 run1 written seg_num run2
      routed2 same fits =
    let (old, was) = find_value-total sha256 (ensure_root seh) dir kv.key seg_key its in
    let now : find_value seh2 kv.key ≡ done (some (merged old kv.value)) =
      same.1 kv.key (some (merged old kv.value)) (
        written kv.key old was
        ∙ ap (λ t. done (if t then some (merged old kv.value) else old)) (bytes_eq_refl kv.key)) in
    let valid =
      (routed2.directory.leaf (path seh2.rdx kv.key routed2.depth) b2 routed2.here).valid in
    let has = sym (routed-find_value sha256 seh2 kv.key b2 routed2) ∙ now in
    let (result, run3, its_bucket, its_value, proves) =
      insert_result-done sha256 b2 kv.key (merged old kv.value) valid has in
    (
      result,
      rw run1 (rw run2 (rw run3 refl)),
      record {
        routed = subst (IsRouted sha256 seh2 kv.key) (sym its_bucket) routed2;
        seg_num = same.0 ∙ seg_num;
        values = λ k o before. same.1 k _ (written k o before);
        value = now ∙ ap (λ x. done (some x)) (sym its_value);
        proves = proves;
        fits = ap (λ (x : Bucket). leb (size_of x.segments) x.capacity) its_bucket ∙ fits;
      },
    )

-- On a directory (after the root bucket is put in), for a key with a segment key, insert_kvpair
-- never panics: it follows all the splits that it may and is not done, or it returns a directory in
-- which the key's value is merged with the new one and every other key has its old value; the key's
-- bucket is not above its capacity, and the value is returned with a root and a proof that
-- verify_proof accepts.
pub insert_kvpair-IsInsertedTable :
    (sha256 : Bytes → Bytes) (splits : ℕ) (seh : Seh) (kv : Kvpair) (seg_key : Bytes)
    → IsDirectory sha256 (ensure_root seh)
    → segment_key (ensure_root seh).bucket_seg_num kv.key ≡ done seg_key
    → (insert_kvpair sha256 splits seh kv ≡ diverge)
      ⊎ ((seh' : Seh) × (result : SehBucketInsertResult) × (insert_kvpair sha256 splits seh kv
            ≡ done (seh', result))
          × IsInsertedTable sha256 (ensure_root seh) seh' kv result)
unfolding insert_kvpair
insert_kvpair-IsInsertedTable sha256 splits seh kv seg_key dir its =
    let (ht1, b1, run1, routed1, written) =
      write_pair-IsRouted sha256 (ensure_root seh) kv seg_key dir its in
    let seh1 = with_table (ensure_root seh) ht1 (ensure_root seh).gd in
    elim (split_loop-IsRouted sha256 splits seh1 kv.key b1 routed1) [
      | inl out ↦ inl (rw run1 (rw out refl))
      | inr (seh2, b2, run2, routed2, same, fits) ↦
          let (result, run, is) =
            ended-IsInsertedTable sha256 splits seh kv seg_key dir its seh1 seh2 b1 b2 run1 written
              refl run2 routed2 same fits in
          inr (seh2, result, run, is)
    ]
