-- ===== src/Mest/Seh.antt =====
-- crates/storager/ads_lib/src/mest/seh.rs: the extendible hash table, a directory of buckets that
-- share a prefix of their keys' digits.
pub mod Directory
pub mod Table
pub mod Children
pub mod Splits
pub mod Writes
pub mod Inserts
pub mod Answers
pub mod Refines
pub mod Termination
mod Tests
use mathlib.Core.List.{reverse}
use trust_meta.Base.{
  ℕ, zero, suc, ◌+◌, Bool, true, false, ◌||◌, List, [], ◌∷◌, Option, none, some, length, take, max,
  ltb, leb, ◌==◌, if◌then◌else◌, Bytes, Outcome, done, panic, diverge, ◌>>=◌,
}
use trust_meta.Text.{split_on, join}
use trust_meta.Assoc.{Assoc, get, insert as map_insert, replace, remove}
use trust_meta.Merkle.{MhtProof}
use trust_meta.Mest.Digits.{digits_prefix_mixed}
use trust_meta.Mest.Dotted.{dotted}
use trust_meta.Mest.Segment.{Kvpair}
use trust_meta.Mest.Bucket.{
  Bucket, new as new_bucket, get_value, insert, delete_value, split_bucket,
  get_segment_roots_sorted, get_proof as bucket_proof,
}

pub record Seh : Type 0 where
  pub gd : ℕ
  pub rdx : ℕ
  pub bucket_capacity : ℕ
  pub bucket_seg_num : ℕ
  pub ht : Assoc Bucket
  pub buckets_number : ℕ

pub record SehBucketInsertResult : Type 0 where
  pub bucket : Bucket
  pub bucket_key : List ℕ
  pub value : Bytes
  pub seg_root_hash : Bytes
  pub mht_proof : MhtProof
  pub leaf_segment_roots : List Bytes

abbrev pub new : ℕ → ℕ → ℕ → Seh
new rdx bc bs = record {
  gd = 0;
  rdx = rdx;
  bucket_capacity = bc;
  bucket_seg_num = bs;
  ht = [];
  buckets_number = 0;
}

unfoldable pub make_prefix : Bytes → ℕ → ℕ → Bytes
make_prefix key rdx gd = if gd == 0 || rdx == 0 then [] else dotted (digits_prefix_mixed key rdx gd)

unfoldable pub bucket_key_to_prefix : List ℕ → Bytes
bucket_key_to_prefix [] = []
bucket_key_to_prefix (d ∷ bk) = dotted (reverse (d ∷ bk))

unfoldable pub get_bucket : Seh → Bytes → Option Bucket
get_bucket seh bucket_key = get bucket_key seh.ht

-- A bucket with the key that it has in the directory: the two share it, so that a write to the
-- bucket is a write to the directory.
unfoldable pub entry_at : Assoc Bucket → Bytes → Option (Bytes × Bucket)
entry_at ht text = elim (get text ht) [ none ↦ none | some b ↦ some (text, b) ]

abbrev pub or_else : Option (Bytes × Bucket) → Option (Bytes × Bucket) → Option (Bytes × Bucket)
or_else (some entry) rest = some entry
or_else none rest = rest

-- The loop that shortens the prefix; `left` counts the parts that are left.
unfoldable pub shorten : Assoc Bucket → List Bytes → ℕ → Option (Bytes × Bucket)
shorten ht parts zero = entry_at ht []
shorten ht parts (suc left) =
    or_else (entry_at ht (join (b'.' ∷ []) (take left parts))) (shorten ht parts left)

unfoldable pub prefix_parts : Bytes → List Bytes
prefix_parts [] = []
prefix_parts (c ∷ prefix) = split_on b'.' (c ∷ prefix)

-- The directory's entry for a prefix, or else for a shorter one.
unfoldable pub find_prefix : Assoc Bucket → Bytes → Option (Bytes × Bucket)
find_prefix ht prefix =
    or_else (entry_at ht prefix) (shorten ht (prefix_parts prefix) (length (prefix_parts prefix)))

-- `get_bucket_by_key`.
unfoldable pub get_bucket_entry : Seh → Bytes → Option (Bytes × Bucket)
get_bucket_entry seh key =
    if seh.buckets_number == 0
    then none
    else if seh.gd == 0
    then entry_at seh.ht []
    else find_prefix seh.ht (make_prefix key seh.rdx seh.gd)

unfoldable pub get_bucket_by_key : Seh → Bytes → Option Bucket
get_bucket_by_key seh key = elim (get_bucket_entry seh key) [
  | none ↦ none
  | some entry ↦ some (entry.1)
]

-- A root bucket, where there is none yet.
unfoldable pub ensure_root : Seh → Seh
ensure_root seh =
    if seh.buckets_number == 0
    then record seh {
      ht = map_insert [] (new_bucket 0 seh.rdx seh.bucket_capacity seh.bucket_seg_num) seh.ht;
      buckets_number = 1;
    }
    else seh

-- The bucket of a key, or else the root, which must be there.
unfoldable pub target : Seh → Bytes → Outcome (Bytes × Bucket)
target seh key = elim (get_bucket_entry seh key) [
  | some entry ↦ done entry
  | none ↦ elim (entry_at seh.ht []) [ some entry ↦ done entry | none ↦ panic ]
]

-- `Option::unwrap`.
abbrev pub unwrap : Option Bucket → Outcome Bucket
unwrap none = panic
unwrap (some b) = done b

unfoldable pub size_of : Assoc (List Kvpair) → ℕ
size_of [] = 0
size_of ((seg_key, kvs) ∷ segments) = length kvs + size_of segments

unfoldable pub add_children : List Bucket → Assoc Bucket → Assoc Bucket
add_children [] ht = ht
add_children (child ∷ children) ht =
    add_children children (map_insert (bucket_key_to_prefix child.bucket_key) child ht)

-- The directory and the depth after a split; a split without children panics.
unfoldable pub with_children : Seh → List ℕ → List Bucket → Outcome Seh
with_children seh parent_key [] = panic
with_children seh parent_key (child ∷ children) = done (record seh {
  ht = add_children (child ∷ children) (remove (bucket_key_to_prefix parent_key) seh.ht);
  gd = if ltb seh.gd child.ld then child.ld else seh.gd;
})

-- SHA-256 of the crate sha2 is a parameter.
module _ (sha256 : Bytes → Bytes) where
  unfoldable pub split_at : Seh → Bucket → Outcome Seh
  split_at seh b = do children ← split_bucket sha256 b; with_children seh b.bucket_key children

  -- The loop that splits while the key's bucket has too many pairs. It has no bound of its own: the
  -- fuel is the number of splits that are followed.
  unfoldable pub split_loop : ℕ → Seh → Bytes → Bucket → Outcome (Seh × Bucket)
  split_loop zero seh key b = if leb (size_of b.segments) b.capacity then done (seh, b) else diverge
  split_loop (suc splits) seh key b =
      if leb (size_of b.segments) b.capacity then done (seh, b) else (do
        seh' ← split_at seh b
        b' ← unwrap (get_bucket_by_key seh' key)
        split_loop splits seh' key b')

  -- What the insert returns: the proof must be there.
  unfoldable pub insert_result : Bucket → Bytes → Outcome SehBucketInsertResult
  insert_result b key = do
    proof ← bucket_proof sha256 b key
    elim proof [
      | none ↦ panic
      | some (value, root, path) ↦ done (record {
        bucket = b;
        bucket_key = b.bucket_key;
        value = value;
        seg_root_hash = root;
        mht_proof = path;
        leaf_segment_roots = get_segment_roots_sorted b;
      })
    ]

  -- The write of the pair to its bucket, before any split.
  unfoldable pub write_pair : Seh → Kvpair → Outcome (Seh × Bucket)
  write_pair seh kv = do
    (text, b) ← target seh kv.key
    b' ← insert sha256 b kv
    done (record seh { ht = replace text b' seh.ht }, b')

  unfoldable pub insert_kvpair : ℕ → Seh → Kvpair → Outcome (Seh × SehBucketInsertResult)
  insert_kvpair splits seh kv = do
    (seh1, b) ← write_pair (ensure_root seh) kv
    (seh2, b') ← split_loop splits seh1 kv.key b
    result ← insert_result b' kv.key
    done (seh2, result)

  unfoldable pub get_proof : Seh → Bytes → Outcome (Option (Bytes × Bytes × MhtProof))
  get_proof seh key = elim (get_bucket_by_key seh key) [
    | none ↦ done none
    | some b ↦ bucket_proof sha256 b key
  ]

  unfoldable pub delete_kvpair_value : Seh → Bytes → Bytes → Outcome (Seh × Bool)
  delete_kvpair_value seh key value =
      if seh.buckets_number == 0 then done (seh, false) else elim (get_bucket_entry seh key) [
        | none ↦ done (seh, false)
        | some (text, b) ↦ do
          (b', changed) ← delete_value sha256 b key value
          done (record seh { ht = replace text b' seh.ht }, changed)
      ]
