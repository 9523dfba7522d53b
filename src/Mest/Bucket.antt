-- ===== src/Mest/Bucket.antt =====
-- crates/storager/ads_lib/src/mest/bucket.rs: a bucket's segments, each with a map from its keys to
-- their places and a Merkle tree over its values. The fields that nothing reads (number,
-- latch_timestamp, delegation_list, pending_num, to_del_map) are left out.
pub mod Valid
pub mod Insert
pub mod Written
pub mod Merge
pub mod Values
pub mod Remove
pub mod Delete
pub mod Deletions
pub mod Panics
pub mod Gather
pub mod Split
pub mod Parts
pub mod Size
mod Tests
use trust_meta.Base.{
  ℕ, zero, suc, ◌+◌, ◌-◌, Bool, true, false, not, ◌&&◌, ◌||◌, List, [], ◌∷◌, ◌++◌, map, Option,
  none, some, length, get_elem?, set, take, range', ltb, leb, ◌==◌, if◌then◌else◌, Bytes, bytes_eq,
  Outcome, done, panic, ◌>>=◌,
}
use trust_meta.Text.{split_on, join, has_part, without_part}
use trust_meta.Assoc.{Assoc, get, insert as map_insert, replace, remove}
use trust_meta.Merkle.{
  MerkleTree, MhtProof, new_empty, recompute, insert_data, update_root, get_root_hash, data_len,
  get_proof_for_index,
}
use trust_meta.Mest.Segment.{
  Kvpair, is_char_boundary, segment_key, values, merge, remove_at, shift_down, all_kvs, bytes_le,
  insert_by_key, sort_keys, roots_of, parts_of,
}
use trust_meta.Mest.Digits.{digit_at_mixed}

pub record Bucket : Type 0 where
  -- From the leaf to the root.
  pub bucket_key : List ℕ
  pub ld : ℕ
  pub rdx : ℕ
  pub capacity : ℕ
  pub seg_num : ℕ
  pub segments : Assoc (List Kvpair)
  pub seg_idx_maps : Assoc (Assoc ℕ)
  pub merkle_trees : Assoc MerkleTree

abbrev pub new : ℕ → ℕ → ℕ → ℕ → Bucket
new ld rdx capacity seg_num = record {
  bucket_key = [];
  ld = ld;
  rdx = rdx;
  capacity = capacity;
  seg_num = seg_num;
  segments = [];
  seg_idx_maps = [];
  merkle_trees = [];
}

unfoldable pub get_segment_key : Bucket → Bytes → Outcome Bytes
get_segment_key b key = segment_key b.seg_num key

-- The place of a key in its segment.
unfoldable pub index_of : Bucket → Bytes → Bytes → Option ℕ
index_of b seg_key key = elim (get seg_key b.seg_idx_maps) [
  | none ↦ none
  | some idx_map ↦ get key idx_map
]

unfoldable pub found_at : List Kvpair → Option ℕ → Option (List Kvpair × ℕ)
found_at seg none = none
found_at seg (some idx) = some (seg, idx)

-- `segments.get(&seg_key)` with the place of the key in it.
unfoldable pub find_in : Bucket → Bytes → Bytes → Option (List Kvpair × ℕ)
find_in b seg_key key = elim (get seg_key b.segments) [
  | none ↦ none
  | some seg ↦ found_at seg (index_of b seg_key key)
]

unfoldable pub is_in_bucket : Bucket → Bytes → Outcome Bool
is_in_bucket b key = do
  seg_key ← get_segment_key b key
  done (elim (find_in b seg_key key) [ none ↦ false | some found ↦ true ])

-- `Some(seg[idx].value.clone())`.
unfoldable pub value_at : Option (List Kvpair × ℕ) → Outcome (Option Bytes)
value_at none = done none
value_at (some (seg, idx)) = elim (get_elem? seg idx) [
  | none ↦ panic
  | some kv ↦ done (some kv.value)
]

unfoldable pub get_value : Bucket → Bytes → Outcome (Option Bytes)
get_value b key = do seg_key ← get_segment_key b key; value_at (find_in b seg_key key)

-- A child of `split_bucket`.
unfoldable pub child_bucket : Bucket → ℕ → Bucket
child_bucket b d = record (new (b.ld + 1) b.rdx b.capacity b.seg_num) {
  bucket_key = d ∷ b.bucket_key;
}

unfoldable pub get_segment_roots_sorted : Bucket → List Bytes
get_segment_roots_sorted b =
    roots_of b.merkle_trees (sort_keys (map (λ (e : Bytes × MerkleTree). e.0) b.merkle_trees))

-- The segment, which is added empty when it is missing.
unfoldable pub get_segment : Bucket → Bytes → Bucket × List Kvpair
get_segment b seg_key = elim (get seg_key b.segments) [
  | some seg ↦ (b, seg)
  | none ↦ (
    record b {
      segments = map_insert seg_key [] b.segments;
      seg_idx_maps = map_insert seg_key [] b.seg_idx_maps;
      merkle_trees = map_insert seg_key new_empty b.merkle_trees;
    },
    [],
  )
]

-- SHA-256 of the crate sha2 is a parameter.
module _ (sha256 : Bytes → Bytes) where
  -- `rebuild_merkle`.
  unfoldable pub rebuild_merkle : List Kvpair → Outcome MerkleTree
  rebuild_merkle [] = done new_empty
  rebuild_merkle (kv ∷ seg) = recompute sha256 (values (kv ∷ seg))

  -- The tree that `get_proof` proves with: the stored one, or a new one where it is missing or has
  -- another length.
  unfoldable pub proof_tree : Bucket → Bytes → List Kvpair → Outcome MerkleTree
  proof_tree b seg_key seg = elim (get seg_key b.merkle_trees) [
    | none ↦ rebuild_merkle seg
    | some mt ↦ if data_len mt == length seg then done mt else rebuild_merkle seg
  ]

  -- The value, the root of its segment and the path, where the tree has both.
  unfoldable pub prove_at : MerkleTree → Bytes → ℕ → Outcome (Option (Bytes × Bytes × MhtProof))
  prove_at mt value idx = elim (get_root_hash mt) [
    | none ↦ done none
    | some root ↦ do
      path ← get_proof_for_index sha256 mt idx
      done (elim path [ none ↦ none | some proof ↦ some (value, root, proof) ])
  ]

  -- `get_proof` for the place that was found. The tree that it makes anew is stored too, which is
  -- left out: a bucket's trees always have their segments' lengths.
  unfoldable pub prove_found :
      Bucket → Bytes → Option (List Kvpair × ℕ) → Outcome (Option (Bytes × Bytes × MhtProof))
  prove_found b seg_key none = done none
  prove_found b seg_key (some (seg, idx)) = elim (get_elem? seg idx) [
    | none ↦ done none
    | some kv ↦ do mt ← proof_tree b seg_key seg; prove_at mt kv.value idx
  ]

  unfoldable pub get_proof : Bucket → Bytes → Outcome (Option (Bytes × Bytes × MhtProof))
  get_proof b key = do
    seg_key ← get_segment_key b key
    prove_found b seg_key (find_in b seg_key key)

  -- `if let Some(mt) = merkle_trees.get_mut(&seg_key)`.
  unfoldable pub update_tree :
      Assoc MerkleTree
      → Bytes
      → (MerkleTree → Outcome (MerkleTree × Bytes))
      → Outcome (Assoc MerkleTree)
  update_tree trees seg_key f = elim (get seg_key trees) [
    | none ↦ done trees
    | some mt ↦ do (mt', root) ← f mt; done (replace seg_key mt' trees)
  ]

  -- `seg[idx].value = value`, and the tree with it.
  unfoldable pub set_value : Bucket → Bytes → List Kvpair → ℕ → Kvpair → Outcome Bucket
  set_value b seg_key seg idx kv = do
    trees ← update_tree b.merkle_trees seg_key (λ mt. update_root sha256 mt idx kv.value)
    done (record b { segments = replace seg_key (set seg idx kv) b.segments; merkle_trees = trees })

  -- An insert of a key that the segment has.
  unfoldable pub merge_at : Bucket → Bytes → List Kvpair → ℕ → Bytes → Outcome Bucket
  merge_at b seg_key seg idx newv = elim (get_elem? seg idx) [
    | none ↦ panic
    | some kv ↦
        if bytes_eq (merge kv.value newv) kv.value
        then done b
        else set_value b seg_key seg idx (record kv { value = merge kv.value newv })
  ]

  -- An insert of a key that the segment does not have.
  unfoldable pub push : Bucket → Bytes → List Kvpair → Assoc ℕ → Kvpair → Outcome Bucket
  push b seg_key seg idx_map kv = do
    trees ← update_tree b.merkle_trees seg_key (λ mt. insert_data sha256 mt kv.value)
    done (record b {
      segments = replace seg_key (seg ++ kv ∷ []) b.segments;
      seg_idx_maps = replace seg_key (map_insert kv.key (length seg) idx_map) b.seg_idx_maps;
      merkle_trees = trees;
    })

  -- An insert into a segment that is not there.
  unfoldable pub add_segment : Bucket → Bytes → Kvpair → Outcome Bucket
  add_segment b seg_key kv = do
    mt ← recompute sha256 (kv.value ∷ [])
    done (record b {
      segments = map_insert seg_key (kv ∷ []) b.segments;
      seg_idx_maps = map_insert seg_key ((kv.key, 0) ∷ []) b.seg_idx_maps;
      merkle_trees = map_insert seg_key mt b.merkle_trees;
    })

  unfoldable pub insert_in : Bucket → Bytes → Kvpair → Outcome Bucket
  insert_in b seg_key kv = elim (get seg_key b.segments) [
    | none ↦ add_segment b seg_key kv
    | some seg ↦ elim (get seg_key b.seg_idx_maps) [
      | none ↦ done b
      | some idx_map ↦ elim (get kv.key idx_map) [
        | none ↦ push b seg_key seg idx_map kv
        | some idx ↦ merge_at b seg_key seg idx kv.value
      ]
    ]
  ]

  unfoldable pub insert : Bucket → Kvpair → Outcome Bucket
  insert b kv = do seg_key ← get_segment_key b kv.key; insert_in b seg_key kv

  -- A key whose last value is deleted leaves its segment.
  unfoldable pub remove_pair : Bucket → Bytes → List Kvpair → Assoc ℕ → ℕ → Bytes → Outcome Bucket
  remove_pair b seg_key seg idx_map idx key = do
    mt ← rebuild_merkle (remove_at seg idx)
    done (record b {
      segments = replace seg_key (remove_at seg idx) b.segments;
      seg_idx_maps = replace seg_key (shift_down idx (remove key idx_map)) b.seg_idx_maps;
      merkle_trees = replace seg_key mt b.merkle_trees;
    })

  -- `delete_value` once the key is found: the parts that stay are put together again.
  unfoldable pub delete_parts :
      Bucket
      → Bytes
      → List Kvpair
      → Assoc ℕ
      → ℕ
      → Bytes
      → Kvpair
      → List Bytes
      → Outcome (Bucket × Bool)
  delete_parts b seg_key seg idx_map idx key kv [] = do
    b' ← remove_pair b seg_key seg idx_map idx key
    done (b', true)
  delete_parts b seg_key seg idx_map idx key kv (part ∷ parts) =
      let new_val = join (b',' ∷ []) (part ∷ parts) in
      if bytes_eq new_val kv.value
      then done (b, false)
      else (do b' ← set_value b seg_key seg idx (record kv { value = new_val }); done (b', true))

  unfoldable pub delete_at :
      Bucket → Bytes → List Kvpair → Assoc ℕ → ℕ → Bytes → Bytes → Outcome (Bucket × Bool)
  delete_at b seg_key seg idx_map idx key to_del = elim (get_elem? seg idx) [
    | none ↦ panic
    | some kv ↦
        let parts = parts_of kv.value in
        let kept = without_part to_del parts in
        if length kept == length parts
        then done (b, false)
        else delete_parts b seg_key seg idx_map idx key kv kept
  ]

  unfoldable pub delete_in : Bucket → Bytes → Bytes → Bytes → Outcome (Bucket × Bool)
  delete_in b seg_key key to_del = elim (get seg_key b.segments) [
    | none ↦ done (b, false)
    | some seg ↦ elim (get seg_key b.seg_idx_maps) [
      | none ↦ done (b, false)
      | some idx_map ↦ elim (get key idx_map) [
        | none ↦ done (b, false)
        | some idx ↦ delete_at b seg_key seg idx_map idx key to_del
      ]
    ]
  ]

  unfoldable pub delete_value : Bucket → Bytes → Bytes → Outcome (Bucket × Bool)
  delete_value b key [] = done (b, false)
  delete_value b key (c ∷ to_del) = do
    seg_key ← get_segment_key b key
    delete_in b seg_key key (c ∷ to_del)

  -- The loop that redistributes the pairs; an index past the children panics.
  unfoldable pub redistribute : ℕ → ℕ → List Bucket → List Kvpair → Outcome (List Bucket)
  redistribute rdx pos children [] = done children
  redistribute rdx pos children (kv ∷ kvs) =
      elim (get_elem? children (digit_at_mixed kv.key rdx pos)) [
        | none ↦ panic
        | some child ↦ do
          child' ← insert child kv
          redistribute rdx pos (set children (digit_at_mixed kv.key rdx pos) child') kvs
      ]

  unfoldable pub split_bucket : Bucket → Outcome (List Bucket)
  split_bucket b =
      redistribute b.rdx b.ld (map (child_bucket b) (range' 0 b.rdx)) (all_kvs b.segments)
