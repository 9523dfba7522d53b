-- ===== src/Mest/Bucket/Insert.antt =====
-- crates/storager/ads_lib/src/mest/bucket.rs: what an insert does to a bucket.
use mathlib.Core.Option.{some-injective}
use trust_meta.Base.{
  ℕ, zero, suc, ◌<◌, ◌≡◌, refl, sym, ap, ◌∙◌, List, [], ◌∷◌, ◌++◌, Option, none, some, get_elem?,
  length, set, Bytes, done, bytes_eq, false, inl, inr, Bool-cases, Option-cases, bytes_eq_iff,
  bytes_eq_refl, get_elem?-lt, length-map, arith, if◌then◌else◌,
}
use trust_meta.Assoc.{
  Assoc, get, insert as map_insert, replace, get-insert, get-insert_other, get-replace,
  get-replace_other,
}
use trust_meta.Assoc.Distinct.{insert-IsDistinct, replace-IsDistinct}
use trust_meta.Merkle.{MerkleTree}
use trust_meta.Merkle.Total.{
  recompute_total, recompute-data_list, insert_data-recompute, update_root-recompute,
}
use trust_meta.Mest.Segment.{Kvpair, segment_key, values, merge}
use trust_meta.Mest.Bucket.{
  Bucket, index_of, find_in, found_at, value_at, update_tree, set_value, push, add_segment,
}
use trust_meta.Mest.Bucket.Valid.{IsSegment, IsValid}
use trust_meta.Mest.Bucket.Written.{IsWritten, pushed-IsSegment, set-IsSegment}

-- The value of a key after an insert, from the value before.
unfoldable pub merged : Option Bytes → Bytes → Bytes
unfolding merge
merged none newv = newv
merged (some old) newv = merge old newv

-- Two buckets that differ in their segments alone.
pub record IsSameFrame (b b' : Bucket) : Type 0 where
  pub bucket_key : b'.bucket_key ≡ b.bucket_key
  pub ld : b'.ld ≡ b.ld
  pub rdx : b'.rdx ≡ b.rdx
  pub capacity : b'.capacity ≡ b.capacity
  pub seg_num : b'.seg_num ≡ b.seg_num

-- What an insert leaves in the segment that it writes, and in the others.
pub record IsInserted (sha256 : Bytes → Bytes) (b b' : Bucket) (seg_key : Bytes) (kv : Kvpair)
    : Type 0 where
  pub valid : IsValid sha256 b'
  pub frame : IsSameFrame b b'
  pub mine :
      (key : Bytes) (old : Option Bytes)
      → value_at (find_in b seg_key key) ≡ done old
      → value_at (find_in b' seg_key key)
        ≡ done (if bytes_eq kv.key key then some (merged old kv.value) else old)
  pub others : (k key : Bytes) → bytes_eq seg_key k ≡ false → find_in b' k key ≡ find_in b k key

pub find_in-others :
    (b b' : Bucket) (seg_key : Bytes) (seg : List Kvpair) (idx_map : Assoc ℕ) (mt : MerkleTree)
    → IsWritten b b' seg_key seg idx_map mt
    → (k key : Bytes) → bytes_eq seg_key k ≡ false
    → find_in b' k key ≡ find_in b k key
unfolding find_in index_of
find_in-others b b' seg_key seg idx_map mt w k key differs =
    let index : index_of b' k key ≡ index_of b k key = rw (w.other_maps k differs, index_of) refl in
    elim (Option-cases (get k b.segments)) [
      | inl e ↦ rw (w.other_segments k differs ∙ e, find_in) (sym (rw (e, find_in) refl))
      | inr (seg', e) ↦
          rw (w.other_segments k differs ∙ e, find_in)
            (ap (found_at seg') index ∙ sym (rw (e, find_in) refl))
    ]

module _ (sha256 : Bytes → Bytes) (b : Bucket) (seg_key : Bytes) (seg : List Kvpair)
    (idx_map : Assoc ℕ) (mt : MerkleTree) (v : IsValid sha256 b)
    (in_segments : get seg_key b.segments ≡ some seg)
    (in_maps : get seg_key b.seg_idx_maps ≡ some idx_map)
    (in_trees : get seg_key b.merkle_trees ≡ some mt)
    (s : IsSegment sha256 b.seg_num seg_key seg idx_map mt) where
  -- A value that is set is written, and the tree follows.
  pub set_value-IsWritten :
      (idx : ℕ) (kv kv' : Kvpair)
      → get_elem? seg idx ≡ some kv
      → kv'.key ≡ kv.key
      → (b' : Bucket) × (mt' : MerkleTree) × (set_value sha256 b seg_key seg idx kv' ≡ done b')
        × IsWritten b b' seg_key (set seg idx kv') idx_map mt'
        × IsSegment sha256 b.seg_num seg_key (set seg idx kv') idx_map mt'
        × IsSameFrame b b'
  unfolding set_value update_tree
  set_value-IsWritten idx kv kv' at same =
      let datas = recompute-data_list sha256 (values seg) mt s.tree in
      let inside : idx < length (values seg) =
        omega (arith, get_elem?-lt seg idx at, length-map seg (λ (e : Kvpair). e.value)) in
      let (mt', root, run, run') =
        update_root-recompute sha256 mt (values seg) datas idx kv'.value inside in
      (
        record b {
          segments = replace seg_key (set seg idx kv') b.segments;
          merkle_trees = replace seg_key mt' b.merkle_trees;
        },
        mt',
        rw (in_trees, update_tree) (rw run refl),
        record {
          seg_num = refl;
          distinct = replace-IsDistinct seg_key _ b.segments;
          segments = get-replace seg_key _ seg b.segments in_segments;
          seg_idx_maps = in_maps;
          merkle_trees = get-replace seg_key _ mt b.merkle_trees in_trees;
          other_segments = λ k differs. get-replace_other seg_key k _ b.segments differs;
          other_maps = λ k differs. refl;
          other_trees = λ k differs. get-replace_other seg_key k _ b.merkle_trees differs;
        },
        set-IsSegment sha256 b.seg_num seg_key seg idx_map mt mt' s idx kv kv' at same run',
        record { bucket_key = refl; ld = refl; rdx = refl; capacity = refl; seg_num = refl },
      )

  pub push-IsWritten :
      (kv : Kvpair)
      → get kv.key idx_map ≡ none
      → segment_key b.seg_num kv.key ≡ done seg_key
      → (b' : Bucket) × (mt' : MerkleTree) × (push sha256 b seg_key seg idx_map kv ≡ done b')
        × IsWritten b b' seg_key (seg ++ kv ∷ []) (map_insert kv.key (length seg) idx_map) mt'
        × IsSegment sha256 b.seg_num seg_key
            (seg ++ kv ∷ [])
            (map_insert kv.key (length seg) idx_map)
            mt'
        × IsSameFrame b b'
  unfolding push update_tree
  push-IsWritten kv fresh mine =
      let datas = recompute-data_list sha256 (values seg) mt s.tree in
      let (mt', root, run, run') = insert_data-recompute sha256 mt (values seg) datas kv.value in
      (
        record b {
          segments = replace seg_key (seg ++ kv ∷ []) b.segments;
          seg_idx_maps = replace seg_key (map_insert kv.key (length seg) idx_map) b.seg_idx_maps;
          merkle_trees = replace seg_key mt' b.merkle_trees;
        },
        mt',
        rw (in_trees, update_tree) (rw run refl),
        record {
          seg_num = refl;
          distinct = replace-IsDistinct seg_key _ b.segments;
          segments = get-replace seg_key _ seg b.segments in_segments;
          seg_idx_maps = get-replace seg_key _ idx_map b.seg_idx_maps in_maps;
          merkle_trees = get-replace seg_key _ mt b.merkle_trees in_trees;
          other_segments = λ k differs. get-replace_other seg_key k _ b.segments differs;
          other_maps = λ k differs. get-replace_other seg_key k _ b.seg_idx_maps differs;
          other_trees = λ k differs. get-replace_other seg_key k _ b.merkle_trees differs;
        },
        pushed-IsSegment sha256 b.seg_num seg_key seg idx_map mt mt' s kv fresh mine run',
        record { bucket_key = refl; ld = refl; rdx = refl; capacity = refl; seg_num = refl },
      )

single_placed :
    (kv : Kvpair) (idx : ℕ) (kv' : Kvpair)
    → get_elem? (kv ∷ []) idx ≡ some kv'
    → get kv'.key ((kv.key, 0) ∷ []) ≡ some idx
unfolding get
single_placed kv zero kv' at = rw (← some-injective kv kv' at) (rw (bytes_eq_refl kv.key) refl)
single_placed kv (suc idx) kv' at = absurd (cc at)

single_owned :
    (n : ℕ) (seg_key : Bytes) (kv : Kvpair)
    → segment_key n kv.key ≡ done seg_key
    → (idx : ℕ) (kv' : Kvpair) → get_elem? (kv ∷ []) idx ≡ some kv'
    → segment_key n kv'.key ≡ done seg_key
single_owned n seg_key kv mine zero kv' at = rw (← some-injective kv kv' at) mine
single_owned n seg_key kv mine (suc idx) kv' at = absurd (cc at)

pub add_segment-IsWritten :
    (sha256 : Bytes → Bytes) (b : Bucket) (seg_key : Bytes) (kv : Kvpair)
    → segment_key b.seg_num kv.key ≡ done seg_key
    → (b' : Bucket) × (mt' : MerkleTree) × (add_segment sha256 b seg_key kv ≡ done b')
      × IsWritten b b' seg_key (kv ∷ []) ((kv.key, 0) ∷ []) mt'
      × IsSegment sha256 b.seg_num seg_key (kv ∷ []) ((kv.key, 0) ∷ []) mt'
      × IsSameFrame b b'
unfolding add_segment get
add_segment-IsWritten sha256 b seg_key kv mine =
    let (mt', run, _) = recompute_total sha256 (kv.value ∷ []) in
    (
      record b {
        segments = map_insert seg_key (kv ∷ []) b.segments;
        seg_idx_maps = map_insert seg_key ((kv.key, 0) ∷ []) b.seg_idx_maps;
        merkle_trees = map_insert seg_key mt' b.merkle_trees;
      },
      mt',
      rw run refl,
      record {
        seg_num = refl;
        distinct = insert-IsDistinct seg_key _ b.segments;
        segments = get-insert seg_key _ b.segments;
        seg_idx_maps = get-insert seg_key _ b.seg_idx_maps;
        merkle_trees = get-insert seg_key _ b.merkle_trees;
        other_segments = λ k differs. get-insert_other seg_key k _ b.segments differs;
        other_maps = λ k differs. get-insert_other seg_key k _ b.seg_idx_maps differs;
        other_trees = λ k differs. get-insert_other seg_key k _ b.merkle_trees differs;
      },
      record {
        found = λ key idx at. elim (Bool-cases (bytes_eq kv.key key)) [
          | inl same ↦
              let zeroth : 0 ≡ idx = some-injective _ _ (rw (same, get) at at) in
              (kv, rw (← zeroth) refl, (bytes_eq_iff kv.key key).0 same)
          | inr differs ↦ absurd (cc (rw (differs, get) at at))
        ];
        placed = λ idx kv' at. single_placed kv idx kv' at;
        owned = λ idx kv' at. single_owned b.seg_num seg_key kv mine idx kv' at;
        tree = run;
      },
      record { bucket_key = refl; ld = refl; rdx = refl; capacity = refl; seg_num = refl },
    )
