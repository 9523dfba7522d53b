-- ===== src/Mest/Bucket/Valid.antt =====
-- crates/storager/ads_lib/src/mest/bucket.rs: a bucket's three maps agree.
use trust_meta.Base.{
  ℕ, ◌≡◌, refl, sym, ap, ◌∙◌, List, none, some, get_elem?, Bytes, done, done-injective, bytes_eq,
  false, inl, inr, Bool-cases, bytes_eq_iff,
}
use trust_meta.Assoc.{Assoc, get}
use trust_meta.Assoc.Distinct.{IsDistinct}
use trust_meta.Merkle.{MerkleTree, recompute}
use trust_meta.Mest.Segment.{Kvpair, segment_key, values}
use trust_meta.Mest.Bucket.{Bucket, new}

-- A segment with its map of places and its tree: the map has exactly the pairs' keys, each at its
-- place; the keys belong to the segment; the tree is that of the values.
pub record IsSegment (sha256 : Bytes → Bytes) (seg_num : ℕ) (seg_key : Bytes) (seg : List Kvpair)
    (idx_map : Assoc ℕ) (mt : MerkleTree) : Type 0 where
  pub found :
      (key : Bytes) (idx : ℕ)
      → get key idx_map ≡ some idx
      → (kv : Kvpair) × (get_elem? seg idx ≡ some kv) × (kv.key ≡ key)
  pub placed : (idx : ℕ) (kv : Kvpair) → get_elem? seg idx ≡ some kv → get kv.key idx_map ≡ some idx
  pub owned :
      (idx : ℕ) (kv : Kvpair)
      → get_elem? seg idx ≡ some kv
      → segment_key seg_num kv.key ≡ done seg_key
  pub tree : recompute sha256 (values seg) ≡ done mt

-- What the three maps have for a segment's key: nothing, or a segment.
pub data SegmentCase (sha256 : Bytes → Bytes) (b : Bucket) (seg_key : Bytes) : Type 0 where
  absent :
      get seg_key b.segments ≡ none
      → get seg_key b.seg_idx_maps ≡ none
      → get seg_key b.merkle_trees ≡ none
      → SegmentCase sha256 b seg_key
  present :
      (seg : List Kvpair) (idx_map : Assoc ℕ) (mt : MerkleTree)
      → get seg_key b.segments ≡ some seg
      → get seg_key b.seg_idx_maps ≡ some idx_map
      → get seg_key b.merkle_trees ≡ some mt
      → IsSegment sha256 b.seg_num seg_key seg idx_map mt
      → SegmentCase sha256 b seg_key

pub record IsValid (sha256 : Bytes → Bytes) (b : Bucket) : Type 0 where
  pub distinct : IsDistinct b.segments
  pub segment : (seg_key : Bytes) → SegmentCase sha256 b seg_key

pub new-IsValid :
    (sha256 : Bytes → Bytes) (ld rdx capacity seg_num : ℕ)
    → IsValid sha256 (new ld rdx capacity seg_num)
unfolding get IsDistinct
new-IsValid sha256 ld rdx capacity seg_num = record {
  distinct = tt;
  segment = λ seg_key. absent refl refl refl;
}

-- Keys of different segments are different.
pub segments_apart :
    (n : ℕ) (key k seg_key seg_key' : Bytes)
    → segment_key n key ≡ done seg_key
    → segment_key n k ≡ done seg_key'
    → bytes_eq seg_key seg_key' ≡ false
    → bytes_eq key k ≡ false
segments_apart n key k seg_key seg_key' mine its differs = elim (Bool-cases (bytes_eq key k)) [
  | inr other ↦ other
  | inl same ↦
      let keys : seg_key ≡ seg_key' =
        done-injective (sym mine ∙ ap (segment_key n) ((bytes_eq_iff key k).0 same) ∙ its) in
      absurd (cc ((bytes_eq_iff seg_key seg_key').1 keys, differs))
]
