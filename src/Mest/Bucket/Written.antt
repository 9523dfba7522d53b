-- ===== src/Mest/Bucket/Written.antt =====
-- crates/storager/ads_lib/src/mest/bucket.rs: a bucket in which one segment is written.
use mathlib.Core.Option.{some-injective}
use mathlib.Core.Path.{subst}
use native.Mathlib.Decide.{ℕ_discrete}
use trust_meta.Base.{
  ℕ, ◌≡◌, refl, sym, ap, ◌∙◌, List, [], ◌∷◌, ◌++◌, none, some, get_elem?, length, set, Bytes, done,
  bytes_eq, false, inl, inr, Bool-cases, bytes_eq_iff, get_elem?-snoc, get_elem?-set_cases,
  get_elem?-set_self, get_elem?-set_ne, get_elem?-lt, get_elem?-append_left, get_elem?-append_right,
  map-set, map-snoc, arith,
}
use trust_meta.Assoc.{Assoc, get, insert as map_insert, get-insert, get-insert_other}
use trust_meta.Assoc.Distinct.{IsDistinct}
use trust_meta.Merkle.{MerkleTree, recompute}
use trust_meta.Mest.Segment.{Kvpair, segment_key, values}
use trust_meta.Mest.Bucket.{Bucket, index_of, find_in, found_at, value_at}
use trust_meta.Mest.Bucket.Valid.{IsSegment, SegmentCase, absent, present, IsValid}

-- A bucket in which one segment is written, and the others are as before.
pub record IsWritten (b b' : Bucket) (seg_key : Bytes) (seg : List Kvpair) (idx_map : Assoc ℕ)
    (mt : MerkleTree) : Type 0 where
  pub seg_num : b'.seg_num ≡ b.seg_num
  pub distinct : IsDistinct b.segments → IsDistinct b'.segments
  pub segments : get seg_key b'.segments ≡ some seg
  pub seg_idx_maps : get seg_key b'.seg_idx_maps ≡ some idx_map
  pub merkle_trees : get seg_key b'.merkle_trees ≡ some mt
  pub other_segments :
      (k : Bytes) → bytes_eq seg_key k ≡ false → get k b'.segments ≡ get k b.segments
  pub other_maps :
      (k : Bytes) → bytes_eq seg_key k ≡ false → get k b'.seg_idx_maps ≡ get k b.seg_idx_maps
  pub other_trees :
      (k : Bytes) → bytes_eq seg_key k ≡ false → get k b'.merkle_trees ≡ get k b.merkle_trees

-- A place's pair, found through the segment's map.
pub find_in-present :
    (b : Bucket) (seg_key key : Bytes) (seg : List Kvpair) (idx_map : Assoc ℕ)
    → get seg_key b.segments ≡ some seg
    → get seg_key b.seg_idx_maps ≡ some idx_map
    → find_in b seg_key key ≡ found_at seg (get key idx_map)
unfolding find_in index_of
find_in-present b seg_key key seg idx_map in_segments in_maps =
    let index : index_of b seg_key key ≡ get key idx_map = rw (in_maps, index_of) refl in
    rw (in_segments, find_in) (ap (found_at seg) index)

pub find_in-absent :
    (b : Bucket) (seg_key key : Bytes)
    → get seg_key b.segments ≡ none
    → value_at (find_in b seg_key key) ≡ done none
unfolding find_in value_at
find_in-absent b seg_key key missing = rw (missing, find_in) refl

module _ (sha256 : Bytes → Bytes) where
  written-SegmentCase :
      (b b' : Bucket) (seg_key : Bytes) (seg : List Kvpair) (idx_map : Assoc ℕ) (mt : MerkleTree)
      → IsWritten b b' seg_key seg idx_map mt
      → IsSegment sha256 b.seg_num seg_key seg idx_map mt
      → IsValid sha256 b
      → (k : Bytes) → SegmentCase sha256 b' k
  written-SegmentCase b b' seg_key seg idx_map mt w s v k = elim (Bool-cases (bytes_eq seg_key k)) [
    | inl same ↦
        let is = (bytes_eq_iff seg_key k).0 same in
        subst (SegmentCase sha256 b') is (
          present seg idx_map mt w.segments w.seg_idx_maps w.merkle_trees
            (subst (λ n. IsSegment sha256 n seg_key seg idx_map mt) (sym w.seg_num) s))
    | inr differs ↦ elim (v.segment k) [
      | absent e f g ↦
          absent (w.other_segments k differs ∙ e) (w.other_maps k differs ∙ f)
            (w.other_trees k differs ∙ g)
      | present seg' idx_map' mt' e f g s' ↦
          present seg' idx_map' mt' (w.other_segments k differs ∙ e) (w.other_maps k differs ∙ f)
            (w.other_trees k differs ∙ g)
            (subst (λ n. IsSegment sha256 n k seg' idx_map' mt') (sym w.seg_num) s')
    ]
  ]

  pub IsWritten-IsValid :
      (b b' : Bucket) (seg_key : Bytes) (seg : List Kvpair) (idx_map : Assoc ℕ) (mt : MerkleTree)
      → IsWritten b b' seg_key seg idx_map mt
      → IsSegment sha256 b.seg_num seg_key seg idx_map mt
      → IsValid sha256 b
      → IsValid sha256 b'
  IsWritten-IsValid b b' seg_key seg idx_map mt w s v = record {
    distinct = w.distinct v.distinct;
    segment = λ k. written-SegmentCase b b' seg_key seg idx_map mt w s v k;
  }

  module _ (n : ℕ) (seg_key : Bytes) (seg : List Kvpair) (idx_map : Assoc ℕ) (mt mt' : MerkleTree)
      (s : IsSegment sha256 n seg_key seg idx_map mt) where
    -- A segment with one more pair.
    pub pushed-IsSegment :
        (kv : Kvpair)
        → get kv.key idx_map ≡ none
        → segment_key n kv.key ≡ done seg_key
        → recompute sha256 (values seg ++ kv.value ∷ []) ≡ done mt'
        → IsSegment sha256 n seg_key (seg ++ kv ∷ []) (map_insert kv.key (length seg) idx_map) mt'
    pushed-IsSegment kv fresh mine run = record {
      found = λ key idx at. elim (Bool-cases (bytes_eq kv.key key)) [
        | inl same ↦
            let is = (bytes_eq_iff kv.key key).0 same in
            let last : length seg ≡ idx =
              some-injective _ _ (sym (get-insert kv.key (length seg) idx_map) ∙ rw (← is) at at) in
            (kv, get_elem?-append_right seg (kv ∷ []) idx 0 (omega arith), is)
        | inr differs ↦
            let before = sym (get-insert_other kv.key key (length seg) idx_map differs) ∙ at in
            let (kv', at', is) = s.found key idx before in
            (kv', get_elem?-append_left seg (kv ∷ []) idx (get_elem?-lt seg idx at') ∙ at', is)
      ];
      placed = λ idx kv' at. elim (get_elem?-snoc seg kv idx kv' at) [
        | inl before ↦ elim (Bool-cases (bytes_eq kv.key kv'.key)) [
          | inl same ↦
              absurd (cc (s.placed idx kv' before, (bytes_eq_iff kv.key kv'.key).0 same, fresh))
          | inr differs ↦
              get-insert_other kv.key kv'.key (length seg) idx_map differs ∙ s.placed idx kv' before
        ]
        | inr (last, is) ↦ rw (is, last) (get-insert kv.key (length seg) idx_map)
      ];
      owned = λ idx kv' at. elim (get_elem?-snoc seg kv idx kv' at) [
        | inl before ↦ s.owned idx kv' before
        | inr (last, is) ↦ rw is mine
      ];
      tree = rw (map-snoc (λ (e : Kvpair). e.value) seg kv) run;
    }

    -- A segment with one value replaced.
    pub set-IsSegment :
        (idx : ℕ) (kv kv' : Kvpair)
        → get_elem? seg idx ≡ some kv
        → kv'.key ≡ kv.key
        → recompute sha256 (set (values seg) idx kv'.value) ≡ done mt'
        → IsSegment sha256 n seg_key (set seg idx kv') idx_map mt'
    set-IsSegment idx kv kv' at same run = record {
      found = λ key j in_map.
          let (kv'', at', is) = s.found key j in_map in
          elim (ℕ_discrete idx j) [
            | yes here ↦
                let old : kv ≡ kv'' = some-injective _ _ (sym at ∙ ap (get_elem? seg) here ∙ at') in
                (
                  kv',
                  ap (get_elem? (set seg idx kv')) (sym here)
                      ∙ get_elem?-set_self seg idx kv' (get_elem?-lt seg idx at),
                  same ∙ ap (λ (e : Kvpair). e.key) old ∙ is,
                )
            | no ne ↦ (kv'', get_elem?-set_ne seg idx j kv' ne ∙ at', is)
          ];
      placed = λ j kv'' at'. elim (get_elem?-set_cases seg idx j kv' kv'' at') [
        | inl (here, is) ↦ rw (is, same, here) (s.placed idx kv at)
        | inr (ne, before) ↦ s.placed j kv'' before
      ];
      owned = λ j kv'' at'. elim (get_elem?-set_cases seg idx j kv' kv'' at') [
        | inl (here, is) ↦ rw (is, same) (s.owned idx kv at)
        | inr (ne, before) ↦ s.owned j kv'' before
      ];
      tree = rw (map-set (λ (e : Kvpair). e.value) seg idx kv') run;
    }
