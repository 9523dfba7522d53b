-- ===== src/Mest/Bucket/Delete.antt =====
-- crates/storager/ads_lib/src/mest/bucket.rs: what a delete does to a bucket.
use mathlib.Core.Option.{some-injective, map as map_option}
use trust_meta.Base.{
  ℕ, ◌≡◌, ◌≢◌, refl, sym, ap, ◌∙◌, List, [], ◌∷◌, Option, none, some, get_elem?, length, set, Bytes,
  done, done-injective, Bool, bytes_eq, true, false, inl, inr, Bool-cases, Option-cases,
  bytes_eq_iff, bytes_eq_refl, get_elem?-set_self, get_elem?-set_ne, get_elem?-lt, if◌then◌else◌,
  ◌==◌,
}
use trust_meta.Text.{without_part, join}
use trust_meta.Assoc.{Assoc, get, replace, get-replace, get-replace_other}
use trust_meta.Assoc.Distinct.{replace-IsDistinct}
use trust_meta.Merkle.{MerkleTree}
use trust_meta.Mest.Segment.{Kvpair, remove_at, parts_of}
use trust_meta.Mest.Bucket.{
  Bucket, find_in, found_at, value_at, set_value, remove_pair, delete_parts, delete_at,
}
use trust_meta.Mest.Bucket.Valid.{IsSegment, IsValid}
use trust_meta.Mest.Bucket.Written.{IsWritten, find_in-present, IsWritten-IsValid}
use trust_meta.Mest.Bucket.Insert.{IsSameFrame, find_in-others, set_value-IsWritten}
use trust_meta.Mest.Bucket.Merge.{value_at-some, value_at-none}
use trust_meta.Mest.Bucket.Remove.{
  down, up-down, get_elem?-remove_at, removed_map, get-removed_self, get-removed_other,
  rebuild_merkle-recompute, removed-IsSegment,
}

-- The value of a key after its parts that equal a text are deleted; none when no part is left.
unfoldable pub joined : List Bytes → Option Bytes
joined [] = none
joined (part ∷ parts) = some (join (b',' ∷ []) (part ∷ parts))

unfoldable pub left_over : Bytes → Bytes → Option Bytes
left_over to_del value =
    let kept = without_part to_del (parts_of value) in
    if length kept == length (parts_of value) then some value else joined kept

-- The same for a key that may be missing.
unfoldable pub deleted : Bytes → Option Bytes → Option Bytes
unfolding left_over joined
deleted to_del none = none
deleted to_del (some value) = left_over to_del value

-- The value of a key, from its place in the segment's map.
module _ (b : Bucket) (seg_key : Bytes) (seg : List Kvpair) (idx_map : Assoc ℕ)
    (in_segments : get seg_key b.segments ≡ some seg)
    (in_maps : get seg_key b.seg_idx_maps ≡ some idx_map) (k : Bytes) where
  pub value_here :
      (idx : ℕ) (kv : Kvpair)
      → get k idx_map ≡ some idx
      → get_elem? seg idx ≡ some kv
      → value_at (find_in b seg_key k) ≡ done (some kv.value)
  value_here idx kv at_map at =
      ap value_at
        (find_in-present b seg_key k seg idx_map in_segments in_maps ∙ ap (found_at seg) at_map)
      ∙ value_at-some seg idx kv at

  pub value_missing : get k idx_map ≡ none → value_at (find_in b seg_key k) ≡ done none
  value_missing gone =
      ap value_at
        (find_in-present b seg_key k seg idx_map in_segments in_maps ∙ ap (found_at seg) gone)
      ∙ value_at-none seg

-- What a delete leaves in the segment that it writes, and in the others.
pub record IsDeleted (sha256 : Bytes → Bytes) (b b' : Bucket) (seg_key key to_del : Bytes)
    : Type 0 where
  pub valid : IsValid sha256 b'
  pub frame : IsSameFrame b b'
  pub mine :
      (k : Bytes) (old : Option Bytes)
      → value_at (find_in b seg_key k) ≡ done old
      → value_at (find_in b' seg_key k) ≡ done (if bytes_eq key k then deleted to_del old else old)
  pub others : (k k' : Bytes) → bytes_eq seg_key k ≡ false → find_in b' k k' ≡ find_in b k k'

module _ (sha256 : Bytes → Bytes) (b : Bucket) (seg_key : Bytes) (seg : List Kvpair)
    (idx_map : Assoc ℕ) (mt : MerkleTree) (v : IsValid sha256 b)
    (in_segments : get seg_key b.segments ≡ some seg)
    (in_maps : get seg_key b.seg_idx_maps ≡ some idx_map)
    (in_trees : get seg_key b.merkle_trees ≡ some mt)
    (s : IsSegment sha256 b.seg_num seg_key seg idx_map mt) (key : Bytes) (idx : ℕ)
    (here : get key idx_map ≡ some idx) where
  remove_pair-IsWritten :
      (b' : Bucket) × (mt' : MerkleTree) × (remove_pair sha256 b seg_key seg idx_map idx key
        ≡ done b')
      × IsWritten b b' seg_key (remove_at seg idx) (removed_map key idx idx_map) mt'
      × IsSegment sha256 b.seg_num seg_key (remove_at seg idx) (removed_map key idx idx_map) mt'
      × IsSameFrame b b'
  unfolding remove_pair
  remove_pair-IsWritten =
      let (mt', run, run') = rebuild_merkle-recompute sha256 (remove_at seg idx) in
      (
        record b {
          segments = replace seg_key (remove_at seg idx) b.segments;
          seg_idx_maps = replace seg_key (removed_map key idx idx_map) b.seg_idx_maps;
          merkle_trees = replace seg_key mt' b.merkle_trees;
        },
        mt',
        rw run refl,
        record {
          seg_num = refl;
          distinct = replace-IsDistinct seg_key _ b.segments;
          segments = get-replace seg_key _ seg b.segments in_segments;
          seg_idx_maps = get-replace seg_key _ idx_map b.seg_idx_maps in_maps;
          merkle_trees = get-replace seg_key _ mt b.merkle_trees in_trees;
          other_segments = λ k differs. get-replace_other seg_key k _ b.segments differs;
          other_maps = λ k differs. get-replace_other seg_key k _ b.seg_idx_maps differs;
          other_trees = λ k differs. get-replace_other seg_key k _ b.merkle_trees differs;
        },
        removed-IsSegment sha256 b.seg_num seg_key seg idx_map mt mt' s key idx here run',
        record { bucket_key = refl; ld = refl; rdx = refl; capacity = refl; seg_num = refl },
      )

  -- A key's value before the delete.
  was_some :
      (k : Bytes) (old : Option Bytes) (j : ℕ) (e : Kvpair)
      → value_at (find_in b seg_key k) ≡ done old
      → get k idx_map ≡ some j
      → get_elem? seg j ≡ some e
      → some e.value ≡ old
  was_some k old j e was at_map at =
      done-injective
        (sym (value_here b seg_key seg idx_map in_segments in_maps k j e at_map at) ∙ was)

  was_none :
      (k : Bytes) (old : Option Bytes)
      → value_at (find_in b seg_key k) ≡ done old
      → get k idx_map ≡ none
      → none ≡ old
  was_none k old was gone =
      done-injective (sym (value_missing b seg_key seg idx_map in_segments in_maps k gone) ∙ was)

  -- Another key of the segment has another place.
  other_place :
      (k : Bytes) (j : ℕ) (e : Kvpair)
      → bytes_eq key k ≡ false
      → get_elem? seg j ≡ some e
      → e.key ≡ k
      → j ≢ idx
  other_place k j e differs at its same =
      let (kv0, at0, its0) = s.found key idx here in
      absurd (
        cc (
          some-injective e kv0 (sym at ∙ ap (get_elem? seg) same ∙ at0),
          its,
          its0,
          bytes_eq_refl key,
          differs,
        ))

  removed-IsDeleted :
      (to_del : Bytes) (kv : Kvpair)
      → get_elem? seg idx ≡ some kv
      → left_over to_del kv.value ≡ none
      → (b' : Bucket) × (remove_pair sha256 b seg_key seg idx_map idx key ≡ done b')
        × IsDeleted sha256 b b' seg_key key to_del
  unfolding deleted
  removed-IsDeleted to_del kv at nothing =
      let (b', mt', run, w, s', frame) = remove_pair-IsWritten in
      let seg' = remove_at seg idx in
      let map' = removed_map key idx idx_map in
      (
        b',
        run,
        record {
          valid = IsWritten-IsValid sha256 b b' seg_key _ _ mt' w s' v;
          frame = frame;
          mine = λ k old was. elim (Bool-cases (bytes_eq key k)) [
            | inl same ↦
                let is = (bytes_eq_iff key k).0 same in
                let before = was_some k old idx kv was (rw (← is) here) at in
                let gone : get k map' ≡ none = rw (← is) (get-removed_self key idx idx_map) in
                rw (same, ← before)
                  (value_missing b' seg_key seg' map' w.segments w.seg_idx_maps k gone
                    ∙ ap done (sym nothing))
            | inr differs ↦ elim (Option-cases (get k idx_map)) [
              | inl none_here ↦
                  let gone : get k map' ≡ none =
                    get-removed_other key k idx idx_map differs
                    ∙ ap (map_option (down idx)) none_here in
                  rw differs (
                    value_missing b' seg_key seg' map' w.segments w.seg_idx_maps k gone
                    ∙ ap done (was_none k old was none_here))
              | inr (j, in_map) ↦
                  let (kv', at', its) = s.found k j in_map in
                  let ne = other_place k j kv' differs at' its in
                  let in_map' : get k map' ≡ some (down idx j) =
                    get-removed_other key k idx idx_map differs
                    ∙ ap (map_option (down idx)) in_map in
                  let at'' : get_elem? seg' (down idx j) ≡ some kv' =
                    get_elem?-remove_at seg idx (down idx j) (get_elem?-lt seg idx at)
                    ∙ ap (get_elem? seg) (up-down idx j ne)
                    ∙ at' in
                  rw differs (
                    value_here b' seg_key seg' map' w.segments w.seg_idx_maps k (down idx j) kv'
                      in_map' at''
                    ∙ ap done (was_some k old j kv' was in_map at'))
            ]
          ];
          others = find_in-others b b' seg_key _ _ mt' w;
        },
      )

  shortened-IsDeleted :
      (to_del : Bytes) (kv : Kvpair) (new_val : Bytes)
      → get_elem? seg idx ≡ some kv
      → left_over to_del kv.value ≡ some new_val
      → (b' : Bucket) × (set_value sha256 b seg_key seg idx (record kv { value = new_val })
          ≡ done b')
        × IsDeleted sha256 b b' seg_key key to_del
  unfolding deleted
  shortened-IsDeleted to_del kv new_val at left =
      let kv' = record kv { value = new_val } in
      let (b', mt', run, w, s', frame) =
        set_value-IsWritten sha256 b seg_key seg idx_map mt v in_segments in_maps in_trees s idx kv
          kv' at refl in
      let seg' = set seg idx kv' in
      (
        b',
        run,
        record {
          valid = IsWritten-IsValid sha256 b b' seg_key _ _ mt' w s' v;
          frame = frame;
          mine = λ k old was. elim (Bool-cases (bytes_eq key k)) [
            | inl same ↦
                let is = (bytes_eq_iff key k).0 same in
                let in_map : get k idx_map ≡ some idx = rw (← is) here in
                let before = was_some k old idx kv was in_map at in
                rw (same, ← before)
                  (value_here b' seg_key seg' idx_map w.segments w.seg_idx_maps k idx kv' in_map
                      (get_elem?-set_self seg idx kv' (get_elem?-lt seg idx at))
                    ∙ ap done (sym left))
            | inr differs ↦ elim (Option-cases (get k idx_map)) [
              | inl gone ↦ rw differs (
                  value_missing b' seg_key seg' idx_map w.segments w.seg_idx_maps k gone
                  ∙ ap done (was_none k old was gone))
              | inr (j, in_map) ↦
                  let (e, at', its) = s.found k j in_map in
                  let ne : idx ≢ j = λ same. other_place k j e differs at' its (sym same) in
                  rw differs (
                    value_here b' seg_key seg' idx_map w.segments w.seg_idx_maps k j e in_map
                      (get_elem?-set_ne seg idx j kv' ne ∙ at')
                    ∙ ap done (was_some k old j e was in_map at'))
            ]
          ];
          others = find_in-others b b' seg_key _ _ mt' w;
        },
      )

  same-IsDeleted :
      (to_del : Bytes) (kv : Kvpair)
      → get_elem? seg idx ≡ some kv
      → left_over to_del kv.value ≡ some kv.value
      → IsDeleted sha256 b b seg_key key to_del
  unfolding deleted
  same-IsDeleted to_del kv at left = record {
    valid = v;
    frame = record { bucket_key = refl; ld = refl; rdx = refl; capacity = refl; seg_num = refl };
    mine = λ k old was. was ∙ (elim (Bool-cases (bytes_eq key k)) [
      | inr differs ↦ rw differs refl
      | inl same ↦
          let is = (bytes_eq_iff key k).0 same in
          let before = was_some k old idx kv was (rw (← is) here) at in
          rw (same, ← before) (ap done (sym left))
    ]);
    others = λ k k' differs. refl;
  }

  delete_parts-IsDeleted :
      (to_del : Bytes) (kv : Kvpair) (kept : List Bytes)
      → get_elem? seg idx ≡ some kv
      → left_over to_del kv.value ≡ joined kept
      → (b' : Bucket) × (changed : Bool) × (delete_parts sha256 b seg_key seg idx_map idx key kv
            kept
          ≡ done (b', changed))
        × IsDeleted sha256 b b' seg_key key to_del
  unfolding delete_parts joined
  delete_parts-IsDeleted to_del kv [] at left =
      let (b', run, is) = removed-IsDeleted to_del kv at left in (b', true, rw run refl, is)
  delete_parts-IsDeleted to_del kv (part ∷ parts) at left =
      let new_val = join (b',' ∷ []) (part ∷ parts) in
      elim (Bool-cases (bytes_eq new_val kv.value)) [
        | inl same ↦ (
          b,
          false,
          rw same refl,
          same-IsDeleted to_del kv at (left ∙ ap some ((bytes_eq_iff new_val kv.value).0 same)),
        )
        | inr other ↦
            let (b', run, is) = shortened-IsDeleted to_del kv new_val at left in
            (b', true, rw other (rw run refl), is)
      ]

  pub delete_at-IsDeleted :
      (to_del : Bytes)
      → (b' : Bucket) × (changed : Bool) × (delete_at sha256 b seg_key seg idx_map idx key to_del
          ≡ done (b', changed))
        × IsDeleted sha256 b b' seg_key key to_del
  unfolding delete_at left_over
  delete_at-IsDeleted to_del =
      let (kv, at, its) = s.found key idx here in
      let parts = parts_of kv.value in
      let kept = without_part to_del parts in
      elim (Bool-cases (length kept == length parts)) [
        | inl same ↦ (
          b,
          false,
          rw (at, delete_at) (rw same refl),
          same-IsDeleted to_del kv at (rw same refl),
        )
        | inr other ↦
            let (b', changed, run, is) = delete_parts-IsDeleted to_del kv kept at (rw other refl) in
            (b', changed, rw (at, delete_at) (rw other run), is)
      ]
