-- ===== src/Mest/Bucket/Merge.antt =====
-- crates/storager/ads_lib/src/mest/bucket.rs: an insert returns, and merges the value of its key.
use mathlib.Core.Option.{some-injective}
use trust_meta.Base.{
  ℕ, ◌≡◌, ◌≢◌, refl, sym, ap, ◌∙◌, List, [], ◌∷◌, ◌++◌, Option, none, some, get_elem?, length, set,
  Bytes, done, done-injective, bytes_eq, true, inl, inr, Bool-cases, Option-cases, bytes_eq_iff,
  bytes_eq_refl, get_elem?-set_self, get_elem?-set_ne, get_elem?-lt, get_elem?-append_left,
  get_elem?-append_right, arith, if◌then◌else◌,
}
use trust_meta.Assoc.{Assoc, get, insert as map_insert, get-insert, get-insert_other}
use trust_meta.Merkle.{MerkleTree}
use trust_meta.Mest.Segment.{Kvpair, segment_key, merge}
use trust_meta.Mest.Bucket.{
  Bucket, find_in, found_at, value_at, set_value, merge_at, push, add_segment, insert_in,
}
use trust_meta.Mest.Bucket.Valid.{IsSegment, absent, present, IsValid}
use trust_meta.Mest.Bucket.Written.{find_in-present, find_in-absent, IsWritten-IsValid}
use trust_meta.Mest.Bucket.Insert.{
  merged, IsInserted, find_in-others, set_value-IsWritten, push-IsWritten, add_segment-IsWritten,
}

-- The value at a place.
pub value_at-some :
    (seg : List Kvpair) (idx : ℕ) (kv : Kvpair)
    → get_elem? seg idx ≡ some kv
    → value_at (found_at seg (some idx)) ≡ done (some kv.value)
unfolding value_at found_at
value_at-some seg idx kv at = rw (at, value_at) refl

pub value_at-none : (seg : List Kvpair) → value_at (found_at seg none) ≡ done none
unfolding value_at found_at
value_at-none seg = refl

single_value :
    (kv : Kvpair) (key : Bytes) (old : Option Bytes)
    → none ≡ old
    → value_at (found_at (kv ∷ []) (get key ((kv.key, 0) ∷ [])))
      ≡ done (if bytes_eq kv.key key then some (merged old kv.value) else old)
unfolding get value_at found_at merged
single_value kv key old nothing = elim (Bool-cases (bytes_eq kv.key key)) [
  | inl same ↦ rw (same, ← nothing) refl
  | inr differs ↦ rw (differs, ← nothing) refl
]

module _ (sha256 : Bytes → Bytes) (b : Bucket) (seg_key : Bytes) (kv : Kvpair)
    (v : IsValid sha256 b) (mine : segment_key b.seg_num kv.key ≡ done seg_key) where
  -- A law for the values of a segment's keys, from those of the maps.
  abbrev HasMerged : Bucket → Type 0
  HasMerged b' =
      (key : Bytes) (old : Option Bytes)
      → value_at (find_in b seg_key key) ≡ done old
      → value_at (find_in b' seg_key key)
        ≡ done (if bytes_eq kv.key key then some (merged old kv.value) else old)

  added-IsInserted :
      get seg_key b.segments ≡ none
      → (b' : Bucket) × (add_segment sha256 b seg_key kv ≡ done b')
        × IsInserted sha256 b b' seg_key kv
  unfolding merged
  added-IsInserted missing =
      let (b', mt, run, w, s, frame) = add_segment-IsWritten sha256 b seg_key kv mine in
      (
        b',
        run,
        record {
          valid = IsWritten-IsValid sha256 b b' seg_key _ _ mt w s v;
          frame = frame;
          mine = λ key old was.
              let nothing : none ≡ old =
                done-injective (sym (find_in-absent b seg_key key missing) ∙ was) in
              let found = find_in-present b' seg_key key _ _ w.segments w.seg_idx_maps in
              ap value_at found ∙ single_value kv key old nothing;
          others = find_in-others b b' seg_key _ _ mt w;
        },
      )

  module _ (seg : List Kvpair) (idx_map : Assoc ℕ) (mt : MerkleTree)
      (in_segments : get seg_key b.segments ≡ some seg)
      (in_maps : get seg_key b.seg_idx_maps ≡ some idx_map)
      (in_trees : get seg_key b.merkle_trees ≡ some mt)
      (s : IsSegment sha256 b.seg_num seg_key seg idx_map mt) where
    -- The value that a key had, from the place that the map has for it.
    was_none :
        (key : Bytes) (old : Option Bytes)
        → value_at (find_in b seg_key key) ≡ done old
        → get key idx_map ≡ none
        → none ≡ old
    was_none key old was fresh = done-injective (
        sym (value_at-none seg)
        ∙ ap (λ o. value_at (found_at seg o)) (sym fresh)
        ∙ ap value_at (sym (find_in-present b seg_key key seg idx_map in_segments in_maps))
        ∙ was)

    was_some :
        (key : Bytes) (old : Option Bytes) (idx : ℕ) (e : Kvpair)
        → value_at (find_in b seg_key key) ≡ done old
        → get key idx_map ≡ some idx
        → get_elem? seg idx ≡ some e
        → some e.value ≡ old
    was_some key old idx e was at_map at = done-injective (
        sym (value_at-some seg idx e at)
        ∙ ap (λ o. value_at (found_at seg o)) (sym at_map)
        ∙ ap value_at (sym (find_in-present b seg_key key seg idx_map in_segments in_maps))
        ∙ was)

    pushed-IsInserted :
        get kv.key idx_map ≡ none
        → (b' : Bucket) × (push sha256 b seg_key seg idx_map kv ≡ done b')
          × IsInserted sha256 b b' seg_key kv
    unfolding merged
    pushed-IsInserted fresh =
        let (b', mt', run, w, s', frame) =
          push-IsWritten sha256 b seg_key seg idx_map mt v in_segments in_maps in_trees s kv fresh
            mine in
        let map' = map_insert kv.key (length seg) idx_map in
        let seg' = seg ++ kv ∷ [] in
        (
          b',
          run,
          record {
            valid = IsWritten-IsValid sha256 b b' seg_key _ _ mt' w s' v;
            frame = frame;
            mine = λ key old was.
                ap value_at (find_in-present b' seg_key key seg' map' w.segments w.seg_idx_maps)
                ∙ (elim (Bool-cases (bytes_eq kv.key key)) [
                  | inl same ↦
                      let is = (bytes_eq_iff kv.key key).0 same in
                      let nothing = was_none key old was (rw (← is) fresh) in
                      ap (λ o. value_at (found_at seg' o))
                        (rw (← is) (get-insert kv.key (length seg) idx_map))
                      ∙ value_at-some seg' (length seg) kv
                          (get_elem?-append_right seg (kv ∷ []) (length seg) 0 (omega arith))
                      ∙ rw (same, ← nothing) refl
                  | inr differs ↦
                      ap (λ o. value_at (found_at seg' o))
                        (get-insert_other kv.key key (length seg) idx_map differs)
                      ∙ (elim (Option-cases (get key idx_map)) [
                        | inl e ↦
                            rw (e, differs) (value_at-none seg' ∙ ap done (was_none key old was e))
                        | inr (idx, e) ↦
                            let (kv', at, _) = s.found key idx e in
                            rw (e, differs)
                              (value_at-some seg' idx kv' (
                                  get_elem?-append_left seg (kv ∷ []) idx (get_elem?-lt seg idx at)
                                  ∙ at)
                                ∙ ap done (was_some key old idx kv' was e at))
                      ])
                ]);
            others = find_in-others b b' seg_key _ _ mt' w;
          },
        )

    module _ (idx : ℕ) (at_map : get kv.key idx_map ≡ some idx) (e : Kvpair)
        (at : get_elem? seg idx ≡ some e) (its : e.key ≡ kv.key) where
      kept-IsInserted :
          bytes_eq (merge e.value kv.value) e.value ≡ true → IsInserted sha256 b b seg_key kv
      unfolding merged
      kept-IsInserted same = record {
        valid = v;
        frame = record {
          bucket_key = refl;
          ld = refl;
          rdx = refl;
          capacity = refl;
          seg_num = refl;
        };
        mine = λ key old was. was ∙ (elim (Bool-cases (bytes_eq kv.key key)) [
          | inr differs ↦ rw differs refl
          | inl here ↦
              let is = (bytes_eq_iff kv.key key).0 here in
              let before = was_some key old idx e was (rw (← is) at_map) at in
              rw (here, ← before)
                (ap (λ t. done (some t))
                  (sym ((bytes_eq_iff (merge e.value kv.value) e.value).0 same)))
        ]);
        others = λ k key differs. refl;
      }

      set-IsInserted :
          (b' : Bucket) × (set_value sha256 b seg_key seg idx
              (record e { value = merge e.value kv.value })
            ≡ done b')
          × IsInserted sha256 b b' seg_key kv
      unfolding merged
      set-IsInserted =
          let e' = record e { value = merge e.value kv.value } in
          let (b', mt', run, w, s', frame) =
            set_value-IsWritten sha256 b seg_key seg idx_map mt v in_segments in_maps in_trees s idx
              e e' at refl in
          let seg' = set seg idx e' in
          (
            b',
            run,
            record {
              valid = IsWritten-IsValid sha256 b b' seg_key _ _ mt' w s' v;
              frame = frame;
              mine = λ key old was.
                  ap value_at
                    (find_in-present b' seg_key key seg' idx_map w.segments w.seg_idx_maps)
                  ∙ (elim (Bool-cases (bytes_eq kv.key key)) [
                    | inl same ↦
                        let is = (bytes_eq_iff kv.key key).0 same in
                        let before = was_some key old idx e was (rw (← is) at_map) at in
                        ap (λ o. value_at (found_at seg' o)) (rw (← is) at_map)
                        ∙ value_at-some seg' idx e'
                            (get_elem?-set_self seg idx e' (get_elem?-lt seg idx at))
                        ∙ rw (same, ← before) refl
                    | inr differs ↦ elim (Option-cases (get key idx_map)) [
                      | inl none_here ↦
                          rw (none_here, differs)
                            (value_at-none seg' ∙ ap done (was_none key old was none_here))
                      | inr (j, in_map) ↦
                          let (kv', at', its') = s.found key j in_map in
                          let ne : idx ≢ j = λ same. absurd (
                            cc (
                              its,
                              its',
                              bytes_eq_refl key,
                              differs,
                              some-injective e kv' (sym at ∙ ap (get_elem? seg) same ∙ at'),
                            )) in
                          rw (in_map, differs)
                            (value_at-some seg' j kv' (get_elem?-set_ne seg idx j e' ne ∙ at')
                              ∙ ap done (was_some key old j kv' was in_map at'))
                    ]
                  ]);
              others = find_in-others b b' seg_key _ _ mt' w;
            },
          )

      merged-IsInserted :
          (b' : Bucket) × (merge_at sha256 b seg_key seg idx kv.value ≡ done b')
          × IsInserted sha256 b b' seg_key kv
      unfolding merge_at
      merged-IsInserted = elim (Bool-cases (bytes_eq (merge e.value kv.value) e.value)) [
        | inl same ↦ (b, rw (at, merge_at) (rw same refl), kept-IsInserted same)
        | inr other ↦
            let (b', run, is) = set-IsInserted in (b', rw (at, merge_at) (rw other run), is)
      ]

  -- An insert into a segment returns on each branch.
  pub insert_in-IsInserted :
      (b' : Bucket) × (insert_in sha256 b seg_key kv ≡ done b') × IsInserted sha256 b b' seg_key kv
  unfolding insert_in
  insert_in-IsInserted = elim (v.segment seg_key) [
    | absent e f g ↦ let (b', run, is) = added-IsInserted e in (b', rw (e, insert_in) run, is)
    | present seg idx_map mt e f g s ↦ elim (Option-cases (get kv.key idx_map)) [
      | inl fresh ↦
          let (b', run, is) = pushed-IsInserted seg idx_map mt e f g s fresh in
          (b', rw (e, insert_in) (rw f (rw fresh run)), is)
      | inr (idx, at_map) ↦
          let (kv', at, its) = s.found kv.key idx at_map in
          let (b', run, is) = merged-IsInserted seg idx_map mt e f g s idx at_map kv' at its in
          (b', rw (e, insert_in) (rw f (rw at_map run)), is)
    ]
  ]
