-- ===== src/Mest/Bucket/Values.antt =====
-- crates/storager/ads_lib/src/mest/bucket.rs: values and proofs of a bucket after an insert.
use mathlib.Core.Option.{some-injective}
use trust_meta.Base.{
  ℕ, ◌≡◌, refl, sym, ap, ◌∙◌, List, Option, some, get_elem?, length, length-map, get_elem?-map,
  Bytes, done, done-injective, bind-done, bytes_eq, true, inl, inr, Bool-cases, Option-cases,
  bytes_eq_iff, if◌then◌else◌, ◌==◌, ==_iff,
}
use trust_meta.Assoc.{Assoc, get}
use trust_meta.Merkle.{
  MerkleTree, MhtProof, data_len, get_root_hash, get_proof_for_index, verify_proof,
}
use trust_meta.Merkle.Complete.{get_proof_for_index-verify_proof}
use trust_meta.Merkle.Total.{recompute-data_list}
use trust_meta.Mest.Segment.{Kvpair, segment_key, values}
use trust_meta.Mest.Bucket.{
  Bucket, get_segment_key, find_in, found_at, value_at, get_value, insert, get_proof, prove_found,
  proof_tree, prove_at,
}
use trust_meta.Mest.Bucket.Valid.{IsSegment, absent, present, IsValid, segments_apart}
use trust_meta.Mest.Bucket.Written.{find_in-present, find_in-absent}
use trust_meta.Mest.Bucket.Insert.{merged, IsInserted}
use trust_meta.Mest.Bucket.Merge.{insert_in-IsInserted, value_at-some, value_at-none}

module _ (sha256 : Bytes → Bytes) (b : Bucket) (kv : Kvpair) (seg_key : Bytes)
    (v : IsValid sha256 b) (mine : get_segment_key b kv.key ≡ done seg_key) where
  pub insert-IsInserted :
      (b' : Bucket) × (insert sha256 b kv ≡ done b') × IsInserted sha256 b b' seg_key kv
  unfolding insert get_segment_key
  insert-IsInserted =
      let (b', run, is) = insert_in-IsInserted sha256 b seg_key kv v mine in (b', rw mine run, is)

  -- The values of the bucket's keys, from what the insert left in its segments.
  pub inserted-get_value :
      (b' : Bucket)
      → IsInserted sha256 b b' seg_key kv
      → (key : Bytes) (old : Option Bytes) → get_value b key ≡ done old
      → get_value b' key ≡ done (if bytes_eq kv.key key then some (merged old kv.value) else old)
  unfolding get_value get_segment_key
  inserted-get_value b' is key old was =
      let (k, its, found) =
        bind-done (segment_key b.seg_num key) (λ k. value_at (find_in b k key)) was in
      let its' : segment_key b'.seg_num key ≡ done k = rw (is.frame.seg_num) its in
      rw its' (elim (Bool-cases (bytes_eq seg_key k)) [
        | inl same ↦
            let e = (bytes_eq_iff seg_key k).0 same in rw (← e) (is.mine key old (rw e found))
        | inr differs ↦
            let other = segments_apart b.seg_num kv.key key seg_key k mine its differs in
            rw other (ap value_at (is.others k key differs) ∙ found)
      ])

  -- On a valid bucket (no two entries for a segment, and its maps agree: the pairs of a segment at
  -- their places, the keys in their segments, and each tree that of the segment's values), where
  -- the segment key of the inserted key exists, insert returns a valid bucket, in which get_value
  -- gives the inserted key the old value merged with the new one and every other key its old value.
  pub insert-get_value :
      (key : Bytes) (old : Option Bytes)
      → get_value b key ≡ done old
      → (b' : Bucket) × (insert sha256 b kv ≡ done b')
        × IsValid sha256 b'
        × (get_value b' key
            ≡ done (if bytes_eq kv.key key then some (merged old kv.value) else old))
  insert-get_value key old was =
      let (b', run, is) = insert-IsInserted in
      (b', run, is.valid, inserted-get_value b' is key old was)

module _ (sha256 : Bytes → Bytes) (b : Bucket) (seg_key : Bytes) (seg : List Kvpair)
    (idx_map : Assoc ℕ) (mt : MerkleTree) (in_trees : get seg_key b.merkle_trees ≡ some mt)
    (s : IsSegment sha256 b.seg_num seg_key seg idx_map mt) where
  -- The stored tree proves the value at each place.
  prove_found-verify :
      (idx : ℕ) (kv : Kvpair)
      → get_elem? seg idx ≡ some kv
      → (root : Bytes) × (proof : MhtProof) × (prove_found sha256 b seg_key
            (found_at seg (some idx))
          ≡ done (some (kv.value, root, proof)))
        × (mt.root_hash ≡ some root)
        × (verify_proof sha256 kv.value root proof ≡ true)
  unfolding prove_found proof_tree prove_at found_at data_len get_root_hash
  prove_found-verify idx kv at =
      let (tree, root, proof, run, has_root, proves, accepts) =
        get_proof_for_index-verify_proof sha256 (values seg) idx kv.value
          (get_elem?-map (λ (e : Kvpair). e.value) seg idx at) in
      let is : tree ≡ mt = done-injective (sym run ∙ s.tree) in
      let datas = recompute-data_list sha256 (values seg) mt s.tree in
      let same : (length mt.data_list == length seg) ≡ true =
        (==_iff _ _).1 (ap length datas ∙ length-map seg (λ (e : Kvpair). e.value)) in
      let has_root' : mt.root_hash ≡ some root = rw (← is) has_root in
      let proves' : get_proof_for_index sha256 mt idx ≡ done (some proof) = rw (← is) proves in
      (
        root,
        proof,
        rw (at, prove_found)
            (rw (in_trees, proof_tree) (rw same (rw (has_root', prove_at) (rw proves' refl)))),
        has_root',
        accepts,
      )

-- On a valid bucket, where get_value has a value for a key, get_proof returns it with a root and a
-- proof that verify_proof accepts for the value.
pub get_proof-verify_proof :
    (sha256 : Bytes → Bytes) (b : Bucket) (key value : Bytes)
    → IsValid sha256 b
    → get_value b key ≡ done (some value)
    → (root : Bytes) × (proof : MhtProof) × (get_proof sha256 b key
        ≡ done (some (value, root, proof)))
      × (verify_proof sha256 value root proof ≡ true)
unfolding get_value get_proof get_segment_key
get_proof-verify_proof sha256 b key value v has =
    let (k, its, found) =
      bind-done (segment_key b.seg_num key) (λ k. value_at (find_in b k key)) has in
    elim (v.segment k) [
      | absent e f g ↦ absurd (cc (done-injective (sym found ∙ find_in-absent b k key e)))
      | present seg idx_map mt e f g s ↦
          let present_there = find_in-present b k key seg idx_map e f in
          elim (Option-cases (get key idx_map)) [
            | inl gone ↦ absurd (
                cc (
                  done-injective (
                    sym found
                    ∙ ap value_at (present_there ∙ ap (found_at seg) gone)
                    ∙ value_at-none seg)))
            | inr (idx, at_map) ↦
                let (kv, at, is) = s.found key idx at_map in
                let (root, proof, run, _, accepts) =
                  prove_found-verify sha256 b k seg idx_map mt g s idx kv at in
                let its_value : kv.value ≡ value = some-injective _ _ (
                  done-injective (
                    sym (value_at-some seg idx kv at)
                    ∙ ap value_at (sym (present_there ∙ ap (found_at seg) at_map))
                    ∙ found)) in
                (
                  root,
                  proof,
                  rw its (
                      ap (prove_found sha256 b k) (present_there ∙ ap (found_at seg) at_map)
                      ∙ run
                      ∙ ap (λ x. done (some (x, root, proof))) its_value),
                  rw (← its_value) accepts,
                )
          ]
    ]
