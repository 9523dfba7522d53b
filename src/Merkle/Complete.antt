-- ===== src/Merkle/Complete.antt =====
-- crates/storager/ads_lib/src/mest/merkletree.rs: the proofs that the tree gives are accepted.
use trust_meta.Base.{
  ℕ, zero, suc, ◌+◌, ◌≤◌, ◌<◌, ◌≡◌, refl, sym, ap, ◌∙◌, true, List, [], ◌∷◌, ◌++◌, map, some,
  length, get_elem?, get_elem?-lt, get_elem?-map, length-map, ltb, lt→ltb, Bytes, bytes_eq_refl,
  done, arith,
}
use mathlib.Core.Option.{some-injective}
use trust_meta.Merkle.{
  MerkleTree, MhtProof, sibling, next_idx, hash_leaf, hash_internal, next_level, root_loop,
  recompute, proof_loop, get_proof_for_index, climb, verify_proof,
}

module _ (sha256 : Bytes → Bytes) where
  climb-append :
      (p q : MhtProof) (h : Bytes) → climb sha256 h (p ++ q) ≡ climb sha256 (climb sha256 h p) q
  unfolding climb
  climb-append [] q h = refl
  climb-append ((dir, sib) ∷ p) q h = climb-append p q _

  -- A node and its sibling give the node above, at the next index.
  next_level-climb :
      (level : List Bytes) (cur_idx : ℕ) (h : Bytes)
      → get_elem? level cur_idx ≡ some h
      → get_elem? (next_level sha256 level) (next_idx level cur_idx)
        ≡ some (climb sha256 h (sibling level cur_idx))
  unfolding next_level next_idx sibling climb
  next_level-climb [] cur_idx h at = absurd (cc at)
  next_level-climb (a ∷ []) zero h at = at
  next_level-climb (a ∷ []) (suc cur_idx) h at = absurd (cc at)
  next_level-climb (a ∷ b ∷ level) zero h at =
      ap (λ x. some (hash_internal sha256 x b)) (some-injective a h at)
  next_level-climb (a ∷ b ∷ level) (suc zero) h at =
      ap (λ x. some (hash_internal sha256 a x)) (some-injective b h at)
  next_level-climb (a ∷ b ∷ level) (suc (suc cur_idx)) h at = next_level-climb level cur_idx h at

  pub length-next_level : (level : List Bytes) → length (next_level sha256 level) ≤ length level
  unfolding next_level
  length-next_level [] = omega arith
  length-next_level (a ∷ []) = omega arith
  length-next_level (a ∷ b ∷ level) = omega (arith, length-next_level level)

  loops-climb :
      (fuel : ℕ) (level : List Bytes) (cur_idx : ℕ) (h : Bytes)
      → get_elem? level cur_idx ≡ some h
      → length level < fuel
      → (root : Bytes) × (proof : MhtProof) × (root_loop sha256 fuel level ≡ done (some root))
        × (proof_loop sha256 fuel level cur_idx ≡ done proof)
        × (climb sha256 h proof ≡ root)
  unfolding root_loop proof_loop climb
  loops-climb zero level cur_idx h at enough = absurd (omega arith)
  loops-climb (suc fuel) [] cur_idx h at enough = absurd (cc at)
  loops-climb (suc fuel) (a ∷ []) zero h at enough =
      (a, [], refl, refl, sym (some-injective a h at))
  loops-climb (suc fuel) (a ∷ []) (suc cur_idx) h at enough = absurd (cc at)
  loops-climb (suc fuel) (a ∷ b ∷ level) cur_idx h at enough =
      let up = next_level-climb (a ∷ b ∷ level) cur_idx h at in
      let shorter : length (next_level sha256 (a ∷ b ∷ level)) < fuel =
        unfold next_level in (omega (arith, length-next_level level)) in
      let (root, proof, to_root, to_proof, same) =
        loops-climb fuel (next_level sha256 (a ∷ b ∷ level)) (next_idx (a ∷ b ∷ level) cur_idx)
          (climb sha256 h (sibling (a ∷ b ∷ level) cur_idx)) up shorter in
      (
        root,
        sibling (a ∷ b ∷ level) cur_idx ++ proof,
        to_root,
        rw to_proof refl,
        climb-append (sibling (a ∷ b ∷ level) cur_idx) proof h ∙ same,
      )

  -- For every place of a list of data, the tree over the list is computed, it has a root,
  -- get_proof_for_index returns a proof for the place, and verify_proof accepts the datum there
  -- with that proof and root.
  pub get_proof_for_index-verify_proof :
      (data_list : List Bytes) (idx : ℕ) (leaf : Bytes)
      → get_elem? data_list idx ≡ some leaf
      → (tree : MerkleTree) × (root : Bytes) × (proof : MhtProof) × (recompute sha256 data_list
          ≡ done tree)
        × (tree.root_hash ≡ some root)
        × (get_proof_for_index sha256 tree idx ≡ done (some proof))
        × (verify_proof sha256 leaf root proof ≡ true)
  unfolding recompute get_proof_for_index verify_proof
  get_proof_for_index-verify_proof data_list idx leaf at =
      let leaves = map (hash_leaf sha256) data_list in
      let size : length leaves ≡ length data_list = length-map data_list (hash_leaf sha256) in
      let (root, proof, to_root, to_proof, same) =
        loops-climb (length data_list + 1) leaves idx (hash_leaf sha256 leaf)
          (get_elem?-map (hash_leaf sha256) data_list idx at) (omega (arith, size)) in
      let inside : ltb idx (length data_list) ≡ true =
        lt→ltb idx (length data_list) (get_elem?-lt data_list idx at) in
      (
        record { root_hash = some root; data_list = data_list },
        root,
        proof,
        rw to_root refl,
        refl,
        rw (inside, to_proof) refl,
        rw same (bytes_eq_refl root),
      )
