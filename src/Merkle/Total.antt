-- ===== src/Merkle/Total.antt =====
-- crates/storager/ads_lib/src/mest/merkletree.rs: the tree over every list of data is computed.
use trust_meta.Base.{
  ℕ, zero, suc, ◌+◌, ◌<◌, ◌≡◌, refl, sym, ap, ◌∙◌, List, [], ◌∷◌, ◌++◌, map, some, none, Option,
  length, length-map, set, lt→ltb, Bytes, done, done-injective, arith,
}
use trust_meta.Merkle.{
  MerkleTree, next_level, root_loop, hash_leaf, recompute, recompute_root, root_or_zeros,
  insert_data, update_root,
}
use trust_meta.Merkle.Complete.{length-next_level}

module _ (sha256 : Bytes → Bytes) where
  root_loop_total :
      (fuel : ℕ) (level : List Bytes)
      → length level < fuel
      → (root : Option Bytes) × (root_loop sha256 fuel level ≡ done root)
  unfolding root_loop
  root_loop_total zero level enough = absurd (omega arith)
  root_loop_total (suc fuel) [] enough = (none, refl)
  root_loop_total (suc fuel) (a ∷ []) enough = (some a, refl)
  root_loop_total (suc fuel) (a ∷ b ∷ level) enough =
      root_loop_total fuel (next_level sha256 (a ∷ b ∷ level))
        (unfold next_level in (omega (arith, length-next_level sha256 level)))

  pub recompute_total :
      (data_list : List Bytes)
      → (tree : MerkleTree) × (recompute sha256 data_list ≡ done tree)
        × (tree.data_list ≡ data_list)
  unfolding recompute
  recompute_total data_list =
      let (root, run) =
        root_loop_total (length data_list + 1) (map (hash_leaf sha256) data_list)
          (omega (arith, length-map data_list (hash_leaf sha256))) in
      (record { root_hash = root; data_list = data_list }, rw run refl, refl)

  -- The tree over a list keeps the list.
  pub recompute-data_list :
      (data_list : List Bytes) (tree : MerkleTree)
      → recompute sha256 data_list ≡ done tree
      → tree.data_list ≡ data_list
  recompute-data_list data_list tree run =
      let (tree', run', same) = recompute_total data_list in
      ap (λ (t : MerkleTree). t.data_list) (done-injective (sym run ∙ run')) ∙ same

  module _ (tree : MerkleTree) (data_list : List Bytes) (is : tree.data_list ≡ data_list) where
    pub insert_data-recompute :
        (datum : Bytes)
        → (tree' : MerkleTree) × (root : Bytes) × (insert_data sha256 tree datum
            ≡ done (tree', root))
          × (recompute sha256 (data_list ++ datum ∷ []) ≡ done tree')
    unfolding insert_data recompute_root
    insert_data-recompute datum =
        let (tree', run, _) = recompute_total (data_list ++ datum ∷ []) in
        (tree', root_or_zeros tree', rw (is, run) refl, run)

    pub update_root-recompute :
        (i : ℕ) (datum : Bytes)
        → i < length data_list
        → (tree' : MerkleTree) × (root : Bytes) × (update_root sha256 tree i datum
            ≡ done (tree', root))
          × (recompute sha256 (set data_list i datum) ≡ done tree')
    unfolding update_root recompute_root
    update_root-recompute i datum inside =
        let (tree', run, _) = recompute_total (set data_list i datum) in
        (tree', root_or_zeros tree', rw (is, lt→ltb i (length data_list) inside, run) refl, run)
