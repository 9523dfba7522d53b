-- ===== src/Merkle.antt =====
-- crates/storager/ads_lib/src/mest/merkletree.rs: the Merkle tree over a list of data, and its proofs.
pub mod Complete
pub mod Total
mod Tests
use trust_meta.Base.{
  ℕ, zero, suc, ◌+◌, Bool, List, [], ◌∷◌, ◌++◌, map, Option, none, some, length, replicate, set,
  ltb, ◌==◌, if◌then◌else◌, Bytes, bytes_eq, Outcome, done, diverge, ◌>>=◌,
}

pub record MerkleTree : Type 0 where
  pub root_hash : Option Bytes
  pub data_list : List Bytes

-- A direction, 0 where the sibling is on the left, and the sibling.
abbrev pub MhtProof : Type 0
MhtProof = List (ℕ × Bytes)

abbrev pub new_empty : MerkleTree
new_empty = record { root_hash = none; data_list = [] }

-- The pair that a round of `get_proof_for_index` pushes, if any.
unfoldable pub sibling : List Bytes → ℕ → MhtProof
sibling [] cur_idx = []
sibling (a ∷ []) cur_idx = []
sibling (a ∷ b ∷ level) zero = (1, b) ∷ []
sibling (a ∷ b ∷ level) (suc zero) = (0, a) ∷ []
sibling (a ∷ b ∷ level) (suc (suc cur_idx)) = sibling level cur_idx

-- The index in the next level.
unfoldable pub next_idx : List Bytes → ℕ → ℕ
next_idx [] cur_idx = 0
next_idx (a ∷ []) cur_idx = 0
next_idx (a ∷ b ∷ level) zero = 0
next_idx (a ∷ b ∷ level) (suc zero) = 0
next_idx (a ∷ b ∷ level) (suc (suc cur_idx)) = suc (next_idx level cur_idx)

unfoldable pub get_root_hash : MerkleTree → Option Bytes
get_root_hash tree = tree.root_hash

unfoldable pub data_len : MerkleTree → ℕ
data_len tree = length tree.data_list

-- `root_hash.unwrap_or([0; 32])`.
unfoldable pub root_or_zeros : MerkleTree → Bytes
root_or_zeros tree = elim tree.root_hash [ none ↦ replicate 32 0 | some root ↦ root ]

-- SHA-256 of the crate sha2 is a parameter.
module _ (sha256 : Bytes → Bytes) where
  unfoldable pub hash_leaf : Bytes → Bytes
  hash_leaf data_bytes = sha256 data_bytes

  unfoldable pub hash_internal : Bytes → Bytes → Bytes
  hash_internal left right = sha256 (left ++ right)

  -- The inner loop: an odd last one moves up as it is.
  unfoldable pub next_level : List Bytes → List Bytes
  unfolding hash_internal
  next_level [] = []
  next_level (a ∷ []) = a ∷ []
  next_level (a ∷ b ∷ level) = hash_internal a b ∷ next_level level

  -- The `while level.len() > 1` loop of `recompute`.
  unfoldable pub root_loop : ℕ → List Bytes → Outcome (Option Bytes)
  unfolding next_level
  root_loop zero level = diverge
  root_loop (suc fuel) [] = done none
  root_loop (suc fuel) (a ∷ []) = done (some a)
  root_loop (suc fuel) (a ∷ b ∷ level) = root_loop fuel (next_level (a ∷ b ∷ level))

  unfoldable pub recompute : List Bytes → Outcome MerkleTree
  unfolding root_loop hash_leaf
  recompute data_list = do
    root ← root_loop (length data_list + 1) (map hash_leaf data_list)
    done (record { root_hash = root; data_list = data_list })

  unfoldable pub new : List Bytes → Outcome MerkleTree
  unfolding recompute
  new data_list = recompute data_list

  -- The new tree, and its root or zeros.
  unfoldable pub recompute_root : List Bytes → Outcome (MerkleTree × Bytes)
  unfolding recompute root_or_zeros
  recompute_root data_list = do tree ← recompute data_list; done (tree, root_or_zeros tree)

  unfoldable pub insert_data : MerkleTree → Bytes → Outcome (MerkleTree × Bytes)
  unfolding recompute_root
  insert_data tree data_bytes = recompute_root (tree.data_list ++ data_bytes ∷ [])

  unfoldable pub update_root : MerkleTree → ℕ → Bytes → Outcome (MerkleTree × Bytes)
  unfolding recompute_root
  update_root tree i data_bytes =
      if ltb i (length tree.data_list)
      then recompute_root (set tree.data_list i data_bytes)
      else recompute_root (tree.data_list ++ data_bytes ∷ [])

  -- The `while level.len() > 1` loop of `get_proof_for_index`.
  unfoldable pub proof_loop : ℕ → List Bytes → ℕ → Outcome MhtProof
  unfolding next_level sibling next_idx
  proof_loop zero level cur_idx = diverge
  proof_loop (suc fuel) [] cur_idx = done []
  proof_loop (suc fuel) (a ∷ []) cur_idx = done []
  proof_loop (suc fuel) (a ∷ b ∷ level) cur_idx = do
    rest ← proof_loop fuel (next_level (a ∷ b ∷ level)) (next_idx (a ∷ b ∷ level) cur_idx)
    done (sibling (a ∷ b ∷ level) cur_idx ++ rest)

  unfoldable pub get_proof_for_index : MerkleTree → ℕ → Outcome (Option MhtProof)
  unfolding proof_loop hash_leaf
  get_proof_for_index tree idx =
      if ltb idx (length tree.data_list)
      then (do
        proof ← proof_loop (length tree.data_list + 1) (map hash_leaf tree.data_list) idx
        done (some proof))
      else done none

  -- The loop of `verify_proof`.
  unfoldable pub climb : Bytes → MhtProof → Bytes
  unfolding hash_internal
  climb cur [] = cur
  climb cur ((dir, sib) ∷ proof) =
      climb (if dir == 0 then hash_internal sib cur else hash_internal cur sib) proof

  unfoldable pub verify_proof : Bytes → Bytes → MhtProof → Bool
  unfolding climb hash_leaf
  verify_proof leaf_data root proof = bytes_eq (climb (hash_leaf leaf_data) proof) root
