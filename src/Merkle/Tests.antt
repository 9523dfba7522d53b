-- ===== src/Merkle/Tests.antt =====
-- The Merkle tree over three data, with a toy digest.
use trust_meta.Base.{◌≡◌, refl, true, List, [], ◌∷◌, some, length, Bytes, ascii, done}
use trust_meta.Merkle.{MerkleTree, MhtProof, recompute, get_proof_for_index, verify_proof}
use trust_meta.Merkle.Complete.{get_proof_for_index-verify_proof}

abbrev toy_digest : Bytes → Bytes
toy_digest bytes = length bytes ∷ bytes

abbrev three : List Bytes
three = ascii "a" ∷ ascii "bc" ∷ ascii "d" ∷ []

get_proof_for_index-verify_proof_example :
    (tree : MerkleTree) × (root : Bytes) × (proof : MhtProof) × (recompute toy_digest three
      ≡ done tree)
    × (tree.root_hash ≡ some root)
    × (get_proof_for_index toy_digest tree 1 ≡ done (some proof))
    × (verify_proof toy_digest (ascii "bc") root proof ≡ true)
get_proof_for_index-verify_proof_example =
    get_proof_for_index-verify_proof toy_digest three 1 (ascii "bc") refl
