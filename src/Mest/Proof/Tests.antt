-- ===== src/Mest/Proof/Tests.antt =====
-- Proofs of one value, with a toy digest of 32 bytes.
use trust_meta.Base.{
  ℕ, ◌≡◌, ◌≢◌, refl, true, false, ◌&&◌, List, [], ◌∷◌, ◌⊎◌, Option, none, some, All, length,
  length-replicate, replicate, Bytes, bytes_eq, ascii, arith,
}
use trust_meta.Text.{has_part}
use trust_meta.Merkle.{verify_proof, climb, hash_leaf, hash_internal}
use trust_meta.Mest.Proof.{
  KeyProof, MestProof, MerklePathElement, concat, insert_pair, sort_pairs, is_empty, mgt_path,
  generate_mest_proof, hash_leaf_roots, climb_steps, verify_mgt_proof, verify_key_proof, climb_path,
  verify_bucket_merkle_proof, climb_elements, verify_mgt_proof_path, verify_mest_proof,
  verify_mest_proof_internal, verify_mest,
}
use trust_meta.Mest.Proof.Agree.{IsProper, verify_mest-verify_key_proof}
use trust_meta.Mest.Proof.Binding.{Collision, verify_bucket_merkle_proof-binding}

program : Unit {0}
unfolding bytes_eq has_part verify_proof climb hash_leaf hash_internal concat insert_pair sort_pairs
    is_empty mgt_path generate_mest_proof hash_leaf_roots climb_steps verify_mgt_proof
    verify_key_proof climb_path verify_bucket_merkle_proof climb_elements verify_mgt_proof_path
    verify_mest_proof verify_mest_proof_internal verify_mest
program = tt

abbrev toy_digest : Bytes → Bytes
toy_digest bytes = replicate 32 (length bytes)

abbrev other_hash : Bytes
other_hash = replicate 32 7

-- The value stands before one other in its segment; its bucket is the second of two children.
abbrev proof : KeyProof
proof = record {
  key = ascii "key";
  bucket_key = 1 ∷ [];
  bucket_proof = record {
    value = ascii "v1";
    seg_root_hash = replicate 32 64;
    proof = (1, other_hash) ∷ [];
    leaf_segment_roots = other_hash ∷ replicate 32 64 ∷ [];
  };
  mgt_proof = record {
    steps =
        record {
          idx = 1;
          sub_siblings = (0, other_hash) ∷ [];
          cached_siblings = (2, other_hash) ∷ [];
        }
        ∷ [];
    root_hash = replicate 32 96;
  };
}

accepts : verify_mest_proof toy_digest (generate_mest_proof proof true) (replicate 32 96) ≡ true
unfolding program
accepts = refl

-- The key is no part of what is checked.
accepts_other_key :
    verify_mest_proof toy_digest
      (generate_mest_proof (record proof { key = ascii "other" }) true)
      (replicate 32 96)
    ≡ true
unfolding program
accepts_other_key = refl

rejects_other_value :
    verify_mest_proof toy_digest
      (generate_mest_proof
        (record proof { bucket_proof = record proof.bucket_proof { seg_root_hash = other_hash } })
        true)
      (replicate 32 96)
    ≡ false
unfolding program
rejects_other_value = refl

zero_differs : ◌≢◌ {A = ℕ} 0 1
zero_differs = omega arith

proper : All IsProper proof.mgt_proof.steps
proper = ((zero_differs, tt), tt)

-- Bytes that are read as the proof.
abbrev reads : Bytes → Option MestProof
reads sent = some (generate_mest_proof proof true)

verify_mest-verify_key_proof_example :
    (verify_mest toy_digest reads (ascii "p") (replicate 32 96)
      ≡ (verify_key_proof toy_digest proof && bytes_eq proof.mgt_proof.root_hash (replicate 32 96)))
    × (verify_mest_proof toy_digest (generate_mest_proof proof true) (replicate 32 96) ≡ (
        verify_key_proof toy_digest proof && bytes_eq proof.mgt_proof.root_hash (replicate 32 96)))
verify_mest-verify_key_proof_example =
    verify_mest-verify_key_proof toy_digest reads (ascii "p") (replicate 32 96) proof true
      (omega arith) (omega arith) refl proper

-- The root alone is accepted as a proof, whatever was asked.
accepts_root : verify_mest toy_digest (λ sent. none) (replicate 32 96) (replicate 32 96) ≡ true
unfolding program
accepts_root = refl

toy-length : (text : Bytes) → length (toy_digest text) ≡ 32
toy-length text = length-replicate 32 (length text)

abbrev path : List MerklePathElement
path = record { direction = 1; sibling_hash = other_hash } ∷ []

path_accepts : verify_bucket_merkle_proof toy_digest (ascii "v1") (replicate 32 64) path ≡ true
unfolding program
path_accepts = refl

verify_bucket_merkle_proof-binding_example : (ascii "v1" ≡ ascii "v1") ⊎ Collision toy_digest
verify_bucket_merkle_proof-binding_example =
    verify_bucket_merkle_proof-binding toy_digest toy-length (ascii "v1") (ascii "v1")
      (replicate 32 64) path path (refl, tt) (refl, tt) refl path_accepts path_accepts
