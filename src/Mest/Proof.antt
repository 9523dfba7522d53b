-- ===== src/Mest/Proof.antt =====
-- crates/storager/ads_lib/src/mest: the proof of a key that the table makes (mgt.rs, KeyProof), the one
-- that is sent (proof.rs, MestProof), and their checks. The conversion is that of
-- crates/storager/src/ads/mest_ads.rs; the client's check is that of crates/common/src/verification.rs.
pub mod Agree
pub mod Binding
mod Tests
use trust_meta.Base.{
  ℕ, zero, suc, ◌+◌, Bool, true, false, ◌&&◌, ◌||◌, Option, none, some, length, List, [], ◌∷◌, ◌++◌,
  map, Bytes, bytes_eq, leb, ◌==◌, if◌then◌else◌,
}
use trust_meta.Text.{has_part}
use trust_meta.Merkle.{MhtProof, verify_proof}

pub record MgtProofStep : Type 0 where
  pub idx : ℕ
  pub sub_siblings : List (ℕ × Bytes)
  pub cached_siblings : List (ℕ × Bytes)

-- `MGTProof` of mgt.rs, without the route, which no check reads.
pub record StepsProof : Type 0 where
  pub steps : List MgtProofStep
  pub root_hash : Bytes

pub record BucketProofOut : Type 0 where
  pub value : Bytes
  pub seg_root_hash : Bytes
  pub proof : MhtProof
  pub leaf_segment_roots : List Bytes

pub record KeyProof : Type 0 where
  pub key : Bytes
  pub bucket_key : List ℕ
  pub bucket_proof : BucketProofOut
  pub mgt_proof : StepsProof

pub record SiblingElement : Type 0 where
  pub index : ℕ
  pub hash : Bytes

pub record MgtPathElement : Type 0 where
  pub level : ℕ
  pub child_index : ℕ
  pub node_hash : Bytes
  pub sub_siblings : List SiblingElement
  pub cached_siblings : List SiblingElement

pub record MgtProof : Type 0 where
  pub root_hash : Bytes
  pub path : List MgtPathElement

pub record MerklePathElement : Type 0 where
  pub direction : ℕ
  pub sibling_hash : Bytes

pub record BucketProof : Type 0 where
  pub value : Bytes
  pub seg_root_hash : Bytes
  pub merkle_path : List MerklePathElement
  pub leaf_segment_roots : List Bytes

pub record MestProof : Type 0 where
  pub is_exist : Bool
  pub key : Bytes
  pub bucket_proof : BucketProof
  pub mgt_proof : MgtProof

-- The hasher that is fed one hash after the other.
unfoldable pub concat : List Bytes → Bytes
concat [] = []
concat (hash ∷ hashes) = hash ++ concat hashes

-- `sort_by_key(|(i, _)| *i)`, which is stable.
unfoldable pub insert_pair : ℕ × Bytes → List (ℕ × Bytes) → List (ℕ × Bytes)
insert_pair p [] = p ∷ []
insert_pair p (q ∷ pairs) =
    let rest = insert_pair p pairs in if leb p.0 q.0 then p ∷ q ∷ pairs else q ∷ rest

unfoldable pub sort_pairs : List (ℕ × Bytes) → List (ℕ × Bytes)
sort_pairs [] = []
sort_pairs (p ∷ pairs) = insert_pair p (sort_pairs pairs)

abbrev pub hashes_of : List (ℕ × Bytes) → List Bytes
hashes_of = map (λ (p : ℕ × Bytes). p.1)

unfoldable pub is_empty : List (ℕ × Bytes) → Bool
is_empty [] = true
is_empty (p ∷ pairs) = false

abbrev pub sibling_pairs : List SiblingElement → List (ℕ × Bytes)
sibling_pairs = map (λ (s : SiblingElement). (s.index, s.hash))

-- The conversion of a proof.
abbrev pub path_element : ℕ × Bytes → MerklePathElement
path_element p = record { direction = p.0; sibling_hash = p.1 }

abbrev pub sibling_element : ℕ × Bytes → SiblingElement
sibling_element p = record { index = p.0; hash = p.1 }

unfoldable pub mgt_path : Bytes → ℕ → List MgtProofStep → List MgtPathElement
mgt_path root level [] = []
mgt_path root level (step ∷ steps) =
    record {
      level = level;
      child_index = step.idx;
      node_hash = root;
      sub_siblings = map sibling_element step.sub_siblings;
      cached_siblings = map sibling_element step.cached_siblings;
    }
    ∷ mgt_path root (level + 1) steps

unfoldable pub generate_mest_proof : KeyProof → Bool → MestProof
generate_mest_proof p is_exist = record {
  is_exist = is_exist;
  key = p.key;
  bucket_proof = record {
    value = p.bucket_proof.value;
    seg_root_hash = p.bucket_proof.seg_root_hash;
    merkle_path = map path_element p.bucket_proof.proof;
    leaf_segment_roots = p.bucket_proof.leaf_segment_roots;
  };
  mgt_proof = record {
    root_hash = p.mgt_proof.root_hash;
    path = mgt_path p.mgt_proof.root_hash 0 p.mgt_proof.steps;
  };
}

-- SHA-256 of the crate sha2 is a parameter.
module _ (sha256 : Bytes → Bytes) where
  unfoldable pub hash_leaf_roots : List Bytes → Bytes
  hash_leaf_roots roots = sha256 (concat roots)

  -- The loop of `verify_mgt_proof`.
  unfoldable pub climb_steps : Bytes → List MgtProofStep → Bytes
  climb_steps cur [] = cur
  climb_steps cur (step ∷ steps) =
      let pairs = concat (hashes_of (sort_pairs ((step.idx, cur) ∷ step.sub_siblings))) in
      let cached = concat (hashes_of (sort_pairs step.cached_siblings)) in
      climb_steps (sha256 (if is_empty step.cached_siblings then pairs else pairs ++ cached)) steps

  unfoldable pub verify_mgt_proof : List Bytes → StepsProof → Bool
  verify_mgt_proof leaf_roots proof =
      bytes_eq (climb_steps (hash_leaf_roots leaf_roots) proof.steps) proof.root_hash

  unfoldable pub verify_key_proof : KeyProof → Bool
  verify_key_proof p =
      verify_proof sha256 p.bucket_proof.value p.bucket_proof.seg_root_hash p.bucket_proof.proof
      && has_part p.bucket_proof.seg_root_hash p.bucket_proof.leaf_segment_roots
      && verify_mgt_proof p.bucket_proof.leaf_segment_roots p.mgt_proof

  -- The loop of `verify_bucket_merkle_proof`.
  unfoldable pub climb_path : Bytes → List MerklePathElement → Bytes
  climb_path cur [] = cur
  climb_path cur (e ∷ path) =
      climb_path
        (if e.direction == 0
          then sha256 (e.sibling_hash ++ cur)
          else sha256 (cur ++ e.sibling_hash))
        path

  unfoldable pub verify_bucket_merkle_proof : Bytes → Bytes → List MerklePathElement → Bool
  verify_bucket_merkle_proof leaf_data expected_root path =
      bytes_eq (climb_path (sha256 leaf_data) path) expected_root

  -- The loop of `verify_mgt_proof_path`: the child behind its siblings before they are sorted.
  unfoldable pub climb_elements : Bytes → List MgtPathElement → Bytes
  climb_elements leaf_hash [] = leaf_hash
  climb_elements leaf_hash (e ∷ path) =
      climb_elements
        (sha256 (
          concat (
            hashes_of
              (sort_pairs (sibling_pairs e.sub_siblings ++ (e.child_index, leaf_hash) ∷ [])))
          ++ concat (hashes_of (sort_pairs (sibling_pairs e.cached_siblings)))))
        path

  unfoldable pub verify_mgt_proof_path : List Bytes → MgtProof → Bool
  verify_mgt_proof_path leaf_roots proof =
      bytes_eq (climb_elements (hash_leaf_roots leaf_roots) proof.path) proof.root_hash

  unfoldable pub verify_mest_proof : MestProof → Bytes → Bool
  verify_mest_proof proof expected_root =
      verify_bucket_merkle_proof proof.bucket_proof.value proof.bucket_proof.seg_root_hash
        proof.bucket_proof.merkle_path
      && has_part proof.bucket_proof.seg_root_hash proof.bucket_proof.leaf_segment_roots
      && verify_mgt_proof_path proof.bucket_proof.leaf_segment_roots proof.mgt_proof
      && bytes_eq proof.mgt_proof.root_hash expected_root

  -- The client's check of a proof that it has read.
  unfoldable pub verify_mest_proof_internal : MestProof → Bool
  verify_mest_proof_internal proof =
      verify_bucket_merkle_proof proof.bucket_proof.value proof.bucket_proof.seg_root_hash
        proof.bucket_proof.merkle_path
      && has_part proof.bucket_proof.seg_root_hash proof.bucket_proof.leaf_segment_roots
      && verify_mgt_proof_path proof.bucket_proof.leaf_segment_roots proof.mgt_proof

  -- The client's check of the bytes that it is sent. `bincode::deserialize` is a parameter.
  unfoldable pub verify_mest : (Bytes → Option MestProof) → Bytes → Bytes → Bool
  verify_mest deserialize [] root_hash = true
  verify_mest deserialize (byte ∷ proof) root_hash = elim (deserialize (byte ∷ proof)) [
    | some mest_proof ↦
        (length root_hash == 0 || bytes_eq mest_proof.mgt_proof.root_hash root_hash)
        && verify_mest_proof_internal mest_proof
    | none ↦
        length (byte ∷ proof) == 32 && (length root_hash == 0 || bytes_eq (byte ∷ proof) root_hash)
  ]
