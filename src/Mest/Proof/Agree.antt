-- ===== src/Mest/Proof/Agree.antt =====
-- crates/storager/ads_lib/src/mest: the two checks of a key's proof agree.
use trust_meta.Base.{
  ℕ, ◌+◌, ◌≡◌, ◌≢◌, refl, ap, ◌∙◌, Bool, false, ◌&&◌, ◌<◌, Option, some, length, List, [], ◌∷◌,
  ◌++◌, map, Bytes, bytes_eq, ◌==◌, if◌then◌else◌, All, arith,
}
use trust_meta.Merkle.{MhtProof, verify_proof, climb, hash_leaf, hash_internal}
use trust_meta.Mest.Proof.{
  MgtProofStep, KeyProof, MestProof, concat, insert_pair, sort_pairs, hashes_of, is_empty,
  sibling_pairs, path_element, sibling_element, mgt_path, generate_mest_proof, hash_leaf_roots,
  climb_steps, verify_mgt_proof, verify_key_proof, climb_path, verify_bucket_merkle_proof,
  climb_elements, verify_mgt_proof_path, verify_mest_proof, verify_mest_proof_internal, verify_mest,
}

-- Two insertions at different indices commute.
insert_pair_comm :
    (p q : ℕ × Bytes) (pairs : List (ℕ × Bytes))
    → p.0 ≢ q.0
    → insert_pair p (insert_pair q pairs) ≡ insert_pair q (insert_pair p pairs)
unfolding insert_pair
insert_pair_comm (i, g) (j, h) [] ne = ground arith
insert_pair_comm (i, g) (j, h) ((k, f) ∷ pairs) ne =
    ground (arith, insert_pair_comm (i, g) (j, h) pairs ne)

-- The child may stand before its siblings or behind them.
sort_pairs-snoc :
    (p : ℕ × Bytes) (pairs : List (ℕ × Bytes))
    → All (λ (q : ℕ × Bytes). q.0 ≢ p.0) pairs
    → sort_pairs (pairs ++ p ∷ []) ≡ sort_pairs (p ∷ pairs)
unfolding sort_pairs
sort_pairs-snoc p [] others = refl
sort_pairs-snoc p (q ∷ pairs) (ne, others) =
    ap (insert_pair q) (sort_pairs-snoc p pairs others) ∙ insert_pair_comm q p (sort_pairs pairs) ne

pairs-back : (pairs : List (ℕ × Bytes)) → sibling_pairs (map sibling_element pairs) ≡ pairs
pairs-back [] = refl
pairs-back (p ∷ pairs) = ap (λ t. p ∷ t) (pairs-back pairs)

append-nil : (xs : Bytes) → xs ++ [] ≡ xs
append-nil [] = refl
append-nil (x ∷ xs) = ap (λ t. x ∷ t) (append-nil xs)

-- No sibling has the child's index.
abbrev pub IsProper : MgtProofStep → Type 0
IsProper step = All (λ (q : ℕ × Bytes). q.0 ≢ step.idx) step.sub_siblings

module _ (sha256 : Bytes → Bytes) where
  climb_path-climb :
      (cur : Bytes) (proof : MhtProof)
      → climb_path sha256 cur (map path_element proof) ≡ climb sha256 cur proof
  unfolding climb_path climb hash_internal
  climb_path-climb cur [] = refl
  climb_path-climb cur ((dir, sib) ∷ proof) =
      climb_path-climb (if dir == 0 then sha256 (sib ++ cur) else sha256 (cur ++ sib)) proof

  cached-same :
      (front : Bytes) (pairs : List (ℕ × Bytes))
      → front ++ concat (hashes_of (sort_pairs pairs))
        ≡ (if is_empty pairs then front else front ++ concat (hashes_of (sort_pairs pairs)))
  unfolding is_empty sort_pairs concat
  cached-same front [] = append-nil front
  cached-same front (p ∷ pairs) = refl

  climb_elements-climb_steps :
      (root : Bytes) (steps : List MgtProofStep)
      → All IsProper steps
      → (level : ℕ) (cur : Bytes)
      → climb_elements sha256 cur (mgt_path root level steps) ≡ climb_steps sha256 cur steps
  unfolding climb_elements climb_steps mgt_path
  climb_elements-climb_steps root [] proper level cur = refl
  climb_elements-climb_steps root (step ∷ steps) (here, proper) level cur =
      let pairs = concat (hashes_of (sort_pairs ((step.idx, cur) ∷ step.sub_siblings))) in
      let subs : sort_pairs
            (sibling_pairs (map sibling_element step.sub_siblings) ++ (step.idx, cur) ∷ [])
          ≡ sort_pairs ((step.idx, cur) ∷ step.sub_siblings) =
        ap (λ t. sort_pairs (t ++ (step.idx, cur) ∷ [])) (pairs-back step.sub_siblings)
        ∙ sort_pairs-snoc (step.idx, cur) step.sub_siblings here in
      let cacheds = pairs-back step.cached_siblings in
      ap
        (λ t.
          climb_elements sha256
            (sha256 (
              concat (hashes_of t)
              ++ concat (
                  hashes_of
                    (sort_pairs (sibling_pairs (map sibling_element step.cached_siblings))))))
            (mgt_path root (level + 1) steps))
        subs
      ∙ ap
          (λ t.
            climb_elements sha256 (sha256 (pairs ++ concat (hashes_of (sort_pairs t))))
              (mgt_path root (level + 1) steps))
          cacheds
      ∙ ap (λ t. climb_elements sha256 (sha256 t) (mgt_path root (level + 1) steps))
          (cached-same pairs step.cached_siblings)
      ∙ climb_elements-climb_steps root steps proper (level + 1) _

  -- The three checks of a converted proof are those of the key's proof.
  internal-verify_key_proof :
      (p : KeyProof) (is_exist : Bool)
      → All IsProper p.mgt_proof.steps
      → verify_mest_proof_internal sha256 (generate_mest_proof p is_exist)
        ≡ verify_key_proof sha256 p
  unfolding verify_mest_proof_internal verify_key_proof generate_mest_proof
      verify_bucket_merkle_proof verify_proof hash_leaf verify_mgt_proof_path verify_mgt_proof
  internal-verify_key_proof p is_exist proper =
      rw
        (
          climb_path-climb (sha256 p.bucket_proof.value) p.bucket_proof.proof,
          climb_elements-climb_steps p.mgt_proof.root_hash p.mgt_proof.steps proper 0
              (hash_leaf_roots sha256 p.bucket_proof.leaf_segment_roots),
        )
        refl

  verify_mest_proof-verify_key_proof :
      (p : KeyProof) (is_exist : Bool) (expected_root : Bytes)
      → All IsProper p.mgt_proof.steps
      → verify_mest_proof sha256 (generate_mest_proof p is_exist) expected_root
        ≡ (verify_key_proof sha256 p && bytes_eq p.mgt_proof.root_hash expected_root)
  unfolding verify_mest_proof verify_key_proof generate_mest_proof verify_bucket_merkle_proof
      verify_proof hash_leaf verify_mgt_proof_path verify_mgt_proof
  verify_mest_proof-verify_key_proof p is_exist expected_root proper =
      rw
        (
          climb_path-climb (sha256 p.bucket_proof.value) p.bucket_proof.proof,
          climb_elements-climb_steps p.mgt_proof.root_hash p.mgt_proof.steps proper 0
              (hash_leaf_roots sha256 p.bucket_proof.leaf_segment_roots),
        )
        (ground arith)

  -- Where no step of a key's proof has a sibling of the child's own index, the bytes are not empty
  -- and are read as the converted proof, and the root is not empty, the client's verify_mest and
  -- the storager's verify_mest_proof of the converted proof accept exactly where verify_key_proof
  -- accepts the key's proof and its root is the given one.
  pub verify_mest-verify_key_proof :
      (deserialize : Bytes → Option MestProof) (sent root_hash : Bytes) (p : KeyProof)
      (is_exist : Bool)
      → 0 < length sent
      → 0 < length root_hash
      → deserialize sent ≡ some (generate_mest_proof p is_exist)
      → All IsProper p.mgt_proof.steps
      → (verify_mest sha256 deserialize sent root_hash
          ≡ (verify_key_proof sha256 p && bytes_eq p.mgt_proof.root_hash root_hash))
        × (verify_mest_proof sha256 (generate_mest_proof p is_exist) root_hash
            ≡ (verify_key_proof sha256 p && bytes_eq p.mgt_proof.root_hash root_hash))
  unfolding verify_mest generate_mest_proof
  verify_mest-verify_key_proof deserialize [] root_hash p is_exist some_sent some_root read proper =
      absurd (omega arith)
  verify_mest-verify_key_proof deserialize (byte ∷ sent) root_hash p is_exist some_sent some_root
        read proper =
      let given : (length root_hash == 0) ≡ false = ground arith in
      (
        rw (read, verify_mest)
            (rw (given, internal-verify_key_proof p is_exist proper) (ground arith)),
        verify_mest_proof-verify_key_proof p is_exist root_hash proper,
      )
