-- ===== src/Mest/Proof/Binding.antt =====
-- crates/storager/ads_lib/src/mest/proof.rs: two values that are proved at one place of one segment.
use trust_meta.Base.{
  ℕ, ◌≡◌, ◌≢◌, refl, sym, ap, ◌∙◌, true, List, [], ◌∷◌, ◌++◌, map, All, inl, inr, ◌⊎◌, Bool-cases,
  length, Bytes, bytes_eq, bytes_eq_iff, ◌==◌, if◌then◌else◌, arith,
}
use trust_meta.Mest.Proof.{MerklePathElement, climb_path, verify_bucket_merkle_proof}

-- Two texts of one digest.
abbrev pub Collision : (Bytes → Bytes) → Type 0
Collision sha256 = (a : Bytes) × (b : Bytes) × (a ≢ b) × (sha256 a ≡ sha256 b)

-- A path of digests, as `[u8; 32]` has them.
abbrev pub HasDigests : List MerklePathElement → Type 0
HasDigests = All (λ (e : MerklePathElement). length e.sibling_hash ≡ 32)

abbrev pub directions : List MerklePathElement → List ℕ
directions = map (λ (e : MerklePathElement). e.direction)

append-injective :
    (xs ys xs' ys' : Bytes)
    → length xs ≡ length xs'
    → xs ++ ys ≡ xs' ++ ys'
    → (xs ≡ xs') × (ys ≡ ys')
append-injective [] ys [] ys' long same = (refl, same)
append-injective [] ys (b ∷ xs') ys' long same = absurd (omega arith)
append-injective (a ∷ xs) ys [] ys' long same = absurd (omega arith)
append-injective (a ∷ xs) ys (b ∷ xs') ys' long same =
    let first : a ≡ b = cc same in
    let tails : xs ++ ys ≡ xs' ++ ys' = cc same in
    let (front, back) = append-injective xs ys xs' ys' (omega arith) tails in
    (cc (first, front), back)

module _ (sha256 : Bytes → Bytes) (fixed : (text : Bytes) → length (sha256 text) ≡ 32) where
  -- Texts of one digest are the same, or a collision.
  digest-injective : (a b : Bytes) → sha256 a ≡ sha256 b → (a ≡ b) ⊎ Collision sha256
  digest-injective a b same = elim (Bool-cases (bytes_eq a b)) [
    | inl equal ↦ inl ((bytes_eq_iff a b).0 equal)
    | inr differs ↦ inr (a, b, λ e. cc ((bytes_eq_iff a b).1 e, differs), same)
  ]

  -- One step up from either side.
  node-injective :
      (d : ℕ) (s cur s' cur' : Bytes)
      → length s ≡ 32
      → length s' ≡ 32
      → length cur ≡ 32
      → length cur' ≡ 32
      → (if d == 0 then sha256 (s ++ cur) else sha256 (cur ++ s))
        ≡ (if d == 0 then sha256 (s' ++ cur') else sha256 (cur' ++ s'))
      → (cur ≡ cur') ⊎ Collision sha256
  node-injective d s cur s' cur' of_s of_s' of_cur of_cur' same = elim (Bool-cases (d == 0)) [
    | inl left ↦ elim (digest-injective (s ++ cur) (s' ++ cur') (rw left at same)) [
      | inl texts ↦ inl ((append-injective s cur s' cur' (of_s ∙ sym of_s') texts).1)
      | inr found ↦ inr found
    ]
    | inr right ↦ elim (digest-injective (cur ++ s) (cur' ++ s') (rw right at same)) [
      | inl texts ↦ inl ((append-injective cur s cur' s' (of_cur ∙ sym of_cur') texts).0)
      | inr found ↦ inr found
    ]
  ]

  node-length : (d : ℕ) (a b : Bytes) → length (if d == 0 then sha256 a else sha256 b) ≡ 32
  node-length d a b = elim (Bool-cases (d == 0)) [
    | inl left ↦ rw left (fixed a)
    | inr right ↦ rw right (fixed b)
  ]

  climb_path-injective :
      (path path' : List MerklePathElement)
      → HasDigests path
      → HasDigests path'
      → directions path ≡ directions path'
      → (cur cur' : Bytes) → length cur ≡ 32
      → length cur' ≡ 32
      → climb_path sha256 cur path ≡ climb_path sha256 cur' path'
      → (cur ≡ cur') ⊎ Collision sha256
  unfolding climb_path
  climb_path-injective [] [] of of' dirs cur cur' long long' same = inl same
  climb_path-injective [] (e' ∷ path') of of' dirs cur cur' long long' same = absurd (cc dirs)
  climb_path-injective (e ∷ path) [] of of' dirs cur cur' long long' same = absurd (cc dirs)
  climb_path-injective (e ∷ path) (e' ∷ path') (of_e, of) (of_e', of') dirs cur cur' long long'
        same =
      let dir : e.direction ≡ e'.direction = cc dirs in
      let rest : directions path ≡ directions path' = cc dirs in
      let same' =
        same
        ∙ ap
            (λ d.
              climb_path sha256
                (if d == 0
                  then sha256 (e'.sibling_hash ++ cur')
                  else sha256 (cur' ++ e'.sibling_hash))
                path')
            (sym dir) in
      elim (climb_path-injective path path' of of' rest _ _
        (node-length e.direction (e.sibling_hash ++ cur) (cur ++ e.sibling_hash))
        (node-length e.direction (e'.sibling_hash ++ cur') (cur' ++ e'.sibling_hash)) same') [
          | inr found ↦ inr found
          | inl nodes ↦
              node-injective e.direction e.sibling_hash cur e'.sibling_hash cur' of_e of_e' long
                long' nodes
        ]

  -- For a digest of 32 bytes, where verify_bucket_merkle_proof accepts two values with one root and
  -- paths of the same directions and of siblings of 32 bytes, the values are the same, or two
  -- different texts have one digest.
  pub verify_bucket_merkle_proof-binding :
      (value value' root : Bytes) (path path' : List MerklePathElement)
      → HasDigests path
      → HasDigests path'
      → directions path ≡ directions path'
      → verify_bucket_merkle_proof sha256 value root path ≡ true
      → verify_bucket_merkle_proof sha256 value' root path' ≡ true
      → (value ≡ value') ⊎ Collision sha256
  unfolding verify_bucket_merkle_proof
  verify_bucket_merkle_proof-binding value value' root path path' of of' dirs accepts accepts' =
      let up = (bytes_eq_iff (climb_path sha256 (sha256 value) path) root).0 accepts in
      let up' = (bytes_eq_iff (climb_path sha256 (sha256 value') path') root).0 accepts' in
      elim (climb_path-injective path path' of of' dirs (sha256 value) (sha256 value') (fixed value)
        (fixed value') (up ∙ sym up')) [
          | inr found ↦ inr found
          | inl leaves ↦ digest-injective value value' leaves
        ]
