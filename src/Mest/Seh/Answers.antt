-- ===== src/Mest/Seh/Answers.antt =====
-- crates/storager/ads_lib/src/mest/seh.rs: the first directory, deletes, and the proofs of the table.
use mathlib.Core.Option.{some-injective}
use mathlib.Core.Path.{subst}
use trust_meta.Base.{
  ℕ, ◌^◌, ◌<◌, ◌≡◌, ◌≢◌, refl, sym, ap, ◌∙◌, Bool, true, false, [], Option, none, some, inl, inr,
  Bool-cases, Bytes, bytes_eq, bytes_eq_iff, length, ◌==◌, if◌then◌else◌, done, done-injective,
  bind-done, arith,
}
use trust_meta.Text.{join}
use trust_meta.Assoc.{get, insert as map_insert, replace}
use trust_meta.Merkle.{MhtProof, verify_proof}
use trust_meta.Mest.Digits.{digits_prefix_mixed}
use trust_meta.Mest.Dotted.{dotted, dotted-injective}
use trust_meta.Mest.Segment.{segment_key}
use trust_meta.Mest.Bucket.{
  Bucket, new as new_bucket, get_value, get_segment_key, find_in, value_at,
}
use trust_meta.Mest.Bucket.Valid.{new-IsValid}
use trust_meta.Mest.Bucket.Written.{find_in-absent}
use trust_meta.Mest.Bucket.Delete.{deleted}
use trust_meta.Mest.Bucket.Deletions.{delete_value-values}
use trust_meta.Mest.Bucket.Values.{get_proof-verify_proof}
use trust_meta.Mest.Seh.{Seh, new, ensure_root, get_proof, delete_kvpair_value}
use trust_meta.Mest.Seh.Directory.{
  IsLeaf, IsDirectory, path, length-digits, digits-small, find_value, get_bucket_entry-path,
  get_bucket_by_key-path, find_value-path,
}
use trust_meta.Mest.Seh.Writes.{written-IsDirectory, written-find_value}

-- The bucket that stands alone in the first directory.
alone :
    (rdx bc bs : ℕ) (text : Bytes) (b : Bucket)
    → get text ((ensure_root (new rdx bc bs)).ht) ≡ some b
    → (text ≡ []) × (new_bucket 0 rdx bc bs ≡ b)
unfolding ensure_root get map_insert
alone rdx bc bs text b at = elim (Bool-cases (bytes_eq [] text)) [
  | inl same ↦ (
    sym ((bytes_eq_iff [] text).0 same),
    some-injective _ _
        (ap (λ t. if t then some (new_bucket 0 rdx bc bs) else none) (sym same) ∙ at),
  )
  | inr differs ↦
      absurd (cc (ap (λ t. if t then some (new_bucket 0 rdx bc bs) else none) (sym differs) ∙ at))
]

no_value :
    (rdx bc bs : ℕ) (k value : Bytes) → get_value (new_bucket 0 rdx bc bs) k ≡ done (some value) → ⊥
unfolding get_value get_segment_key get
no_value rdx bc bs k value has =
    let (sk, its, found) =
      bind-done (segment_key bs k) (λ s. value_at (find_in (new_bucket 0 rdx bc bs) s k)) has in
    cc (done-injective (sym (find_in-absent (new_bucket 0 rdx bc bs) sk k refl) ∙ found))

root-IsLeaf :
    (sha256 : Bytes → Bytes) (rdx bc bs : ℕ)
    → IsLeaf sha256 (ensure_root (new rdx bc bs)) [] (new_bucket 0 rdx bc bs)
unfolding ensure_root dotted join
root-IsLeaf sha256 rdx bc bs = record {
  its_text = refl;
  small = tt;
  depth = refl;
  rdx = refl;
  capacity = refl;
  seg_num = refl;
  valid = new-IsValid sha256 0 rdx bc bs;
  owned = λ k value has. absurd (no_value rdx bc bs k value has);
}

-- The first directory has no value.
pub ensure_root-no_value :
    (sha256 : Bytes → Bytes) (rdx bc bs : ℕ)
    → IsDirectory sha256 (ensure_root (new rdx bc bs))
    → (k value : Bytes) → find_value (ensure_root (new rdx bc bs)) k ≢ done (some value)
unfolding ensure_root
ensure_root-no_value sha256 rdx bc bs dir k value has =
    let (n, b, le, at) = dir.covered k in
    let it = (alone rdx bc bs (path rdx k n) b at).1 in
    no_value rdx bc bs k value (
      ap (λ x. get_value x k) it
      ∙ sym (find_value-path sha256 (ensure_root (new rdx bc bs)) dir k n b le at)
      ∙ has)

pub ensure_root-find_value :
    (sha256 : Bytes → Bytes) (rdx bc bs : ℕ) (k seg_key : Bytes)
    → IsDirectory sha256 (ensure_root (new rdx bc bs))
    → segment_key bs k ≡ done seg_key
    → find_value (ensure_root (new rdx bc bs)) k ≡ done none
unfolding get_value get_segment_key ensure_root get
ensure_root-find_value sha256 rdx bc bs k seg_key dir its =
    let (n, b, le, at) = dir.covered k in
    let it = (alone rdx bc bs (path rdx k n) b at).1 in
    find_value-path sha256 (ensure_root (new rdx bc bs)) dir k n b le at
    ∙ ap (λ x. get_value x k) (sym it)
    ∙ (rw its (find_in-absent (new_bucket 0 rdx bc bs) seg_key k refl))

-- For a positive radix that an i32 holds, the new table with its root bucket is a directory.
pub ensure_root-IsDirectory :
    (sha256 : Bytes → Bytes) (rdx bc bs : ℕ)
    → 0 < rdx
    → rdx < 2 ^ 31
    → IsDirectory sha256 (ensure_root (new rdx bc bs))
unfolding ensure_root get map_insert dotted join digits_prefix_mixed bytes_eq
ensure_root-IsDirectory sha256 rdx bc bs positive i32 =
    let level : (k : Bytes) (m : ℕ) (b : Bucket)
        → get (path rdx k m) ((ensure_root (new rdx bc bs)).ht) ≡ some b
        → 0 ≡ m =
      λ k m b at.
        ap length (
          dotted-injective [] (digits_prefix_mixed k rdx m) tt (digits-small k rdx m positive i32)
            (sym (alone rdx bc bs (path rdx k m) b at).0))
        ∙ length-digits k rdx m in
    record {
      positive = positive;
      i32 = i32;
      counted = omega arith;
      leaf = λ text b at.
          let (is, it) = alone rdx bc bs text b at in
          subst (λ x. IsLeaf sha256 (ensure_root (new rdx bc bs)) text x) it
            (subst (λ t. IsLeaf sha256 (ensure_root (new rdx bc bs)) t (new_bucket 0 rdx bc bs))
              (sym is) (root-IsLeaf sha256 rdx bc bs));
      covered = λ k. (0, new_bucket 0 rdx bc bs, omega arith, refl);
      unique = λ k m n b c at at'. sym (level k m b at) ∙ level k n c at';
    }

-- On a directory, for a key with a segment key and a text that is not empty, delete_kvpair_value
-- returns a directory in which the key's value has lost the parts that equal the text and every
-- other key has its old value.
pub delete_kvpair_value-find_value :
    (sha256 : Bytes → Bytes) (seh : Seh) (key value seg_key : Bytes)
    → IsDirectory sha256 seh
    → segment_key seh.bucket_seg_num key ≡ done seg_key
    → 0 < length value
    → (seh' : Seh) × (changed : Bool) × (delete_kvpair_value sha256 seh key value
        ≡ done (seh', changed))
      × IsDirectory sha256 seh'
      × (seh'.bucket_seg_num ≡ seh.bucket_seg_num)
      × ((k : Bytes) (old : Option Bytes)
          → find_value seh k ≡ done old
          → find_value seh' k ≡ done (if bytes_eq key k then deleted value old else old))
unfolding delete_kvpair_value get_segment_key
delete_kvpair_value-find_value sha256 seh key value seg_key dir its some_text =
    let (n, b, le, at) = dir.covered key in
    let leaf = dir.leaf (path seh.rdx key n) b at in
    let mine = ap (λ s. segment_key s key) leaf.seg_num ∙ its in
    let entry = get_bucket_entry-path sha256 seh dir key n b le at in
    let some_buckets : (seh.buckets_number == 0) ≡ false = let c = dir.counted in ground arith in
    let (b', changed, run, valid, frame, values) =
      delete_value-values sha256 b key value seg_key leaf.valid mine some_text in
    (
      record seh { ht = replace (path seh.rdx key n) b' seh.ht },
      changed,
      rw some_buckets (rw (entry, delete_kvpair_value) (rw run refl)),
      written-IsDirectory sha256 seh dir key n b b' le at valid frame (deleted value) values,
      refl,
      written-find_value sha256 seh dir key n b b' le at valid frame (deleted value) values,
    )

-- On a directory, where the lookup finds a value for a key, get_proof returns it with a root and a
-- proof that verify_proof accepts.
pub get_proof-find_value :
    (sha256 : Bytes → Bytes) (seh : Seh) (key value : Bytes)
    → IsDirectory sha256 seh
    → find_value seh key ≡ done (some value)
    → (root : Bytes) × (proof : MhtProof) × (get_proof sha256 seh key
        ≡ done (some (value, root, proof)))
      × (verify_proof sha256 value root proof ≡ true)
unfolding get_proof
get_proof-find_value sha256 seh key value dir has =
    let (n, b, le, at) = dir.covered key in
    let valid = (dir.leaf (path seh.rdx key n) b at).valid in
    let has' = sym (find_value-path sha256 seh dir key n b le at) ∙ has in
    let (root, proof, run, accepts) = get_proof-verify_proof sha256 b key value valid has' in
    (root, proof, rw (get_bucket_by_key-path sha256 seh dir key n b le at, get_proof) run, accepts)
