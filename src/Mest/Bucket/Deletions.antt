-- ===== src/Mest/Bucket/Deletions.antt =====
-- crates/storager/ads_lib/src/mest/bucket.rs: the values of a bucket after a delete.
use trust_meta.Base.{
  ◌<◌, ◌≡◌, refl, sym, ap, ◌∙◌, [], ◌∷◌, Option, none, length, Bytes, done, done-injective,
  bind-done, Bool, bytes_eq, false, inl, inr, Bool-cases, Option-cases, bytes_eq_iff, if◌then◌else◌,
  arith,
}
use trust_meta.Assoc.{get}
use trust_meta.Mest.Segment.{segment_key}
use trust_meta.Mest.Bucket.{
  Bucket, get_segment_key, find_in, value_at, get_value, delete_in, delete_value,
}
use trust_meta.Mest.Bucket.Valid.{absent, present, IsValid, segments_apart}
use trust_meta.Mest.Bucket.Written.{find_in-absent}
use trust_meta.Mest.Bucket.Insert.{IsSameFrame}
use trust_meta.Mest.Bucket.Delete.{deleted, IsDeleted, delete_at-IsDeleted, value_missing}

module _ (sha256 : Bytes → Bytes) (b : Bucket) (key to_del seg_key : Bytes)
    (v : IsValid sha256 b) where
  -- A key that is missing: nothing changes.
  missing-IsDeleted :
      value_at (find_in b seg_key key) ≡ done none → IsDeleted sha256 b b seg_key key to_del
  unfolding deleted
  missing-IsDeleted gone = record {
    valid = v;
    frame = record { bucket_key = refl; ld = refl; rdx = refl; capacity = refl; seg_num = refl };
    mine = λ k old was. was ∙ (elim (Bool-cases (bytes_eq key k)) [
      | inr differs ↦ rw differs refl
      | inl same ↦
          let is = (bytes_eq_iff key k).0 same in
          let nothing : none ≡ old = done-injective (sym gone ∙ rw is was) in
          rw (same, ← nothing) refl
    ]);
    others = λ k k' differs. refl;
  }

  delete_in-IsDeleted :
      (b' : Bucket) × (changed : Bool) × (delete_in sha256 b seg_key key to_del
        ≡ done (b', changed))
      × IsDeleted sha256 b b' seg_key key to_del
  unfolding delete_in
  delete_in-IsDeleted = elim (v.segment seg_key) [
    | absent e f g ↦
        (b, false, rw (e, delete_in) refl, missing-IsDeleted (find_in-absent b seg_key key e))
    | present seg idx_map mt e f g s ↦ elim (Option-cases (get key idx_map)) [
      | inl gone ↦ (
        b,
        false,
        rw (e, delete_in) (rw f (rw gone refl)),
        missing-IsDeleted (value_missing b seg_key seg idx_map e f key gone),
      )
      | inr (idx, here) ↦
          let (b', changed, run, is) =
            delete_at-IsDeleted sha256 b seg_key seg idx_map mt v e f g s key idx here to_del in
          (b', changed, rw (e, delete_in) (rw f (rw here run)), is)
    ]
  ]

-- The same for the whole bucket.
pub delete_value-values :
    (sha256 : Bytes → Bytes) (b : Bucket) (key to_del seg_key : Bytes)
    → IsValid sha256 b
    → get_segment_key b key ≡ done seg_key
    → 0 < length to_del
    → (b' : Bucket) × (changed : Bool) × (delete_value sha256 b key to_del ≡ done (b', changed))
      × IsValid sha256 b'
      × IsSameFrame b b'
      × ((k : Bytes) (old : Option Bytes)
          → get_value b k ≡ done old
          → get_value b' k ≡ done (if bytes_eq key k then deleted to_del old else old))
unfolding get_value get_segment_key delete_value
delete_value-values sha256 b key [] seg_key v mine some_text = absurd (omega arith)
delete_value-values sha256 b key (c ∷ to_del) seg_key v mine some_text =
    let (b', changed, run, is) = delete_in-IsDeleted sha256 b key (c ∷ to_del) seg_key v in
    (
      b',
      changed,
      rw mine run,
      is.valid,
      is.frame,
      λ k old was.
          let (seg_key', its, found) =
            bind-done (segment_key b.seg_num k) (λ s. value_at (find_in b s k)) was in
          let its' : segment_key b'.seg_num k ≡ done seg_key' = rw (is.frame.seg_num) its in
          rw its' (elim (Bool-cases (bytes_eq seg_key seg_key')) [
            | inl same ↦
                let e = (bytes_eq_iff seg_key seg_key').0 same in
                rw (← e) (is.mine k old (rw e found))
            | inr differs ↦
                let other = segments_apart b.seg_num key k seg_key seg_key' mine its differs in
                rw other (ap value_at (is.others seg_key' k differs) ∙ found)
          ]),
    )

-- On a valid bucket, where the segment key of the key exists and the deleted text is not empty,
-- delete_value returns a valid bucket, in which the key's value has lost the parts that equal the
-- text, or the key is gone where no part is left, and every other key has its old value.
pub delete_value-get_value :
    (sha256 : Bytes → Bytes) (b : Bucket) (key to_del seg_key : Bytes)
    → IsValid sha256 b
    → get_segment_key b key ≡ done seg_key
    → 0 < length to_del
    → (k : Bytes) (old : Option Bytes) → get_value b k ≡ done old
    → (b' : Bucket) × (changed : Bool) × (delete_value sha256 b key to_del ≡ done (b', changed))
      × IsValid sha256 b'
      × (get_value b' k ≡ done (if bytes_eq key k then deleted to_del old else old))
delete_value-get_value sha256 b key to_del seg_key v mine some_text k old was =
    let (b', changed, run, valid, frame, values) =
      delete_value-values sha256 b key to_del seg_key v mine some_text in
    (b', changed, run, valid, values k old was)
