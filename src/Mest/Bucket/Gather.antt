-- ===== src/Mest/Bucket/Gather.antt =====
-- crates/storager/ads_lib/src/mest/bucket.rs: the value that a key gets from a list of pairs, and the
-- pairs of a bucket.
use mathlib.Core.Option.{some-injective}
use trust_meta.Base.{
  ℕ, zero, suc, ◌≡◌, ◌≢◌, refl, sym, ap, ◌∙◌, List, [], ◌∷◌, ◌++◌, Option, none, some, get_elem?,
  Bytes, done, done-injective, bind-done, bytes_eq, true, false, inl, inr, Bool-cases, Option-cases,
  bytes_eq_iff, bytes_eq_refl, get_elem?-append_cases, if◌then◌else◌, arith,
}
use trust_meta.Assoc.{Assoc, get}
use trust_meta.Assoc.Distinct.{IsDistinct}
use trust_meta.Mest.Segment.{Kvpair, segment_key, all_kvs}
use trust_meta.Mest.Bucket.{Bucket, get_segment_key, find_in, value_at, get_value}
use trust_meta.Mest.Bucket.Valid.{absent, present, IsValid, segments_apart}
use trust_meta.Mest.Bucket.Written.{find_in-absent}
use trust_meta.Mest.Bucket.Insert.{merged}
use trust_meta.Mest.Bucket.Delete.{value_here, value_missing}

-- The value of a key after inserts of a list of pairs.
unfoldable pub gathered : Bytes → Option Bytes → List Kvpair → Option Bytes
unfolding merged
gathered k old [] = old
gathered k old (kv ∷ kvs) =
    gathered k (if bytes_eq kv.key k then some (merged old kv.value) else old) kvs

gathered-append :
    (k : Bytes) (old : Option Bytes) (xs ys : List Kvpair)
    → gathered k old (xs ++ ys) ≡ gathered k (gathered k old xs) ys
unfolding gathered
gathered-append k old [] ys = refl
gathered-append k old (x ∷ xs) ys =
    gathered-append k (if bytes_eq x.key k then some (merged old x.value) else old) xs ys

gathered-skip :
    (k : Bytes) (old : Option Bytes) (kvs : List Kvpair)
    → ((idx : ℕ) (kv : Kvpair) → get_elem? kvs idx ≡ some kv → bytes_eq kv.key k ≡ false)
    → gathered k old kvs ≡ old
unfolding gathered
gathered-skip k old [] others = refl
gathered-skip k old (kv ∷ kvs) others =
    rw (others 0 kv refl) (gathered-skip k old kvs (λ idx e at. others (suc idx) e at))

gathered-one :
    (k : Bytes) (kvs : List Kvpair) (idx : ℕ) (kv : Kvpair)
    → get_elem? kvs idx ≡ some kv
    → bytes_eq kv.key k ≡ true
    → ((j : ℕ) (e : Kvpair) → get_elem? kvs j ≡ some e → j ≢ idx → bytes_eq e.key k ≡ false)
    → gathered k none kvs ≡ some kv.value
unfolding gathered merged
gathered-one k [] idx kv at its others = absurd (cc at)
gathered-one k (e ∷ kvs) zero kv at its others =
    let is : e ≡ kv = some-injective _ _ at in
    let same : bytes_eq e.key k ≡ true = rw is its in
    rw same (
      gathered-skip k (some e.value) kvs (λ j e' at'. others (suc j) e' at' (omega arith))
      ∙ ap (λ (x : Kvpair). some x.value) is)
gathered-one k (e ∷ kvs) (suc idx) kv at its others =
    rw (others 0 e refl (omega arith))
      (gathered-one k kvs idx kv at its (λ j e' at' ne. others (suc j) e' at' (omega arith)))

-- Each pair of the segments belongs to the segment that it stands in.
abbrev pub IsOwned : ℕ → Assoc (List Kvpair) → Type 0
IsOwned n segs =
    (seg_key : Bytes) (seg : List Kvpair)
    → get seg_key segs ≡ some seg
    → (idx : ℕ) (kv : Kvpair) → get_elem? seg idx ≡ some kv
    → segment_key n kv.key ≡ done seg_key

-- The entries behind the first have other keys.
pub behind :
    (h seg_key : Bytes) (seg0 seg : List Kvpair) (rest : Assoc (List Kvpair))
    → get h rest ≡ none
    → get seg_key rest ≡ some seg
    → get seg_key ((h, seg0) ∷ rest) ≡ some seg
unfolding get
behind h seg_key seg0 seg rest fresh at = elim (Bool-cases (bytes_eq h seg_key)) [
  | inl same ↦ absurd (cc ((bytes_eq_iff h seg_key).0 same, fresh, at))
  | inr other ↦ rw other at
]

pub owned-all_kvs :
    (n : ℕ) (segs : Assoc (List Kvpair))
    → IsDistinct segs
    → IsOwned n segs
    → (idx : ℕ) (kv : Kvpair) → get_elem? (all_kvs segs) idx ≡ some kv
    → (seg_key : Bytes) × (segment_key n kv.key ≡ done seg_key)
unfolding all_kvs IsDistinct get
owned-all_kvs n [] d o idx kv at = absurd (cc at)
owned-all_kvs n ((h, seg) ∷ rest) (fresh, d) o idx kv at =
    elim (get_elem?-append_cases seg (all_kvs rest) idx kv at) [
      | inl first ↦ (h, o h seg (rw (bytes_eq_refl h) refl) idx kv first)
      | inr (j, later) ↦
          owned-all_kvs n rest d (λ sk s has. o sk s (behind h sk seg s rest fresh has)) j kv later
    ]

module _ (n : ℕ) (k seg_key : Bytes) (mine : segment_key n k ≡ done seg_key) where
  -- The pairs of another segment have other keys.
  foreign :
      (h : Bytes) (seg : List Kvpair)
      → ((idx : ℕ) (kv : Kvpair) → get_elem? seg idx ≡ some kv → segment_key n kv.key ≡ done h)
      → bytes_eq h seg_key ≡ false
      → (idx : ℕ) (kv : Kvpair) → get_elem? seg idx ≡ some kv
      → bytes_eq kv.key k ≡ false
  foreign h seg o differs idx kv at = segments_apart n kv.key k h seg_key (o idx kv at) mine differs

  gathered-all_kvs :
      (segs : Assoc (List Kvpair)) (old : Option Bytes)
      → IsDistinct segs
      → IsOwned n segs
      → gathered k old (all_kvs segs)
        ≡ elim (get seg_key segs) [ none ↦ old | some seg ↦ gathered k old seg ]
  unfolding gathered all_kvs IsDistinct get
  gathered-all_kvs [] old d o = refl
  gathered-all_kvs ((h, seg) ∷ rest) old (fresh, d) o =
      let o' : IsOwned n rest = λ sk s has. o sk s (behind h sk seg s rest fresh has) in
      let first = o h seg (rw (bytes_eq_refl h) refl) in
      gathered-append k old seg (all_kvs rest) ∙ (elim (Bool-cases (bytes_eq h seg_key)) [
        | inl same ↦
            let none_behind : get seg_key rest ≡ none =
              rw (← (bytes_eq_iff h seg_key).0 same) fresh in
            rw same (gathered-all_kvs rest (gathered k old seg) d o' ∙ rw none_behind refl)
        | inr differs ↦ rw differs (
            ap (λ x. gathered k x (all_kvs rest))
              (gathered-skip k old seg (foreign h seg first differs))
            ∙ gathered-all_kvs rest old d o')
      ])

-- The pairs of a bucket have its values.
module _ (sha256 : Bytes → Bytes) (b : Bucket) (v : IsValid sha256 b) where
  pub valid-IsOwned : IsOwned b.seg_num b.segments
  valid-IsOwned seg_key seg has idx kv at = elim (v.segment seg_key) [
    | absent e f g ↦ absurd (cc (e, has))
    | present seg' idx_map mt e f g s ↦
        s.owned idx kv (ap (λ x. get_elem? x idx) (some-injective seg' seg (sym e ∙ has)) ∙ at)
  ]

  pub gathered-get_value :
      (k : Bytes) (old : Option Bytes)
      → get_value b k ≡ done old
      → gathered k none (all_kvs b.segments) ≡ old
  unfolding get_value get_segment_key
  gathered-get_value k old has =
      let (sk, its, found) =
        bind-done (segment_key b.seg_num k) (λ s. value_at (find_in b s k)) has in
      let all = gathered-all_kvs b.seg_num k sk its b.segments none v.distinct valid-IsOwned in
      all ∙ (elim (v.segment sk) [
        | absent e f g ↦ rw e (done-injective (sym (find_in-absent b sk k e) ∙ found))
        | present seg idx_map mt e f g s ↦ rw e (elim (Option-cases (get k idx_map)) [
          | inl gone ↦
              gathered-skip k none seg (λ idx kv at. elim (Bool-cases (bytes_eq kv.key k)) [
                | inr other ↦ other
                | inl same ↦ absurd (cc (s.placed idx kv at, (bytes_eq_iff kv.key k).0 same, gone))
              ])
              ∙ done-injective (sym (value_missing b sk seg idx_map e f k gone) ∙ found)
          | inr (idx, here) ↦
              let (kv, at, is) = s.found k idx here in
              gathered-one k seg idx kv at ((bytes_eq_iff kv.key k).1 is) (λ j e' at' ne.
                elim (Bool-cases (bytes_eq e'.key k)) [
                  | inr other ↦ other
                  | inl same ↦ absurd (
                      ne (
                        some-injective j idx (
                          sym (s.placed j e' at')
                          ∙ ap (λ x. get x idx_map) ((bytes_eq_iff e'.key k).0 same)
                          ∙ here)))
                ])
              ∙ done-injective (sym (value_here b sk seg idx_map e f k idx kv here at) ∙ found)
        ])
      ])

-- A valid bucket answers for every key that has a segment key.
pub valid-get_value :
    (sha256 : Bytes → Bytes) (b : Bucket)
    → IsValid sha256 b
    → (k seg_key : Bytes) → segment_key b.seg_num k ≡ done seg_key
    → (old : Option Bytes) × (get_value b k ≡ done old)
unfolding get_value get_segment_key
valid-get_value sha256 b v k seg_key its = elim (v.segment seg_key) [
  | absent e f g ↦ (none, rw its (find_in-absent b seg_key k e))
  | present seg idx_map mt e f g s ↦ elim (Option-cases (get k idx_map)) [
    | inl gone ↦ (none, rw its (value_missing b seg_key seg idx_map e f k gone))
    | inr (idx, here) ↦
        let (kv, at, _) = s.found k idx here in
        (some kv.value, rw its (value_here b seg_key seg idx_map e f k idx kv here at))
  ]
]
