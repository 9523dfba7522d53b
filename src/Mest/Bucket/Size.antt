-- ===== src/Mest/Bucket/Size.antt =====
-- crates/storager/ads_lib/src/mest/bucket.rs: the pairs of a valid bucket have different keys, each
-- with a value.
use mathlib.Core.Option.{some-injective}
use trust_meta.Base.{
  ℕ, zero, suc, ◌≡◌, refl, sym, ap, ◌∙◌, false, ◌||◌, List, [], ◌∷◌, ◌++◌, map, none, some, inl,
  inr, Bool-cases, get_elem?, get_elem?-append_cases, Bytes, bytes_eq, bytes_eq_iff, bytes_eq_refl,
  done, arith,
}
use trust_meta.Text.{has_part}
use trust_meta.Assoc.{Assoc, get}
use trust_meta.Assoc.Distinct.{IsDistinct}
use trust_meta.Mest.Segment.{Kvpair, segment_key, all_kvs}
use trust_meta.Mest.Bucket.{Bucket, get_segment_key, get_value}
use trust_meta.Mest.Bucket.Valid.{absent, present, IsValid, segments_apart}
use trust_meta.Mest.Bucket.Delete.{value_here}
use trust_meta.Mest.Bucket.Gather.{IsOwned, behind, valid-IsOwned}

-- A list of texts without a duplicate.
unfoldable pub IsNodup : List Bytes → Type 0
IsNodup [] = Unit
IsNodup (k ∷ keys) = (has_part k keys ≡ false) × IsNodup keys

abbrev pub keys_of : List Kvpair → List Bytes
keys_of = map (λ (kv : Kvpair). kv.key)

lacks-has_part :
    (k : Bytes) (keys : List Bytes)
    → ((j : ℕ) (e : Bytes) → get_elem? keys j ≡ some e → bytes_eq e k ≡ false)
    → has_part k keys ≡ false
unfolding has_part
lacks-has_part k [] others = refl
lacks-has_part k (x ∷ keys) others =
    rw (others 0 x refl) (lacks-has_part k keys (λ j e at. others (suc j) e at))

has_part-append :
    (k : Bytes) (xs ys : List Bytes)
    → has_part k xs ≡ false
    → has_part k ys ≡ false
    → has_part k (xs ++ ys) ≡ false
unfolding has_part
has_part-append k [] ys h h' = h'
has_part-append k (x ∷ xs) ys h h' = elim (Bool-cases (bytes_eq x k)) [
  | inl same ↦ absurd (cc (ap (λ t. t || has_part k xs) (sym same) ∙ h))
  | inr other ↦ rw other (has_part-append k xs ys (ap (λ t. t || has_part k xs) (sym other) ∙ h) h')
]

append-IsNodup :
    (xs ys : List Bytes)
    → IsNodup xs
    → IsNodup ys
    → ((i : ℕ) (k : Bytes) → get_elem? xs i ≡ some k → has_part k ys ≡ false)
    → IsNodup (xs ++ ys)
unfolding IsNodup
append-IsNodup [] ys once once' apart = once'
append-IsNodup (x ∷ xs) ys (fresh, once) once' apart = (
  has_part-append x xs ys fresh (apart 0 x refl),
  append-IsNodup xs ys once once' (λ i k at. apart (suc i) k at),
)

index-IsNodup :
    (xs : List Bytes)
    → ((i j : ℕ) (k : Bytes) → get_elem? xs i ≡ some k → get_elem? xs j ≡ some k → i ≡ j)
    → IsNodup xs
unfolding IsNodup
index-IsNodup [] one_place = tt
index-IsNodup (x ∷ xs) one_place = (
  lacks-has_part x xs (λ j e at. elim (Bool-cases (bytes_eq e x)) [
    | inr other ↦ other
    | inl same ↦
        let places = one_place 0 (suc j) x refl (at ∙ ap some ((bytes_eq_iff e x).0 same)) in
        absurd (omega arith)
  ]),
  index-IsNodup xs (λ i j k at at'. let places = one_place (suc i) (suc j) k at at' in omega arith),
)

get_elem?-keys :
    (seg : List Kvpair) (i : ℕ) (k : Bytes)
    → get_elem? (keys_of seg) i ≡ some k
    → (kv : Kvpair) × (get_elem? seg i ≡ some kv) × (kv.key ≡ k)
get_elem?-keys [] i k at = absurd (cc at)
get_elem?-keys (kv ∷ seg) zero k at = (kv, refl, some-injective kv.key k at)
get_elem?-keys (kv ∷ seg) (suc i) k at = get_elem?-keys seg i k at

keys-append : (xs ys : List Kvpair) → keys_of (xs ++ ys) ≡ keys_of xs ++ keys_of ys
keys-append [] ys = refl
keys-append (x ∷ xs) ys = ap (λ t. x.key ∷ t) (keys-append xs ys)

-- A pair stands in a segment.
find-all_kvs :
    (segs : Assoc (List Kvpair))
    → IsDistinct segs
    → (idx : ℕ) (kv : Kvpair) → get_elem? (all_kvs segs) idx ≡ some kv
    → (seg_key : Bytes) × (seg : List Kvpair) × (j : ℕ) × (get seg_key segs ≡ some seg)
      × (get_elem? seg j ≡ some kv)
unfolding all_kvs IsDistinct get
find-all_kvs [] d idx kv at = absurd (cc at)
find-all_kvs ((h, seg) ∷ rest) (fresh, d) idx kv at =
    elim (get_elem?-append_cases seg (all_kvs rest) idx kv at) [
      | inl first ↦ (h, seg, idx, rw (bytes_eq_refl h) refl, first)
      | inr (j, later) ↦
          let (sk, seg', i, there, place) = find-all_kvs rest d j kv later in
          (sk, seg', i, behind h sk seg seg' rest fresh there, place)
    ]

module _ (n : ℕ) where
  -- The keys of a segment that is not there are not in the pairs.
  missing-all_kvs :
      (segs : Assoc (List Kvpair)) (h k : Bytes)
      → IsDistinct segs
      → IsOwned n segs
      → get h segs ≡ none
      → segment_key n k ≡ done h
      → (idx : ℕ) (e : Bytes) → get_elem? (keys_of (all_kvs segs)) idx ≡ some e
      → bytes_eq e k ≡ false
  missing-all_kvs segs h k d o gone its idx e at =
      let (kv, at', is) = get_elem?-keys (all_kvs segs) idx e at in
      let (sk, seg, j, there, place) = find-all_kvs segs d idx kv at' in
      let differs : bytes_eq sk h ≡ false = elim (Bool-cases (bytes_eq sk h)) [
        | inr other ↦ other
        | inl same ↦ absurd (cc ((bytes_eq_iff sk h).0 same, there, gone))
      ] in
      ap (λ x. bytes_eq x k) (sym is)
      ∙ segments_apart n kv.key k sk h (o sk seg there j kv place) its differs

  all_kvs-IsNodup :
      (segs : Assoc (List Kvpair))
      → IsDistinct segs
      → IsOwned n segs
      → ((seg_key : Bytes) (seg : List Kvpair)
          → get seg_key segs ≡ some seg
          → IsNodup (keys_of seg))
      → IsNodup (keys_of (all_kvs segs))
  unfolding all_kvs IsDistinct IsNodup get
  all_kvs-IsNodup [] d o once = tt
  all_kvs-IsNodup ((h, seg) ∷ rest) (fresh, d) o once =
      let o' : IsOwned n rest = λ sk s has. o sk s (behind h sk seg s rest fresh has) in
      let once' =
        all_kvs-IsNodup rest d o' (λ sk s has. once sk s (behind h sk seg s rest fresh has)) in
      let here : get h ((h, seg) ∷ rest) ≡ some seg = rw (bytes_eq_refl h) refl in
      rw (keys-append seg (all_kvs rest)) (
        append-IsNodup (keys_of seg) (keys_of (all_kvs rest)) (once h seg here) once' (λ i k at.
          let (kv, at', is) = get_elem?-keys seg i k at in
          lacks-has_part k (keys_of (all_kvs rest)) (
            missing-all_kvs rest h k d o' fresh
              (ap (segment_key n) (sym is) ∙ o h seg here i kv at'))))

module _ (sha256 : Bytes → Bytes) (b : Bucket) (v : IsValid sha256 b) where
  segment-IsNodup :
      (seg_key : Bytes) (seg : List Kvpair)
      → get seg_key b.segments ≡ some seg
      → IsNodup (keys_of seg)
  segment-IsNodup seg_key seg has = elim (v.segment seg_key) [
    | absent e f g ↦ absurd (cc (e, has))
    | present seg' idx_map mt e f g s ↦
        let same : seg' ≡ seg = some-injective seg' seg (sym e ∙ has) in
        rw (← same) (
          index-IsNodup (keys_of seg') (λ i j k at at'.
            let (kv, place, is) = get_elem?-keys seg' i k at in
            let (kv', place', is') = get_elem?-keys seg' j k at' in
            some-injective i j (
              sym (s.placed i kv place)
              ∙ ap (λ x. get x idx_map) (is ∙ sym is')
              ∙ s.placed j kv' place')))
  ]

  pub valid-IsNodup : IsNodup (keys_of (all_kvs b.segments))
  valid-IsNodup =
      all_kvs-IsNodup b.seg_num b.segments v.distinct (valid-IsOwned sha256 b v) segment-IsNodup

  -- Each pair's key has a value.
  pub pair-get_value :
      (idx : ℕ) (k : Bytes)
      → get_elem? (keys_of (all_kvs b.segments)) idx ≡ some k
      → (value : Bytes) × (get_value b k ≡ done (some value))
  unfolding get_value get_segment_key
  pair-get_value idx k at =
      let (kv, at', is) = get_elem?-keys (all_kvs b.segments) idx k at in
      let (sk, seg, j, there, place) = find-all_kvs b.segments v.distinct idx kv at' in
      let its =
        ap (segment_key b.seg_num) (sym is) ∙ valid-IsOwned sha256 b v sk seg there j kv place in
      elim (v.segment sk) [
        | absent e f g ↦ absurd (cc (e, there))
        | present seg' idx_map mt e f g s ↦
            let same : seg ≡ seg' = some-injective seg seg' (sym there ∙ e) in
            let place' = ap (λ x. get_elem? x j) (sym same) ∙ place in
            let here = ap (λ x. get x idx_map) (sym is) ∙ s.placed j kv place' in
            (kv.value, rw its (value_here b sk seg' idx_map e f k j kv here place'))
      ]
