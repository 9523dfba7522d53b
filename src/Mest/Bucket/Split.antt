-- ===== src/Mest/Bucket/Split.antt =====
-- crates/storager/ads_lib/src/mest/bucket.rs: a split moves each key, with its value, into the child of
-- its digit.
use mathlib.Core.Option.{some-injective}
use mathlib.Core.Path.{subst}
use trust_meta.Base.{
  ℕ, suc, ◌<◌, ◌≡◌, ◌≢◌, refl, sym, ap, ◌∙◌, List, [], ◌∷◌, map, range', Option, none, some,
  get_elem?, get_elem?-some, get_elem?-lt, get_elem?-map, get_elem?-range', get_elem?-set_cases,
  length-map, length-range', length-set, length, set, Bytes, done, bytes_eq, inl, inr, Bool-cases,
  bytes_eq_iff, bind-done, if◌then◌else◌, ◌==◌, ==_iff, arith,
}
use trust_meta.Mest.Digits.{digit_at_mixed, digit_at_mixed-lt}
use trust_meta.Mest.Segment.{Kvpair, segment_key, all_kvs}
use trust_meta.Mest.Bucket.{
  Bucket, find_in, value_at, get_segment_key, get_value, child_bucket, redistribute, split_bucket,
}
use trust_meta.Assoc.{get}
use trust_meta.Assoc.Distinct.{IsDistinct}
use trust_meta.Mest.Bucket.Valid.{absent, IsValid}
use trust_meta.Mest.Bucket.Written.{find_in-absent}
use trust_meta.Mest.Bucket.Insert.{merged, IsSameFrame}
use trust_meta.Mest.Bucket.Values.{insert-IsInserted, inserted-get_value}
use trust_meta.Mest.Bucket.Gather.{gathered, owned-all_kvs, valid-IsOwned, gathered-get_value}

-- What the loop leaves in the child at a digit.
pub record IsRedistributed (sha256 : Bytes → Bytes) (rdx pos : ℕ) (kvs : List Kvpair) (d : ℕ)
    (child child' : Bucket) : Type 0 where
  pub valid : IsValid sha256 child'
  pub frame : IsSameFrame child child'
  pub values :
      (k : Bytes) (old : Option Bytes)
      → get_value child k ≡ done old
      → get_value child' k
        ≡ done (if d == digit_at_mixed k rdx pos then gathered k old kvs else old)

same_frames : {a b c : Bucket} → IsSameFrame a b → IsSameFrame b c → IsSameFrame a c
same_frames f g = record {
  bucket_key = g.bucket_key ∙ f.bucket_key;
  ld = g.ld ∙ f.ld;
  rdx = g.rdx ∙ f.rdx;
  capacity = g.capacity ∙ f.capacity;
  seg_num = g.seg_num ∙ f.seg_num;
}

module _ (sha256 : Bytes → Bytes) (rdx pos n : ℕ) (positive : 0 < rdx) where
  abbrev AreChildren : List Bucket → Type 0
  AreChildren children =
      (d : ℕ) (child : Bucket)
      → get_elem? children d ≡ some child
      → IsValid sha256 child × (child.seg_num ≡ n)

  abbrev HaveSegments : List Kvpair → Type 0
  HaveSegments kvs =
      (idx : ℕ) (kv : Kvpair)
      → get_elem? kvs idx ≡ some kv
      → (seg_key : Bytes) × (segment_key n kv.key ≡ done seg_key)

  -- One more pair in front, for the child that it goes to and for the others.
  module _ (kv : Kvpair) (kvs : List Kvpair) (d : ℕ) (k : Bytes) (old : Option Bytes) where
    gathered-mine :
        d ≡ digit_at_mixed kv.key rdx pos
        → (if d == digit_at_mixed k rdx pos
            then gathered k (if bytes_eq kv.key k then some (merged old kv.value) else old) kvs
            else (if bytes_eq kv.key k then some (merged old kv.value) else old))
          ≡ (if d == digit_at_mixed k rdx pos then gathered k old (kv ∷ kvs) else old)
    unfolding gathered
    gathered-mine its = elim (Bool-cases (d == digit_at_mixed k rdx pos)) [
      | inl here ↦ rw here refl
      | inr away ↦ elim (Bool-cases (bytes_eq kv.key k)) [
        | inr other ↦ rw (away, other) refl
        | inl same ↦
            let at : d ≡ digit_at_mixed k rdx pos =
              its ∙ ap (λ x. digit_at_mixed x rdx pos) ((bytes_eq_iff kv.key k).0 same) in
            absurd (cc ((==_iff d (digit_at_mixed k rdx pos)).1 at, away))
      ]
    ]

    gathered-others :
        digit_at_mixed kv.key rdx pos ≢ d
        → (if d == digit_at_mixed k rdx pos then gathered k old kvs else old)
          ≡ (if d == digit_at_mixed k rdx pos then gathered k old (kv ∷ kvs) else old)
    unfolding gathered
    gathered-others ne = elim (Bool-cases (d == digit_at_mixed k rdx pos)) [
      | inr away ↦ rw away refl
      | inl here ↦ elim (Bool-cases (bytes_eq kv.key k)) [
        | inr other ↦ rw (here, other) refl
        | inl same ↦ absurd (
            ne (
              ap (λ x. digit_at_mixed x rdx pos) ((bytes_eq_iff kv.key k).0 same)
              ∙ sym ((==_iff d (digit_at_mixed k rdx pos)).0 here)))
      ]
    ]

  pub redistribute-IsRedistributed :
      (children : List Bucket) (kvs : List Kvpair)
      → length children ≡ rdx
      → AreChildren children
      → HaveSegments kvs
      → (children' : List Bucket) × (redistribute sha256 rdx pos children kvs ≡ done children')
        × (length children' ≡ rdx)
        × ((d : ℕ) (child' : Bucket)
            → get_elem? children' d ≡ some child'
            → (child : Bucket) × (get_elem? children d ≡ some child)
              × IsRedistributed sha256 rdx pos kvs d child child')
  unfolding redistribute gathered get_segment_key
  redistribute-IsRedistributed children [] long are have = (
    children,
    refl,
    long,
    λ d child at. (
      child,
      at,
      record {
        valid = (are d child at).0;
        frame = record {
          bucket_key = refl;
          ld = refl;
          rdx = refl;
          capacity = refl;
          seg_num = refl;
        };
        values = λ k old was. elim (Bool-cases (d == digit_at_mixed k rdx pos)) [
          | inl here ↦ rw here was
          | inr away ↦ rw away was
        ];
      },
    ),
  )
  redistribute-IsRedistributed children (kv ∷ kvs) long are have =
      let dg = digit_at_mixed kv.key rdx pos in
      let small = digit_at_mixed-lt kv.key rdx pos positive in
      let (child, at) = get_elem?-some children dg (omega (arith, small, long)) in
      let (valid, its_n) = are dg child at in
      let (seg_key, its) = have 0 kv refl in
      let mine : segment_key child.seg_num kv.key ≡ done seg_key = rw its_n its in
      let (child1, run, is) = insert-IsInserted sha256 child kv seg_key valid mine in
      let children1 = set children dg child1 in
      let are1 : AreChildren children1 = λ d c at_d.
        elim (get_elem?-set_cases children dg d child1 c at_d) [
          | inl (here, same) ↦
              subst (λ x. IsValid sha256 x × (x.seg_num ≡ n)) (sym same)
                (is.valid, is.frame.seg_num ∙ its_n)
          | inr (ne, before) ↦ are d c before
        ] in
      let (children', run', long', all) =
        redistribute-IsRedistributed children1 kvs (length-set children dg child1 ∙ long) are1
          (λ idx e at_e. have (suc idx) e at_e) in
      (
        children',
        rw (at, redistribute) (rw run run'),
        long',
        λ d child' at'.
            let (c, at_c, r) = all d child' at' in
            elim (get_elem?-set_cases children dg d child1 c at_c) [
              | inl (here, same) ↦ (
                child,
                rw here at,
                record {
                  valid = r.valid;
                  frame = same_frames is.frame (subst (λ x. IsSameFrame x child') same r.frame);
                  values = λ k old was.
                      let mid =
                        inserted-get_value sha256 child kv seg_key valid mine child1 is k old was in
                      r.values k _ (ap (λ x. get_value x k) same ∙ mid)
                      ∙ ap done (gathered-mine kv kvs d k old here);
                },
              )
              | inr (ne, before) ↦ (
                c,
                before,
                record {
                  valid = r.valid;
                  frame = r.frame;
                  values =
                      λ k old was. r.values k old was ∙ ap done (gathered-others kv kvs d k old ne);
                },
              )
            ],
      )

-- The children of a split: the key and the depth of each, and the values of its keys.
pub record IsSplit (sha256 : Bytes → Bytes) (b : Bucket) (d : ℕ) (child : Bucket) : Type 0 where
  pub valid : IsValid sha256 child
  pub frame : IsSameFrame (child_bucket b d) child
  pub values :
      (k : Bytes) (old : Option Bytes)
      → get_value b k ≡ done old
      → get_value child k ≡ done (if d == digit_at_mixed k b.rdx b.ld then old else none)

child_bucket-get_value :
    (b : Bucket) (d : ℕ) (k : Bytes) (old : Option Bytes)
    → get_value b k ≡ done old
    → get_value (child_bucket b d) k ≡ done none
unfolding get_value get_segment_key child_bucket get
child_bucket-get_value b d k old was =
    let (sk, its, found) =
      bind-done (segment_key b.seg_num k) (λ s. value_at (find_in b s k)) was in
    rw its (find_in-absent (child_bucket b d) sk k refl)

-- The child at a digit before the loop.
fresh-is :
    (b : Bucket) (d : ℕ) (child : Bucket)
    → get_elem? (map (child_bucket b) (range' 0 b.rdx)) d ≡ some child
    → child ≡ child_bucket b d
fresh-is b d child at =
    let fits = get_elem?-lt (map (child_bucket b) (range' 0 b.rdx)) d at in
    let small : d < b.rdx =
      omega (arith, fits, length-map (range' 0 b.rdx) (child_bucket b), length-range' b.rdx 0) in
    some-injective child (child_bucket b d) (
      sym at
      ∙ get_elem?-map (child_bucket b) (range' 0 b.rdx) d
          (get_elem?-range' b.rdx 0 d d small (omega arith)))

child_bucket-IsValid :
    (sha256 : Bytes → Bytes) (b : Bucket) (d : ℕ) → IsValid sha256 (child_bucket b d)
unfolding child_bucket get IsDistinct
child_bucket-IsValid sha256 b d = record {
  distinct = tt;
  segment = λ seg_key. absent refl refl refl;
}

child_bucket-seg_num : (b : Bucket) (d : ℕ) → (child_bucket b d).seg_num ≡ b.seg_num
unfolding child_bucket
child_bucket-seg_num b d = refl

fresh-IsValid :
    (sha256 : Bytes → Bytes) (b : Bucket) (d : ℕ) (child : Bucket)
    → get_elem? (map (child_bucket b) (range' 0 b.rdx)) d ≡ some child
    → IsValid sha256 child × (child.seg_num ≡ b.seg_num)
fresh-IsValid sha256 b d child at =
    let is = fresh-is b d child at in
    (
      subst (IsValid sha256) (sym is) (child_bucket-IsValid sha256 b d),
      ap (λ (x : Bucket). x.seg_num) is ∙ child_bucket-seg_num b d,
    )

-- On a valid bucket of a positive radix split_bucket returns as many children as the radix, each
-- valid, one deeper, and with its digit in front of the bucket's key; a key has its value in the
-- child of its digit and none in the others.
pub split_bucket-IsSplit :
    (sha256 : Bytes → Bytes) (b : Bucket)
    → IsValid sha256 b
    → 0 < b.rdx
    → (children : List Bucket) × (split_bucket sha256 b ≡ done children)
      × (length children ≡ b.rdx)
      × ((d : ℕ) (child : Bucket) → get_elem? children d ≡ some child → IsSplit sha256 b d child)
unfolding split_bucket
split_bucket-IsSplit sha256 b v positive =
    let fresh = map (child_bucket b) (range' 0 b.rdx) in
    let long : length fresh ≡ b.rdx =
      length-map (range' 0 b.rdx) (child_bucket b) ∙ length-range' b.rdx 0 in
    let (children, run, long', all) =
      redistribute-IsRedistributed sha256 b.rdx b.ld b.seg_num positive fresh (all_kvs b.segments)
        long (λ d child at. fresh-IsValid sha256 b d child at)
        (owned-all_kvs b.seg_num b.segments v.distinct (valid-IsOwned sha256 b v)) in
    (
      children,
      run,
      long',
      λ d child at.
          let (before, at', r) = all d child at in
          let is = fresh-is b d before at' in
          record {
            valid = r.valid;
            frame = subst (λ x. IsSameFrame x child) is r.frame;
            values = λ k old was.
                r.values k none (ap (λ x. get_value x k) is ∙ child_bucket-get_value b d k old was)
                ∙ ap (λ x. done (if d == digit_at_mixed k b.rdx b.ld then x else none))
                    (gathered-get_value sha256 b v k old was);
          },
    )
