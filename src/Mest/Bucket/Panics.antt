-- ===== src/Mest/Bucket/Panics.antt =====
-- crates/storager/ads_lib/src/mest/bucket.rs: on which keys a bucket's operations panic.
use trust_meta.Base.{
  ℕ, ◌<◌, ◌≡◌, ◌⊎◌, refl, ap, [], ◌∷◌, Option, none, some, length, get_elem?, Bytes, take, Outcome,
  done, panic, ◌>>=◌, Bool, true, false, not, ◌&&◌, inl, inr, Bool-cases, Option-cases,
  if◌then◌else◌, ltb, leb, ◌==◌, arith, List, ◌||◌, get_elem?-some, get_elem?-lt,
}
use trust_meta.Assoc.{get}
use trust_meta.Mest.Segment.{Kvpair, is_char_boundary, segment_key}
use trust_meta.Mest.Bucket.{
  Bucket, get_segment_key, find_in, value_at, get_value, is_in_bucket, prove_found, get_proof,
  insert, delete_value,
}
use trust_meta.Mest.Bucket.Valid.{absent, present, IsValid}
use trust_meta.Mest.Bucket.Written.{find_in-absent}
use trust_meta.Mest.Bucket.Delete.{value_missing, value_here}
use trust_meta.Mest.Bucket.Deletions.{delete_value-values}
use trust_meta.Mest.Bucket.Values.{insert-IsInserted, get_proof-verify_proof}

-- How a call ends, without its result.
pub status {ℓ} : {A : Type ℓ} → Outcome A → Outcome (Unit {0})
status o = do x ← o; done tt

-- Whether the byte at `n` continues a character of several bytes.
unfoldable pub continues : ℕ → Bytes → Bool
continues n key = elim (get_elem? key n) [
  | none ↦ false
  | some byte ↦ not (n == 0) && (leb 128 byte && ltb byte 192)
]

-- A call that panics exactly on a key that is cut inside a character, and returns on every other.
abbrev pub cut_status : Bucket → Bytes → Outcome (Unit {0})
cut_status b key = if continues b.seg_num key then panic else done tt

boundary_test : (start inside : Bool) → (start || not inside) ≡ not (not start && inside)
boundary_test true inside = refl
boundary_test false inside = refl

is_char_boundary-continues :
    (n : ℕ) (key : Bytes) → n < length key → is_char_boundary key n ≡ not (continues n key)
unfolding continues is_char_boundary
is_char_boundary-continues n key low =
    let (byte, at) = get_elem?-some key n low in
    rw (at, continues, is_char_boundary) (boundary_test (n == 0) (leb 128 byte && ltb byte 192))

continues-past : (n : ℕ) (key : Bytes) → ltb n (length key) ≡ false → continues n key ≡ false
unfolding continues
continues-past n key short = elim (Option-cases (get_elem? key n)) [
  | inl past ↦ rw (past, continues) refl
  | inr (byte, at) ↦
      let low = get_elem?-lt key n at in
      let long : ltb n (length key) ≡ true = ground arith in absurd (cc (long, short))
]

segment_key-cases :
    (n : ℕ) (key : Bytes)
    → ((continues n key ≡ true) × (segment_key n key ≡ panic))
      ⊎ ((continues n key ≡ false) × (k : Bytes) × (segment_key n key ≡ done k))
unfolding segment_key
segment_key-cases n key = elim (Bool-cases (ltb n (length key))) [
  | inr short ↦ inr (continues-past n key short, [], rw short refl)
  | inl long ↦
      let boundary = is_char_boundary-continues n key (ground arith) in
      elim (Bool-cases (continues n key)) [
        | inl inside ↦ inl (inside, rw (long, boundary, inside) refl)
        | inr outside ↦ inr (outside, take n key, rw (long, boundary, outside) refl)
      ]
]

value_at-none_back : (found : Option (List Kvpair × ℕ)) → value_at found ≡ done none → found ≡ none
unfolding value_at
value_at-none_back none h = refl
value_at-none_back (some (seg, idx)) h = elim (Option-cases (get_elem? seg idx)) [
  | inl gone ↦ absurd (cc (rw (gone, value_at) at h))
  | inr (kv, at) ↦ absurd (cc (rw (at, value_at) at h))
]

module _ (sha256 : Bytes → Bytes) (b : Bucket) (v : IsValid sha256 b) (key : Bytes) (k : Bytes)
    (its : get_segment_key b key ≡ done k) where
  get_value-returns : (old : Option Bytes) × (get_value b key ≡ done old)
  unfolding get_value
  get_value-returns = elim (v.segment k) [
    | absent e f g ↦ (none, rw its (find_in-absent b k key e))
    | present seg idx_map mt e f g s ↦ elim (Option-cases (get key idx_map)) [
      | inl gone ↦ (none, rw its (value_missing b k seg idx_map e f key gone))
      | inr (idx, here) ↦
          let (kv, at, same) = s.found key idx here in
          (some kv.value, rw its (value_here b k seg idx_map e f key idx kv here at))
    ]
  ]

  get_proof-status :
      (old : Option Bytes) → get_value b key ≡ done old → status (get_proof sha256 b key) ≡ done tt
  unfolding get_value get_proof prove_found status
  get_proof-status none has =
      let found : value_at (find_in b k key) ≡ done none = rw its at has in
      rw (its, value_at-none_back (find_in b k key) found) refl
  get_proof-status (some value) has =
      let (root, proof, run, accepts) = get_proof-verify_proof sha256 b key value v has in
      ap status run

  returns :
      (value to_del : Bytes)
      → 0 < length to_del
      → (status (get_value b key) ≡ done tt)
        × (status (is_in_bucket b key) ≡ done tt)
        × (status (get_proof sha256 b key) ≡ done tt)
        × (status (insert sha256 b (record { key = key; value = value })) ≡ done tt)
        × (status (delete_value sha256 b key to_del) ≡ done tt)
  unfolding is_in_bucket status
  returns value to_del some_text =
      let (old, has) = get_value-returns in
      let (b', run, is) =
        insert-IsInserted sha256 b (record { key = key; value = value }) k v its in
      let (b'', changed, run', _, _, _) =
        delete_value-values sha256 b key to_del k v its some_text in
      (ap status has, rw its refl, get_proof-status old has, ap status run, ap status run')

-- On a valid bucket get_value, is_in_bucket, get_proof, insert, and delete_value of a text that is
-- not empty panic where byte seg_num of the key continues a character of several bytes, and return
-- on every other key, whether the bucket has it or not.
pub operations-status :
    (sha256 : Bytes → Bytes) (b : Bucket) (key value to_del : Bytes)
    → IsValid sha256 b
    → 0 < length to_del
    → (status (get_value b key) ≡ cut_status b key)
      × (status (is_in_bucket b key) ≡ cut_status b key)
      × (status (get_proof sha256 b key) ≡ cut_status b key)
      × (status (insert sha256 b (record { key = key; value = value })) ≡ cut_status b key)
      × (status (delete_value sha256 b key to_del) ≡ cut_status b key)
unfolding get_value is_in_bucket get_proof insert delete_value get_segment_key status
operations-status sha256 b key value [] v some_text = absurd (omega arith)
operations-status sha256 b key value (c ∷ to_del) v some_text =
    elim (segment_key-cases b.seg_num key) [
      | inr (outside, k, its) ↦
          rw outside (returns sha256 b v key k its value (c ∷ to_del) some_text)
      | inl (inside, stops) ↦ rw (inside, stops) (refl, refl, refl, refl, refl)
    ]
