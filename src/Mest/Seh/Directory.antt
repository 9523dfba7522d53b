-- ===== src/Mest/Seh/Directory.antt =====
-- crates/storager/ads_lib/src/mest/seh.rs: directories in which each key has one bucket, and the
-- lookup that finds it.
use mathlib.Core.List.{reverse}
use mathlib.Core.Option.{some-injective}
use trust_meta.Base.{
  ℕ, zero, suc, ◌+◌, ◌^◌, ◌<◌, ◌≤◌, ◌≡◌, ◌≢◌, refl, sym, ap, ◌∙◌, false, [], ◌∷◌, ◌++◌, map, Option,
  none, some, length, take, length-map, length-range', take-map, map-snoc, All, All-of_index,
  get_elem?-map, get_elem?-lt, get_elem?-range', range', inl, inr, Bool-cases, Option-cases, ◌==◌,
  Bytes, done, Outcome, arith,
}
use native.Mathlib.Decide.{ℕ_discrete}
use trust_meta.Text.{split_on, join, decimal}
use trust_meta.Assoc.{Assoc, get}
use trust_meta.Mest.Digits.{digit_at_mixed, digits_prefix_mixed, digit_at_mixed-lt}
use trust_meta.Mest.Dotted.{dotted, split_on-dotted, dotted-cons}
use trust_meta.Mest.Bucket.{Bucket, get_value}
use trust_meta.Mest.Bucket.Valid.{IsValid}
use trust_meta.Mest.Seh.{
  Seh, make_prefix, entry_at, shorten, prefix_parts, or_else, find_prefix, get_bucket_entry,
  get_bucket_by_key,
}

-- The place in the directory of a key's bucket at a depth.
abbrev pub path : ℕ → Bytes → ℕ → Bytes
path rdx key n = dotted (digits_prefix_mixed key rdx n)

-- What the directory has for a text: a bucket of that prefix.
pub record IsLeaf (sha256 : Bytes → Bytes) (seh : Seh) (text : Bytes) (b : Bucket) : Type 0 where
  pub its_text : text ≡ dotted (reverse b.bucket_key)
  pub small : All (λ d. d < 2 ^ 32) (reverse b.bucket_key)
  pub depth : b.ld ≡ length (reverse b.bucket_key)
  pub rdx : b.rdx ≡ seh.rdx
  pub capacity : b.capacity ≡ seh.bucket_capacity
  pub seg_num : b.seg_num ≡ seh.bucket_seg_num
  pub valid : IsValid sha256 b
  pub owned :
      (k value : Bytes)
      → get_value b k ≡ done (some value)
      → digits_prefix_mixed k seh.rdx b.ld ≡ reverse b.bucket_key

pub record IsDirectory (sha256 : Bytes → Bytes) (seh : Seh) : Type 0 where
  pub positive : 0 < seh.rdx
  pub i32 : seh.rdx < 2 ^ 31
  pub counted : 0 < seh.buckets_number
  pub leaf : (text : Bytes) (b : Bucket) → get text seh.ht ≡ some b → IsLeaf sha256 seh text b
  pub covered :
      (k : Bytes) → (n : ℕ) × (b : Bucket) × (n ≤ seh.gd) × (get (path seh.rdx k n) seh.ht ≡ some b)
  pub unique :
      (k : Bytes) (m n : ℕ) (b c : Bucket)
      → get (path seh.rdx k m) seh.ht ≡ some b
      → get (path seh.rdx k n) seh.ht ≡ some c
      → m ≡ n

-- Digits of a key.
pub length-digits : (k : Bytes) (rdx n : ℕ) → length (digits_prefix_mixed k rdx n) ≡ n
unfolding digits_prefix_mixed
length-digits k rdx n = length-map (range' 0 n) (digit_at_mixed k rdx) ∙ length-range' n 0

pub digits-small :
    (k : Bytes) (rdx n : ℕ)
    → 0 < rdx
    → rdx < 2 ^ 31
    → All (λ d. d < 2 ^ 32) (digits_prefix_mixed k rdx n)
unfolding digits_prefix_mixed
digits-small k rdx n positive i32 =
    All-of_index (λ d. d < 2 ^ 32) (map (digit_at_mixed k rdx) (range' 0 n))
      (λ i d at.
        let fits = get_elem?-lt (map (digit_at_mixed k rdx) (range' 0 n)) i at in
        let i_small : i < n =
          omega (arith, fits, length-map (range' 0 n) (digit_at_mixed k rdx), length-range' n 0) in
        let is : digit_at_mixed k rdx i ≡ d = some-injective _ _ (
          sym (
            get_elem?-map (digit_at_mixed k rdx) (range' 0 n) i
              (get_elem?-range' n 0 i i i_small (omega arith)))
          ∙ at) in
        omega (arith, digit_at_mixed-lt k rdx i positive, is))

range'-snoc : (n i : ℕ) → range' i (suc n) ≡ range' i n ++ (i + n) ∷ []
range'-snoc zero i = ap (λ x. x ∷ []) (omega arith)
range'-snoc (suc n) i =
    ap (λ t. i ∷ t) (range'-snoc n (i + 1) ∙ ap (λ x. range' (i + 1) n ++ x ∷ []) (omega arith))

pub digits-suc :
    (k : Bytes) (rdx n : ℕ)
    → digits_prefix_mixed k rdx (suc n) ≡ digits_prefix_mixed k rdx n ++ digit_at_mixed k rdx n ∷ []
unfolding digits_prefix_mixed
digits-suc k rdx n =
    ap (map (digit_at_mixed k rdx)) (range'-snoc n 0)
    ∙ map-snoc (digit_at_mixed k rdx) (range' 0 n) (0 + n)
    ∙ ap (λ i. map (digit_at_mixed k rdx) (range' 0 n) ++ digit_at_mixed k rdx i ∷ []) (omega arith)

take-range' : (m n i : ℕ) → m ≤ n → take m (range' i n) ≡ range' i m
take-range' zero n i le = refl
take-range' (suc m) zero i le = absurd (omega arith)
take-range' (suc m) (suc n) i le = ap (λ t. i ∷ t) (take-range' m n (i + 1) (omega arith))

pub take-digits :
    (k : Bytes) (rdx m n : ℕ)
    → m ≤ n
    → take m (digits_prefix_mixed k rdx n) ≡ digits_prefix_mixed k rdx m
unfolding digits_prefix_mixed
take-digits k rdx m n le =
    take-map (digit_at_mixed k rdx) m (range' 0 n)
    ∙ ap (map (digit_at_mixed k rdx)) (take-range' m n 0 le)

pub entry_at-some :
    (ht : Assoc Bucket) (text : Bytes) (b : Bucket)
    → get text ht ≡ some b
    → entry_at ht text ≡ some (text, b)
unfolding entry_at
entry_at-some ht text b at = rw (at, entry_at) refl

entry_at-none : (ht : Assoc Bucket) (text : Bytes) → get text ht ≡ none → entry_at ht text ≡ none
unfolding entry_at
entry_at-none ht text at = rw (at, entry_at) refl

-- The lookup, from the longest prefix on.
module _ (ht : Assoc Bucket) (rdx : ℕ) (k : Bytes) (n : ℕ) (b : Bucket)
    (at : get (path rdx k n) ht ≡ some b)
    (only : (m : ℕ) → m ≢ n → get (path rdx k m) ht ≡ none) where
  shorter_text :
      (gd left : ℕ)
      → left ≤ gd
      → join (b'.' ∷ []) (take left (map decimal (digits_prefix_mixed k rdx gd))) ≡ path rdx k left
  unfolding dotted
  shorter_text gd left le = ap (join (b'.' ∷ [])) (
      take-map decimal left (digits_prefix_mixed k rdx gd)
      ∙ ap (map decimal) (take-digits k rdx left gd le))

  shorten-finds :
      (gd left : ℕ)
      → n < left
      → left ≤ gd
      → shorten ht (map decimal (digits_prefix_mixed k rdx gd)) left ≡ some (path rdx k n, b)
  unfolding shorten
  shorten-finds gd zero small le = absurd (omega arith)
  shorten-finds gd (suc left) small le =
      let rest = shorten ht (map decimal (digits_prefix_mixed k rdx gd)) left in
      ap (λ t. or_else (entry_at ht t) rest) (shorter_text gd left (omega arith))
      ∙ (elim (ℕ_discrete left n) [
        | yes here ↦
            ap (λ m. or_else (entry_at ht (path rdx k m)) rest) here
            ∙ ap (λ o. or_else o rest) (entry_at-some ht (path rdx k n) b at)
        | no ne ↦
            ap (λ o. or_else o rest) (entry_at-none ht (path rdx k left) (only left ne))
            ∙ shorten-finds gd left (omega arith) (omega arith)
      ])

  parts-path :
      (gd : ℕ) → 0 < gd → prefix_parts (path rdx k gd) ≡ map decimal (digits_prefix_mixed k rdx gd)
  unfolding prefix_parts digits_prefix_mixed
  parts-path zero positive = absurd (omega arith)
  parts-path (suc g) positive =
      let d = digit_at_mixed k rdx 0 in
      let ds = map (digit_at_mixed k rdx) (range' 1 g) in
      let (c, text, is) = dotted-cons d ds in
      ap prefix_parts is ∙ ap (split_on b'.') (sym is) ∙ split_on-dotted d ds

  find_prefix-finds :
      (gd : ℕ) → 0 < gd → n ≤ gd → find_prefix ht (path rdx k gd) ≡ some (path rdx k n, b)
  unfolding find_prefix
  find_prefix-finds gd positive le =
      let parts = parts-path gd positive in
      let many : length (map decimal (digits_prefix_mixed k rdx gd)) ≡ gd =
        length-map (digits_prefix_mixed k rdx gd) decimal ∙ length-digits k rdx gd in
      let rest =
        shorten ht (prefix_parts (path rdx k gd)) (length (prefix_parts (path rdx k gd))) in
      elim (ℕ_discrete gd n) [
        | yes here ↦
            ap (λ o. or_else o rest)
              (entry_at-some ht (path rdx k gd) b (ap (λ m. get (path rdx k m) ht) here ∙ at))
            ∙ ap (λ m. some (path rdx k m, b)) here
        | no ne ↦
            ap (λ o. or_else o rest) (entry_at-none ht (path rdx k gd) (only gd ne))
            ∙ ap (λ ps. shorten ht ps (length ps)) parts
            ∙ ap (shorten ht (map decimal (digits_prefix_mixed k rdx gd))) many
            ∙ shorten-finds gd gd (omega arith) (omega arith)
      ]

module _ (sha256 : Bytes → Bytes) (seh : Seh) (dir : IsDirectory sha256 seh) (k : Bytes) where
  pub get_bucket_entry-path :
      (n : ℕ) (b : Bucket)
      → n ≤ seh.gd
      → get (path seh.rdx k n) seh.ht ≡ some b
      → get_bucket_entry seh k ≡ some (path seh.rdx k n, b)
  unfolding get_bucket_entry make_prefix dotted digits_prefix_mixed join
  get_bucket_entry-path n b le at =
      let counted : (seh.buckets_number == 0) ≡ false =
        let some_there = dir.counted in ground arith in
      let radix : (seh.rdx == 0) ≡ false = let positive = dir.positive in ground arith in
      let only : (m : ℕ) → m ≢ n → get (path seh.rdx k m) seh.ht ≡ none = λ m ne.
        elim (Option-cases (get (path seh.rdx k m) seh.ht)) [
          | inl gone ↦ gone
          | inr (c, there) ↦ absurd (ne (dir.unique k m n c b there at))
        ] in
      elim (Bool-cases (seh.gd == 0)) [
        | inl flat ↦
            let is : 0 ≡ n = ground arith in
            rw counted (
              rw flat (
                ap (λ m. entry_at seh.ht (path seh.rdx k m)) is
                ∙ entry_at-some seh.ht (path seh.rdx k n) b at))
        | inr deep ↦
            rw (counted, deep, radix)
              (find_prefix-finds seh.ht seh.rdx k n b at only seh.gd (ground arith) le)
      ]

  pub get_bucket_by_key-path :
      (n : ℕ) (b : Bucket)
      → n ≤ seh.gd
      → get (path seh.rdx k n) seh.ht ≡ some b
      → get_bucket_by_key seh k ≡ some b
  unfolding get_bucket_by_key
  get_bucket_by_key-path n b le at = rw (get_bucket_entry-path n b le at, get_bucket_by_key) refl

-- The value that the table has for a key, as the lookup finds it.
unfoldable pub find_value : Seh → Bytes → Outcome (Option Bytes)
find_value seh k = elim (get_bucket_by_key seh k) [ none ↦ done none | some b ↦ get_value b k ]

pub find_value-path :
    (sha256 : Bytes → Bytes) (seh : Seh)
    → IsDirectory sha256 seh
    → (k : Bytes) (n : ℕ) (b : Bucket) → n ≤ seh.gd
    → get (path seh.rdx k n) seh.ht ≡ some b
    → find_value seh k ≡ get_value b k
unfolding find_value
find_value-path sha256 seh dir k n b le at =
    rw (get_bucket_by_key-path sha256 seh dir k n b le at, find_value) refl
