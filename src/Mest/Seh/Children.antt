-- ===== src/Mest/Seh/Children.antt =====
-- crates/storager/ads_lib/src/mest/seh.rs: the places of the children of a split in the directory.
use mathlib.Core.List.{reverse, reverse-cons}
use trust_meta.Base.{
  ℕ, suc, ◌^◌, ◌<◌, ◌≡◌, ◌≢◌, refl, sym, ap, ◌∙◌, false, List, [], ◌∷◌, ◌++◌, some, length,
  length-append, All, All-append, get_elem?, get_elem?-lt, inl, inr, ◌⊎◌, Bool-cases, Bytes,
  bytes_eq, bytes_eq_iff, not, arith,
}
use trust_meta.Assoc.{Assoc, get, remove, get-retain, get-retain_before, get-retain_dropped}
use trust_meta.Mest.Digits.{digit_at_mixed, digits_prefix_mixed}
use trust_meta.Mest.Dotted.{dotted, dotted-injective}
use trust_meta.Mest.Bucket.{Bucket, child_bucket}
use trust_meta.Mest.Bucket.Split.{IsSplit}
use trust_meta.Mest.Seh.{Seh, bucket_key_to_prefix, add_children}
use trust_meta.Mest.Seh.Directory.{IsDirectory, path, length-digits, digits-small, digits-suc}
use trust_meta.Mest.Seh.Table.{
  prefix_of, LackPrefix, add_children-others, add_children-child, add_children-cases, prefix-dotted,
}

snoc-injective :
    (xs ys : List ℕ) (x y : ℕ)
    → length xs ≡ length ys
    → xs ++ x ∷ [] ≡ ys ++ y ∷ []
    → (xs ≡ ys) × (x ≡ y)
snoc-injective [] [] x y long same = (refl, cc same)
snoc-injective [] (b ∷ ys) x y long same = absurd (omega arith)
snoc-injective (a ∷ xs) [] x y long same = absurd (omega arith)
snoc-injective (a ∷ xs) (b ∷ ys) x y long same =
    let first : a ≡ b = cc same in
    let tails : xs ++ x ∷ [] ≡ ys ++ y ∷ [] = cc same in
    let (rest, last) = snoc-injective xs ys x y (omega arith) tails in (cc (first, rest), last)

-- A directory, a bucket of it, which a key is routed to, and the children of the bucket's split.
module _ (sha256 : Bytes → Bytes) (seh : Seh) (dir : IsDirectory sha256 seh) (key : Bytes) (n : ℕ)
    (b : Bucket) (at : get (path seh.rdx key n) seh.ht ≡ some b) where
  pub its_digits : reverse b.bucket_key ≡ digits_prefix_mixed key seh.rdx n
  its_digits =
      let leaf = dir.leaf (path seh.rdx key n) b at in
      dotted-injective (reverse b.bucket_key) (digits_prefix_mixed key seh.rdx n) leaf.small
        (digits-small key seh.rdx n dir.positive dir.i32) (sym leaf.its_text)

  pub its_depth : b.ld ≡ n
  its_depth =
      let leaf = dir.leaf (path seh.rdx key n) b at in
      leaf.depth ∙ ap length its_digits ∙ length-digits key seh.rdx n

  pub child_digits-small :
      (d : ℕ) → d < seh.rdx → All (λ x. x < 2 ^ 32) (digits_prefix_mixed key seh.rdx n ++ d ∷ [])
  child_digits-small d small =
      let i32 = dir.i32 in
      All-append (λ x. x < 2 ^ 32) (digits_prefix_mixed key seh.rdx n) (d ∷ [])
        (digits-small key seh.rdx n dir.positive dir.i32) (omega arith, tt)

  -- A key whose path is a child's shares the bucket's digits, and has the child's digit next.
  pub shares :
      (k : Bytes) (m d : ℕ)
      → d < seh.rdx
      → path seh.rdx k m ≡ dotted (digits_prefix_mixed key seh.rdx n ++ d ∷ [])
      → (m ≡ suc n) × (path seh.rdx k n ≡ path seh.rdx key n) × (digit_at_mixed k seh.rdx n ≡ d)
  shares k m d small same =
      let lists =
        dotted-injective (digits_prefix_mixed k seh.rdx m)
          (digits_prefix_mixed key seh.rdx n ++ d ∷ [])
          (digits-small k seh.rdx m dir.positive dir.i32) (child_digits-small d small) same in
      let long : m ≡ suc n = omega (
        arith,
        ap length lists,
        length-digits k seh.rdx m,
        length-append (digits_prefix_mixed key seh.rdx n) (d ∷ []),
        length-digits key seh.rdx n,
      ) in
      let lists' =
        sym (digits-suc k seh.rdx n) ∙ ap (digits_prefix_mixed k seh.rdx) (sym long) ∙ lists in
      let (front, last) =
        snoc-injective (digits_prefix_mixed k seh.rdx n) (digits_prefix_mixed key seh.rdx n)
          (digit_at_mixed k seh.rdx n) d
          (length-digits k seh.rdx n ∙ sym (length-digits key seh.rdx n)) lists' in
      (long, ap dotted front, last)

  -- The other way round.
  pub child_path :
      (k : Bytes)
      → path seh.rdx k n ≡ path seh.rdx key n
      → path seh.rdx k (suc n)
        ≡ dotted (digits_prefix_mixed key seh.rdx n ++ digit_at_mixed k seh.rdx n ∷ [])
  child_path k same =
      let front =
        dotted-injective (digits_prefix_mixed k seh.rdx n) (digits_prefix_mixed key seh.rdx n)
          (digits-small k seh.rdx n dir.positive dir.i32)
          (digits-small key seh.rdx n dir.positive dir.i32) same in
      ap dotted (digits-suc k seh.rdx n ∙ ap (λ xs. xs ++ digit_at_mixed k seh.rdx n ∷ []) front)

  module _ (children : List Bucket) (many : length children ≡ b.rdx)
      (all : (d : ℕ) (child : Bucket)
        → get_elem? children d ≡ some child
        → IsSplit sha256 b d child) where
    pub child_small : (d : ℕ) (c : Bucket) → get_elem? children d ≡ some c → d < seh.rdx
    child_small d c at_d =
        let leaf = dir.leaf (path seh.rdx key n) b at in
        omega (arith, get_elem?-lt children d at_d, many, leaf.rdx)

    pub child_reverse :
        (d : ℕ) (c : Bucket)
        → get_elem? children d ≡ some c
        → reverse c.bucket_key ≡ digits_prefix_mixed key seh.rdx n ++ d ∷ []
    unfolding child_bucket
    child_reverse d c at_d =
        ap reverse ((all d c at_d).frame.bucket_key)
        ∙ reverse-cons d b.bucket_key
        ∙ ap (λ xs. xs ++ d ∷ []) its_digits

    pub child_prefix :
        (d : ℕ) (c : Bucket)
        → get_elem? children d ≡ some c
        → prefix_of c ≡ dotted (digits_prefix_mixed key seh.rdx n ++ d ∷ [])
    child_prefix d c at_d = prefix-dotted c.bucket_key ∙ ap dotted (child_reverse d c at_d)

    abbrev pub table : Assoc Bucket
    table = add_children children (remove (bucket_key_to_prefix b.bucket_key) seh.ht)

    removed_text : bucket_key_to_prefix b.bucket_key ≡ path seh.rdx key n
    removed_text = prefix-dotted b.bucket_key ∙ ap dotted its_digits

    children_apart :
        (i j : ℕ) (c e : Bucket)
        → get_elem? children i ≡ some c
        → get_elem? children j ≡ some e
        → i ≢ j
        → bytes_eq (prefix_of e) (prefix_of c) ≡ false
    children_apart i j c e at_i at_j ne = elim (Bool-cases (bytes_eq (prefix_of e) (prefix_of c))) [
      | inr other ↦ other
      | inl same ↦
          let lists =
            dotted-injective (digits_prefix_mixed key seh.rdx n ++ j ∷ [])
              (digits_prefix_mixed key seh.rdx n ++ i ∷ [])
              (child_digits-small j (child_small j e at_j))
              (child_digits-small i (child_small i c at_i))
              (sym (child_prefix j e at_j)
                ∙ (bytes_eq_iff (prefix_of e) (prefix_of c)).0 same
                ∙ child_prefix i c at_i) in
          absurd (
            ne (
              sym
                (snoc-injective (digits_prefix_mixed key seh.rdx n)
                  (digits_prefix_mixed key seh.rdx n) j i refl lists).1))
    ]

    -- A child stands at its prefix.
    pub table-child :
        (d : ℕ) (c : Bucket)
        → get_elem? children d ≡ some c
        → get (dotted (digits_prefix_mixed key seh.rdx n ++ d ∷ [])) table ≡ some c
    table-child d c at_d =
        ap (λ t. get t table) (sym (child_prefix d c at_d))
        ∙ add_children-child children (remove (bucket_key_to_prefix b.bucket_key) seh.ht)
            children_apart d c at_d

    -- A bucket of another key, whose path is not the bucket's, stays.
    pub table-others :
        (k : Bytes) (m : ℕ) (c : Bucket)
        → bytes_eq (path seh.rdx k m) (path seh.rdx key n) ≡ false
        → get (path seh.rdx k m) seh.ht ≡ some c
        → get (path seh.rdx k m) table ≡ some c
    unfolding remove
    table-others k m c differs before =
        let lack : LackPrefix children (path seh.rdx k m) = λ j e at_j.
          elim (Bool-cases (bytes_eq (prefix_of e) (path seh.rdx k m))) [
            | inr other ↦ other
            | inl same ↦
                let is =
                  sym ((bytes_eq_iff (prefix_of e) (path seh.rdx k m)).0 same)
                  ∙ child_prefix j e at_j in
                let (deeper, path_is, _) = shares k m j (child_small j e at_j) is in
                let level = dir.unique k m n c b before (ap (λ t. get t seh.ht) path_is ∙ at) in
                absurd (omega arith)
          ] in
        add_children-others children (remove (bucket_key_to_prefix b.bucket_key) seh.ht)
          (path seh.rdx k m) lack
        ∙ get-retain (λ t. not (bytes_eq t (bucket_key_to_prefix b.bucket_key))) (path seh.rdx k m)
            seh.ht (rw (removed_text, differs) refl)
        ∙ before

    -- What stands in the new directory is a child or stood there before.
    pub table-cases :
        (text : Bytes) (c : Bucket)
        → get text table ≡ some c
        → ((d : ℕ) × (get_elem? children d ≡ some c)
            × (text ≡ dotted (digits_prefix_mixed key seh.rdx n ++ d ∷ [])))
          ⊎ ((bytes_eq text (path seh.rdx key n) ≡ false) × (get text seh.ht ≡ some c))
    unfolding remove
    table-cases text c there =
        elim (add_children-cases children (remove (bucket_key_to_prefix b.bucket_key) seh.ht) text c
          there) [
            | inl (d, at_d, is) ↦ inl (d, at_d, is ∙ child_prefix d c at_d)
            | inr before ↦ elim (Bool-cases (bytes_eq text (path seh.rdx key n))) [
              | inr other ↦ inr (
                other,
                get-retain_before (λ t. not (bytes_eq t (bucket_key_to_prefix b.bucket_key))) text
                    seh.ht c before,
              )
              | inl same ↦ absurd (
                  cc (
                    get-retain_dropped (λ t. not (bytes_eq t (bucket_key_to_prefix b.bucket_key)))
                        text seh.ht (rw (removed_text, same) refl),
                    before,
                  ))
            ]
          ]
