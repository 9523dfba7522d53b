-- ===== src/Mest/Seh/Table.antt =====
-- crates/storager/ads_lib/src/mest/seh.rs: the directory after the children of a split are put in.
use mathlib.Core.List.{reverse}
use mathlib.Core.Option.{some-injective}
use trust_meta.Base.{
  ℕ, zero, suc, ◌≡◌, ◌≢◌, refl, sym, ap, ◌∙◌, false, List, [], ◌∷◌, some, get_elem?, inl, inr, ◌⊎◌,
  Bool-cases, Bytes, bytes_eq, bytes_eq_iff, arith,
}
use trust_meta.Assoc.{Assoc, get, insert as map_insert, get-insert, get-insert_other}
use trust_meta.Text.{join}
use trust_meta.Mest.Dotted.{dotted}
use trust_meta.Mest.Bucket.{Bucket}
use trust_meta.Mest.Seh.{bucket_key_to_prefix, add_children}

abbrev pub prefix_of : Bucket → Bytes
prefix_of b = bucket_key_to_prefix b.bucket_key

-- No child has a text as its prefix.
abbrev pub LackPrefix : List Bucket → Bytes → Type 0
LackPrefix children text =
    (j : ℕ) (c : Bucket) → get_elem? children j ≡ some c → bytes_eq (prefix_of c) text ≡ false

pub add_children-others :
    (children : List Bucket) (ht : Assoc Bucket) (text : Bytes)
    → LackPrefix children text
    → get text (add_children children ht) ≡ get text ht
unfolding add_children
add_children-others [] ht text lack = refl
add_children-others (c ∷ children) ht text lack =
    add_children-others children (map_insert (prefix_of c) c ht) text (λ j e at. lack (suc j) e at)
    ∙ get-insert_other (prefix_of c) text c ht (lack 0 c refl)

-- Children with different prefixes are all found.
pub add_children-child :
    (children : List Bucket) (ht : Assoc Bucket)
    → ((i j : ℕ) (c e : Bucket)
        → get_elem? children i ≡ some c
        → get_elem? children j ≡ some e
        → i ≢ j
        → bytes_eq (prefix_of e) (prefix_of c) ≡ false)
    → (i : ℕ) (c : Bucket) → get_elem? children i ≡ some c
    → get (prefix_of c) (add_children children ht) ≡ some c
unfolding add_children
add_children-child [] ht apart i c at = absurd (cc at)
add_children-child (e ∷ children) ht apart zero c at =
    let is : e ≡ c = some-injective e c at in
    let others =
      add_children-others children (map_insert (prefix_of e) e ht) (prefix_of e)
        (λ j f at'. apart 0 (suc j) e f refl at' (omega arith)) in
    ap (λ x. get (prefix_of x) (add_children children (map_insert (prefix_of e) e ht))) (sym is)
    ∙ others
    ∙ get-insert (prefix_of e) e ht
    ∙ ap some is
add_children-child (e ∷ children) ht apart (suc i) c at =
    add_children-child children (map_insert (prefix_of e) e ht)
      (λ m n f g at_m at_n ne. apart (suc m) (suc n) f g at_m at_n (omega arith)) i c at

-- What is found is a child, or was there before under another prefix.
pub add_children-cases :
    (children : List Bucket) (ht : Assoc Bucket) (text : Bytes) (b : Bucket)
    → get text (add_children children ht) ≡ some b
    → ((j : ℕ) × (get_elem? children j ≡ some b) × (text ≡ prefix_of b)) ⊎ (get text ht ≡ some b)
unfolding add_children
add_children-cases [] ht text b at = inr at
add_children-cases (c ∷ children) ht text b at =
    elim (add_children-cases children (map_insert (prefix_of c) c ht) text b at) [
      | inl (j, at_j, is) ↦ inl (suc j, at_j, is)
      | inr before ↦ elim (Bool-cases (bytes_eq (prefix_of c) text)) [
        | inr other ↦ inr (sym (get-insert_other (prefix_of c) text c ht other) ∙ before)
        | inl same ↦
            let is = (bytes_eq_iff (prefix_of c) text).0 same in
            let it : c ≡ b = some-injective c b (
              sym (get-insert (prefix_of c) c ht)
              ∙ ap (λ t. get t (map_insert (prefix_of c) c ht)) is
              ∙ before) in
            inl (0, ap some it, sym is ∙ ap prefix_of it)
      ]
    ]

pub prefix-dotted : (bk : List ℕ) → bucket_key_to_prefix bk ≡ dotted (reverse bk)
unfolding bucket_key_to_prefix dotted join
prefix-dotted [] = refl
prefix-dotted (d ∷ bk) = refl
