-- ===== src/ChRing/Sorted.antt =====
-- The ring's order: sorting by hash keeps the virtual nodes and puts them in order.
use trust_meta.Base.{
  ℕ, zero, suc, ◌≤◌, ◌≡◌, sym, ◌⊎◌, inl, inr, List, [], ◌∷◌, some, get_elem?, All, All_index, In,
  leb, arith, Bool-cases, ap, ◌∙◌,
}
use mathlib.Core.Option.{some-injective}
use trust_meta.ChRing.{Vnode, insert_vnode, sort_by_hash}

abbrev pub IsSorted : List Vnode → Type 0
IsSorted [] = Unit
IsSorted (v ∷ vs) = All (λ (w : Vnode). v.0 ≤ w.0) vs × IsSorted vs

All-le :
    (a b : ℕ) (vs : List Vnode)
    → a ≤ b
    → All (λ (w : Vnode). b ≤ w.0) vs
    → All (λ (w : Vnode). a ≤ w.0) vs
All-le a b [] h k = tt
All-le a b (v ∷ vs) h k = (omega (arith, k.0), All-le a b vs h k.1)

All-insert_vnode :
    (a : ℕ) (v : Vnode) (vs : List Vnode)
    → a ≤ v.0
    → All (λ (w : Vnode). a ≤ w.0) vs
    → All (λ (w : Vnode). a ≤ w.0) (insert_vnode v vs)
unfolding insert_vnode
All-insert_vnode a v [] h k = (h, tt)
All-insert_vnode a v (w ∷ ws) h k = elim (Bool-cases (leb v.0 w.0)) [
  | inl le ↦ rw le (h, k)
  | inr gt ↦ rw gt (k.0, All-insert_vnode a v ws h k.1)
]

insert_vnode-IsSorted : (v : Vnode) (vs : List Vnode) → IsSorted vs → IsSorted (insert_vnode v vs)
unfolding insert_vnode
insert_vnode-IsSorted v [] s = (tt, tt)
insert_vnode-IsSorted v (w ∷ ws) s = elim (Bool-cases (leb v.0 w.0)) [
  | inl le ↦ let small : v.0 ≤ w.0 = ground arith in rw le ((small, All-le v.0 w.0 ws small s.0), s)
  | inr gt ↦
      let large : w.0 ≤ v.0 = ground arith in
      rw gt (All-insert_vnode w.0 v ws large s.0, insert_vnode-IsSorted v ws s.1)
]

pub sort_by_hash-IsSorted : (vs : List Vnode) → IsSorted (sort_by_hash vs)
unfolding sort_by_hash
sort_by_hash-IsSorted [] = tt
sort_by_hash-IsSorted (v ∷ vs) =
    insert_vnode-IsSorted v (sort_by_hash vs) (sort_by_hash-IsSorted vs)

In-insert_vnode : (z v : Vnode) (vs : List Vnode) → In z (insert_vnode v vs) → (z ≡ v) ⊎ In z vs
unfolding insert_vnode
In-insert_vnode z v [] i = i
In-insert_vnode z v (w ∷ ws) i = elim (Bool-cases (leb v.0 w.0)) [
  | inl le ↦ rw le at i
  | inr gt ↦ elim (rw gt at i) as (λ _. (z ≡ v) ⊎ In z (w ∷ ws)) [
    | inl e ↦ inr (inl e)
    | inr rest ↦ elim (In-insert_vnode z v ws rest) [ inl e ↦ inl e | inr r ↦ inr (inr r) ]
  ]
]

insert_vnode-In : (z v : Vnode) (vs : List Vnode) → (z ≡ v) ⊎ In z vs → In z (insert_vnode v vs)
unfolding insert_vnode
insert_vnode-In z v [] i = i
insert_vnode-In z v (w ∷ ws) i = elim (Bool-cases (leb v.0 w.0)) [
  | inl le ↦ rw le i
  | inr gt ↦ rw gt (elim i [
    | inl e ↦ inr (insert_vnode-In z v ws (inl e))
    | inr (inl e) ↦ inl e
    | inr (inr r) ↦ inr (insert_vnode-In z v ws (inr r))
  ])
]

-- Sorting adds no virtual node and drops none.
pub In-sort_by_hash : (z : Vnode) (vs : List Vnode) → In z (sort_by_hash vs) → In z vs
unfolding sort_by_hash
In-sort_by_hash z [] i = i
In-sort_by_hash z (v ∷ vs) i = elim (In-insert_vnode z v (sort_by_hash vs) i) [
  | inl e ↦ inl e
  | inr r ↦ inr (In-sort_by_hash z vs r)
]

pub sort_by_hash-In : (z : Vnode) (vs : List Vnode) → In z vs → In z (sort_by_hash vs)
unfolding sort_by_hash
sort_by_hash-In z [] i = i
sort_by_hash-In z (v ∷ vs) (inl e) = insert_vnode-In z v (sort_by_hash vs) (inl e)
sort_by_hash-In z (v ∷ vs) (inr i) =
    insert_vnode-In z v (sort_by_hash vs) (inr (sort_by_hash-In z vs i))

-- Later places have larger hashes.
pub IsSorted-le :
    (vs : List Vnode) (i j : ℕ) (v w : Vnode)
    → IsSorted vs
    → i ≤ j
    → get_elem? vs i ≡ some v
    → get_elem? vs j ≡ some w
    → v.0 ≤ w.0
IsSorted-le [] i j v w s h a b = absurd (cc)
IsSorted-le (x ∷ xs) zero zero v w s h a b =
    omega (arith, ap (λ (o : Vnode). o.0) (some-injective v w (sym a ∙ b)))
IsSorted-le (x ∷ xs) zero (suc j) v w s h a b =
    rw (some-injective v x (sym a)) (All_index (λ (u : Vnode). x.0 ≤ u.0) xs j w s.0 b)
IsSorted-le (x ∷ xs) (suc i) zero v w s h a b = elim h [ ]
IsSorted-le (x ∷ xs) (suc i) (suc j) v w s h a b = IsSorted-le xs i j v w s.1 (omega arith) a b
