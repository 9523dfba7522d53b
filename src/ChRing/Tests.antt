-- ===== src/ChRing/Tests.antt =====
-- The consistent hash ring at concrete nodes, with a polynomial hash in the place of xxh3.
use trust_meta.Base.{
  ℕ, ◌+◌, ◌*◌, ◌%◌, ◌^◌, ◌<◌, ◌≡◌, ◌≢◌, refl, sym, ap, ◌⊎◌, inl, inr, List, [], ◌∷◌, some, Bytes,
  All, All-In, length, done, arith, ascii, bytes_eq, bytes_eq_iff, ◌∙◌,
}
use trust_meta.Text.{contains, starts_with, rsplit_once, decimal}
use trust_meta.ChRing.{
  AddNodeError, ok, err, Vnode, ConsistentHashRing, new, contains_key, remove_node, sort_by_hash,
  vnode, add_node, with_nodes, binary_search, start_index, get_node,
}
use trust_meta.ChRing.Search.{IsWord}
use trust_meta.ChRing.Valid.{IsValid, added, add_node-IsValid, with_nodes-IsValid}
use trust_meta.ChRing.Owner.{IsOwner, get_node-IsOwner, remove_node-IsValid}
use trust_meta.ChRing.Migration.{HasNoCollision, get_node-add_node, get_node-remove_node}

abbrev poly_from : ℕ → Bytes → ℕ
poly_from h [] = h
poly_from h (b ∷ bytes) = poly_from ((h * 31 + b) % 2 ^ 64) bytes

abbrev poly : Bytes → ℕ
poly = poly_from 7

poly_from-IsWord : (bytes : Bytes) (h : ℕ) → IsWord h → IsWord (poly_from h bytes)
poly_from-IsWord [] h w = w
poly_from-IsWord (b ∷ bytes) h w = poly_from-IsWord bytes ((h * 31 + b) % 2 ^ 64) (omega arith)

poly-IsWord : (bytes : Bytes) → IsWord (poly bytes)
poly-IsWord bytes = poly_from-IsWord bytes 7 (omega arith)

-- Strictly increasing hashes do not collide.
abbrev IsStrict : List Vnode → Type 0
IsStrict [] = Unit
IsStrict (v ∷ vs) = All (λ (w : Vnode). v.0 < w.0) vs × IsStrict vs

IsStrict-HasNoCollision : (vs : List Vnode) → IsStrict vs → HasNoCollision vs
IsStrict-HasNoCollision [] s a b i j e = elim i [ ]
IsStrict-HasNoCollision (v ∷ vs) s a b (inl p) (inl q) e = p ∙ sym q
IsStrict-HasNoCollision (v ∷ vs) s a b (inl p) (inr j) e =
    let less = All-In _ vs b s.0 j in let same = ap (λ (u : Vnode). u.0) p in absurd (omega arith)
IsStrict-HasNoCollision (v ∷ vs) s a b (inr i) (inl q) e =
    let less = All-In _ vs a s.0 i in let same = ap (λ (u : Vnode). u.0) q in absurd (omega arith)
IsStrict-HasNoCollision (v ∷ vs) s a b (inr i) (inr j) e = IsStrict-HasNoCollision vs s.1 a b i j e

program : Unit {0}
unfolding contains starts_with rsplit_once decimal contains_key sort_by_hash vnode add_node
    with_nodes get_node start_index binary_search remove_node bytes_eq
program = tt

abbrev one : ConsistentHashRing
one = added poly new (ascii "node1") 2

abbrev two : ConsistentHashRing
two = added poly one (ascii "node2") 2

two_built : with_nodes poly (ascii "node1" ∷ ascii "node2" ∷ []) 2 ≡ ok two
unfolding program
two_built = refl

-- `test_add_node` and `test_reject_invalid_node_names`.
add_again :
    add_node poly one (ascii "node1") 2 ≡ err (AddNodeError.node_already_exists (ascii "node1"))
unfolding program
add_again = refl

add_invalid : add_node poly one (ascii "bad#name") 2 ≡ err AddNodeError.invalid_node_name
unfolding program
add_invalid = refl

with_nodes-IsValid_example : IsValid poly two
with_nodes-IsValid_example =
    with_nodes-IsValid poly (ascii "node1" ∷ ascii "node2" ∷ []) 2 two two_built

one-IsValid : IsValid poly one
one-IsValid = with_nodes-IsValid poly (ascii "node1" ∷ []) 2 one (unfold program in refl)

two-IsValid : IsValid poly two
two-IsValid = with_nodes-IsValid poly (ascii "node1" ∷ ascii "node2" ∷ []) 2 two two_built

one_added : add_node poly one (ascii "node2") 2 ≡ ok two
unfolding program
one_added = refl

add_node-IsValid_example : IsValid poly two
add_node-IsValid_example = add_node-IsValid poly one two (ascii "node2") 2 one-IsValid one_added

two-IsStrict : IsStrict two.ring
unfolding program
two-IsStrict = omega arith

two-length : 0 < length two.ring
unfolding program
two-length = omega arith

one-length : 0 < length one.ring
unfolding program
one-length = omega arith

get_node-IsOwner_example :
    (name : Bytes) × (get_node poly two (ascii "my_key") ≡ done (some name))
    × IsOwner poly two (ascii "my_key") name
get_node-IsOwner_example =
    get_node-IsOwner poly poly-IsWord two two-IsValid (ascii "my_key") two-length

remove_node-IsValid_example : IsValid poly (remove_node two (ascii "node2")).0
remove_node-IsValid_example = remove_node-IsValid poly two (ascii "node2") two-IsValid

owner_one : get_node poly one (ascii "k") ≡ done (some (ascii "node1"))
unfolding program
owner_one = refl

get_node-add_node_example :
    (name : Bytes) × (get_node poly two (ascii "k") ≡ done (some name))
    × ((name ≡ ascii "node1") ⊎ (name ≡ ascii "node2"))
get_node-add_node_example =
    get_node-add_node poly poly-IsWord one one-IsValid (ascii "k") two (ascii "node2")
      (ascii "node1") 2 one_added (IsStrict-HasNoCollision two.ring two-IsStrict) one-length
      owner_one

owner_two : get_node poly two (ascii "k") ≡ done (some (ascii "node1"))
unfolding program
owner_two = refl

one_ne_two : ascii "node1" ≢ ascii "node2"
unfolding bytes_eq
one_ne_two e = cc ((bytes_eq_iff (ascii "node1") (ascii "node2")).1 e)

get_node-remove_node_example :
    get_node poly (remove_node two (ascii "node2")).0 (ascii "k") ≡ done (some (ascii "node1"))
get_node-remove_node_example =
    get_node-remove_node poly poly-IsWord two two-IsValid (ascii "k") (ascii "node2")
      (ascii "node1") (IsStrict-HasNoCollision two.ring two-IsStrict) two-length owner_two
      one_ne_two
