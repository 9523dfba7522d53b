-- ===== src/ChRing/Migration.antt =====
-- Which keys move when a node joins or leaves, where no two virtual nodes have one hash.
use mathlib.Core.Option.{some-injective}
use mathlib.Core.Path.{subst}
use trust_meta.Base.{
  ℕ, ◌≤◌, ◌<◌, ◌≡◌, ◌≢◌, sym, ap, ◌∙◌, ◌⊎◌, inl, inr, List, [], ◌∷◌, some, Bytes, In, All-In,
  length, done, done-injective, arith,
}
use trust_meta.Text.{rsplit_once}
use trust_meta.ChRing.{
  ok, Vnode, ConsistentHashRing, remove_node, vnode, vnode_key, add_node, get_node,
}
use trust_meta.ChRing.Search.{IsWord, clockwise}
use trust_meta.ChRing.Nodes.{rsplit_once-vnode_key}
use trust_meta.ChRing.Valid.{IsValid, In-added, added-In, add_node-added, add_node-IsValid}
use trust_meta.ChRing.Owner.{
  IsOwner, get_node-IsOwner, remove_node-IsValid, In-remove_node, remove_node-In,
}

-- No two virtual nodes collide.
abbrev pub HasNoCollision : List Vnode → Type 0
HasNoCollision vs = (a b : Vnode) → In a vs → In b vs → a.0 ≡ b.0 → a ≡ b

abbrev Included : List Vnode → List Vnode → Type 0
Included vs ws = (a : Vnode) → In a vs → In a ws

length_pos_of_In {ℓ} : {A : Type ℓ} (xs : List A) (a : A) → In a xs → 0 < length xs
length_pos_of_In [] a i = elim i [ ]
length_pos_of_In (x ∷ xs) a i = omega arith

clockwise-injective :
    (hash a b : ℕ) → IsWord hash → IsWord a → IsWord b → clockwise hash a ≡ clockwise hash b → a ≡ b
clockwise-injective hash a b wh wa wb e = ground arith

module _ (xxh3_64 : Bytes → ℕ) where
  vnode-name : (n m : Bytes) (i j : ℕ) → vnode xxh3_64 n i ≡ vnode xxh3_64 m j → n ≡ m
  unfolding vnode
  vnode-name n m i j e =
      let key : vnode_key n i ≡ vnode_key m j = ap (λ (v : Vnode). v.1) e in
      ap (λ (p : Bytes × Bytes). p.0)
        (some-injective _ _
          (sym (rsplit_once-vnode_key n i) ∙ ap (rsplit_once b'#') key ∙ rsplit_once-vnode_key m j))

  module _ (words : (key : Bytes) → IsWord (xxh3_64 key)) where
    -- Two nearest virtual nodes of one ring have one name, if both are in a ring without collision.
    nearest-name :
        (vs : List Vnode) (a b : Vnode) (hash : ℕ) (n m : Bytes) (i j : ℕ)
        → HasNoCollision vs
        → IsWord hash
        → In a vs
        → In b vs
        → clockwise hash a.0 ≤ clockwise hash b.0
        → clockwise hash b.0 ≤ clockwise hash a.0
        → a ≡ vnode xxh3_64 n i
        → b ≡ vnode xxh3_64 m j
        → n ≡ m
    unfolding vnode
    nearest-name vs a b hash n m i j distinct wh ia ib ab ba ea eb =
        let wa : IsWord a.0 = subst (λ (u : Vnode). IsWord u.0) (sym ea) (words (vnode_key n i)) in
        let wb : IsWord b.0 = subst (λ (u : Vnode). IsWord u.0) (sym eb) (words (vnode_key m j)) in
        let same_hash = clockwise-injective hash a.0 b.0 wh wa wb (omega arith) in
        vnode-name n m i j (sym ea ∙ distinct a b ia ib same_hash ∙ eb)

    -- The owner of a key in a ring whose nearest virtual node lies in a ring around it.
    same_owner :
        (r r' : ConsistentHashRing) (key n m : Bytes)
        → HasNoCollision r'.ring
        → Included r.ring r'.ring
        → IsOwner xxh3_64 r key n
        → (o : IsOwner xxh3_64 r' key m) → In o.at r.ring
        → m ≡ n
    same_owner r r' key n m distinct sub o o' inside =
        sym o'.named
        ∙ nearest-name r'.ring o'.at o.at (xxh3_64 key) o'.owned.name o.owned.name o'.owned.index
            o.owned.index distinct (words key) o'.stored (sub o.at o.stored)
            (All-In _ r'.ring o.at o'.nearest (sub o.at o.stored))
            (All-In _ r.ring o'.at o.nearest inside) o'.owned.is o.owned.is
        ∙ o.named

    module _ (r : ConsistentHashRing) (v : IsValid xxh3_64 r) (key : Bytes) where
      -- What `get_node` returned is an owner.
      IsOwner-of :
          (name : Bytes)
          → 0 < length r.ring
          → get_node xxh3_64 r key ≡ done (some name)
          → IsOwner xxh3_64 r key name
      IsOwner-of name pos run =
          let (n, run', o) = get_node-IsOwner xxh3_64 words r v key pos in
          subst (IsOwner xxh3_64 r key) (some-injective n name (done-injective (sym run' ∙ run))) o

      -- On a valid ring with a virtual node, with 64-bit hashes, where add_node succeeds and no two
      -- virtual nodes of the new ring have one hash, get_node returns afterwards for a key the node
      -- that it returned before or the node that was added.
      pub get_node-add_node :
          (r' : ConsistentHashRing) (node_name old : Bytes) (virtual_nodes : ℕ)
          → add_node xxh3_64 r node_name virtual_nodes ≡ ok r'
          → HasNoCollision r'.ring
          → 0 < length r.ring
          → get_node xxh3_64 r key ≡ done (some old)
          → (name : Bytes) × (get_node xxh3_64 r' key ≡ done (some name))
            × ((name ≡ old) ⊎ (name ≡ node_name))
      get_node-add_node r' node_name old count run distinct pos got =
          let (clean, is) = add_node-added xxh3_64 r r' node_name count run in
          let v' = add_node-IsValid xxh3_64 r r' node_name count v run in
          let o = IsOwner-of old pos got in
          let sub : Included r.ring r'.ring = λ a i.
            subst (λ (s : ConsistentHashRing). In a s.ring) (sym is)
              (added-In xxh3_64 r node_name count a i) in
          let (name, got', o') =
            get_node-IsOwner xxh3_64 words r' v' key
              (length_pos_of_In r'.ring o.at (sub o.at o.stored)) in
          let place =
            In-added xxh3_64 r node_name count o'.at
              (subst (λ (s : ConsistentHashRing). In o'.at s.ring) is o'.stored) in
          (
            name,
            got',
            elim place [
              | inl inside ↦ inl (same_owner r r' key old name distinct sub o o' inside)
              | inr (i, lt, e) ↦ inr (
                  sym o'.named
                  ∙ vnode-name o'.owned.name node_name o'.owned.index i (sym o'.owned.is ∙ e))
            ],
          )

      -- On a valid ring with a virtual node, with 64-bit hashes of which no two virtual nodes share
      -- one, a key whose node is not the removed one has the same node after remove_node.
      pub get_node-remove_node :
          (node_name old : Bytes)
          → HasNoCollision r.ring
          → 0 < length r.ring
          → get_node xxh3_64 r key ≡ done (some old)
          → old ≢ node_name
          → get_node xxh3_64 (remove_node r node_name).0 key ≡ done (some old)
      get_node-remove_node node_name old distinct pos got ne =
          let r' = (remove_node r node_name).0 in
          let v' = remove_node-IsValid xxh3_64 r node_name v in
          let o = IsOwner-of old pos got in
          let other : o.owned.name ≢ node_name = λ e. ne (sym o.named ∙ e) in
          let kept = remove_node-In xxh3_64 r node_name v o.at o.owned other o.stored in
          let (name, got', o') =
            get_node-IsOwner xxh3_64 words r' v' key (length_pos_of_In r'.ring o.at kept) in
          let same =
            same_owner r' r key name old distinct (In-remove_node xxh3_64 r node_name v) o' o
              kept in
          got' ∙ ap (λ (n : Bytes). done (some n)) (sym same)
