-- ===== src/ChRing/Owner.antt =====
-- `get_node` returns the node of the nearest virtual node clockwise; removals keep the invariant.
use mathlib.Core.Path.{subst}
use trust_meta.Base.{
  ℕ, ◌≤◌, ◌<◌, ◌≡◌, ◌≢◌, refl, sym, ap, ◌∙◌, inl, inr, List, [], ◌∷◌, ◌++◌, some, true, false,
  Bytes, In, In-of_index, In-All, All-In, length, get_elem?, done, arith, Bool-cases, ◌==◌,
}
use trust_meta.Text.{contains, starts_with}
use trust_meta.ChRing.{
  Vnode, ConsistentHashRing, contains_key, retain, remove_node, vnode, vnode_key, start_index,
  name_at, get_node,
}
use trust_meta.ChRing.Sorted.{IsSorted}
use trust_meta.ChRing.Search.{IsWord, AreWords, IsNearest, start_index-IsNearest}
use trust_meta.ChRing.Nodes.{
  contains_key-In, In-remove_key, remove_key-In, rsplit_once-vnode_key, starts_with-vnode_key,
  vnode_key-starts_with, In-retain, retain-In,
}
use trust_meta.ChRing.Valid.{IsOwned, IsValid}

retain-IsSorted : (prefix : Bytes) (vs : List Vnode) → IsSorted vs → IsSorted (retain prefix vs)
unfolding retain
retain-IsSorted prefix [] s = tt
retain-IsSorted prefix (v ∷ vs) s = elim (Bool-cases (starts_with prefix v.1)) [
  | inl drop ↦ rw drop (retain-IsSorted prefix vs s.1)
  | inr keep ↦ rw keep (
    In-All _ (retain prefix vs)
        (λ w i. All-In (λ (u : Vnode). v.0 ≤ u.0) vs w s.0 (In-retain prefix vs w i).0),
    retain-IsSorted prefix vs s.1,
  )
]

module _ (xxh3_64 : Bytes → ℕ) where
  module _ (r : ConsistentHashRing) (name : Bytes) (v : IsValid xxh3_64 r) where
    -- A kept virtual node is of another node.
    kept-ne :
        (w : Vnode) (o : IsOwned xxh3_64 r.nodes w)
        → starts_with (name ++ b'#' ∷ []) w.1 ≡ false
        → o.name ≢ name
    unfolding vnode
    kept-ne w o keep same =
        let key : w.1 ≡ vnode_key name o.index =
          ap (λ (u : Vnode). u.1) o.is ∙ ap (λ n. vnode_key n o.index) same in
        let drop : starts_with (name ++ b'#' ∷ []) w.1 ≡ true =
          rw key (vnode_key-starts_with name o.index) in
        cc

    -- The virtual nodes of another node are kept.
    other-kept :
        (name' : Bytes) (i : ℕ)
        → contains b'#' name ≡ false
        → contains b'#' name' ≡ false
        → name' ≢ name
        → starts_with (name ++ b'#' ∷ []) (vnode xxh3_64 name' i).1 ≡ false
    unfolding vnode
    other-kept name' i h h' ne =
        elim (Bool-cases (starts_with (name ++ b'#' ∷ []) (vnode_key name' i))) [
          | inl drop ↦ absurd (ne (sym (starts_with-vnode_key name name' i h h' drop)))
          | inr keep ↦ keep
        ]

    -- On a valid ring remove_node returns a valid ring, whether the node is known or not.
    pub remove_node-IsValid : IsValid xxh3_64 (remove_node r name).0
    unfolding remove_node
    remove_node-IsValid = elim (Bool-cases (contains_key name r.nodes)) [
      | inr absent ↦ rw absent v
      | inl there ↦
          let (c, known) = contains_key-In name r.nodes there in
          let clean = v.clean (name, c) known in
          let prefix = name ++ b'#' ∷ [] in
          rw there (record {
            sorted = retain-IsSorted prefix r.ring v.sorted;
            owned = λ w i.
                let (old, keep) = In-retain prefix r.ring w i in
                let o = v.owned w old in
                record {
                  name = o.name;
                  count = o.count;
                  index = o.index;
                  known = remove_key-In name r.nodes (o.name, o.count) o.known (kept-ne w o keep);
                  below = o.below;
                  is = o.is;
                };
            clean = λ n i. v.clean n (In-remove_key name r.nodes n i).0;
            complete = λ n i known' lt.
                let (old, ne) = In-remove_key name r.nodes n known' in
                retain-In prefix r.ring (vnode xxh3_64 n.0 i) (v.complete n i old lt)
                  (other-kept n.0 i clean (v.clean n old) ne);
          })
    ]

    -- What a removal leaves was there, and the virtual nodes of other nodes are left.
    pub In-remove_node : (w : Vnode) → In w (remove_node r name).0.ring → In w r.ring
    unfolding remove_node
    In-remove_node w i = elim (Bool-cases (contains_key name r.nodes)) [
      | inr absent ↦ rw absent at i
      | inl there ↦ (In-retain (name ++ b'#' ∷ []) r.ring w (rw there at i)).0
    ]

    pub remove_node-In :
        (w : Vnode) (o : IsOwned xxh3_64 r.nodes w)
        → o.name ≢ name
        → In w r.ring
        → In w (remove_node r name).0.ring
    unfolding remove_node
    remove_node-In w o ne i = elim (Bool-cases (contains_key name r.nodes)) [
      | inr absent ↦ rw absent i
      | inl there ↦
          let (c, known) = contains_key-In name r.nodes there in
          rw there (
            retain-In (name ++ b'#' ∷ []) r.ring w i (
              ap (λ (u : Vnode). starts_with (name ++ b'#' ∷ []) u.1) o.is
              ∙ other-kept o.name o.index (v.clean (name, c) known)
                  (v.clean (o.name, o.count) o.known) ne))
    ]

  -- The node that owns a key, by a virtual node that is nearest clockwise.
  pub record IsOwner (r : ConsistentHashRing) (key name : Bytes) : Type 0 where
    pub at : Vnode
    pub stored : In at r.ring
    pub nearest : IsNearest r.ring (xxh3_64 key) at
    pub owned : IsOwned xxh3_64 r.nodes at
    pub named : owned.name ≡ name

  module _ (words : (key : Bytes) → IsWord (xxh3_64 key)) (r : ConsistentHashRing)
      (v : IsValid xxh3_64 r) where
    ring-AreWords : AreWords r.ring
    unfolding vnode
    ring-AreWords =
        In-All (λ (w : Vnode). IsWord w.0) r.ring
          (λ w i.
            let o = v.owned w i in
            subst (λ (u : Vnode). IsWord u.0) (sym o.is) (words (vnode_key o.name o.index)))

    name_at-owned :
        (i : ℕ) (w : Vnode) (name : Bytes) (index : ℕ)
        → get_elem? r.ring i ≡ some w
        → w ≡ vnode xxh3_64 name index
        → name_at r.ring i ≡ done (some name)
    unfolding name_at vnode
    name_at-owned i w name index at is =
        let key : w.1 ≡ vnode_key name index = ap (λ (u : Vnode). u.1) is in
        rw (at, key, rsplit_once-vnode_key name index, name_at)

    -- On a valid ring with a virtual node and with 64-bit hashes, get_node returns for every key,
    -- without panic, the name of a node of the ring that has a virtual node in the ring to which no
    -- other is nearer clockwise from the key's hash.
    pub get_node-IsOwner :
        (key : Bytes)
        → 0 < length r.ring
        → (name : Bytes) × (get_node xxh3_64 r key ≡ done (some name)) × IsOwner r key name
    get_node-IsOwner key pos =
        let hash = xxh3_64 key in
        let (w, at, nearest) =
          start_index-IsNearest r.ring v.sorted ring-AreWords hash (words key) pos in
        let inside = In-of_index r.ring (start_index r.ring hash) w at in
        let o = v.owned w inside in
        let some_nodes : (length r.ring == 0) ≡ false = ground arith in
        (
          o.name,
          (unfold get_node in
              rw some_nodes (name_at-owned (start_index r.ring hash) w o.name o.index at o.is)),
          record { at = w; stored = inside; nearest = nearest; owned = o; named = refl },
        )
