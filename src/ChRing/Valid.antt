-- ===== src/ChRing/Valid.antt =====
-- The invariant of the consistent hash ring, kept by adding and removing nodes.
use trust_meta.Base.{
  ℕ, zero, suc, ◌+◌, ◌<◌, ◌≡◌, refl, sym, ap, ◌∙◌, ◌⊎◌, inl, inr, List, [], ◌∷◌, ◌++◌, map, true,
  false, Bytes, In, In-of_index, In-append, In-append_left, In-append_right, get_elem?-map,
  get_elem?-range', range', arith, Bool-cases,
}
use mathlib.Core.Path.{subst}
use trust_meta.Text.{contains}
use trust_meta.ChRing.{
  AddNodeError, ok, err, Vnode, ConsistentHashRing, new, contains_key, sort_by_hash, vnode,
  add_node, add_nodes, with_nodes,
}
use trust_meta.ChRing.Sorted.{IsSorted, sort_by_hash-IsSorted, In-sort_by_hash, sort_by_hash-In}

module _ (xxh3_64 : Bytes → ℕ) where
  -- A virtual node of a node of the map.
  pub record IsOwned (nodes : List (Bytes × ℕ)) (v : Vnode) : Type 0 where
    pub name : Bytes
    pub count : ℕ
    pub index : ℕ
    pub known : In (name, count) nodes
    pub below : index < count
    pub is : v ≡ vnode xxh3_64 name index

  pub record IsValid (r : ConsistentHashRing) : Type 0 where
    pub sorted : IsSorted r.ring
    pub owned : (v : Vnode) → In v r.ring → IsOwned r.nodes v
    pub clean : (n : Bytes × ℕ) → In n r.nodes → contains b'#' n.0 ≡ false
    pub complete :
        (n : Bytes × ℕ) (i : ℕ) → In n r.nodes → i < n.1 → In (vnode xxh3_64 n.0 i) r.ring

  pub new-IsValid : IsValid new
  new-IsValid = record {
    sorted = tt;
    owned = λ v i. elim i [ ];
    clean = λ n i. elim i [ ];
    complete = λ n i h _. elim h [ ];
  }

  -- The virtual nodes that `add_node` makes.
  abbrev pub vnodes : Bytes → ℕ → List Vnode
  vnodes name count = map (vnode xxh3_64 name) (range' 0 count)

  In-map_range :
      (name : Bytes) (n start : ℕ) (v : Vnode)
      → In v (map (vnode xxh3_64 name) (range' start n))
      → (i : ℕ) × (i < start + n) × (v ≡ vnode xxh3_64 name i)
  In-map_range name zero start v i = elim i [ ]
  In-map_range name (suc n) start v (inl e) = (start, omega arith, e)
  In-map_range name (suc n) start v (inr r) =
      let (i, lt, e) = In-map_range name n (start + 1) v r in (i, omega arith, e)

  In-vnodes :
      (name : Bytes) (count i : ℕ) → i < count → In (vnode xxh3_64 name i) (vnodes name count)
  In-vnodes name count i lt = In-of_index (vnodes name count) i (vnode xxh3_64 name i) (
      get_elem?-map (vnode xxh3_64 name) (range' 0 count) i
        (get_elem?-range' count 0 i i lt (omega arith)))

  -- The ring after a node is added.
  abbrev pub added : ConsistentHashRing → Bytes → ℕ → ConsistentHashRing
  added r name count = record {
    ring = sort_by_hash (r.ring ++ vnodes name count);
    nodes = (name, count) ∷ r.nodes;
  }

  pub In-added :
      (r : ConsistentHashRing) (name : Bytes) (count : ℕ) (v : Vnode)
      → In v (added r name count).ring
      → In v r.ring ⊎ ((i : ℕ) × (i < count) × (v ≡ vnode xxh3_64 name i))
  In-added r name count v i =
      elim (In-append r.ring (vnodes name count) v
        (In-sort_by_hash v (r.ring ++ vnodes name count) i)) [
          | inl old ↦ inl old
          | inr fresh ↦
              let (j, lt, e) = In-map_range name count 0 v fresh in inr (j, omega arith, e)
        ]

  pub added-In :
      (r : ConsistentHashRing) (name : Bytes) (count : ℕ) (v : Vnode)
      → In v r.ring
      → In v (added r name count).ring
  added-In r name count v i =
      sort_by_hash-In v (r.ring ++ vnodes name count)
        (In-append_left r.ring (vnodes name count) v i)

  added-IsValid :
      (r : ConsistentHashRing) (name : Bytes) (count : ℕ)
      → contains b'#' name ≡ false
      → IsValid r
      → IsValid (added r name count)
  added-IsValid r name count clean v = record {
    sorted = sort_by_hash-IsSorted (r.ring ++ vnodes name count);
    owned = λ w i. elim (In-added r name count w i) [
      | inl old ↦
          let o = v.owned w old in
          record {
            name = o.name;
            count = o.count;
            index = o.index;
            known = inr o.known;
            below = o.below;
            is = o.is;
          }
      | inr (j, lt, e) ↦ record {
        name = name;
        count = count;
        index = j;
        known = inl refl;
        below = lt;
        is = e;
      }
    ];
    clean = λ n i. elim i [
      | inl e ↦ ap (λ (p : Bytes × ℕ). contains b'#' p.0) e ∙ clean
      | inr old ↦ v.clean n old
    ];
    complete = λ n i known lt. elim known [
      | inr old ↦ added-In r name count _ (v.complete n i old lt)
      | inl e ↦
          let small : i < count = subst (λ (p : Bytes × ℕ). i < p.1) e lt in
          subst (λ (p : Bytes × ℕ). In (vnode xxh3_64 p.0 i) (added r name count).ring) (sym e)
            (sort_by_hash-In _ (r.ring ++ vnodes name count)
              (In-append_right r.ring (vnodes name count) _ (In-vnodes name count i small)))
    ];
  }

  -- The three results of `add_node`, each with its condition.
  pub data AddCase (r : ConsistentHashRing) (name : Bytes) (count : ℕ) : Type 0 where
    separator :
        contains b'#' name ≡ true
        → add_node xxh3_64 r name count ≡ err AddNodeError.invalid_node_name
        → AddCase r name count
    exists :
        contains b'#' name ≡ false
        → contains_key name r.nodes ≡ true
        → add_node xxh3_64 r name count ≡ err (AddNodeError.node_already_exists name)
        → AddCase r name count
    fresh :
        contains b'#' name ≡ false
        → contains_key name r.nodes ≡ false
        → add_node xxh3_64 r name count ≡ ok (added r name count)
        → AddCase r name count

  pub add_node-cases : (r : ConsistentHashRing) (name : Bytes) (count : ℕ) → AddCase r name count
  add_node-cases r name count = elim (Bool-cases (contains b'#' name)) [
    | inl bad ↦ separator bad (unfold add_node in rw bad)
    | inr clean ↦ elim (Bool-cases (contains_key name r.nodes)) [
      | inl there ↦ exists clean there (unfold add_node in rw (clean, there))
      | inr absent ↦ fresh clean absent (unfold add_node in rw (clean, absent))
    ]
  ]

  pub add_node-added :
      (r r' : ConsistentHashRing) (name : Bytes) (count : ℕ)
      → add_node xxh3_64 r name count ≡ ok r'
      → (contains b'#' name ≡ false) × (r' ≡ added r name count)
  add_node-added r r' name count run = elim (add_node-cases r name count) [
    | separator _ e ↦ absurd (cc e)
    | exists _ _ e ↦ absurd (cc e)
    | fresh clean _ e ↦ (clean, cc e)
  ]

  -- Adding a node keeps the invariant.
  pub add_node-IsValid :
      (r r' : ConsistentHashRing) (name : Bytes) (count : ℕ)
      → IsValid r
      → add_node xxh3_64 r name count ≡ ok r'
      → IsValid r'
  add_node-IsValid r r' name count v run =
      let (clean, is) = add_node-added r r' name count run in
      subst IsValid (sym is) (added-IsValid r name count clean v)

  add_nodes-IsValid :
      (r r' : ConsistentHashRing) (names : List Bytes) (count : ℕ)
      → IsValid r
      → add_nodes xxh3_64 r names count ≡ ok r'
      → IsValid r'
  unfolding add_nodes
  add_nodes-IsValid r r' [] count v run = subst IsValid (cc) v
  add_nodes-IsValid r r' (name ∷ names) count v run = elim (add_node-cases r name count) [
    | separator _ e ↦ absurd (cc (rw (e, add_nodes) at run))
    | exists _ _ e ↦ absurd (cc (rw (e, add_nodes) at run))
    | fresh clean _ e ↦
        add_nodes-IsValid (added r name count) r' names count (added-IsValid r name count clean v)
          (rw (e, add_nodes) at run)
  ]

  -- Every ring that with_nodes returns is valid: sorted by hash, its virtual nodes are exactly
  -- those of its nodes, and no node's name holds a separator.
  pub with_nodes-IsValid :
      (names : List Bytes) (count : ℕ) (r : ConsistentHashRing)
      → with_nodes xxh3_64 names count ≡ ok r
      → IsValid r
  unfolding with_nodes
  with_nodes-IsValid names count r run = add_nodes-IsValid new r names count new-IsValid run
