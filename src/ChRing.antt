-- ===== src/ChRing.antt =====
-- crates/manager/src/core/consistent_hash.rs: the consistent hash ring with virtual nodes.
pub mod Sorted
pub mod Search
pub mod Nodes
pub mod Valid
pub mod Owner
pub mod Migration
pub mod Replicas
mod Tests
use trust_meta.Base.{
  ℕ, zero, suc, ◌+◌, ◌-◌, ◌/◌, ◌%◌, Bool, true, false, not, List, [], ◌∷◌, ◌++◌, map, Option, none,
  some, length, get_elem?, range', ltb, leb, ◌==◌, if◌then◌else◌, Bytes, bytes_eq, ascii, Outcome,
  done, panic, ◌>>=◌,
}
use trust_meta.Text.{contains, starts_with, rsplit_once, decimal}

-- The message of an invalid name is left out.
pub data AddNodeError : Type 0 where
  invalid_node_name : AddNodeError
  node_already_exists : Bytes → AddNodeError

pub data AddResult {ℓ} (A : Type ℓ) : Type ℓ where
  ok : A → AddResult A
  err : AddNodeError → AddResult A

-- A hash and the name of a virtual node.
abbrev pub Vnode : Type 0
Vnode = ℕ × Bytes

-- `nodes` is the `HashMap`, as a list of its entries.
pub record ConsistentHashRing : Type 0 where
  pub ring : List Vnode
  pub nodes : List (Bytes × ℕ)

abbrev pub new : ConsistentHashRing
new = record { ring = []; nodes = [] }

unfoldable pub get_count : Bytes → List (Bytes × ℕ) → Option ℕ
get_count name [] = none
get_count name ((key, count) ∷ nodes) =
    if bytes_eq key name then some count else get_count name nodes

unfoldable pub contains_key : Bytes → List (Bytes × ℕ) → Bool
contains_key name [] = false
contains_key name ((key, count) ∷ nodes) =
    let rest = contains_key name nodes in if bytes_eq key name then true else rest

unfoldable pub remove_key : Bytes → List (Bytes × ℕ) → List (Bytes × ℕ)
remove_key name [] = []
remove_key name ((key, count) ∷ nodes) =
    let rest = remove_key name nodes in if bytes_eq key name then rest else (key, count) ∷ rest

-- `slice::sort_by_key` on the hash, which is stable: an insertion sort.
unfoldable pub insert_vnode : Vnode → List Vnode → List Vnode
insert_vnode v [] = v ∷ []
insert_vnode v (w ∷ ws) = if leb v.0 w.0 then v ∷ w ∷ ws else w ∷ insert_vnode v ws

unfoldable pub sort_by_hash : List Vnode → List Vnode
unfolding insert_vnode
sort_by_hash [] = []
sort_by_hash (v ∷ vs) = insert_vnode v (sort_by_hash vs)

-- `format!("{}#vnode{}", node_name, i)`.
unfoldable pub vnode_key : Bytes → ℕ → Bytes
unfolding decimal
vnode_key node_name i = node_name ++ (b'#' ∷ (ascii "vnode" ++ decimal i))

-- `ring.retain(|(_, vnode_key)| !vnode_key.starts_with(&prefix))`.
unfoldable pub retain : Bytes → List Vnode → List Vnode
retain prefix [] = []
retain prefix (v ∷ vs) =
    let rest = retain prefix vs in if starts_with prefix v.1 then rest else v ∷ rest

unfoldable pub remove_node : ConsistentHashRing → Bytes → ConsistentHashRing × Bool
unfolding retain remove_key contains_key starts_with
remove_node r node_name =
    if contains_key node_name r.nodes
    then (
      record {
        ring = retain (node_name ++ b'#' ∷ []) r.ring;
        nodes = remove_key node_name r.nodes;
      },
      true,
    )
    else (r, false)

-- What `binary_search_by_key` returns: a match, or where the key would be inserted.
pub data SearchResult : Type 0 where
  found : ℕ → SearchResult
  missing : ℕ → SearchResult

-- The loop of the standard library's binary search: `size` entries from `base` on are left.
-- Its size shrinks in each round, so the length is fuel enough.
unfoldable pub search_loop : List Vnode → ℕ → ℕ → ℕ → ℕ → SearchResult
search_loop vs hash zero base size = missing base
search_loop vs hash (suc fuel) base size =
    let half = size / 2 in
    let lower = search_loop vs hash fuel base (size - half) in
    let upper = search_loop vs hash fuel (base + half) (size - half) in
    if ltb 1 size
    then elim (get_elem? vs (base + half)) [
      | none ↦ missing base
      | some v ↦ if ltb hash v.0 then lower else upper
    ]
    else elim (get_elem? vs base) [
      | none ↦ missing base
      | some v ↦
          if v.0 == hash
          then found base
          else if ltb v.0 hash
          then missing (base + 1)
          else missing base
    ]

unfoldable pub binary_search : List Vnode → ℕ → SearchResult
unfolding search_loop
binary_search [] hash = missing 0
binary_search (v ∷ vs) hash = search_loop (v ∷ vs) hash (length (v ∷ vs)) 0 (length (v ∷ vs))

-- The index that `get_node` and `get_nodes` start from, on a ring that is not empty.
unfoldable pub start_index : List Vnode → ℕ → ℕ
unfolding binary_search
start_index vs hash = elim (binary_search vs hash) [ found i ↦ i | missing i ↦ i % length vs ]

-- `self.ring[idx].1.rsplit_once('#').map(|(node_name, _)| node_name)`.
unfoldable pub name_at : List Vnode → ℕ → Outcome (Option Bytes)
unfolding rsplit_once
name_at vs i = elim (get_elem? vs i) [
  | none ↦ panic
  | some v ↦ elim (rsplit_once b'#' v.1) [ none ↦ done none | some (name, _) ↦ done (some name) ]
]

-- `xxh3_64` of the crate xxhash-rust is a parameter.
module _ (xxh3_64 : Bytes → ℕ) where
  unfoldable pub vnode : Bytes → ℕ → Vnode
  unfolding vnode_key
  vnode node_name i = (xxh3_64 (vnode_key node_name i), vnode_key node_name i)

  unfoldable pub add_node : ConsistentHashRing → Bytes → ℕ → AddResult ConsistentHashRing
  unfolding contains contains_key sort_by_hash vnode
  add_node r node_name virtual_nodes =
      if contains b'#' node_name
      then err invalid_node_name
      else if contains_key node_name r.nodes
      then err (node_already_exists node_name)
      else ok (record {
        ring = sort_by_hash (r.ring ++ map (vnode node_name) (range' 0 virtual_nodes));
        nodes = (node_name, virtual_nodes) ∷ r.nodes;
      })

  -- The loop of `with_nodes`.
  unfoldable pub add_nodes : ConsistentHashRing → List Bytes → ℕ → AddResult ConsistentHashRing
  unfolding add_node
  add_nodes r [] per_node = ok r
  add_nodes r (name ∷ names) per_node = elim (add_node r name per_node) [
    | err e ↦ err e
    | ok r' ↦ add_nodes r' names per_node
  ]

  unfoldable pub with_nodes : List Bytes → ℕ → AddResult ConsistentHashRing
  unfolding add_nodes
  with_nodes node_names per_node = add_nodes new node_names per_node

  unfoldable pub get_node : ConsistentHashRing → Bytes → Outcome (Option Bytes)
  unfolding start_index name_at
  get_node r key =
      if length r.ring == 0 then done none else name_at r.ring (start_index r.ring (xxh3_64 key))
