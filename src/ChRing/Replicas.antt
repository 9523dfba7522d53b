-- ===== src/ChRing/Replicas.antt =====
-- crates/manager/src/core/consistent_hash.rs: several nodes for a key, and the counts.
use trust_meta.Base.{
  ℕ, zero, suc, ◌+◌, ◌%◌, Bool, true, false, ◌||◌, List, [], ◌∷◌, ◌++◌, map, Option, none, some,
  length, leb, ◌==◌, if◌then◌else◌, Bytes, bytes_eq, Outcome, done, ◌>>=◌,
}
use trust_meta.ChRing.{ConsistentHashRing, Vnode, start_index, name_at, get_node}

-- `seen_nodes.insert(node_name)` fails for a node of the result.
unfoldable pub is_seen : Bytes → List Bytes → Bool
is_seen name [] = false
is_seen name (n ∷ names) = bytes_eq n name || is_seen name names

unfoldable pub push_unseen : Option Bytes → List Bytes → List Bytes
unfolding is_seen
push_unseen none result = result
push_unseen (some name) result = if is_seen name result then result else result ++ name ∷ []

-- The loop of `get_nodes` over `rounds` places, from `start_idx + i` on.
unfoldable pub collect_nodes : List Vnode → ℕ → ℕ → ℕ → ℕ → List Bytes → Outcome (List Bytes)
unfolding name_at push_unseen
collect_nodes ring start_idx count i zero result = done result
collect_nodes ring start_idx count i (suc rounds) result = do
  name ← name_at ring ((start_idx + i) % length ring)
  let result' = push_unseen name result
  elim (leb count (length result')) [
    | true ↦ done result'
    | false ↦ collect_nodes ring start_idx count (i + 1) rounds result'
  ]

unfoldable pub get_all_nodes : ConsistentHashRing → List Bytes
get_all_nodes r = map (λ (n : Bytes × ℕ). n.0) r.nodes

unfoldable pub node_count : ConsistentHashRing → ℕ
node_count r = length r.nodes

unfoldable pub virtual_node_count : ConsistentHashRing → ℕ
virtual_node_count r = length r.ring

unfoldable pub is_empty : ConsistentHashRing → Bool
is_empty r = length r.nodes == 0

-- `*distribution.entry(node).or_insert(0) += 1`.
unfoldable pub count_one : Bytes → List (Bytes × ℕ) → List (Bytes × ℕ)
count_one name [] = (name, 1) ∷ []
count_one name ((n, c) ∷ counts) =
    let rest = count_one name counts in
    if bytes_eq n name then (n, c + 1) ∷ counts else (n, c) ∷ rest

module _ (xxh3_64 : Bytes → ℕ) where
  unfoldable pub get_nodes : ConsistentHashRing → Bytes → ℕ → Outcome (List Bytes)
  unfolding start_index collect_nodes
  get_nodes r key count =
      if length r.ring == 0 || count == 0
      then done []
      else collect_nodes r.ring (start_index r.ring (xxh3_64 key)) count 0 (length r.ring) []

  unfoldable pub count_keys :
      ConsistentHashRing → List Bytes → List (Bytes × ℕ) → Outcome (List (Bytes × ℕ))
  unfolding get_node count_one
  count_keys r [] counts = done counts
  count_keys r (key ∷ keys) counts = do
    node ← get_node xxh3_64 r key
    count_keys r keys (elim node [ none ↦ counts | some name ↦ count_one name counts ])

  unfoldable pub get_distribution : ConsistentHashRing → List Bytes → Outcome (List (Bytes × ℕ))
  unfolding count_keys
  get_distribution r keys = count_keys r keys []
