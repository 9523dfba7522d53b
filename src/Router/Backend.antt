-- ===== src/Router/Backend.antt =====
-- crates/manager/src/core/routing.rs: how a router is built, and its ring rebuilt.
use trust_meta.Base.{
  ℕ, zero, suc, ◌+◌, ◌%◌, ◌^◌, List, [], ◌∷◌, ◌++◌, map, Option, none, some, length, range',
  if◌then◌else◌, Bytes, bytes_eq, Outcome, done, panic, ◌>>=◌,
}
use trust_meta.Assoc.{Assoc, insert, remove}
use trust_meta.Epring.{new}
use trust_meta.ChRing.{ConsistentHashRing, new as new_chring, ok, err, add_nodes}
use trust_meta.Router.{
  RouteMode, epring, chring, RouterBackend, epring_backend, chring_backend, Router, storager_name,
}

abbrev pub default_chring_virtual_nodes_per_node : ℕ
default_chring_virtual_nodes_per_node = 150

-- `route_epoch.fetch_add(1)`: the guard of a change counts it on, and once more when it drops.
unfoldable pub count_epoch : Router → Router
count_epoch r = record r { route_epoch = (r.route_epoch + 1) % 2 ^ 64 }

unfoldable pub clear_route_cache : Router → Router
clear_route_cache r = record r { route_cache = [] }

-- The three vectors' loop of `new_with_mode`: the addresses by name.
unfoldable pub addr_map : ℕ → List Bytes → Assoc Bytes → Assoc Bytes
unfolding insert storager_name
addr_map idx [] addrs = addrs
addr_map idx (addr ∷ rest) addrs = addr_map (idx + 1) rest (insert (storager_name idx) addr addrs)

-- `node_names.iter().position(|name| name == node_name)`.
unfoldable pub position : Bytes → List Bytes → Option ℕ
position name [] = none
position name (n ∷ names) =
    let rest = position name names in
    if bytes_eq n name then some 0 else elim rest [ none ↦ none | some i ↦ some (suc i) ]

-- `Vec::remove`, which panics past the end.
unfoldable pub remove_index {ℓ} : {A : Type ℓ} → List A → ℕ → Outcome (List A)
remove_index [] i = panic
remove_index (x ∷ xs) zero = done xs
remove_index (x ∷ xs) (suc i) = do rest ← remove_index xs i; done (x ∷ rest)

-- `node_names.retain(|name| name != node_name)`.
unfoldable pub remove_name : Bytes → List Bytes → List Bytes
remove_name name [] = []
remove_name name (n ∷ names) =
    let rest = remove_name name names in if bytes_eq n name then rest else n ∷ rest

unfoldable pub get_all_storagers : Router → List (Bytes × Bytes)
get_all_storagers r = r.storager_addrs

unfoldable pub storager_count : Router → ℕ
storager_count r = length r.storager_addrs

module _ (xxh3_64 : Bytes → ℕ) where
  unfoldable pub build_consistent_hash_ring : List Bytes → Outcome ConsistentHashRing
  unfolding add_nodes
  build_consistent_hash_ring node_names =
      elim (add_nodes xxh3_64 new_chring node_names default_chring_virtual_nodes_per_node) [
        | ok ring ↦ done ring
        | err e ↦ panic
      ]

  unfoldable pub make_backend : RouteMode → List Bytes → ℕ → Outcome RouterBackend
  unfolding build_consistent_hash_ring new
  make_backend epring node_names split_threshold =
      done (epring_backend (new node_names split_threshold) [])
  make_backend chring node_names split_threshold = do
    ring ← build_consistent_hash_ring node_names
    done (chring_backend ring)

  unfoldable pub new_with_mode : List Bytes → ℕ → RouteMode → Outcome Router
  unfolding make_backend addr_map storager_name
  new_with_mode storager_addrs split_threshold route_mode =
      let node_names = map storager_name (range' 0 (length storager_addrs)) in
      do
        backend ← make_backend route_mode node_names split_threshold
        done (record {
          storager_addrs = addr_map 0 storager_addrs [];
          node_names = node_names;
          node_addrs = storager_addrs;
          route_mode = route_mode;
          backend = backend;
          route_cache = [];
          route_epoch = 0;
        })

  unfoldable pub rebuild_backend : Router → ℕ → Outcome Router
  unfolding make_backend clear_route_cache
  rebuild_backend r split_threshold = do
    backend ← make_backend r.route_mode r.node_names split_threshold
    done (clear_route_cache (record r { backend = backend }))

  unfoldable pub add_storager : Router → Bytes → ℕ → Outcome Router
  unfolding count_epoch storager_name insert rebuild_backend
  add_storager r addr split_threshold =
      let guarded = count_epoch r in
      let name = storager_name (length r.storager_addrs) in
      do
        rebuilt ←
            rebuild_backend
              (record guarded {
                node_addrs = r.node_addrs ++ addr ∷ [];
                node_names = r.node_names ++ name ∷ [];
                storager_addrs = insert name addr r.storager_addrs;
              })
              split_threshold
        done (count_epoch rebuilt)

  unfoldable pub remaining_addrs : Router → Bytes → Outcome (List Bytes)
  unfolding position remove_index
  remaining_addrs r name = elim (position name r.node_names) [
    | none ↦ done r.node_addrs
    | some index ↦ remove_index r.node_addrs index
  ]

  unfoldable pub remove_storager : Router → Bytes → ℕ → Outcome Router
  unfolding count_epoch remaining_addrs remove remove_name rebuild_backend
  remove_storager r name split_threshold = do
    node_addrs ← remaining_addrs r name
    rebuilt ←
        rebuild_backend
          (record (count_epoch r) {
            node_addrs = node_addrs;
            storager_addrs = remove name r.storager_addrs;
            node_names = remove_name name r.node_names;
          })
          split_threshold
    done (count_epoch rebuilt)

  unfoldable pub fresh_backend : Router → ℕ → Outcome RouterBackend
  unfolding build_consistent_hash_ring new
  fresh_backend r split_threshold = elim r.backend [
    | epring_backend ring overrides ↦ done (epring_backend (new r.node_names split_threshold) [])
    | chring_backend ring ↦ do
      rebuilt ← build_consistent_hash_ring r.node_names
      done (chring_backend rebuilt)
  ]

  unfoldable pub reset : Router → ℕ → Outcome Router
  unfolding count_epoch fresh_backend clear_route_cache
  reset r split_threshold = do
    backend ← fresh_backend r split_threshold
    done (count_epoch (clear_route_cache (record (count_epoch r) { backend = backend })))
