-- ===== src/Router.antt =====
-- crates/manager/src/core/routing.rs: the router over one of the two rings, with its cache of routes
-- and the keywords' own routes. A call is modelled as it runs when no other thread is at work.
pub mod Backend
pub mod Record
pub mod Cache
pub mod Commit
pub mod Overrides
mod Tests
use trust_meta.Base.{
  ℕ, ◌+◌, ◌%◌, ◌^◌, List, [], ◌∷◌, ◌++◌, Option, none, some, Bytes, ascii, Outcome, done, panic,
  diverge, ◌>>=◌, ◌==◌, if◌then◌else◌,
}
use trust_meta.Text.{decimal}
use trust_meta.Assoc.{Assoc, get, insert}
use trust_meta.Epring.{
  Epring, EpringRoute, entry_prefix, node_name, route_key_hex as route_in_epring,
}
use trust_meta.Epring.Keyword.{Xxh3, route_keyword as route_keyword_in_epring}
use trust_meta.ChRing.{ConsistentHashRing, get_node}

pub data RouteMode : Type 0 where
  epring : RouteMode
  chring : RouteMode

unfoldable pub as_str : RouteMode → Bytes
as_str epring = ascii "epring"
as_str chring = ascii "chring"

pub record RouteTarget : Type 0 where
  pub prefix : Bytes
  pub node_name : Bytes
  pub addr : Bytes

pub record CachedRoute : Type 0 where
  pub route : RouteTarget
  pub epoch : ℕ

pub record PrefixSplitPlan : Type 0 where
  pub parent_prefix : Bytes
  pub source : RouteTarget
  pub children : List RouteTarget

pub data RouterBackend : Type 0 where
  epring_backend : Epring → Assoc RouteTarget → RouterBackend
  chring_backend : ConsistentHashRing → RouterBackend

pub record Router : Type 0 where
  pub storager_addrs : Assoc Bytes
  pub node_names : List Bytes
  pub node_addrs : List Bytes
  pub route_mode : RouteMode
  pub backend : RouterBackend
  pub route_cache : Assoc CachedRoute
  pub route_epoch : ℕ

-- `format!("storager-{}", idx)`.
unfoldable pub storager_name : ℕ → Bytes
unfolding decimal
storager_name idx = ascii "storager-" ++ decimal idx

-- The route of an entry: `entry_prefix`, `node_name` and the address, each with its `?`.
unfoldable pub entry_target : Assoc Bytes → Epring → EpringRoute → Option RouteTarget
unfolding get entry_prefix node_name
entry_target addrs ring route = elim (entry_prefix ring route.entry_index) [
  | none ↦ none
  | some prefix ↦ elim (node_name ring route.node_index) [
    | none ↦ none
    | some name ↦ elim (get name addrs) [
      | none ↦ none
      | some addr ↦ some (record { prefix = prefix; node_name = name; addr = addr })
    ]
  ]
]

unfoldable pub epring_target : Assoc Bytes → Epring → Option EpringRoute → Option RouteTarget
unfolding entry_target
epring_target addrs ring none = none
epring_target addrs ring (some route) = entry_target addrs ring route

unfoldable pub chring_target : Assoc Bytes → Option Bytes → Option RouteTarget
unfolding get
chring_target addrs none = none
chring_target addrs (some name) = elim (get name addrs) [
  | none ↦ none
  | some addr ↦ some (record { prefix = []; node_name = name; addr = addr })
]

-- `route_key_hex` of the router.
unfoldable pub route_key_hex : Router → Bytes → Outcome (Option RouteTarget)
unfolding epring_target route_in_epring
route_key_hex r key_hex = elim r.backend [
  | epring_backend ring overrides ↦ do
    route ← route_in_epring ring key_hex
    done (epring_target r.storager_addrs ring route)
  | chring_backend ring ↦ done none
]

-- `route_cache.get(keyword).filter(|cached| cached.epoch == epoch)`.
unfoldable pub cached_route : Router → Bytes → Option RouteTarget
unfolding get
cached_route r keyword = elim (get keyword r.route_cache) [
  | none ↦ none
  | some cached ↦ if cached.epoch == r.route_epoch then some cached.route else none
]

-- `route_cache.insert(keyword, CachedRoute { route, epoch })`.
unfoldable pub cache_insert : Router → Bytes → RouteTarget → Router
unfolding insert
cache_insert r keyword route = record r {
  route_cache = insert keyword (record { route = route; epoch = r.route_epoch }) r.route_cache;
}

-- The keyword's own route, in the prefix ring's mode.
unfoldable pub override_route : Router → Bytes → Option RouteTarget
unfolding get
override_route r keyword = elim r.backend [
  | epring_backend ring overrides ↦ get keyword overrides
  | chring_backend ring ↦ none
]

-- The crate xxhash-rust is a parameter.
module _ (xxh3 : Xxh3) (xxh3_64 : Bytes → ℕ) where
  -- The route that the ring gives.
  unfoldable pub ring_route : Router → Bytes → Outcome (Option RouteTarget)
  unfolding epring_target chring_target route_keyword_in_epring get_node
  ring_route r keyword = elim r.backend [
    | epring_backend ring overrides ↦ do
      route ← route_keyword_in_epring xxh3 ring keyword
      done (epring_target r.storager_addrs ring route)
    | chring_backend ring ↦ do
      name ← get_node xxh3_64 ring keyword
      done (chring_target r.storager_addrs name)
  ]

  -- The end of a round of the loop: a route is cached, and `None` is not.
  unfoldable pub remember : Router → Bytes → Option RouteTarget → Router × Option RouteTarget
  unfolding cache_insert
  remember r keyword none = (r, none)
  remember r keyword (some route) = (cache_insert r keyword route, some route)

  -- While a change is under way the epoch is odd, and the loop waits for its end.
  unfoldable pub route_keyword : Router → Bytes → Outcome (Router × Option RouteTarget)
  unfolding cached_route override_route ring_route remember
  route_keyword r keyword =
      if r.route_epoch % 2 == 1 then diverge else elim (cached_route r keyword) [
        | some route ↦ done (r, some route)
        | none ↦ elim (override_route r keyword) [
          | some route ↦ done (cache_insert r keyword route, some route)
          | none ↦ do route ← ring_route r keyword; done (remember r keyword route)
        ]
      ]

  -- `get_storager_for_keyword`.
  unfoldable pub get_storager_for_keyword :
      Router → Bytes → Outcome (Router × Option (Bytes × Bytes))
  unfolding route_keyword
  get_storager_for_keyword r keyword = do
    (r', found) ← route_keyword r keyword
    elim found [
      | none ↦ done (r', none)
      | some route ↦ done (r', some (route.node_name, route.addr))
    ]
