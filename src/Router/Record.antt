-- ===== src/Router/Record.antt =====
-- crates/manager/src/core/routing.rs: what inserts, deletes and splits do to a router.
use trust_meta.Base.{
  ℕ, List, [], ◌∷◌, ◌++◌, map, not, leb, Option, none, some, length, get_elem?, if◌then◌else◌,
  Bytes, Outcome, done, ◌>>=◌,
}
use trust_meta.Assoc.{Assoc, get, insert, remove, retain}
use trust_meta.Epring.{Epring, EpringRoute, EpringSplitEvent, RootSummaryChange, entry_prefix}
use trust_meta.Epring.Keyword.{Xxh3, keyword_matches_prefix}
use trust_meta.Epring.Record.{
  record_insert_with_change, record_insert_without_split_with_change, record_delete_with_change,
  update_root_summary_with_change, maybe_presplit_empty_prefix,
}
use trust_meta.Router.{
  RouteTarget, PrefixSplitPlan, RouterBackend, epring_backend, chring_backend, Router,
  storager_name,
}
use trust_meta.Router.Backend.{count_epoch, clear_route_cache}

-- `split_plan`'s children, each with its `?`, collected.
unfoldable pub child_target : Router → Epring → EpringRoute → Option RouteTarget
unfolding entry_prefix get storager_name
child_target r ring route = elim (entry_prefix ring route.entry_index) [
  | none ↦ none
  | some prefix ↦ elim (get (storager_name route.node_index) r.storager_addrs) [
    | none ↦ none
    | some addr ↦
        some (record { prefix = prefix; node_name = storager_name route.node_index; addr = addr })
  ]
]

unfoldable pub child_targets : Router → Epring → List EpringRoute → Option (List RouteTarget)
unfolding child_target
child_targets r ring [] = some []
child_targets r ring (route ∷ routes) = elim (child_target r ring route) [
  | none ↦ none
  | some target ↦ elim (child_targets r ring routes) [
    | none ↦ none
    | some targets ↦ some (target ∷ targets)
  ]
]

unfoldable pub source_addr : Router → ℕ → Option Bytes
unfolding get storager_name
source_addr r owner = elim (get_elem? r.node_addrs owner) [
  | some addr ↦ some addr
  | none ↦ get (storager_name owner) r.storager_addrs
]

unfoldable pub build_split_plan : Router → EpringSplitEvent → Epring → Option PrefixSplitPlan
unfolding entry_prefix child_targets source_addr storager_name
build_split_plan r event ring = elim (entry_prefix ring event.parent_entry_index) [
  | none ↦ none
  | some parent_prefix ↦ elim (source_addr r event.original_owner_index) [
    | none ↦ none
    | some addr ↦ elim (child_targets r ring event.child_routes) [
      | none ↦ none
      | some children ↦ some (record {
        parent_prefix = parent_prefix;
        source = record {
          prefix = parent_prefix;
          node_name = storager_name event.original_owner_index;
          addr = addr;
        };
        children = children;
      })
    ]
  ]
]

unfoldable pub event_plan : Router → Option EpringSplitEvent → Epring → Option PrefixSplitPlan
unfolding build_split_plan
event_plan r none ring = none
event_plan r (some event) ring = build_split_plan r event ring

-- `Option::into_iter().collect()`.
unfoldable pub to_list {ℓ} : {A : Type ℓ} → Option A → List A
to_list none = []
to_list (some a) = a ∷ []

-- `.get(node_name).cloned().unwrap_or_default()`.
unfoldable pub addr_or_default : Router → Bytes → Bytes
unfolding get
addr_or_default r name = elim (get name r.storager_addrs) [ none ↦ [] | some addr ↦ addr ]

-- The route that an insert notes for its keyword.
unfoldable pub insert_target : Router → Bytes → Bytes → RouteTarget
unfolding addr_or_default
insert_target r prefix name = record {
  prefix = prefix;
  node_name = name;
  addr = addr_or_default r name;
}

-- A change under the guard: the epoch counts on, the backend is replaced, the cache is cleared, and
-- the guard drops.
unfoldable pub commit : Router → RouterBackend → Router
unfolding count_epoch clear_route_cache
commit r backend = count_epoch (clear_route_cache (record (count_epoch r) { backend = backend }))

unfoldable pub record_insert_with_changes :
    Router
    → Bytes
    → Bytes
    → Bytes
    → Bytes
    → Outcome (Router × Option PrefixSplitPlan × List RootSummaryChange)
unfolding commit insert insert_target event_plan to_list record_insert_with_change
record_insert_with_changes r keyword prefix name root_summary = elim r.backend [
  | epring_backend ring overrides ↦ do
    (ring', change, split) ← record_insert_with_change ring prefix root_summary
    done (
      commit r (epring_backend ring' (insert keyword (insert_target r prefix name) overrides)),
      event_plan r split ring',
      to_list change,
    )
  | chring_backend ring ↦ done (r, none, [])
]

unfoldable pub record_insert_without_split_with_changes :
    Router → Bytes → Bytes → Bytes → Bytes → Outcome (Router × List RootSummaryChange)
unfolding commit insert insert_target to_list record_insert_without_split_with_change
record_insert_without_split_with_changes r keyword prefix name root_summary = elim r.backend [
  | epring_backend ring overrides ↦ do
    (ring', change) ← record_insert_without_split_with_change ring prefix root_summary
    done (
      commit r (epring_backend ring' (insert keyword (insert_target r prefix name) overrides)),
      to_list change,
    )
  | chring_backend ring ↦ done (r, [])
]

unfoldable pub record_delete_with_changes :
    Router → Bytes → Bytes → Bytes → Outcome (Router × List RootSummaryChange)
unfolding commit remove to_list record_delete_with_change
record_delete_with_changes r keyword prefix root_summary = elim r.backend [
  | epring_backend ring overrides ↦ do
    (ring', change) ← record_delete_with_change ring prefix root_summary
    done (commit r (epring_backend ring' (remove keyword overrides)), to_list change)
  | chring_backend ring ↦ done (r, [])
]

-- The loop of `update_prefix_summaries_with_changes`.
unfoldable pub update_summaries :
    Epring → List (Bytes × Bytes) → Outcome (Epring × List RootSummaryChange)
unfolding to_list update_root_summary_with_change
update_summaries ring [] = done (ring, [])
update_summaries ring ((prefix, root_summary) ∷ updates) = do
  (updated, change) ← update_root_summary_with_change ring prefix root_summary
  (ring', changes) ← update_summaries updated updates
  done (ring', to_list change ++ changes)

unfoldable pub update_prefix_summaries_with_changes :
    Router → List (Bytes × Bytes) → Outcome (Router × List RootSummaryChange)
unfolding update_summaries
update_prefix_summaries_with_changes r updates = elim r.backend [
  | epring_backend ring overrides ↦ do
    (ring', changes) ← update_summaries ring updates
    done (record r { backend = epring_backend ring' overrides }, changes)
  | chring_backend ring ↦ done (r, [])
]

unfoldable pub update_prefix_summary_with_change :
    Router → Bytes → Bytes → Outcome (Router × Option RootSummaryChange)
unfolding update_root_summary_with_change
update_prefix_summary_with_change r prefix root_summary = elim r.backend [
  | epring_backend ring overrides ↦ do
    (ring', change) ← update_root_summary_with_change ring prefix root_summary
    done (record r { backend = epring_backend ring' overrides }, change)
  | chring_backend ring ↦ done (r, none)
]

-- `prefixes.sort_by_key(|prefix| prefix.len())`, a stable sort.
unfoldable pub insert_by_len : Bytes → List Bytes → List Bytes
insert_by_len p [] = p ∷ []
insert_by_len p (q ∷ qs) = if leb (length p) (length q) then p ∷ q ∷ qs else q ∷ insert_by_len p qs

unfoldable pub sort_by_len : List Bytes → List Bytes
unfolding insert_by_len
sort_by_len [] = []
sort_by_len (p ∷ ps) = insert_by_len p (sort_by_len ps)

-- The loop of `presplit_empty_prefixes`.
unfoldable pub presplit_each :
    Router → Epring → Assoc ℕ → List Bytes → Outcome (Epring × List PrefixSplitPlan)
unfolding get to_list event_plan maybe_presplit_empty_prefix
presplit_each r ring prefix_counts [] = done (ring, [])
presplit_each r ring prefix_counts (prefix ∷ prefixes) = elim (get prefix prefix_counts) [
  | none ↦ presplit_each r ring prefix_counts prefixes
  | some count ↦ do
    (split, event) ← maybe_presplit_empty_prefix ring prefix count
    (ring', plans) ← presplit_each r split prefix_counts prefixes
    done (ring', to_list (event_plan r event split) ++ plans)
]

unfoldable pub presplit_empty_prefixes : Router → Assoc ℕ → Outcome (Router × List PrefixSplitPlan)
unfolding commit sort_by_len presplit_each
presplit_empty_prefixes r prefix_counts = elim r.backend [
  | epring_backend ring overrides ↦ do
    (ring', plans) ←
        presplit_each r ring prefix_counts
          (sort_by_len (map (λ (e : Bytes × ℕ). e.0) prefix_counts))
    done (commit r (epring_backend ring' overrides), plans)
  | chring_backend ring ↦ done (r, [])
]

module _ (xxh3 : Xxh3) where
  unfoldable pub clear_keyword_overrides_for_prefix : Router → Bytes → Router
  unfolding count_epoch retain keyword_matches_prefix
  clear_keyword_overrides_for_prefix r prefix = elim r.backend [
    | epring_backend ring overrides ↦
        let keep = λ (keyword : Bytes). not (keyword_matches_prefix xxh3 keyword prefix) in
        count_epoch (record (count_epoch r) {
          backend = epring_backend ring (retain keep overrides);
          route_cache = retain keep r.route_cache;
        })
    | chring_backend ring ↦ r
  ]
