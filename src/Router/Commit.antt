-- ===== src/Router/Commit.antt =====
-- crates/manager/src/core/routing.rs: the changes under the guard, which clear the cache.
use trust_meta.Base.{ℕ, ◌%◌, ◌≡◌, List, Option, some, Bytes, done, arith}
use trust_meta.Assoc.{Assoc, insert, get-insert, get}
use trust_meta.Epring.{Epring, EpringSplitEvent, RootSummaryChange}
use trust_meta.Epring.Valid.{IsValid}
use trust_meta.Epring.Keyword.{Xxh3}
use trust_meta.Epring.Record.{record_insert_with_change}
use trust_meta.Epring.Insert.{record_insert_with_change-IsValid}
use trust_meta.Router.{
  RouteTarget, PrefixSplitPlan, RouterBackend, epring_backend, Router, override_route,
  route_keyword,
}
use trust_meta.Router.Backend.{count_epoch, clear_route_cache}
use trust_meta.Router.Record.{
  commit, insert_target, event_plan, to_list, record_insert_with_changes,
}
use trust_meta.Router.Cache.{resolve-own, IsCoherent, route_keyword-resolve}

commit-IsCoherent :
    (xxh3 : Xxh3) (xxh3_64 : Bytes → ℕ) (r : Router) (b : RouterBackend)
    → r.route_epoch % 2 ≡ 0
    → IsCoherent xxh3 xxh3_64 (commit r b)
unfolding commit count_epoch clear_route_cache get
commit-IsCoherent xxh3 xxh3_64 r b even = record {
  even = omega arith;
  past = λ keyword c at. absurd (cc at);
  current = λ keyword c at. absurd (cc at);
}

-- The backend and the answer of an insert that returns on the ring.
insert-commit :
    (r : Router) (ring : Epring) (overrides : Assoc RouteTarget)
    (keyword prefix name summary : Bytes)
    (result : Epring × Option RootSummaryChange × Option EpringSplitEvent)
    → r.backend ≡ epring_backend ring overrides
    → record_insert_with_change ring prefix summary ≡ done result
    → record_insert_with_changes r keyword prefix name summary
      ≡ done (
        commit r (epring_backend result.0 (insert keyword (insert_target r prefix name) overrides)),
        event_plan r result.2 result.0,
        to_list result.1,
      )
unfolding record_insert_with_changes
insert-commit r ring overrides keyword prefix name summary result is run =
    rw (is, run, record_insert_with_changes)

own-commit :
    (r : Router) (ring : Epring) (overrides : Assoc RouteTarget) (keyword : Bytes)
    (target : RouteTarget)
    → override_route (commit r (epring_backend ring (insert keyword target overrides))) keyword
      ≡ some target
unfolding override_route commit count_epoch clear_route_cache
own-commit r ring overrides keyword target = get-insert keyword target overrides

module _ (xxh3 : Xxh3) (xxh3_64 : Bytes → ℕ) where
  -- In the prefix ring's mode, on a valid ring and with no change under way,
  -- record_insert_with_changes returns, and route_keyword afterwards gives the keyword the prefix
  -- and the node of the insert, with the node's address, and leaves a coherent cache.
  pub record_insert-route_keyword :
      (r : Router) (ring : Epring) (overrides : Assoc RouteTarget)
      (keyword prefix name summary : Bytes)
      → r.backend ≡ epring_backend ring overrides
      → IsValid ring
      → r.route_epoch % 2 ≡ 0
      → (r' r'' : Router) × (plan : Option PrefixSplitPlan) × (changes : List RootSummaryChange)
        × (record_insert_with_changes r keyword prefix name summary ≡ done (r', plan, changes))
        × (route_keyword xxh3 xxh3_64 r' keyword ≡ done (r'', some (insert_target r prefix name)))
        × IsCoherent xxh3 xxh3_64 r''
  record_insert-route_keyword r ring overrides keyword prefix name summary is v even =
      let (result, run, _) = record_insert_with_change-IsValid v prefix summary in
      let target = insert_target r prefix name in
      let r' = commit r (epring_backend result.0 (insert keyword target overrides)) in
      let own = own-commit r result.0 overrides keyword target in
      let (r'', routed, v'') =
        route_keyword-resolve xxh3 xxh3_64 r' keyword (some target)
          (commit-IsCoherent xxh3 xxh3_64 r _ even)
          (resolve-own xxh3 xxh3_64 r' keyword target own) in
      (
        r',
        r'',
        event_plan r result.2 result.0,
        to_list result.1,
        insert-commit r ring overrides keyword prefix name summary result is run,
        routed,
        v'',
      )
