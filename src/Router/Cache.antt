-- ===== src/Router/Cache.antt =====
-- crates/manager/src/core/routing.rs: the cache of routes agrees with what it caches.
use trust_meta.Base.{
  ℕ, ◌%◌, ◌≤◌, ◌≡◌, refl, sym, ap, ◌∙◌, ◌⊎◌, inl, inr, false, Option, none, some, Bytes, bytes_eq,
  bytes_eq_iff, Outcome, done, done-injective, ◌==◌, ==_iff, Bool-cases, Option-cases, arith,
}
use trust_meta.Assoc.{get, get-insert, get-insert_other}
use trust_meta.Epring.Keyword.{Xxh3}
use trust_meta.Router.{
  RouteTarget, CachedRoute, Router, cached_route, cache_insert, override_route, ring_route,
  remember, route_keyword,
}

module _ (xxh3 : Xxh3) (xxh3_64 : Bytes → ℕ) where
  -- The route of a keyword without the cache: its own, or the ring's.
  unfoldable pub resolve : Router → Bytes → Outcome (Option RouteTarget)
  resolve r keyword = elim (override_route r keyword) [
    | some route ↦ done (some route)
    | none ↦ ring_route xxh3 xxh3_64 r keyword
  ]

  -- No change is under way, no cached route is from a later epoch, and a route of this epoch is the
  -- keyword's route.
  pub record IsCoherent (r : Router) : Type 0 where
    pub even : r.route_epoch % 2 ≡ 0
    pub past :
        (keyword : Bytes) (c : CachedRoute)
        → get keyword r.route_cache ≡ some c
        → c.epoch ≤ r.route_epoch
    pub current :
        (keyword : Bytes) (c : CachedRoute)
        → get keyword r.route_cache ≡ some c
        → c.epoch ≡ r.route_epoch
        → resolve r keyword ≡ done (some c.route)

  -- A route cached for a keyword is found by it, and leaves the other keywords' cache entries.
  cached_cases :
      (r : Router) (keyword other : Bytes) (route : RouteTarget) (c : CachedRoute)
      → get other (cache_insert r keyword route).route_cache ≡ some c
      → ((keyword ≡ other) × (c ≡ record { route = route; epoch = r.route_epoch }))
        ⊎ (get other r.route_cache ≡ some c)
  unfolding cache_insert
  cached_cases r keyword other route c at = elim (Bool-cases (bytes_eq keyword other)) [
    | inl same ↦
        let is : keyword ≡ other = (bytes_eq_iff keyword other).0 same in
        inl (
          is,
          cc (
            get-insert keyword (record { route = route; epoch = r.route_epoch }) r.route_cache,
            is,
            at,
          ),
        )
    | inr differs ↦ inr (rw (get-insert_other keyword other _ r.route_cache differs) at at)
  ]

  resolve-cache_insert :
      (r : Router) (keyword other : Bytes) (route : RouteTarget)
      → resolve (cache_insert r keyword route) other ≡ resolve r other
  unfolding resolve override_route ring_route cache_insert
  resolve-cache_insert r keyword other route = refl

  epoch-cache_insert :
      (r : Router) (keyword : Bytes) (route : RouteTarget)
      → (cache_insert r keyword route).route_epoch ≡ r.route_epoch
  unfolding cache_insert
  epoch-cache_insert r keyword route = refl

  cache_insert-IsCoherent :
      (r : Router) (keyword : Bytes) (route : RouteTarget)
      → IsCoherent r
      → resolve r keyword ≡ done (some route)
      → IsCoherent (cache_insert r keyword route)
  cache_insert-IsCoherent r keyword route v is = record {
    even = rw (epoch-cache_insert r keyword route) v.even;
    past = λ other c at.
        rw (epoch-cache_insert r keyword route) (elim (cached_cases r keyword other route c at) [
          | inl (_, e) ↦ rw e (omega arith)
          | inr before ↦ v.past other c before
        ]);
    current = λ other c at now.
        resolve-cache_insert r keyword other route
        ∙ (elim (cached_cases r keyword other route c at) [
          | inl (same, e) ↦ rw (e, ← same) is
          | inr before ↦ v.current other c before (now ∙ epoch-cache_insert r keyword route)
        ]);
  }

  cached_route-resolve :
      (r : Router) (keyword : Bytes) (route : RouteTarget)
      → IsCoherent r
      → cached_route r keyword ≡ some route
      → resolve r keyword ≡ done (some route)
  unfolding cached_route
  cached_route-resolve r keyword route v h = elim (Option-cases (get keyword r.route_cache)) [
    | inl e ↦ absurd (cc (rw (e, cached_route) at h))
    | inr (c, e) ↦ elim (Bool-cases (c.epoch == r.route_epoch)) [
      | inl now ↦
          let is : some c.route ≡ some route = rw (e, now, cached_route) at h in
          v.current keyword c e ((==_iff _ _).0 now) ∙ ap done is
      | inr old ↦ absurd (cc (rw (e, old, cached_route) at h))
    ]
  ]

  pub resolve-own :
      (r : Router) (keyword : Bytes) (route : RouteTarget)
      → override_route r keyword ≡ some route
      → resolve r keyword ≡ done (some route)
  unfolding resolve
  resolve-own r keyword route h = rw (h, resolve) refl

  pub resolve-ring :
      (r : Router) (keyword : Bytes)
      → override_route r keyword ≡ none
      → resolve r keyword ≡ ring_route xxh3 xxh3_64 r keyword
  unfolding resolve
  resolve-ring r keyword h = rw (h, resolve) refl

  pub resolve-same :
      (r r' : Router) (keyword : Bytes)
      → override_route r' keyword ≡ override_route r keyword
      → ring_route xxh3 xxh3_64 r' keyword ≡ ring_route xxh3 xxh3_64 r keyword
      → resolve r' keyword ≡ resolve r keyword
  unfolding resolve
  resolve-same r r' keyword own shared = elim (Option-cases (override_route r keyword)) [
    | inl e ↦ resolve-ring r' keyword (own ∙ e) ∙ shared ∙ sym (resolve-ring r keyword e)
    | inr (route, e) ↦ resolve-own r' keyword route (own ∙ e) ∙ sym (resolve-own r keyword route e)
  ]

  remember-IsCoherent :
      (r : Router) (keyword : Bytes) (answer : Option RouteTarget)
      → IsCoherent r
      → resolve r keyword ≡ done answer
      → (r' : Router) × (remember xxh3 xxh3_64 r keyword answer ≡ (r', answer)) × IsCoherent r'
  unfolding remember
  remember-IsCoherent r keyword none v is = (r, refl, v)
  remember-IsCoherent r keyword (some route) v is =
      (cache_insert r keyword route, refl, cache_insert-IsCoherent r keyword route v is)

  -- On a router whose cache is coherent (no change is under way, no cached route is of a later
  -- epoch, and those of this epoch are the keywords' routes), route_keyword returns what the
  -- keyword's own route or else the ring gives, and the router that it leaves is coherent.
  pub route_keyword-resolve :
      (r : Router) (keyword : Bytes) (answer : Option RouteTarget)
      → IsCoherent r
      → resolve r keyword ≡ done answer
      → (r' : Router) × (route_keyword xxh3 xxh3_64 r keyword ≡ done (r', answer)) × IsCoherent r'
  unfolding route_keyword
  route_keyword-resolve r keyword answer v is =
      let quiet : (r.route_epoch % 2 == 1) ≡ false = rw v.even refl in
      elim (Option-cases (cached_route r keyword)) [
        | inr (route, h) ↦
            let same = done-injective (sym (cached_route-resolve r keyword route v h) ∙ is) in
            (r, rw (quiet, h, route_keyword) (ap (λ a. done (r, a)) same), v)
        | inl h ↦ elim (Option-cases (override_route r keyword)) [
          | inr (route, own) ↦
              let same = done-injective (sym (resolve-own r keyword route own) ∙ is) in
              (
                cache_insert r keyword route,
                rw (quiet, h, own, route_keyword)
                    (ap (λ a. done (cache_insert r keyword route, a)) same),
                cache_insert-IsCoherent r keyword route v (resolve-own r keyword route own),
              )
          | inl shared ↦
              let run : ring_route xxh3 xxh3_64 r keyword ≡ done answer =
                sym (resolve-ring r keyword shared) ∙ is in
              let (r', kept, v') = remember-IsCoherent r keyword answer v is in
              (r', rw (quiet, h, shared, run, route_keyword) (ap done kept), v')
        ]
      ]
