-- ===== src/Router/Overrides.antt =====
-- crates/manager/src/core/routing.rs: the keywords of a migrated prefix lose their own routes.
use trust_meta.Base.{
  ℕ, ◌+◌, ◌%◌, ◌^◌, ◌<◌, ◌≡◌, refl, ap, ◌∙◌, inl, inr, Bool-cases, if◌then◌else◌, true, false, not,
  none, Bytes, arith, Bool, ◌&&◌,
}
use trust_meta.Assoc.{Assoc, get, retain, get-retain, get-retain_dropped, get-retain_before}
use trust_meta.Epring.{Epring}
use trust_meta.Epring.Keyword.{Xxh3, keyword_matches_prefix}
use trust_meta.ChRing.{ConsistentHashRing}
use trust_meta.Router.{
  RouteTarget, RouterBackend, epring_backend, chring_backend, Router, override_route, ring_route,
}
use trust_meta.Router.Backend.{count_epoch}
use trust_meta.Router.Record.{clear_keyword_overrides_for_prefix}
use trust_meta.Router.Cache.{resolve, resolve-ring, resolve-same, IsCoherent}

pub data BackendCase (b : RouterBackend) : Type 0 where
  prefixes :
      (ring : Epring) (overrides : Assoc RouteTarget)
      → b ≡ epring_backend ring overrides
      → BackendCase b
  hashes : (ring : ConsistentHashRing) → b ≡ chring_backend ring → BackendCase b

pub backend_cases : (b : RouterBackend) → BackendCase b
backend_cases (epring_backend ring overrides) = prefixes ring overrides refl
backend_cases (chring_backend ring) = hashes ring refl

-- Whether prefixes route.
pub is_epring : RouterBackend → Bool
is_epring (epring_backend ring overrides) = true
is_epring (chring_backend ring) = false

module _ (xxh3 : Xxh3) (xxh3_64 : Bytes → ℕ) (r : Router) (prefix : Bytes) where
  -- The router after the call, in the prefix ring's mode.
  abbrev cleared : Epring → Assoc RouteTarget → Router
  cleared ring overrides =
      let keep = λ (keyword : Bytes). not (keyword_matches_prefix xxh3 keyword prefix) in
      record r {
        backend = epring_backend ring (retain keep overrides);
        route_cache = retain keep r.route_cache;
        route_epoch = ((r.route_epoch + 1) % 2 ^ 64 + 1) % 2 ^ 64;
      }

  clear-prefixes :
      (ring : Epring) (overrides : Assoc RouteTarget)
      → r.backend ≡ epring_backend ring overrides
      → clear_keyword_overrides_for_prefix xxh3 r prefix ≡ cleared ring overrides
  unfolding clear_keyword_overrides_for_prefix count_epoch
  clear-prefixes ring overrides is = rw (is, clear_keyword_overrides_for_prefix) refl

  clear-hashes :
      (ring : ConsistentHashRing)
      → r.backend ≡ chring_backend ring
      → clear_keyword_overrides_for_prefix xxh3 r prefix ≡ r
  unfolding clear_keyword_overrides_for_prefix
  clear-hashes ring is =
      rw (is, clear_keyword_overrides_for_prefix) (ap (λ b. record r { backend = b }) is)

  cleared-IsCoherent :
      (ring : Epring) (overrides : Assoc RouteTarget)
      → IsCoherent xxh3 xxh3_64 r
      → r.route_epoch + 2 < 2 ^ 64
      → IsCoherent xxh3 xxh3_64 (cleared ring overrides)
  cleared-IsCoherent ring overrides v room = record {
    even = omega (arith, v.even);
    past = λ keyword c at.
        omega (arith, v.past keyword c (get-retain_before _ keyword r.route_cache c at));
    current = λ keyword c at now.
        absurd (omega (arith, v.past keyword c (get-retain_before _ keyword r.route_cache c at)));
  }

  cache-cleared :
      (ring : Epring) (overrides : Assoc RouteTarget) (keyword : Bytes)
      → get keyword (cleared ring overrides).route_cache
        ≡ (if keyword_matches_prefix xxh3 keyword prefix then none else get keyword r.route_cache)
  cache-cleared ring overrides keyword =
      elim (Bool-cases (keyword_matches_prefix xxh3 keyword prefix)) [
        | inl matches ↦ rw matches (get-retain_dropped _ keyword r.route_cache (rw matches refl))
        | inr misses ↦ rw misses (get-retain _ keyword r.route_cache (rw misses refl))
      ]

  -- On a router whose cache is coherent and whose epoch is below the largest ones,
  -- clear_keyword_overrides_for_prefix leaves a coherent cache; with the prefix ring the entries of
  -- the keywords that match the prefix are gone from it, and every other keyword, or with the hash
  -- ring every keyword, has the entry that it had.
  pub clear_keyword_overrides-IsCoherent :
      IsCoherent xxh3 xxh3_64 r
      → r.route_epoch + 2 < 2 ^ 64
      → IsCoherent xxh3 xxh3_64 (clear_keyword_overrides_for_prefix xxh3 r prefix)
        × ((keyword : Bytes)
            → get keyword (clear_keyword_overrides_for_prefix xxh3 r prefix).route_cache ≡ (
                if is_epring r.backend && keyword_matches_prefix xxh3 keyword prefix
                then none
                else get keyword r.route_cache))
  unfolding is_epring
  clear_keyword_overrides-IsCoherent v room = elim (backend_cases r.backend) [
    | prefixes ring overrides is ↦ rw (clear-prefixes ring overrides is) (
      cleared-IsCoherent ring overrides v room,
      λ keyword. rw (is, is_epring) (cache-cleared ring overrides keyword),
    )
    | hashes ring is ↦ rw (clear-hashes ring is) (v, λ keyword. rw (is, is_epring) refl)
  ]

  -- A keyword's own route after the call: gone if the keyword matches, and otherwise as before.
  own-cleared :
      (ring : Epring) (overrides : Assoc RouteTarget) (keyword : Bytes)
      → keyword_matches_prefix xxh3 keyword prefix ≡ false
      → r.backend ≡ epring_backend ring overrides
      → override_route (cleared ring overrides) keyword ≡ override_route r keyword
  unfolding override_route
  own-cleared ring overrides keyword misses is =
      rw (is, override_route) (get-retain _ keyword overrides (rw misses refl))

  own-gone :
      (ring : Epring) (overrides : Assoc RouteTarget) (keyword : Bytes)
      → keyword_matches_prefix xxh3 keyword prefix ≡ true
      → override_route (cleared ring overrides) keyword ≡ none
  unfolding override_route
  own-gone ring overrides keyword matches = get-retain_dropped _ keyword overrides (rw matches refl)

  ring_route-cleared :
      (ring : Epring) (overrides : Assoc RouteTarget) (keyword : Bytes)
      → r.backend ≡ epring_backend ring overrides
      → ring_route xxh3 xxh3_64 (cleared ring overrides) keyword ≡ ring_route xxh3 xxh3_64 r keyword
  unfolding ring_route
  ring_route-cleared ring overrides keyword is = rw (is, ring_route) refl

  resolve-cleared :
      (ring : Epring) (overrides : Assoc RouteTarget) (keyword : Bytes)
      → r.backend ≡ epring_backend ring overrides
      → resolve xxh3 xxh3_64 (cleared ring overrides) keyword ≡ (
          if keyword_matches_prefix xxh3 keyword prefix
          then ring_route xxh3 xxh3_64 r keyword
          else resolve xxh3 xxh3_64 r keyword)
  resolve-cleared ring overrides keyword is =
      elim (Bool-cases (keyword_matches_prefix xxh3 keyword prefix)) [
        | inl matches ↦ rw matches (
            resolve-ring xxh3 xxh3_64 (cleared ring overrides) keyword
              (own-gone ring overrides keyword matches)
            ∙ ring_route-cleared ring overrides keyword is)
        | inr misses ↦
            let own = own-cleared ring overrides keyword misses is in
            let shared = ring_route-cleared ring overrides keyword is in
            rw misses (resolve-same xxh3 xxh3_64 r (cleared ring overrides) keyword own shared)
      ]

  -- In the prefix ring's mode, after clear_keyword_overrides_for_prefix a keyword that matches the
  -- prefix has the ring's route, and every other keyword has the route that it had before.
  pub clear_keyword_overrides-resolve :
      (ring : Epring) (overrides : Assoc RouteTarget) (keyword : Bytes)
      → r.backend ≡ epring_backend ring overrides
      → resolve xxh3 xxh3_64 (clear_keyword_overrides_for_prefix xxh3 r prefix) keyword ≡ (
          if keyword_matches_prefix xxh3 keyword prefix
          then ring_route xxh3 xxh3_64 r keyword
          else resolve xxh3 xxh3_64 r keyword)
  clear_keyword_overrides-resolve ring overrides keyword is =
      rw (clear-prefixes ring overrides is) (resolve-cleared ring overrides keyword is)
