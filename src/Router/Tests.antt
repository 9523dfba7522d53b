-- ===== src/Router/Tests.antt =====
-- The router of routing.rs over two storagers, with digests and hashes made from lengths.
use trust_meta.Base.{
  ℕ, ◌%◌, ◌≡◌, ◌≤◌, refl, inl, inr, Bool-cases, Option, some, List, [], ◌∷◌, Bytes, length,
  replicate, done, Outcome, ascii, arith, bytes_eq, All, if◌then◌else◌, ◌>>=◌, ◌&&◌, none,
}
use mathlib.Core.Option.{some-injective}
use trust_meta.Text.{decimal, decimal_digits}
use trust_meta.Assoc.{Assoc, get, insert, remove, retain}
use trust_meta.Hex.{
  hex_nibble, hex_char, hex_digits, format_prefix, minimal_prefix_len, minimal_loop,
  root_entry_index_from_prefix, fold_index, digest_to_hex,
}
use trust_meta.Hex.Digest.{IsByte}
use trust_meta.Epring.{
  Epring, RootSummaryChange, new, is_empty, route_loop, route_key_hex, entry_prefix, node_name,
  root_entry,
}
use trust_meta.Epring.Keyword.{
  Xxh3, keyword_to_hex, keyword_matches_prefix, route_keyword as route_keyword_in_epring,
}
use trust_meta.Epring.Valid.{IsValid, new-IsValid}
use trust_meta.Router.{
  epring, RouteTarget, CachedRoute, PrefixSplitPlan, epring_backend, Router, storager_name,
  entry_target, epring_target, override_route, ring_route, route_keyword, cached_route,
  cache_insert, remember,
}
use trust_meta.Router.Backend.{
  new_with_mode, make_backend, addr_map, add_storager, remove_storager, rebuild_backend,
  count_epoch, clear_route_cache, remaining_addrs, position, remove_index, remove_name,
}
use trust_meta.Router.Record.{
  record_insert_with_changes, insert_target, addr_or_default, clear_keyword_overrides_for_prefix,
}
use trust_meta.Router.Cache.{resolve, IsCoherent, route_keyword-resolve}
use trust_meta.Router.Commit.{record_insert-route_keyword}
use trust_meta.Router.Overrides.{
  is_epring, clear_keyword_overrides-IsCoherent, clear_keyword_overrides-resolve,
}

program : Unit {0}
unfolding new format_prefix hex_digits hex_char hex_nibble minimal_prefix_len minimal_loop
    root_entry root_entry_index_from_prefix fold_index is_empty route_key_hex route_loop bytes_eq
    decimal decimal_digits get insert remove retain digest_to_hex keyword_to_hex
    route_keyword_in_epring entry_prefix node_name storager_name entry_target epring_target
    override_route ring_route route_keyword cached_route cache_insert remember new_with_mode
    make_backend addr_map add_storager remove_storager rebuild_backend count_epoch clear_route_cache
    remaining_addrs position remove_index remove_name resolve insert_target addr_or_default
program = tt

sixteen_bytes : (keyword : Bytes) → All IsByte ((length keyword % 256) ∷ replicate 15 0xab)
sixteen_bytes keyword = omega arith

abbrev toy : Xxh3
toy = record {
  digest = λ keyword. (length keyword % 256) ∷ replicate 15 0xab;
  sixteen = λ keyword. refl;
  bytes = sixteen_bytes;
}

abbrev hash : Bytes → ℕ
hash keyword = length keyword

abbrev names : List Bytes
names = ascii "storager-0" ∷ ascii "storager-1" ∷ []

abbrev addrs : List Bytes
addrs = ascii "a:1" ∷ ascii "b:2" ∷ []

abbrev ring : Epring
ring = new names 1

abbrev router : Router
router = record {
  storager_addrs = (ascii "storager-1", ascii "b:2") ∷ (ascii "storager-0", ascii "a:1") ∷ [];
  node_names = names;
  node_addrs = addrs;
  route_mode = epring;
  backend = epring_backend ring [];
  route_cache = [];
  route_epoch = 0;
}

new_router : new_with_mode hash addrs 1 epring ≡ done router
unfolding program
new_router = refl

-- After the first storager has left, the next takes the name of the one that is there.
abbrev rejoined : Outcome (List Bytes)
rejoined = do
  fewer ← remove_storager hash router (ascii "storager-0") 1
  more ← add_storager hash fewer (ascii "c:3") 1
  done more.node_names

rejoined_names : rejoined ≡ done (ascii "storager-1" ∷ ascii "storager-1" ∷ [])
unfolding program
rejoined_names = refl

router-IsCoherent : IsCoherent toy hash router
unfolding get
router-IsCoherent = record {
  even = refl;
  past = λ keyword c at. absurd (cc at);
  current = λ keyword c at. absurd (cc at);
}

abbrev target : RouteTarget
target = record { prefix = ascii "0"; node_name = ascii "storager-0"; addr = ascii "a:1" }

resolve_rust : resolve toy hash router (ascii "rust") ≡ done (some target)
unfolding program
resolve_rust = refl

route_keyword-resolve_example :
    (r' : Router) × (route_keyword toy hash router (ascii "rust") ≡ done (r', some target))
    × IsCoherent toy hash r'
route_keyword-resolve_example =
    route_keyword-resolve toy hash router (ascii "rust") (some target) router-IsCoherent
      resolve_rust

ring-IsValid : IsValid ring
ring-IsValid = new-IsValid names 1 (omega arith) (omega arith)

record_insert-route_keyword_example :
    (r' r'' : Router) × (plan : Option PrefixSplitPlan) × (changes : List RootSummaryChange)
    × (record_insert_with_changes router (ascii "rust") (ascii "0") (ascii "storager-0") (7 ∷ [])
        ≡ done (r', plan, changes))
    × (route_keyword toy hash r' (ascii "rust")
        ≡ done (r'', some (insert_target router (ascii "0") (ascii "storager-0"))))
    × IsCoherent toy hash r''
record_insert-route_keyword_example =
    record_insert-route_keyword toy hash router ring [] (ascii "rust") (ascii "0")
      (ascii "storager-0") (7 ∷ []) refl ring-IsValid refl

-- The router with keywords' own routes, of which one matches the prefix that is cleared.
abbrev own : RouteTarget
own = record { prefix = ascii "0"; node_name = ascii "storager-1"; addr = ascii "b:2" }

abbrev overrides : Assoc RouteTarget
overrides = (ascii "rust", own) ∷ (ascii "storage", own) ∷ []

abbrev moved : Router
moved = record router {
  backend = epring_backend ring overrides;
  route_cache = (ascii "rust", record { route = own; epoch = 0 }) ∷ [];
}

moved-current :
    (keyword : Bytes) (c : CachedRoute)
    → get keyword moved.route_cache ≡ some c
    → (c.epoch ≤ 0) × (resolve toy hash moved keyword ≡ done (some c.route))
unfolding get resolve override_route
moved-current keyword c at = elim (Bool-cases (bytes_eq (ascii "rust") keyword)) [
  | inr other ↦ absurd (cc (rw (other, get) at at))
  | inl same ↦
      let is = some-injective _ _ (rw (same, get) at at) in
      (rw (← is) (omega arith), rw (← is, same, get, resolve) refl)
]

moved-IsCoherent : IsCoherent toy hash moved
moved-IsCoherent = record {
  even = refl;
  past = λ keyword c at. (moved-current keyword c at).0;
  current = λ keyword c at now. (moved-current keyword c at).1;
}

clear_keyword_overrides-IsCoherent_example :
    IsCoherent toy hash (clear_keyword_overrides_for_prefix toy moved (ascii "04"))
    × ((keyword : Bytes)
        → get keyword (clear_keyword_overrides_for_prefix toy moved (ascii "04")).route_cache ≡ (
            if is_epring moved.backend && keyword_matches_prefix toy keyword (ascii "04")
            then none
            else get keyword moved.route_cache))
clear_keyword_overrides-IsCoherent_example =
    clear_keyword_overrides-IsCoherent toy hash moved (ascii "04") moved-IsCoherent (omega arith)

clear_keyword_overrides-resolve_example :
    resolve toy hash (clear_keyword_overrides_for_prefix toy moved (ascii "04")) (ascii "rust") ≡ (
      if keyword_matches_prefix toy (ascii "rust") (ascii "04")
      then ring_route toy hash moved (ascii "rust")
      else resolve toy hash moved (ascii "rust"))
clear_keyword_overrides-resolve_example =
    clear_keyword_overrides-resolve toy hash moved (ascii "04") ring overrides (ascii "rust") refl
