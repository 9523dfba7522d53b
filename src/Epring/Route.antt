-- ===== src/Epring/Route.antt =====
-- `route_key_hex` on a valid ring: every key reaches a leaf whose prefix it has.
use mathlib.Core.List.{map-append}
use mathlib.Core.Path.{ap₂}
use native.Mathlib.Nat.{one-le-pow}
use trust_meta.Base.{
  ℕ, zero, suc, ◌+◌, ◌≤◌, ◌<◌, ◌≡◌, refl, sym, ap, ◌∙◌, List, [], ◌∷◌, ◌++◌, map, none, some, Bytes,
  length, take, min, take-suc, take-map, get_elem?, get_elem?-lt, get_elem?-some, get_elem?-map,
  Option-cases, inl, inr, done, arith, ltb, false,
}
use trust_meta.Hex.{hex_nibble, hex_char, root_entry_index_from_prefix}
use trust_meta.Hex.Nibbles.{hex_nibble-lt, hex_nibble-hex_char, root_entry_index-prefix}
use trust_meta.Epring.{EpringEntry, EpringRoute, Epring, route_loop, route_key_hex, is_empty}
use trust_meta.Epring.Walk.{route_loop-leaf, route_loop-down}
use trust_meta.Epring.Valid.{IsValid}

-- The nibbles of the entry's prefix are the key's first nibbles.
abbrev pub IsPrefixOf : EpringEntry → Bytes → Type 0
IsPrefixOf e key = map hex_nibble e.prefix ≡ take e.prefix_len (map hex_nibble key)

-- A route to a leaf that owns the key, and to a node of the ring.
pub record IsRouted (ring : Epring) (key : Bytes) (route : EpringRoute) : Type 0 where
  pub entry : EpringEntry
  pub stored : get_elem? ring.entries route.entry_index ≡ some entry
  pub unsplit : entry.split_child_start ≡ none
  pub prefixed : IsPrefixOf entry key
  pub owned : route.node_index ≡ entry.owner_ref
  pub known : route.node_index < length ring.node_names

-- The child for the key's next digit has a prefix of the key too.
pub child-IsPrefixOf :
    (parent child : EpringEntry) (key : Bytes) (byte : ℕ)
    → child.prefix_len ≡ parent.prefix_len + 1
    → child.prefix ≡ parent.prefix ++ hex_char (hex_nibble byte) ∷ []
    → get_elem? key parent.prefix_len ≡ some byte
    → IsPrefixOf parent key
    → IsPrefixOf child key
child-IsPrefixOf parent child key byte deeper extends b p =
    let len : child.prefix_len ≡ suc parent.prefix_len = omega arith in
    rw (extends, len)
      (map-append hex_nibble parent.prefix (hex_char (hex_nibble byte) ∷ [])
        ∙ ap₂ (λ (x y : Bytes). x ++ y) p
            (ap (λ c. c ∷ []) (hex_nibble-hex_char (hex_nibble byte) (hex_nibble-lt byte)))
        ∙ sym (
            take-suc parent.prefix_len (map hex_nibble key)
              (get_elem?-map hex_nibble key parent.prefix_len b)))

is_empty-eq-false {ℓ} : {A : Type ℓ} (xs : List A) → 0 < length xs → is_empty xs ≡ false
unfolding is_empty
is_empty-eq-false [] h = elim h [ ]
is_empty-eq-false (x ∷ xs) h = refl

module _ {ring : Epring} (v : IsValid ring) (key : Bytes) (long : 32 ≤ length key) where
  -- A walk that starts at an entry with a prefix of the key ends at such a leaf.
  route_loop-IsRouted :
      (fuel i : ℕ) (e : EpringEntry)
      → get_elem? ring.entries i ≡ some e
      → IsPrefixOf e key
      → length ring.entries < fuel + i
      → (r : EpringRoute) × (route_loop ring.entries key fuel i ≡ done (some r))
        × IsRouted ring key r
  route_loop-IsRouted zero i e h p enough = absurd (omega (arith, get_elem?-lt ring.entries i h))
  route_loop-IsRouted (suc fuel) i e h p enough =
      let linked = (v.placed i e h).linked in
      elim (Option-cases e.split_child_start) [
        | inl s ↦ (
          record { entry_index = i; node_index = e.owner_ref },
          route_loop-leaf ring.entries key fuel i e h s,
          record {
            entry = e;
            stored = h;
            unsplit = s;
            prefixed = p;
            owned = refl;
            known = rw s at linked;
          },
        )
        | inr (start, s) ↦
            let (later, room, more, children) = rw s at linked in
            let (byte, b) = get_elem?-some key e.prefix_len (omega arith) in
            let d = hex_nibble byte in
            let c = children d (hex_nibble-lt byte) in
            let (r, run, routed) =
              route_loop-IsRouted fuel (start + d) c.child c.stored
                (child-IsPrefixOf e c.child key byte c.deeper c.extends b p) (omega arith) in
            (r, route_loop-down ring.entries key fuel i e start byte h s b ∙ run, routed)
      ]

  -- The root for the key's first digits has a prefix of the key.
  pub root_of :
      (i : ℕ) × (e : EpringEntry) × (root_entry_index_from_prefix key ring.root_prefix_len ≡ some i)
      × (get_elem? ring.entries i ≡ some e)
      × (e.prefix_len ≡ ring.root_prefix_len)
      × IsPrefixOf e key
  root_of =
      let r = ring.root_prefix_len in
      let shallow = v.shallow in
      let (i, found, low, printed) = root_entry_index-prefix key r (omega arith) shallow in
      let (e, h) = get_elem?-some ring.entries i (omega (arith, v.rooted)) in
      let root = v.roots i e h low in
      (
        i,
        e,
        found,
        h,
        root.depth,
        rw root.depth (root.digits ∙ printed ∙ sym (take-map hex_nibble r key)),
      )

  pub nonempty : is_empty ring.entries ≡ false
  nonempty =
      is_empty-eq-false ring.entries
        (omega (arith, v.rooted, one-le-pow ring.root_prefix_len 16 (omega arith)))

  -- `route_key_hex` is the walk from that root.
  pub route_key_hex-root :
      route_key_hex ring key ≡ route_loop ring.entries key (length ring.entries + 1) root_of.0
  unfolding route_key_hex
  route_key_hex-root =
      let shallow = v.shallow in
      let enough : ltb (min (length key) 32) ring.root_prefix_len ≡ false = ground arith in
      rw (nonempty, enough, root_of.2)

  -- `route_key_hex` returns, and returns such a route, for every key of 32 bytes or more.
  pub route_key_hex-IsRouted :
      (r : EpringRoute) × (route_key_hex ring key ≡ done (some r)) × IsRouted ring key r
  route_key_hex-IsRouted =
      let (i, e, found, h, _, p) = root_of in
      let (r, run, routed) = route_loop-IsRouted (length ring.entries + 1) i e h p (omega arith) in
      (r, route_key_hex-root ∙ run, routed)
