-- ===== src/Epring/Find.antt =====
-- `find_entry_index` at the prefix of a route comes back to the entry of the route.
use mathlib.Core.Option.{some-injective}
use trust_meta.Base.{
  ℕ, zero, suc, ◌+◌, ◌-◌, ◌≤◌, ◌<◌, ◌≡◌, sym, ap, ◌∙◌, map, some, Bytes, length, take, min,
  take-map, take-take, get_elem?, get_elem?-some, get_elem?-map, get_elem?-take, Option-cases, inl,
  inr, done, done-injective, arith, ltb, false,
}
use trust_meta.Hex.{hex_nibble, root_entry_index_from_prefix}
use trust_meta.Hex.Nibbles.{hex_nibble-lt, root_entry_index_congr}
use trust_meta.Epring.{
  EpringEntry, EpringRoute, Epring, route_loop, route_key_hex, find_loop, find_entry_index,
  entry_prefix,
}
use trust_meta.Epring.Walk.{route_loop-leaf, route_loop-down, find_loop-down}
use trust_meta.Epring.Valid.{IsValid}
use trust_meta.Epring.Route.{
  IsPrefixOf, root_of, nonempty, route_key_hex-root, route_key_hex-IsRouted,
}

-- The key and the prefix have one nibble at a place before the prefix ends.
same_nibble :
    (t : EpringEntry) (key : Bytes) (i a b : ℕ)
    → IsPrefixOf t key
    → i < t.prefix_len
    → get_elem? t.prefix i ≡ some a
    → get_elem? key i ≡ some b
    → hex_nibble a ≡ hex_nibble b
same_nibble t key i a b p low ha hb = some-injective _ _ (
    sym (get_elem?-map hex_nibble t.prefix i ha)
    ∙ ap (λ (ns : Bytes). get_elem? ns i) p
    ∙ get_elem?-take t.prefix_len (map hex_nibble key) i low
    ∙ get_elem?-map hex_nibble key i hb)

module _ {ring : Epring} (v : IsValid ring) (key : Bytes) (long : 32 ≤ length key) (r : EpringRoute)
    (t : EpringEntry) (stored : get_elem? ring.entries r.entry_index ≡ some t)
    (prefixed : IsPrefixOf t key) where
  -- The walk by the prefix follows the walk by the key to its end.
  find_loop-route :
      (fuel i : ℕ) (e : EpringEntry)
      → get_elem? ring.entries i ≡ some e
      → route_loop ring.entries key fuel i ≡ done (some r)
      → (e.prefix_len ≤ t.prefix_len)
        × (find_loop ring.entries t.prefix (t.prefix_len - e.prefix_len) e.prefix_len i
            ≡ done (some r.entry_index))
  find_loop-route zero i e h run = absurd (unfold route_loop in cc)
  find_loop-route (suc fuel) i e h run =
      let linked = (v.placed i e h).linked in
      elim (Option-cases e.split_child_start) [
        | inl s ↦
            let here : i ≡ r.entry_index = cc (route_loop-leaf ring.entries key fuel i e h s) in
            let same : e ≡ t =
              some-injective _ _ (sym h ∙ ap (get_elem? ring.entries) here ∙ stored) in
            let none_left : t.prefix_len - e.prefix_len ≡ 0 = rw same (omega arith) in
            (rw same (omega arith), rw none_left (unfold find_loop in cc))
        | inr (start, s) ↦
            let (later, room, more, children) = rw s at linked in
            let (byte, b) = get_elem?-some key e.prefix_len (omega arith) in
            let c = children (hex_nibble byte) (hex_nibble-lt byte) in
            let (le, found) =
              find_loop-route fuel (start + hex_nibble byte) c.child c.stored
                (sym (route_loop-down ring.entries key fuel i e start byte h s b) ∙ run) in
            let deeper = c.deeper in
            let width = (v.placed _ t stored).width in
            let (byte', b') = get_elem?-some t.prefix e.prefix_len (omega arith) in
            let rounds : t.prefix_len - e.prefix_len ≡ suc (t.prefix_len - c.child.prefix_len) =
              omega arith in
            let same = same_nibble t key e.prefix_len byte' byte prefixed (omega arith) b' b in
            (
              omega arith,
              rw rounds (
                  find_loop-down ring.entries t.prefix _ e.prefix_len i e start byte' h s b'
                  ∙ rw (same, ← deeper) found),
            )
      ]

  -- The root that the prefix selects is the key's root.
  same_root :
      root_entry_index_from_prefix t.prefix ring.root_prefix_len ≡ some (root_of v key long).0
  same_root =
      let r_len = ring.root_prefix_len in
      let placed = v.placed _ t stored in
      let width = placed.width in
      let below = placed.below in
      let shallow = v.shallow in
      root_entry_index_congr t.prefix key r_len (omega arith) (omega arith) (omega arith) (
        sym (take-map hex_nibble r_len t.prefix)
        ∙ ap (take r_len) prefixed
        ∙ take-take r_len t.prefix_len (map hex_nibble key) below
        ∙ take-map hex_nibble r_len key)
      ∙ (root_of v key long).2

  pub find_entry_index-target :
      route_key_hex ring key ≡ done (some r)
      → find_entry_index ring t.prefix ≡ done (some r.entry_index)
  unfolding find_entry_index
  find_entry_index-target run =
      let (i, e, _, h, depth, _) = root_of v key long in
      let placed = v.placed _ t stored in
      let capped : min (length t.prefix) 32 ≡ t.prefix_len =
        omega (arith, placed.width, placed.capped) in
      let enough : ltb t.prefix_len ring.root_prefix_len ≡ false = ground (arith, placed.below) in
      let found =
        (find_loop-route (length ring.entries + 1) i e h
          (sym (route_key_hex-root v key long) ∙ run)).1 in
      rw (nonempty v key long, capped, enough, same_root, capped) (rw depth at found)

-- On a valid ring, where a key of at least 32 bytes is routed to an entry, find_entry_index at that
-- entry's prefix returns the same entry.
pub find_entry_index-route :
    {ring : Epring} (v : IsValid ring) (key : Bytes) (r : EpringRoute) (prefix : Bytes)
    → 32 ≤ length key
    → route_key_hex ring key ≡ done (some r)
    → entry_prefix ring r.entry_index ≡ some prefix
    → find_entry_index ring prefix ≡ done (some r.entry_index)
unfolding entry_prefix
find_entry_index-route {ring} v key r prefix long run named =
    let (r', run', routed) = route_key_hex-IsRouted v key long in
    let same : r' ≡ r = some-injective _ _ (done-injective (sym run' ∙ run)) in
    let stored : get_elem? ring.entries r.entry_index ≡ some routed.entry =
      rw same at routed.stored in
    let named' : prefix ≡ routed.entry.prefix = cc stored in
    rw named' (find_entry_index-target v key long r routed.entry stored routed.prefixed run)
