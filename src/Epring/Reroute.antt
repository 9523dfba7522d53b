-- ===== src/Epring/Reroute.antt =====
-- What a split does to the routes: keys of the split entry go to its children, others stay.
use mathlib.Core.Option.{some-injective}
use native.Mathlib.Decide.{ℕ_discrete}
use trust_meta.Base.{
  ℕ, zero, suc, ◌+◌, ◌≤◌, ◌≡◌, ◌≢◌, refl, sym, ap, ◌∙◌, inl, inr, List, map, Option, none, some,
  Bytes, length, range', get_elem?, get_elem?-lt, get_elem?-some, get_elem?-map, get_elem?-range',
  done, done-injective, arith, if◌then◌else◌, ◌==◌, Option-cases, true, false,
}
use trust_meta.Hex.{hex_nibble}
use trust_meta.Hex.Nibbles.{hex_nibble-lt}
use trust_meta.Epring.{
  EpringEntry, EpringRoute, EpringSplitEvent, Epring, route_loop, route_key_hex, child_entry,
  child_route, split_into, split_entry,
}
use trust_meta.Epring.Walk.{
  gone, leaf, short, down, at, route_loop-gone, route_loop-leaf, route_loop-short, route_loop-down,
}
use trust_meta.Epring.Valid.{IsValid}
use trust_meta.Epring.Route.{root_of, route_key_hex-root}
use trust_meta.Epring.Split.{
  after, length-after, after-parent, after-old, after-child, split_into-IsValid, CanSplit,
  split_entry-cases,
}

-- More fuel does not change what a walk returns.
route_loop_mono :
    (es : List EpringEntry) (key : Bytes) (f g i : ℕ) (x : Option EpringRoute)
    → f ≤ g
    → route_loop es key f i ≡ done x
    → route_loop es key g i ≡ done x
route_loop_mono es key zero g i x h run = absurd (unfold route_loop in cc)
route_loop_mono es key (suc f) zero i x h run = elim h [ ]
route_loop_mono es key (suc f) (suc g) i x h run = elim (at es key (λ e. e.prefix_len) i) [
  | gone e ↦ route_loop-gone es key g i e ∙ sym (route_loop-gone es key f i e) ∙ run
  | leaf e s u ↦ route_loop-leaf es key g i e s u ∙ sym (route_loop-leaf es key f i e s u) ∙ run
  | short e start s u b ↦
      route_loop-short es key g i e start s u b
      ∙ sym (route_loop-short es key f i e start s u b)
      ∙ run
  | down e start byte s u b ↦
      route_loop-down es key g i e start byte s u b
      ∙ route_loop_mono es key f g (start + hex_nibble byte) x (omega arith)
          (sym (route_loop-down es key f i e start byte s u b) ∙ run)
]

module _ {ring : Epring} (v : IsValid ring) (key : Bytes) (long : 32 ≤ length key) (k : ℕ)
    (parent : EpringEntry) (can : CanSplit ring k parent) (byte : ℕ)
    (digit : get_elem? key parent.prefix_len ≡ some byte) where
  abbrev es : List EpringEntry
  es = ring.entries

  abbrev nodes : ℕ
  nodes = length ring.node_names

  abbrev es' : List EpringEntry
  es' = after es nodes k parent

  -- Where a key goes that went to `r` before the split.
  abbrev moved : EpringRoute → EpringRoute
  moved r = if r.entry_index == k then child_route parent nodes (length es) (hex_nibble byte) else r

  -- At the split entry the walk goes one step further.
  walk-parent :
      (fuel : ℕ)
      → route_loop es' key (suc (suc fuel)) k
        ≡ done (some (child_route parent nodes (length es) (hex_nibble byte)))
  unfolding child_route child_entry
  walk-parent fuel =
      let d = hex_nibble byte in
      route_loop-down es' key (suc fuel) k _ (length es) byte
        (after-parent es nodes k parent can.stored) refl digit
      ∙ route_loop-leaf es' key fuel (length es + d) (child_entry parent nodes d)
          (after-child es nodes k parent can.stored d (hex_nibble-lt byte)) refl

  route_loop-moved :
      (fuel i : ℕ) (e : EpringEntry) (r : EpringRoute)
      → get_elem? es i ≡ some e
      → route_loop es key fuel i ≡ done (some r)
      → route_loop es' key (suc fuel) i ≡ done (some (moved r))
  route_loop-moved zero i e r h run = absurd (unfold route_loop in cc)
  route_loop-moved (suc fuel) i e r h run = elim (Option-cases e.split_child_start) [
    | inl s ↦
        let here : record { entry_index = i; node_index = e.owner_ref } ≡ r =
          some-injective _ _ (done-injective (sym (route_loop-leaf es key fuel i e h s) ∙ run)) in
        elim (ℕ_discrete i k) [
          | yes same ↦
              let is : (r.entry_index == k) ≡ true = rw (← here) (ground arith) in
              rw (is, same) (walk-parent fuel)
          | no other ↦
              let isnt : (r.entry_index == k) ≡ false = rw (← here) (ground arith) in
              rw isnt (
                route_loop-leaf es' key (suc fuel) i e
                  (after-old es nodes k parent can.stored i other (get_elem?-lt es i h) ∙ h) s
                ∙ ap (λ x. done (some x)) here)
        ]
    | inr (start, s) ↦
        let linked = (v.placed i e h).linked in
        let (later, room, more, children) = rw s at linked in
        let (b, at_depth) = get_elem?-some key e.prefix_len (omega arith) in
        let c = children (hex_nibble b) (hex_nibble-lt b) in
        let other : i ≢ k = λ same.
          let is : e ≡ parent = some-injective _ _ (sym h ∙ ap (get_elem? es) same ∙ can.stored) in
          cc (s, is, can.unsplit) in
        route_loop-down es' key (suc fuel) i e start b
          (after-old es nodes k parent can.stored i other (get_elem?-lt es i h) ∙ h) s at_depth
        ∙ route_loop-moved fuel (start + hex_nibble b) c.child r c.stored
            (sym (route_loop-down es key fuel i e start b h s at_depth) ∙ run)
  ]

  route_key_hex-moved :
      (r : EpringRoute)
      → route_key_hex ring key ≡ done (some r)
      → route_key_hex (split_into ring k parent).0 key ≡ done (some (moved r))
  unfolding split_into
  route_key_hex-moved r run =
      let v' = split_into-IsValid v k parent can.stored can.room in
      let (i, e, found, h, _, _) = root_of v key long in
      let same : (root_of v' key long).0 ≡ i =
        some-injective _ _ (sym (root_of v' key long).2 ∙ found) in
      let walk =
        route_loop-moved (length es + 1) i e r h (sym (route_key_hex-root v key long) ∙ run) in
      route_key_hex-root v' key long
      ∙ ap (route_loop es' key (length es' + 1)) same
      ∙ route_loop_mono es' key (suc (length es + 1)) (length es' + 1) i _
          (omega (arith, length-after es nodes k parent can.stored)) walk

-- The child route of a split event for the key's digit behind the entry's prefix.
unfoldable pub child_for : Epring → Bytes → EpringSplitEvent → ℕ → Option EpringRoute
child_for ring key event entry_index = elim (get_elem? ring.entries entry_index) [
  | none ↦ none
  | some entry ↦ elim (get_elem? (map hex_nibble key) entry.prefix_len) [
    | none ↦ none
    | some digit ↦ get_elem? event.child_routes digit
  ]
]

-- Where the event sends a key that was routed to `r`.
abbrev pub next_route : Epring → Bytes → EpringSplitEvent → EpringRoute → Option EpringRoute
next_route ring key event r =
    if r.entry_index == event.parent_entry_index
    then child_for ring key event event.parent_entry_index
    else some r

module _ {ring : Epring} (v : IsValid ring) (key : Bytes) (long : 32 ≤ length key) (k : ℕ)
    (parent : EpringEntry) (can : CanSplit ring k parent) where
  child_for-parent :
      (byte : ℕ)
      → get_elem? key parent.prefix_len ≡ some byte
      → child_for ring key (split_into ring k parent).1 k
        ≡ some (child_route parent (length ring.node_names) (length ring.entries) (hex_nibble byte))
  unfolding split_into child_for
  child_for-parent byte digit =
      let d = hex_nibble byte in
      let route = child_route parent (length ring.node_names) (length ring.entries) in
      rw (can.stored, get_elem?-map hex_nibble key parent.prefix_len digit, child_for)
        (get_elem?-map route (range' 0 16) d
          (get_elem?-range' 16 0 d d (hex_nibble-lt byte) (omega arith)))

  parent_index : (split_into ring k parent).1.parent_entry_index ≡ k
  unfolding split_into
  parent_index = refl

  split_into-route :
      (r : EpringRoute)
      → route_key_hex ring key ≡ done (some r)
      → route_key_hex (split_into ring k parent).0 key
        ≡ done (next_route ring key (split_into ring k parent).1 r)
  split_into-route r run =
      let room = can.room in
      let (byte, digit) = get_elem?-some key parent.prefix_len (omega arith) in
      route_key_hex-moved v key long k parent can byte digit r run
      ∙ elim (ℕ_discrete r.entry_index k) [
        | yes same ↦
            let is : (r.entry_index == k) ≡ true = ground arith in
            rw (is, parent_index, is, child_for-parent byte digit)
        | no other ↦
            let isnt : (r.entry_index == k) ≡ false = ground arith in rw (isnt, parent_index, isnt)
      ]

-- On a valid ring, after split_entry of an entry has returned an event, a key of at least 32 bytes
-- that was routed to that entry is routed to the child of the event for the key's next digit, and a
-- key that was routed to another entry is routed as before.
pub split_entry-route :
    {ring : Epring} {ring' : Epring} {event : EpringSplitEvent} (v : IsValid ring) (k : ℕ)
    (key : Bytes) (r : EpringRoute)
    → 32 ≤ length key
    → split_entry ring k ≡ (ring', some event)
    → route_key_hex ring key ≡ done (some r)
    → route_key_hex ring' key ≡ done (next_route ring key event r)
split_entry-route {ring} {ring'} {event} v k key r long split run =
    elim (split_entry-cases ring k) [
      | inl same ↦ absurd (cc (sym same ∙ split))
      | inr (parent, can, is) ↦
          let both = sym is ∙ split in
          let here : (split_into ring k parent).0 ≡ ring' = ap (λ p. p.0) both in
          let there : (split_into ring k parent).1 ≡ event =
            some-injective _ _ (ap (λ p. p.1) both) in
          rw (← here, ← there) (split_into-route v key long k parent can r run)
    ]
