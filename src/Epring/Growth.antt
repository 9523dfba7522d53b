-- ===== src/Epring/Growth.antt =====
-- crates/manager/src/core/epring.rs: what an insert does to the routes and to the leaves' counters.
use mathlib.Core.Option.{some-injective}
use native.Mathlib.Decide.{ℕ_discrete}
use trust_meta.Base.{
  ℕ, ◌≤◌, ◌<◌, ◌≡◌, ◌≢◌, refl, sym, ap, ◌∙◌, inl, inr, Option, none, some, Bytes, length, List,
  get_elem?, get_elem?-map_back, [], ◌∷◌, range', done, done-injective, arith, ltb, false,
  Bool-cases, Option-cases, get_elem?-set_ne, get_elem?-set_self, get_elem?-lt,
}
use trust_meta.Epring.{
  EpringEntry, EpringRoute, EpringSplitEvent, RootSummaryChange, Epring, new, root_entry,
  split_into, split_entry, child_entry, entry_is_split, is_some, is_empty, route_key_hex,
  find_entry_index,
}
use trust_meta.Epring.Record.{saturating_add, record_insert_with_change}
use trust_meta.Epring.Shape.{
  shapes, SameShape, route_key_hex-SameShape, get_elem?-map_none, get_elem?-shapes-some,
}
use trust_meta.Epring.Valid.{IsValid, SameShape-IsValid}
use trust_meta.Epring.Split.{CanSplit, split_entry-cases, after-cases}
use trust_meta.Epring.Total.{find_entry_index-IsFound, IsFound}
use trust_meta.Epring.Update.{with_entry, with_entry-SameShape, counted}
use trust_meta.Epring.Insert.{record_insert_with_change_lem}
use trust_meta.Epring.Reroute.{child_for, next_route, split_entry-route}

abbrev counted_once : Epring → ℕ → EpringEntry → Bytes → Epring
counted_once ring k e summary = with_entry ring k (counted (λ c. saturating_add c 1) summary e)

counted_once-SameShape :
    (ring : Epring) (k : ℕ) (e : EpringEntry) (summary : Bytes)
    → get_elem? ring.entries k ≡ some e
    → SameShape ring (counted_once ring k e summary)
counted_once-SameShape ring k e summary stored =
    with_entry-SameShape ring k e (counted (λ c. saturating_add c 1) summary e) stored refl

-- What an insert that returns has done: nothing, or it has counted at an entry and, over the
-- threshold, called `split_entry`.
data Inserted (ring : Epring) (summary : Bytes) (ring' : Epring) (split : Option EpringSplitEvent)
    : Type 0 where
  unknown : ring ≡ ring' → none ≡ split → Inserted ring summary ring' split
  room :
      (k : ℕ) (e : EpringEntry)
      → get_elem? ring.entries k ≡ some e
      → ltb ring.split_threshold (saturating_add e.counter 1) ≡ false
      → counted_once ring k e summary ≡ ring'
      → none ≡ split
      → Inserted ring summary ring' split
  full :
      (k : ℕ) (e : EpringEntry)
      → get_elem? ring.entries k ≡ some e
      → split_entry (counted_once ring k e summary) k ≡ (ring', split)
      → Inserted ring summary ring' split

module _ {ring ring' : Epring} {change : Option RootSummaryChange} {split : Option EpringSplitEvent}
    (v : IsValid ring) (prefix summary : Bytes)
    (run : record_insert_with_change ring prefix summary ≡ done (ring', change, split)) where
  insert-cases-found :
      (found : Option ℕ)
      → find_entry_index ring prefix ≡ done found
      → IsFound ring found
      → Inserted ring summary ring' split
  unfolding record_insert_with_change
  insert-cases-found none at is =
      let idle : record_insert_with_change ring prefix summary ≡ done (ring, none, none) =
        rw at refl in
      let both = done-injective (sym idle ∙ run) in
      unknown (ap (λ p. p.0) both) (ap (λ p. p.2) both)
  insert-cases-found (some k) at (e, stored) =
      let lem = sym (record_insert_with_change_lem ring prefix summary k e at stored) ∙ run in
      elim (Bool-cases (ltb ring.split_threshold (saturating_add e.counter 1))) [
        | inl over ↦
            let both = done-injective (rw over at lem) in
            full k e stored (ap (λ p. (p.0, p.2)) both)
        | inr under ↦
            let both = done-injective (rw under at lem) in
            room k e stored under (ap (λ p. p.0) both) (ap (λ p. p.2) both)
      ]

  insert-cases : Inserted ring summary ring' split
  insert-cases =
      let (found, at, is) = find_entry_index-IsFound v prefix in insert-cases-found found at is

child_for-shapes :
    (ring : Epring) (key : Bytes) (event : EpringSplitEvent) (i : ℕ)
    → child_for (record ring { entries = shapes ring.entries }) key event i
      ≡ child_for ring key event i
unfolding child_for
child_for-shapes ring key event i = elim (Option-cases (get_elem? ring.entries i)) [
  | inl h ↦ rw (h, get_elem?-map_none ring.entries i h, child_for) refl
  | inr (e, h) ↦ rw (h, get_elem?-shapes-some ring.entries i e h, child_for) refl
]

-- The children of an event do not depend on counters and summaries.
child_for-SameShape :
    {ring ring' : Epring} (same : SameShape ring ring') (key : Bytes) (event : EpringSplitEvent)
    (i : ℕ)
    → child_for ring' key event i ≡ child_for ring key event i
unfolding child_for
child_for-SameShape {ring} {ring'} same key event i =
    sym (child_for-shapes ring' key event i)
    ∙ ap (λ es. child_for (record ring { entries = es }) key event i) same.entries
    ∙ child_for-shapes ring key event i

-- Where an insert with this event sends a key that was routed to `r`.
abbrev pub insert_route :
    Epring → Bytes → Option EpringSplitEvent → EpringRoute → Option EpringRoute
insert_route ring key none r = some r
insert_route ring key (some event) r = next_route ring key event r

module _ {ring : Epring} (v : IsValid ring) (key : Bytes) (r : EpringRoute) (long : 32 ≤ length key)
    (at : route_key_hex ring key ≡ done (some r)) where
  -- A change of counters and then a call of split_entry.
  counted-route :
      (after ring' : Epring) (k : ℕ) (split : Option EpringSplitEvent)
      → SameShape ring after
      → split_entry after k ≡ (ring', split)
      → route_key_hex ring' key ≡ done (insert_route ring key split r)
  counted-route after ring' k none same is = elim (split_entry-cases after k) [
    | inl stays ↦ rw (← ap (λ p. p.0) (sym stays ∙ is)) (route_key_hex-SameShape same key ∙ at)
    | inr (parent, can, splits) ↦ absurd (cc (ap (λ p. p.1) (sym splits ∙ is)))
  ]
  counted-route after ring' k (some event) same is =
      split_entry-route (SameShape-IsValid same v) k key r long is
        (route_key_hex-SameShape same key ∙ at)
      ∙ rw (child_for-SameShape same key event event.parent_entry_index) refl

-- On a valid ring, where record_insert_with_change returns without an event, every key of at least
-- 32 bytes keeps its route; where it returns an event, a key that was routed to the event's entry
-- is routed to the event's child for the key's next digit, and every other such key keeps its
-- route.
pub record_insert-route :
    {ring ring' : Epring} {change : Option RootSummaryChange} {split : Option EpringSplitEvent}
    (v : IsValid ring) (prefix summary key : Bytes) (r : EpringRoute)
    → 32 ≤ length key
    → record_insert_with_change ring prefix summary ≡ done (ring', change, split)
    → route_key_hex ring key ≡ done (some r)
    → route_key_hex ring' key ≡ done (insert_route ring key split r)
record_insert-route {ring} {ring'} {change} {split} v prefix summary key r long run at =
    elim (insert-cases v prefix summary run) [
      | unknown same is ↦ rw (← same, ← is) at
      | room k e stored under same is ↦
          rw (← same, ← is)
            (route_key_hex-SameShape (counted_once-SameShape ring k e summary stored) key ∙ at)
      | full k e stored is ↦
          counted-route v key r long at _ ring' k split
            (counted_once-SameShape ring k e summary stored) is
    ]

-- No leaf that could be split has a counter over the threshold.
abbrev pub IsBounded : Epring → Type 0
IsBounded ring =
    (k : ℕ) (e : EpringEntry)
    → get_elem? ring.entries k ≡ some e
    → e.split_child_start ≡ none
    → e.prefix_len < 32
    → e.counter ≤ ring.split_threshold

split_entry-splits :
    (ring : Epring) (k : ℕ) (parent : EpringEntry)
    → 0 < length ring.node_names
    → CanSplit ring k parent
    → split_entry ring k ≡ ((split_into ring k parent).0, some (split_into ring k parent).1)
split_entry-splits ring k parent pos can = elim (split_entry-cases ring k) [
  | inr (other, can', is) ↦
      let same : other ≡ parent = some-injective _ _ (sym can'.stored ∙ can.stored) in
      rw (← same) is
  | inl stays ↦
      let stored = can.stored in
      let unsplit = can.unsplit in
      let room = can.room in unfold split_entry entry_is_split is_some is_empty in ground arith
]

module _ {ring : Epring} (v : IsValid ring) (bounded : IsBounded ring) (k : ℕ) (e : EpringEntry)
    (summary : Bytes) (stored : get_elem? ring.entries k ≡ some e) where
  abbrev after_count : Epring
  after_count = counted_once ring k e summary

  elsewhere :
      (j : ℕ) (x : EpringEntry)
      → get_elem? after_count.entries j ≡ some x
      → j ≢ k
      → x.split_child_start ≡ none
      → x.prefix_len < 32
      → x.counter ≤ ring.split_threshold
  elsewhere j x h other leaf low =
      bounded j x (sym (get_elem?-set_ne ring.entries k j _ (λ same. other (sym same))) ∙ h) leaf
        low

  room-IsBounded :
      ltb ring.split_threshold (saturating_add e.counter 1) ≡ false → IsBounded after_count
  room-IsBounded under j x h leaf low = elim (ℕ_discrete j k) [
    | no other ↦ elsewhere j x h other leaf low
    | yes same ↦
        let is : x ≡ counted (λ c. saturating_add c 1) summary e = some-injective _ _ (
          sym h
          ∙ ap (get_elem? after_count.entries) same
          ∙ get_elem?-set_self ring.entries k _ (get_elem?-lt ring.entries k stored)) in
        rw is (ground (arith, under))
  ]

  full-IsBounded :
      {ring' : Epring} {split : Option EpringSplitEvent}
      → split_entry after_count k ≡ (ring', split)
      → IsBounded ring'
  unfolding split_into child_entry
  full-IsBounded {ring'} {split} is = elim (split_entry-cases after_count k) [
    | inl stays ↦
        let same : after_count ≡ ring' = ap (λ p. p.0) (sym stays ∙ is) in
        rw (← same) (λ j x h leaf low. elim (ℕ_discrete j k) [
          | no other ↦ elsewhere j x h other leaf low
          | yes here ↦
              let pos = v.nodes in
              let can : CanSplit after_count k x = record {
                stored = sym (ap (get_elem? after_count.entries) here) ∙ h;
                unsplit = leaf;
                room = low;
              } in
              absurd (cc (sym stays ∙ split_entry-splits after_count k x pos can))
        ])
    | inr (parent, can, splits) ↦
        let same : (split_into after_count k parent).0 ≡ ring' = ap (λ p. p.0) (sym splits ∙ is) in
        rw (← same) (λ j x h leaf low.
          elim (after-cases after_count.entries (length ring.node_names) k parent can.stored j x
            h) [
              | inl (here, is') ↦ absurd (cc (ap (λ y. y.split_child_start) is', leaf))
              | inr (inl (other, below, old)) ↦ elsewhere j x old other leaf low
              | inr (inr (d, small, place, is')) ↦ rw is' (omega arith)
            ])
  ]

-- A new ring has counted nothing.
pub new-IsBounded :
    (names : List Bytes) (split_threshold : ℕ) → IsBounded (new names split_threshold)
unfolding new root_entry
new-IsBounded [] threshold k e h leaf low = absurd (cc h)
new-IsBounded (name ∷ names) threshold k e h leaf low =
    let (index, at, is) = get_elem?-map_back _ (range' 0 _) k h in rw is (omega arith)

-- On a valid ring in which every leaf with a prefix below 32 digits has a counter of at most the
-- threshold, every such leaf of the ring that record_insert_with_change returns has one too.
pub record_insert-IsBounded :
    {ring ring' : Epring} {change : Option RootSummaryChange} {split : Option EpringSplitEvent}
    (v : IsValid ring) (prefix summary : Bytes)
    → IsBounded ring
    → record_insert_with_change ring prefix summary ≡ done (ring', change, split)
    → IsBounded ring'
record_insert-IsBounded v prefix summary bounded run = elim (insert-cases v prefix summary run) [
  | unknown same is ↦ rw (← same) bounded
  | room k e stored under same is ↦ rw (← same) (room-IsBounded v bounded k e summary stored under)
  | full k e stored is ↦ full-IsBounded v bounded k e summary stored is
]
