-- ===== src/Epring/Split.antt =====
-- `split_entry`: the entries after a split, and the invariant.
use mathlib.Core.Option.{some-injective}
use native.Mathlib.Nat.{mod-lt}
use native.Mathlib.Decide.{ℕ_discrete, dec_lt}
use trust_meta.Base.{
  ℕ, ◌+◌, ◌-◌, ◌%◌, ◌^◌, ◌<◌, ◌≡◌, ◌≢◌, refl, sym, ap, ◌∙◌, ◌⊎◌, inl, inr, List, [], ◌∷◌, ◌++◌, map,
  Option, none, some, length, length-append, length-set, range', get_elem?, set, get_elem?-lt,
  get_elem?-map, get_elem?-range', get_elem?-set_self, get_elem?-set_ne, get_elem?-append_left,
  get_elem?-append_right, arith, Option-cases, Bool-cases, leb,
}
use trust_meta.Hex.{hex_char}
use trust_meta.Epring.{EpringEntry, Epring, is_empty, child_entry, split_into, split_entry}
use trust_meta.Epring.Valid.{IsChild, IsLinked, IsEntry, IsValid}

-- The vector after a split of the entry `parent` at `k`.
abbrev pub after : List EpringEntry → ℕ → ℕ → EpringEntry → List EpringEntry
after es nodes k parent =
    set (es ++ map (child_entry parent nodes) (range' 0 16)) k
      (record parent { owner_ref = length es; split_child_start = some (length es) })

module _ (es : List EpringEntry) (nodes k : ℕ) (parent : EpringEntry)
    (stored : get_elem? es k ≡ some parent) where
  below : k < length es
  below = get_elem?-lt es k stored

  pub length-after : length (after es nodes k parent) ≡ length es + 16
  length-after =
      length-set (es ++ map (child_entry parent nodes) (range' 0 16)) k _
      ∙ length-append es (map (child_entry parent nodes) (range' 0 16))

  pub after-parent :
      get_elem? (after es nodes k parent) k
      ≡ some (record parent { owner_ref = length es; split_child_start = some (length es) })
  after-parent =
      get_elem?-set_self (es ++ map (child_entry parent nodes) (range' 0 16)) k _
        (omega (arith, below, length-append es (map (child_entry parent nodes) (range' 0 16))))

  pub after-old :
      (j : ℕ) → j ≢ k → j < length es → get_elem? (after es nodes k parent) j ≡ get_elem? es j
  after-old j other low =
      get_elem?-set_ne (es ++ map (child_entry parent nodes) (range' 0 16)) k j _
        (λ e. other (sym e))
      ∙ get_elem?-append_left es (map (child_entry parent nodes) (range' 0 16)) j low

  pub after-child :
      (d : ℕ)
      → d < 16
      → get_elem? (after es nodes k parent) (length es + d) ≡ some (child_entry parent nodes d)
  after-child d low =
      let children = map (child_entry parent nodes) (range' 0 16) in
      get_elem?-set_ne (es ++ children) k (length es + d) _ (omega (arith, below))
      ∙ get_elem?-append_right es children (length es + d) d refl
      ∙ get_elem?-map (child_entry parent nodes) (range' 0 16) d
          (get_elem?-range' 16 0 d d low (omega arith))

  -- The entry at a place after the split is the parent, an old one or a child.
  pub after-cases :
      (j : ℕ) (x : EpringEntry)
      → get_elem? (after es nodes k parent) j ≡ some x
      → ((j ≡ k)
          × (x ≡ record parent { owner_ref = length es; split_child_start = some (length es) }))
        ⊎ (((j ≢ k) × (j < length es) × (get_elem? es j ≡ some x))
            ⊎ ((d : ℕ) × (d < 16) × (j ≡ length es + d) × (x ≡ child_entry parent nodes d)))
  after-cases j x h = elim (ℕ_discrete j k) [
    | yes e ↦ inl (e, some-injective _ _ (sym h ∙ rw e after-parent))
    | no other ↦ elim (dec_lt j (length es)) [
      | yes low ↦ inr (inl (other, low, sym (after-old j other low) ∙ h))
      | no high ↦
          let d = j - length es in
          let small : d < 16 =
            omega (arith, get_elem?-lt (after es nodes k parent) j h, length-after) in
          let place : j ≡ length es + d = omega arith in
          inr (
            inr (
              d,
              small,
              place,
              some-injective _ _
                  (sym h ∙ ap (get_elem? (after es nodes k parent)) place ∙ after-child d small),
            ))
    ]
  ]

  -- A child of an entry keeps its prefix, also where it is the entry that is split.
  IsChild-after :
      (e : EpringEntry) (index digit : ℕ)
      → IsChild es e index digit
      → IsChild (after es nodes k parent) e index digit
  IsChild-after e index digit c = elim (ℕ_discrete index k) [
    | no other ↦ record {
      child = c.child;
      stored = after-old index other (get_elem?-lt es index c.stored) ∙ c.stored;
      deeper = c.deeper;
      extends = c.extends;
    }
    | yes same ↦
        let is : c.child ≡ parent = some-injective _ _ (sym c.stored ∙ rw same stored) in
        record {
          child = record parent { owner_ref = length es; split_child_start = some (length es) };
          stored = rw same after-parent;
          deeper = sym (ap (λ x. x.prefix_len) is) ∙ c.deeper;
          extends = sym (ap (λ x. x.prefix) is) ∙ c.extends;
        }
  ]

  IsLinked-after :
      (j : ℕ) (e : EpringEntry) (o : Option ℕ)
      → IsLinked nodes es j e o
      → IsLinked nodes (after es nodes k parent) j e o
  IsLinked-after j e none h = h
  IsLinked-after j e (some start) (later, room, more, children) = (
    later,
    rw length-after (omega arith),
    more,
    λ d h. IsChild-after e (start + d) d (children d h),
  )

  IsEntry-after :
      (r j : ℕ) (e : EpringEntry)
      → IsEntry nodes r es j e
      → IsEntry nodes r (after es nodes k parent) j e
  IsEntry-after r j e p = record {
    width = p.width;
    below = p.below;
    capped = p.capped;
    linked = IsLinked-after j e e.split_child_start p.linked;
  }

  module _ (pos : 0 < nodes) (room : parent.prefix_len < 32) where
    one_more : (parent.prefix_len + 1) % 2 ^ 8 ≡ parent.prefix_len + 1
    one_more = omega arith

    parent-IsEntry :
        (r : ℕ)
        → IsEntry nodes r es k parent
        → IsEntry nodes r
            (after es nodes k parent)
            k
            (record parent { owner_ref = length es; split_child_start = some (length es) })
    parent-IsEntry r p = record {
      width = p.width;
      below = p.below;
      capped = p.capped;
      linked = (
        below,
        rw length-after (omega arith),
        room,
        λ d low. record {
          child = child_entry parent nodes d;
          stored = after-child d low;
          deeper = unfold child_entry in one_more;
          extends = unfold child_entry in refl;
        },
      );
    }

    child-IsEntry :
        (r j d : ℕ)
        → IsEntry nodes r es k parent
        → IsEntry nodes r (after es nodes k parent) j (child_entry parent nodes d)
    unfolding child_entry
    child-IsEntry r j d p =
        let width = p.width in
        let below_root = p.below in
        record {
          width = length-append parent.prefix (hex_char d ∷ []) ∙ rw one_more (omega arith);
          below = omega arith;
          capped = omega arith;
          linked = mod-lt (parent.owner_ref + d) pos;
        }

    after-IsEntry :
        (r : ℕ)
        → ((j : ℕ) (e : EpringEntry) → get_elem? es j ≡ some e → IsEntry nodes r es j e)
        → (j : ℕ) (x : EpringEntry) → get_elem? (after es nodes k parent) j ≡ some x
        → IsEntry nodes r (after es nodes k parent) j x
    after-IsEntry r placed j x h = elim (after-cases j x h) [
      | inl (here, is) ↦ rw (here, is) (parent-IsEntry r (placed k parent stored))
      | inr (inl (other, low, old)) ↦ IsEntry-after r j x (placed j x old)
      | inr (inr (d, low, place, is)) ↦ rw is (child-IsEntry r j d (placed k parent stored))
    ]

-- A split of a leaf that has room for one more digit keeps the invariant.
pub split_into-IsValid :
    {ring : Epring} (v : IsValid ring) (k : ℕ) (parent : EpringEntry)
    → get_elem? ring.entries k ≡ some parent
    → parent.prefix_len < 32
    → IsValid (split_into ring k parent).0
unfolding split_into
split_into-IsValid {ring} v k parent stored room =
    let es = ring.entries in
    let nodes = length ring.node_names in
    let rooted = v.rooted in
    record {
      nodes = v.nodes;
      shallow = v.shallow;
      rooted = omega (arith, length-after es nodes k parent stored);
      roots = λ i x h low. elim (after-cases es nodes k parent stored i x h) [
        | inl (here, is) ↦
            let root = v.roots k parent stored (rw here at low) in
            rw (is, here) (record { depth = root.depth; digits = root.digits })
        | inr (inl (_, _, old)) ↦ v.roots i x old low
        | inr (inr (d, _, place, _)) ↦ absurd (omega arith)
      ];
      placed = after-IsEntry es nodes k parent stored v.nodes room ring.root_prefix_len v.placed;
    }

-- What `split_entry` checks before it splits.
pub record CanSplit (ring : Epring) (k : ℕ) (parent : EpringEntry) : Type 0 where
  pub stored : get_elem? ring.entries k ≡ some parent
  pub unsplit : parent.split_child_start ≡ none
  pub room : parent.prefix_len < 32

-- `split_entry` leaves the ring as it is, or splits a leaf with room for one more digit.
pub split_entry-cases :
    (ring : Epring) (k : ℕ)
    → (split_entry ring k ≡ (ring, none))
      ⊎ ((parent : EpringEntry) × CanSplit ring k parent
          × (split_entry ring k
              ≡ ((split_into ring k parent).0, some (split_into ring k parent).1)))
split_entry-cases ring k = elim (Option-cases (get_elem? ring.entries k)) [
  | inl h ↦ inl (unfold split_entry in ground arith)
  | inr (parent, h) ↦ elim (Option-cases parent.split_child_start) [
    | inr (start, s) ↦ inl (unfold split_entry in ground arith)
    | inl s ↦ elim (Bool-cases (is_empty ring.node_names)) [
      | inl e ↦ inl (unfold split_entry in ground arith)
      | inr ne ↦ elim (Bool-cases (leb 32 parent.prefix_len)) [
        | inl full ↦ inl (unfold split_entry in ground arith)
        | inr room ↦ inr (
          parent,
          record { stored = h; unsplit = s; room = ground arith },
          unfold split_entry in ground arith,
        )
      ]
    ]
  ]
]

-- On a valid ring split_entry returns a valid ring for every index, whether it splits or not.
pub split_entry-IsValid : {ring : Epring} (k : ℕ) → IsValid ring → IsValid (split_entry ring k).0
split_entry-IsValid {ring} k v = elim (split_entry-cases ring k) [
  | inl same ↦ rw same v
  | inr (parent, can, run) ↦ rw run (split_into-IsValid v k parent can.stored can.room)
]
