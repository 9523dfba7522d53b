-- ===== src/Epring/Valid.antt =====
-- The representation invariant of the ring, and that `new` sets it up.
use mathlib.Core.Option.{some-injective}
use native.Mathlib.Nat.{pow-le-pow_right, mod-lt}
use mathlib.Core.Path.{subst}
use native.Mathlib.Decide.{dec_le}
use trust_meta.Base.{
  ℕ, ◌+◌, ◌%◌, ◌^◌, ◌≤◌, ◌<◌, ◌≡◌, refl, sym, ap, ◌∙◌, List, [], ◌∷◌, ◌++◌, map, Option, none, some,
  Bytes, length, length-map, length-range', range', get_elem?, get_elem?-lt, get_elem?-map,
  get_elem?-range', arith,
}
use trust_meta.Hex.{hex_nibble, hex_char, format_prefix, minimal_prefix_len}
use trust_meta.Hex.Nibbles.{minimal_prefix_len_lem, format_prefix-nibbles, length-nibbles_of}
use trust_meta.Epring.{EpringEntry, Epring, new, root_entry}
use trust_meta.Epring.Shape.{shape, shapes, get_elem?-shapes, length-shapes, SameShape}

-- The child that a split entry has for a digit carries the prefix one digit further.
pub record IsChild (es : List EpringEntry) (parent : EpringEntry) (index digit : ℕ) : Type 0 where
  pub child : EpringEntry
  pub stored : get_elem? es index ≡ some child
  pub deeper : child.prefix_len ≡ parent.prefix_len + 1
  pub extends : child.prefix ≡ parent.prefix ++ hex_char digit ∷ []

-- A leaf is owned by a node. A split entry has sixteen children further down the vector.
abbrev pub IsLinked : ℕ → List EpringEntry → ℕ → EpringEntry → Option ℕ → Type 0
IsLinked nodes es i e none = e.owner_ref < nodes
IsLinked nodes es i e (some start) =
    (i < start)
    × (start + 16 ≤ length es)
    × (e.prefix_len < 32)
    × ((digit : ℕ) → digit < 16 → IsChild es e (start + digit) digit)

pub record IsEntry (nodes root_len : ℕ) (es : List EpringEntry) (i : ℕ) (e : EpringEntry)
    : Type 0 where
  pub width : length e.prefix ≡ e.prefix_len
  pub below : root_len ≤ e.prefix_len
  pub capped : e.prefix_len ≤ 32
  pub linked : IsLinked nodes es i e e.split_child_start

-- A root carries the printed form of its index.
pub record IsRoot (root_len i : ℕ) (e : EpringEntry) : Type 0 where
  pub depth : e.prefix_len ≡ root_len
  pub digits : map hex_nibble e.prefix ≡ map hex_nibble (format_prefix i root_len)

pub record IsValid (ring : Epring) : Type 0 where
  pub nodes : 0 < length ring.node_names
  pub shallow : ring.root_prefix_len ≤ 15
  pub rooted : 16 ^ ring.root_prefix_len ≤ length ring.entries
  pub roots :
      (i : ℕ) (e : EpringEntry)
      → get_elem? ring.entries i ≡ some e
      → i < 16 ^ ring.root_prefix_len
      → IsRoot ring.root_prefix_len i e
  pub placed :
      (i : ℕ) (e : EpringEntry)
      → get_elem? ring.entries i ≡ some e
      → IsEntry (length ring.node_names) ring.root_prefix_len ring.entries i e

pub length-format_prefix :
    (value len : ℕ) → value < 16 ^ len → len ≤ 15 → length (format_prefix value len) ≡ len
length-format_prefix value len h k =
    sym (length-map (format_prefix value len) hex_nibble)
    ∙ ap length (format_prefix-nibbles value len h (omega arith))
    ∙ length-nibbles_of len value

-- As many nodes as fifteen digits can tell apart: 2 ^ 60, more than an address space holds.
minimal_prefix_len-le : (n : ℕ) → 0 < n → n ≤ 16 ^ 15 → minimal_prefix_len n ≤ 15
minimal_prefix_len-le n pos few = elim (dec_le (minimal_prefix_len n) 15) [
  | yes h ↦ h
  | no h ↦
      let large : 16 ^ 16 ≤ 16 ^ minimal_prefix_len n =
        pow-le-pow_right {n = 16} (omega arith) {i = 16} (omega arith) in
      absurd (omega (arith, minimal_prefix_len_lem n pos))
]

module _ (r n : ℕ) (size : ℕ) where
  abbrev roots_of : List EpringEntry
  roots_of = map (root_entry r n) (range' 0 size)

  length-roots_of : length roots_of ≡ size
  length-roots_of = length-map (range' 0 size) (root_entry r n) ∙ length-range' size 0

  -- The vector that `new` fills holds the root entry of each index.
  root_at :
      (i : ℕ) (e : EpringEntry)
      → get_elem? roots_of i ≡ some e
      → (i < size) × (e ≡ root_entry r n i)
  root_at i e h =
      let low : i < size = omega (arith, get_elem?-lt roots_of i h, length-roots_of) in
      (
        low,
        some-injective _ _ (
            sym h
            ∙ get_elem?-map (root_entry r n) (range' 0 size) i
                (get_elem?-range' size 0 i i low (omega arith))),
      )

root_entry-IsRoot : (r n i : ℕ) → r ≤ 15 → IsRoot r i (root_entry r n i)
unfolding root_entry
root_entry-IsRoot r n i k = record { depth = omega arith; digits = refl }

root_entry-IsEntry :
    (r n i : ℕ) (es : List EpringEntry)
    → r ≤ 15
    → i < 16 ^ r
    → 0 < n
    → IsEntry n r es i (root_entry r n i)
unfolding root_entry
root_entry-IsEntry r n i es k low pos =
    let byte : r % 2 ^ 8 ≡ r = omega arith in
    record {
      width = rw byte (length-format_prefix i r low k);
      below = omega arith;
      capped = omega arith;
      linked = mod-lt i pos;
    }

-- The ring that new makes over at least one and at most 16 ^ 15 nodes is valid.
pub new-IsValid :
    (names : List Bytes) (split_threshold : ℕ)
    → 0 < length names
    → length names ≤ 16 ^ 15
    → IsValid (new names split_threshold)
unfolding new
new-IsValid [] split_threshold pos few = elim pos [ ]
new-IsValid (name ∷ names) split_threshold pos few =
    let n = length (name ∷ names) in
    let r = minimal_prefix_len n in
    let shallow = minimal_prefix_len-le n pos few in
    record {
      nodes = pos;
      shallow = shallow;
      rooted = omega (arith, length-roots_of r n (16 ^ r));
      roots = λ i e h _. rw (root_at r n (16 ^ r) i e h).1 (root_entry-IsRoot r n i shallow);
      placed = λ i e h.
          let (low, is) = root_at r n (16 ^ r) i e h in
          rw is (root_entry-IsEntry r n i _ shallow low pos);
    }

-- Operations that change counters and summaries alone keep the invariant.
module _ (es es' : List EpringEntry) (same : shapes es' ≡ shapes es) where
  IsChild-shape :
      (e e' : EpringEntry) (index digit : ℕ)
      → shape e' ≡ shape e
      → IsChild es e index digit
      → IsChild es' e' index digit
  IsChild-shape e e' index digit s c =
      let (c', stored, s') = get_elem?-shapes es' es index (sym same) c.stored in
      record {
        child = c';
        stored = stored;
        deeper = sym (ap (λ x. x.prefix_len) s') ∙ c.deeper ∙ sym (ap (λ x. x.prefix_len + 1) s);
        extends =
            sym (ap (λ x. x.prefix) s')
            ∙ c.extends
            ∙ sym (ap (λ x. x.prefix ++ hex_char digit ∷ []) s);
      }

  IsLinked-shape :
      (nodes i : ℕ) (e e' : EpringEntry) (o : Option ℕ)
      → shape e' ≡ shape e
      → IsLinked nodes es i e o
      → IsLinked nodes es' i e' o
  IsLinked-shape nodes i e e' none s h = rw (ap (λ x. x.owner_ref) s) h
  IsLinked-shape nodes i e e' (some start) s (later, room, more, children) = (
    later,
    rw (length-shapes es es' same) room,
    rw (ap (λ x. x.prefix_len) s) more,
    λ d h. IsChild-shape e e' (start + d) d s (children d h),
  )

  IsEntry-shape :
      (nodes r i : ℕ) (e e' : EpringEntry)
      → shape e' ≡ shape e
      → IsEntry nodes r es i e
      → IsEntry nodes r es' i e'
  IsEntry-shape nodes r i e e' s h =
      let len = ap (λ x. x.prefix_len) s in
      record {
        width = ap (λ x. length x.prefix) s ∙ h.width ∙ sym len;
        below = rw len h.below;
        capped = rw len h.capped;
        linked =
            subst (λ o. IsLinked nodes es' i e' o) (sym (ap (λ x. x.split_child_start) s))
              (IsLinked-shape nodes i e e' e.split_child_start s h.linked);
      }

pub SameShape-IsValid : {ring ring' : Epring} → SameShape ring ring' → IsValid ring → IsValid ring'
SameShape-IsValid {ring} {ring'} same v =
    let es = ring.entries in
    record {
      nodes = rw same.node_names v.nodes;
      shallow = rw same.root_prefix_len v.shallow;
      rooted = rw (same.root_prefix_len, length-shapes es ring'.entries same.entries) v.rooted;
      roots = λ i e' h' low.
          let (e, h, s) = get_elem?-shapes es ring'.entries i same.entries h' in
          let root = v.roots i e h (rw same.root_prefix_len at low) in
          rw same.root_prefix_len (record {
            depth = ap (λ x. x.prefix_len) s ∙ root.depth;
            digits = ap (λ x. map hex_nibble x.prefix) s ∙ root.digits;
          });
      placed = λ i e' h'.
          let (e, h, s) = get_elem?-shapes es ring'.entries i same.entries h' in
          rw (same.root_prefix_len, same.node_names)
            (IsEntry-shape es ring'.entries same.entries _ _ i e e' s (v.placed i e h));
    }
