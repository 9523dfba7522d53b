-- ===== src/Epring/Total.antt =====
-- `find_entry_index` on a valid ring returns, and returns an entry of the ring.
use trust_meta.Base.{
  ℕ, zero, suc, ◌+◌, ◌-◌, ◌≤◌, ◌≡◌, refl, ◌∙◌, inl, inr, Option, none, some, Bytes, length, min,
  get_elem?, get_elem?-some, Option-cases, Bool-cases, done, arith, ltb,
}
use trust_meta.Hex.{hex_nibble}
use trust_meta.Hex.Nibbles.{hex_nibble-lt, root_entry_index-prefix}
use trust_meta.Epring.{EpringEntry, Epring, is_empty, find_loop, find_entry_index}
use trust_meta.Epring.Walk.{find_loop-leaf, find_loop-down}
use trust_meta.Epring.Valid.{IsValid}

-- An index that is found is that of an entry.
abbrev pub IsFound : Epring → Option ℕ → Type 0
IsFound ring none = Unit
IsFound ring (some k) = (e : EpringEntry) × (get_elem? ring.entries k ≡ some e)

module _ {ring : Epring} (v : IsValid ring) (prefix : Bytes) where
  find_loop-IsFound :
      (rounds depth i : ℕ) (e : EpringEntry)
      → get_elem? ring.entries i ≡ some e
      → depth + rounds ≤ length prefix
      → (found : Option ℕ) × (find_loop ring.entries prefix rounds depth i ≡ done found)
        × IsFound ring found
  find_loop-IsFound zero depth i e h fits = (some i, unfold find_loop in refl, (e, h))
  find_loop-IsFound (suc rounds) depth i e h fits =
      let linked = (v.placed i e h).linked in
      elim (Option-cases e.split_child_start) [
        | inl s ↦ (none, find_loop-leaf ring.entries prefix rounds depth i e h s, tt)
        | inr (start, s) ↦
            let (later, room, more, children) = rw s at linked in
            let (byte, b) = get_elem?-some prefix depth (omega arith) in
            let c = children (hex_nibble byte) (hex_nibble-lt byte) in
            let (found, run, is) =
              find_loop-IsFound rounds (depth + 1) (start + hex_nibble byte) c.child c.stored
                (omega arith) in
            (found, find_loop-down ring.entries prefix rounds depth i e start byte h s b ∙ run, is)
      ]

  -- No prefix makes the lookup panic or run on.
  pub find_entry_index-IsFound :
      (found : Option ℕ) × (find_entry_index ring prefix ≡ done found) × IsFound ring found
  find_entry_index-IsFound = elim (Bool-cases (is_empty ring.entries)) [
    | inl e ↦ (none, unfold find_entry_index in rw e, tt)
    | inr ne ↦ elim (Bool-cases (ltb (min (length prefix) 32) ring.root_prefix_len)) [
      | inl short ↦ (none, unfold find_entry_index in rw (ne, short), tt)
      | inr enough ↦
          let r = ring.root_prefix_len in
          let fits : r ≤ min (length prefix) 32 = ground arith in
          let (i, root, low, _) = root_entry_index-prefix prefix r (omega arith) v.shallow in
          let (e, h) = get_elem?-some ring.entries i (omega (arith, v.rooted)) in
          let (found, run, is) =
            find_loop-IsFound (min (length prefix) 32 - r) r i e h (omega arith) in
          (found, unfold find_entry_index in rw (ne, enough, root) run, is)
    ]
  ]
