-- ===== src/Epring/Walk.antt =====
-- One step of the walks `route_key_hex` and `find_entry_index` make from an entry to a child.
use trust_meta.Base.{
  ℕ, suc, ◌+◌, ◌≡◌, List, none, some, get_elem?, Bytes, Option-cases, inl, inr, done, panic, arith,
}
use trust_meta.Hex.{hex_nibble}
use trust_meta.Epring.{EpringEntry, route_loop, find_loop}

-- Where a walk stands that reads its next digit at `depth e` of `bytes`.
pub data At (es : List EpringEntry) (bytes : Bytes) (depth : EpringEntry → ℕ) (i : ℕ) : Type 0 where
  gone : get_elem? es i ≡ none → At es bytes depth i
  leaf :
      (e : EpringEntry) → get_elem? es i ≡ some e → e.split_child_start ≡ none → At es bytes depth i
  short :
      (e : EpringEntry) (start : ℕ)
      → get_elem? es i ≡ some e
      → e.split_child_start ≡ some start
      → get_elem? bytes (depth e) ≡ none
      → At es bytes depth i
  down :
      (e : EpringEntry) (start byte : ℕ)
      → get_elem? es i ≡ some e
      → e.split_child_start ≡ some start
      → get_elem? bytes (depth e) ≡ some byte
      → At es bytes depth i

module _ (es : List EpringEntry) (bytes : Bytes) where
  pub at : (depth : EpringEntry → ℕ) (i : ℕ) → At es bytes depth i
  at depth i = elim (Option-cases (get_elem? es i)) [
    | inl e ↦ gone e
    | inr (x, e) ↦ elim (Option-cases x.split_child_start) [
      | inl s ↦ leaf x e s
      | inr (start, s) ↦ elim (Option-cases (get_elem? bytes (depth x))) [
        | inl b ↦ short x start e s b
        | inr (byte, b) ↦ down x start byte e s b
      ]
    ]
  ]

  module _ (fuel i : ℕ) where
    pub route_loop-gone : get_elem? es i ≡ none → route_loop es bytes (suc fuel) i ≡ done none
    unfolding route_loop
    route_loop-gone h = ground arith

    pub route_loop-leaf :
        (e : EpringEntry)
        → get_elem? es i ≡ some e
        → e.split_child_start ≡ none
        → route_loop es bytes (suc fuel) i
          ≡ done (some (record { entry_index = i; node_index = e.owner_ref }))
    unfolding route_loop
    route_loop-leaf e h s = ground arith

    pub route_loop-short :
        (e : EpringEntry) (start : ℕ)
        → get_elem? es i ≡ some e
        → e.split_child_start ≡ some start
        → get_elem? bytes e.prefix_len ≡ none
        → route_loop es bytes (suc fuel) i ≡ panic
    unfolding route_loop
    route_loop-short e start h s b = ground arith

    pub route_loop-down :
        (e : EpringEntry) (start byte : ℕ)
        → get_elem? es i ≡ some e
        → e.split_child_start ≡ some start
        → get_elem? bytes e.prefix_len ≡ some byte
        → route_loop es bytes (suc fuel) i ≡ route_loop es bytes fuel (start + hex_nibble byte)
    unfolding route_loop
    route_loop-down e start byte h s b = ground arith

  module _ (rounds depth i : ℕ) where
    pub find_loop-gone : get_elem? es i ≡ none → find_loop es bytes (suc rounds) depth i ≡ done none
    unfolding find_loop
    find_loop-gone h = ground arith

    pub find_loop-leaf :
        (e : EpringEntry)
        → get_elem? es i ≡ some e
        → e.split_child_start ≡ none
        → find_loop es bytes (suc rounds) depth i ≡ done none
    unfolding find_loop
    find_loop-leaf e h s = ground arith

    pub find_loop-short :
        (e : EpringEntry) (start : ℕ)
        → get_elem? es i ≡ some e
        → e.split_child_start ≡ some start
        → get_elem? bytes depth ≡ none
        → find_loop es bytes (suc rounds) depth i ≡ panic
    unfolding find_loop
    find_loop-short e start h s b = ground arith

    pub find_loop-down :
        (e : EpringEntry) (start byte : ℕ)
        → get_elem? es i ≡ some e
        → e.split_child_start ≡ some start
        → get_elem? bytes depth ≡ some byte
        → find_loop es bytes (suc rounds) depth i
          ≡ find_loop es bytes rounds (depth + 1) (start + hex_nibble byte)
    unfolding find_loop
    find_loop-down e start byte h s b = ground arith
