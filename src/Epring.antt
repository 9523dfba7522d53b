-- ===== src/Epring.antt =====
-- crates/manager/src/core/epring.rs: the expandable prefix ring. The entries form a forest in one
-- vector: `16 ^ root_prefix_len` roots, and sixteen consecutive children for each split entry.
pub mod Record
pub mod Keyword
pub mod Walk
pub mod Shape
pub mod Valid
pub mod Route
pub mod Find
pub mod Split
pub mod Reroute
pub mod Update
pub mod Total
pub mod Insert
pub mod Growth
mod Tests
pub mod Matching
use trust_meta.Base.{
  ℕ, zero, suc, ◌+◌, ◌-◌, ◌%◌, ◌^◌, min, Bool, true, false, ◌||◌, List, [], ◌∷◌, ◌++◌, map, Option,
  none, some, length, get_elem?, set, range', ltb, leb, if◌then◌else◌, Bytes, Outcome, done, panic,
  diverge,
}
use trust_meta.Hex.{
  hex_nibble, hex_char, format_prefix, minimal_prefix_len, root_entry_index_from_prefix,
  max_prefix_len,
}

pub record EpringEntry : Type 0 where
  pub prefix : Bytes
  pub prefix_len : ℕ
  pub counter : ℕ
  -- A node's index, or the first child's once the entry is split.
  pub owner_ref : ℕ
  pub split_child_start : Option ℕ
  pub root_summary : Bytes

pub record EpringRoute : Type 0 where
  pub entry_index : ℕ
  pub node_index : ℕ

pub record EpringSplitEvent : Type 0 where
  pub parent_entry_index : ℕ
  pub original_owner_index : ℕ
  pub child_routes : List EpringRoute

pub record RootSummaryChange : Type 0 where
  pub prefix : Bytes
  pub node_name : Bytes
  pub old_summary : Bytes
  pub new_summary : Bytes

pub record Epring : Type 0 where
  pub entries : List EpringEntry
  pub node_names : List Bytes
  pub root_prefix_len : ℕ
  pub split_threshold : ℕ

-- The entry that `new` pushes at `idx`. The length is cast to `u8`.
unfoldable pub root_entry : ℕ → ℕ → ℕ → EpringEntry
root_entry root_prefix_len node_count idx = record {
  prefix = format_prefix idx root_prefix_len;
  prefix_len = root_prefix_len % 2 ^ 8;
  counter = 0;
  owner_ref = idx % node_count;
  split_child_start = none;
  root_summary = [];
}

-- `16usize.pow(root_prefix_len)` is below `16 * node_names.len()`, so it does not overflow.
unfoldable pub new : List Bytes → ℕ → Epring
unfolding root_entry minimal_prefix_len
new [] split_threshold = record {
  entries = [];
  node_names = [];
  root_prefix_len = 0;
  split_threshold = split_threshold;
}
new (name ∷ names) split_threshold =
    let node_names = name ∷ names in
    let root_prefix_len = minimal_prefix_len (length node_names) in
    record {
      entries =
          map (root_entry root_prefix_len (length node_names)) (range' 0 (16 ^ root_prefix_len));
      node_names = node_names;
      root_prefix_len = root_prefix_len;
      split_threshold = split_threshold;
    }

unfoldable pub is_some {ℓ} : {A : Type ℓ} → Option A → Bool
is_some none = false
is_some (some a) = true

unfoldable pub is_empty {ℓ} : {A : Type ℓ} → List A → Bool
is_empty [] = true
is_empty (x ∷ xs) = false

unfoldable pub entry_is_split : Epring → ℕ → Bool
unfolding is_some
entry_is_split ring entry_index = elim (get_elem? ring.entries entry_index) [
  | none ↦ false
  | some entry ↦ is_some entry.split_child_start
]

-- The child that the loop of `split_entry` pushes for a digit.
unfoldable pub child_entry : EpringEntry → ℕ → ℕ → EpringEntry
child_entry parent node_count digit = record {
  prefix = parent.prefix ++ hex_char digit ∷ [];
  prefix_len = (parent.prefix_len + 1) % 2 ^ 8;
  counter = 0;
  owner_ref = (parent.owner_ref + digit) % node_count;
  split_child_start = none;
  root_summary = [];
}

unfoldable pub child_route : EpringEntry → ℕ → ℕ → ℕ → EpringRoute
child_route parent node_count child_start digit = record {
  entry_index = child_start + digit;
  node_index = (parent.owner_ref + digit) % node_count;
}

-- What `split_entry` does once its guards have passed.
unfoldable pub split_into : Epring → ℕ → EpringEntry → Epring × EpringSplitEvent
unfolding child_entry child_route
split_into ring entry_index parent =
    let child_start = length ring.entries in
    let node_count = length ring.node_names in
    let children = map (child_entry parent node_count) (range' 0 16) in
    let parent' = record parent { owner_ref = child_start; split_child_start = some child_start } in
    (
      record ring { entries = set (ring.entries ++ children) entry_index parent' },
      record {
        parent_entry_index = entry_index;
        original_owner_index = parent.owner_ref;
        child_routes = map (child_route parent node_count child_start) (range' 0 16);
      },
    )

unfoldable pub split_entry : Epring → ℕ → Epring × Option EpringSplitEvent
unfolding entry_is_split split_into is_empty
split_entry ring entry_index =
    if is_empty ring.node_names || entry_is_split ring entry_index
    then (ring, none)
    else elim (get_elem? ring.entries entry_index) [
      | none ↦ (ring, none)
      | some parent ↦
          if leb max_prefix_len parent.prefix_len
          then (ring, none)
          else let (ring', event) = split_into ring entry_index parent in (ring', some event)
    ]

-- The `loop` of `route_key_hex`. `bytes[i]` panics past the end. A walk of more steps than there are
-- entries has come back to an entry, and goes round for ever.
unfoldable pub route_loop : List EpringEntry → Bytes → ℕ → ℕ → Outcome (Option EpringRoute)
route_loop entries bytes zero entry_index = diverge
route_loop entries bytes (suc fuel) entry_index = elim (get_elem? entries entry_index) [
  | none ↦ done none
  | some entry ↦ elim entry.split_child_start [
    | none ↦ done (some (record { entry_index = entry_index; node_index = entry.owner_ref }))
    | some child_start ↦ elim (get_elem? bytes entry.prefix_len) [
      | none ↦ panic
      | some byte ↦ route_loop entries bytes fuel (child_start + hex_nibble byte)
    ]
  ]
]

unfoldable pub route_key_hex : Epring → Bytes → Outcome (Option EpringRoute)
unfolding is_empty
route_key_hex ring key_hex =
    if is_empty ring.entries
    then done none
    else if ltb (min (length key_hex) max_prefix_len) ring.root_prefix_len
    then done none
    else elim (root_entry_index_from_prefix key_hex ring.root_prefix_len) [
      | none ↦ done none
      | some entry_index ↦ route_loop ring.entries key_hex (length ring.entries + 1) entry_index
    ]

unfoldable pub entry_prefix : Epring → ℕ → Option Bytes
entry_prefix ring entry_index = elim (get_elem? ring.entries entry_index) [
  | none ↦ none
  | some entry ↦ some entry.prefix
]

unfoldable pub node_name : Epring → ℕ → Option Bytes
node_name ring node_index = get_elem? ring.node_names node_index

-- The `for` loop of `find_entry_index` over `rounds` depths; an early `return None` is `none`.
unfoldable pub find_loop : List EpringEntry → Bytes → ℕ → ℕ → ℕ → Outcome (Option ℕ)
find_loop entries prefix zero depth entry_index = done (some entry_index)
find_loop entries prefix (suc rounds) depth entry_index = elim (get_elem? entries entry_index) [
  | none ↦ done none
  | some entry ↦ elim entry.split_child_start [
    | none ↦ done none
    | some child_start ↦ elim (get_elem? prefix depth) [
      | none ↦ panic
      | some byte ↦ find_loop entries prefix rounds (depth + 1) (child_start + hex_nibble byte)
    ]
  ]
]

unfoldable pub find_entry_index : Epring → Bytes → Outcome (Option ℕ)
unfolding is_empty
find_entry_index ring prefix =
    let capped_len = min (length prefix) max_prefix_len in
    if is_empty ring.entries
    then done none
    else if ltb capped_len ring.root_prefix_len
    then done none
    else elim (root_entry_index_from_prefix prefix ring.root_prefix_len) [
      | none ↦ done none
      | some entry_index ↦
          find_loop ring.entries prefix (capped_len - ring.root_prefix_len) ring.root_prefix_len
            entry_index
    ]
