-- ===== src/Epring/Record.antt =====
-- crates/manager/src/core/epring.rs: what inserts and deletes do to an entry's counter and summary.
use trust_meta.Base.{
  ℕ, ◌+◌, ◌-◌, ◌^◌, min, ◌||◌, not, [], Option, none, some, get_elem?, set, ltb, leb, ◌==◌,
  if◌then◌else◌, Bytes, bytes_eq, Outcome, done, panic, ◌>>=◌,
}
use trust_meta.Epring.{
  EpringEntry, EpringSplitEvent, RootSummaryChange, Epring, is_some, entry_is_split, split_entry,
  find_entry_index,
}

-- `u64::MAX`.
abbrev pub u64_max : ℕ
u64_max = 2 ^ 64 - 1

unfoldable pub saturating_add : ℕ → ℕ → ℕ
saturating_add a b = min (a + b) u64_max

-- The name that a change is reported under: none for a split entry, or an unknown owner.
unfoldable pub owner_name : Epring → EpringEntry → Bytes
unfolding is_some
owner_name ring entry =
    if is_some entry.split_child_start
    then []
    else elim (get_elem? ring.node_names entry.owner_ref) [ none ↦ [] | some name ↦ name ]

unfoldable pub update_entry_summary : Epring → ℕ → Bytes → Epring × Option RootSummaryChange
unfolding owner_name
update_entry_summary ring entry_index root_summary = elim (get_elem? ring.entries entry_index) [
  | none ↦ (ring, none)
  | some entry ↦ if bytes_eq entry.root_summary root_summary then (ring, none) else (
    record ring {
      entries = set ring.entries entry_index (record entry { root_summary = root_summary });
    },
    some (record {
      prefix = entry.prefix;
      node_name = owner_name ring entry;
      old_summary = entry.root_summary;
      new_summary = root_summary;
    }),
  )
]

unfoldable pub update_root_summary_with_change :
    Epring → Bytes → Bytes → Outcome (Epring × Option RootSummaryChange)
unfolding update_entry_summary
update_root_summary_with_change ring prefix root_summary = do
  found ← find_entry_index ring prefix
  elim found [
    | none ↦ done (ring, none)
    | some entry_index ↦ done (update_entry_summary ring entry_index root_summary)
  ]

-- `self.entries[entry_index].counter = f(self.entries[entry_index].counter)`.
unfoldable pub update_counter : Epring → ℕ → (ℕ → ℕ) → Outcome Epring
update_counter ring entry_index f = elim (get_elem? ring.entries entry_index) [
  | none ↦ panic
  | some entry ↦ done (record ring {
    entries = set ring.entries entry_index (record entry { counter = f entry.counter });
  })
]

-- The end of `record_insert_with_change`: a counter over the threshold splits the entry.
unfoldable pub split_if_full : Epring → ℕ → Outcome (Epring × Option EpringSplitEvent)
split_if_full ring entry_index = elim (get_elem? ring.entries entry_index) [
  | none ↦ panic
  | some entry ↦
      if ltb ring.split_threshold entry.counter
      then done (split_entry ring entry_index)
      else done (ring, none)
]

-- `record_insert_with_change` at the entry that it found.
unfoldable pub insert_at :
    Epring → ℕ → Bytes → Outcome (Epring × Option RootSummaryChange × Option EpringSplitEvent)
unfolding saturating_add update_counter update_entry_summary split_if_full
insert_at ring entry_index root_summary = do
  counted ← update_counter ring entry_index (λ c. saturating_add c 1)
  let (updated, change) = update_entry_summary counted entry_index root_summary
  (ring', split) ← split_if_full updated entry_index
  done (ring', change, split)

unfoldable pub record_insert_with_change :
    Epring → Bytes → Bytes → Outcome (Epring × Option RootSummaryChange × Option EpringSplitEvent)
unfolding insert_at
record_insert_with_change ring prefix root_summary = do
  found ← find_entry_index ring prefix
  elim found [
    | none ↦ done (ring, none, none)
    | some entry_index ↦ insert_at ring entry_index root_summary
  ]

-- The two callers that count and then update the summary, and never split.
unfoldable pub count_and_update :
    (ℕ → ℕ) → Epring → Bytes → Bytes → Outcome (Epring × Option RootSummaryChange)
unfolding update_counter update_entry_summary
count_and_update count ring prefix root_summary = do
  found ← find_entry_index ring prefix
  elim found [
    | none ↦ done (ring, none)
    | some entry_index ↦ do
      counted ← update_counter ring entry_index count
      done (update_entry_summary counted entry_index root_summary)
  ]

unfoldable pub record_insert_without_split_with_change :
    Epring → Bytes → Bytes → Outcome (Epring × Option RootSummaryChange)
unfolding count_and_update saturating_add
record_insert_without_split_with_change = count_and_update (λ c. saturating_add c 1)

unfoldable pub record_delete_with_change :
    Epring → Bytes → Bytes → Outcome (Epring × Option RootSummaryChange)
unfolding count_and_update
record_delete_with_change = count_and_update (λ c. c - 1)

-- `maybe_presplit_empty_prefix` at the entry that it found.
unfoldable pub presplit_at : Epring → ℕ → ℕ → Epring × Option EpringSplitEvent
presplit_at ring entry_index incoming_count = elim (get_elem? ring.entries entry_index) [
  | none ↦ (ring, none)
  | some entry ↦
      if not (entry.counter == 0)
        || leb incoming_count ring.split_threshold
        || entry_is_split ring entry_index
      then (ring, none)
      else split_entry ring entry_index
]

unfoldable pub maybe_presplit_empty_prefix :
    Epring → Bytes → ℕ → Outcome (Epring × Option EpringSplitEvent)
maybe_presplit_empty_prefix ring prefix incoming_count = do
  found ← find_entry_index ring prefix
  elim found [
    | none ↦ done (ring, none)
    | some entry_index ↦ done (presplit_at ring entry_index incoming_count)
  ]
