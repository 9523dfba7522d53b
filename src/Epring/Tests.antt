-- ===== src/Epring/Tests.antt =====
-- The ring of epring.rs on concrete nodes: the crate's own tests, and the theorems at its rings.
use mathlib.Core.Option.{map as map_option}
use trust_meta.Base.{
  ℕ, ◌+◌, ◌-◌, ◌*◌, ◌%◌, ◌^◌, ◌≤◌, ◌<◌, ◌≡◌, refl, true, Option, none, some, List, [], ◌∷◌, Bytes,
  length, take, replicate, map, done, get_elem?, ascii, arith, bytes_eq, All, range',
}
use trust_meta.Hex.{
  hex_nibble, hex_char, hex_digits, format_prefix, minimal_prefix_len, root_entry_index_from_prefix,
}
use trust_meta.Hex.Nibbles.{minimal_prefix_len_lem, root_entry_index-prefix}
use trust_meta.Epring.{
  EpringEntry, EpringRoute, EpringSplitEvent, RootSummaryChange, Epring, new, root_entry,
  split_entry, is_some, is_empty, route_loop, route_key_hex, find_loop, find_entry_index,
  entry_prefix,
}
use trust_meta.Epring.Record.{
  record_insert_with_change, record_insert_without_split_with_change, record_delete_with_change,
  maybe_presplit_empty_prefix, presplit_at,
}
use trust_meta.Epring.Keyword.{Xxh3, keyword_to_hex, keyword_matches_prefix, route_keyword}
use trust_meta.Epring.Valid.{IsValid, new-IsValid, SameShape-IsValid}
use trust_meta.Epring.Route.{IsRouted}
use trust_meta.Epring.Matching.{route_keyword-matches}
use trust_meta.Epring.Find.{find_entry_index-route}
use trust_meta.Epring.Split.{split_entry-IsValid}
use trust_meta.Epring.Reroute.{next_route, split_entry-route, child_for}
use trust_meta.Hex.Digest.{IsByte}
use trust_meta.Epring.Update.{with_entry, with_entry-SameShape, counted, change_of}
use trust_meta.Epring.Insert.{record_insert_with_change-IsValid, record_delete-route}
use trust_meta.Epring.Growth.{
  IsBounded, insert_route, new-IsBounded, record_insert-IsBounded, record_insert-route,
}

program : Unit {0}
unfolding new format_prefix hex_digits hex_char hex_nibble minimal_prefix_len
    root_entry_index_from_prefix is_some is_empty route_key_hex route_loop find_entry_index
    find_loop split_entry record_insert_with_change record_delete_with_change presplit_at
    maybe_presplit_empty_prefix record_insert_without_split_with_change bytes_eq
program = tt

abbrev names : List Bytes
names = ascii "storager-0" ∷ ascii "storager-1" ∷ ascii "storager-2" ∷ []

abbrev ring : Epring
ring = new names 1

minimal_lengths : map minimal_prefix_len (1 ∷ 2 ∷ 16 ∷ 17 ∷ []) ≡ 0 ∷ 1 ∷ 1 ∷ 2 ∷ []
unfolding minimal_prefix_len
minimal_lengths = refl

-- `routes_root_prefixes_cyclically`.
route_cyclic :
    route_key_hex ring (ascii "2abc") ≡ done (some (record { entry_index = 2; node_index = 2 }))
unfolding program
route_cyclic = refl

route_wraps :
    route_key_hex ring (ascii "3abc") ≡ done (some (record { entry_index = 3; node_index = 0 }))
unfolding program
route_wraps = refl

-- `split_keeps_pre0_on_original_owner_and_rotates_rest`: the second insert splits the entry.
abbrev inserted_twice : Option Epring
inserted_twice = elim (record_insert_with_change ring (ascii "a") (1 ∷ [])) [
  | done (r, _, _) ↦ elim (record_insert_with_change r (ascii "a") (2 ∷ [])) [
    | done (r', _, _) ↦ some r'
    | _ ↦ none
  ]
  | _ ↦ none
]

split_rotates :
    map_option (λ (r : Epring). route_key_hex r (ascii "a0ff")) inserted_twice
    ≡ some (done (some (record { entry_index = 16; node_index = 1 })))
unfolding program
split_rotates = refl

split_rotates_next :
    map_option (λ (r : Epring). route_key_hex r (ascii "afff")) inserted_twice
    ≡ some (done (some (record { entry_index = 31; node_index = 1 })))
unfolding program
split_rotates_next = refl

-- A digest to run the theorems at.
sixteen_bytes : (keyword : Bytes) → All IsByte ((length keyword % 256) ∷ replicate 15 0xab)
sixteen_bytes keyword = omega arith

abbrev toy : Xxh3
toy = record {
  digest = λ keyword. (length keyword % 256) ∷ replicate 15 0xab;
  sixteen = λ keyword. refl;
  bytes = sixteen_bytes;
}

abbrev key : Bytes
key = replicate 32 b'a'

minimal_prefix_len_lem_example :
    (3 ≤ 16 ^ minimal_prefix_len 3) × (16 ^ minimal_prefix_len 3 < 16 * 3)
minimal_prefix_len_lem_example = minimal_prefix_len_lem 3 (omega arith)

root_entry_index-prefix_example :
    (index : ℕ) × (root_entry_index_from_prefix (ascii "c0ffee") 3 ≡ some index)
    × (index < 16 ^ 3)
    × (map hex_nibble (format_prefix index 3) ≡ map hex_nibble (take 3 (ascii "c0ffee")))
root_entry_index-prefix_example =
    root_entry_index-prefix (ascii "c0ffee") 3 (omega arith) (omega arith)

new-IsValid_example : IsValid ring
new-IsValid_example = new-IsValid names 1 (omega arith) (omega arith)

ring-IsValid : IsValid ring
ring-IsValid = new-IsValid names 1 (omega arith) (omega arith)

route_keyword-matches_example :
    (r : EpringRoute) × (route_keyword toy ring (ascii "alpha") ≡ done (some r))
    × (routed : IsRouted ring (keyword_to_hex toy (ascii "alpha")) r) × (keyword_matches_prefix toy
          (ascii "alpha")
          routed.entry.prefix
        ≡ true)
route_keyword-matches_example = route_keyword-matches toy ring-IsValid (ascii "alpha")

abbrev route_a : EpringRoute
route_a = record { entry_index = 10; node_index = 1 }

key_routed : route_key_hex ring key ≡ done (some route_a)
unfolding program
key_routed = refl

key_named : entry_prefix ring 10 ≡ some (ascii "a")
unfolding program entry_prefix
key_named = refl

find_entry_index-route_example : find_entry_index ring (ascii "a") ≡ done (some 10)
find_entry_index-route_example =
    find_entry_index-route ring-IsValid key route_a (ascii "a") (omega arith) key_routed key_named

split_entry-IsValid_example : IsValid (split_entry ring 10).0
split_entry-IsValid_example = split_entry-IsValid 10 ring-IsValid

-- What the split of the entry "a" reports.
abbrev event_a : EpringSplitEvent
event_a = record {
  parent_entry_index = 10;
  original_owner_index = 1;
  child_routes = map (λ d. record { entry_index = 16 + d; node_index = (1 + d) % 3 }) (range' 0 16);
}

split_a : split_entry ring 10 ≡ ((split_entry ring 10).0, some event_a)
unfolding program
split_a = refl

split_entry-route_example :
    route_key_hex (split_entry ring 10).0 key ≡ done (next_route ring key event_a route_a)
split_entry-route_example =
    split_entry-route ring-IsValid 10 key route_a (omega arith) split_a key_routed

-- The key goes on to the child for its second digit.
next_route_a :
    next_route ring key event_a route_a ≡ some (record { entry_index = 26; node_index = 2 })
unfolding program child_for
next_route_a = refl

record_insert_with_change-IsValid_example :
    (result : Epring × Option RootSummaryChange × Option EpringSplitEvent)
    × (record_insert_with_change ring (ascii "a") (1 ∷ []) ≡ done result)
    × IsValid result.0
record_insert_with_change-IsValid_example =
    record_insert_with_change-IsValid ring-IsValid (ascii "a") (1 ∷ [])

abbrev entry_a : EpringEntry
entry_a = root_entry 1 3 10

stored_a : get_elem? ring.entries 10 ≡ some entry_a
unfolding program root_entry
stored_a = refl

-- A second insert at the entry "a" splits it.
abbrev once_a : Epring
once_a = with_entry ring 10 (counted (λ c. c + 1) (1 ∷ []) entry_a)

inserted_a :
    record_insert_with_change ring (ascii "a") (1 ∷ [])
    ≡ done (once_a, change_of ring entry_a (1 ∷ []), none)
unfolding program root_entry
inserted_a = refl

ring-IsBounded : IsBounded ring
ring-IsBounded = new-IsBounded names 1

record_insert-IsBounded_example : IsBounded once_a
record_insert-IsBounded_example =
    record_insert-IsBounded ring-IsValid (ascii "a") (1 ∷ []) ring-IsBounded inserted_a

once_a-IsValid : IsValid once_a
once_a-IsValid =
    let e = counted (λ c. c + 1) (1 ∷ []) entry_a in
    SameShape-IsValid (with_entry-SameShape ring 10 entry_a e stored_a refl) ring-IsValid

abbrev twice_a : Epring
twice_a = (split_entry (with_entry ring 10 (counted (λ c. c + 2) (2 ∷ []) entry_a)) 10).0

inserted_again :
    record_insert_with_change once_a (ascii "a") (2 ∷ [])
    ≡ done
        (twice_a, change_of once_a (counted (λ c. c + 1) (1 ∷ []) entry_a) (2 ∷ []), some event_a)
unfolding program root_entry
inserted_again = refl

routed_once : route_key_hex once_a key ≡ done (some route_a)
unfolding program
routed_once = refl

record_insert-route_example :
    route_key_hex twice_a key ≡ done (insert_route once_a key (some event_a) route_a)
record_insert-route_example =
    record_insert-route once_a-IsValid (ascii "a") (2 ∷ []) key route_a (omega arith) inserted_again
      routed_once

deleted_a :
    record_delete_with_change ring (ascii "a") (7 ∷ [])
    ≡ done (
      with_entry ring 10 (counted (λ c. c - 1) (7 ∷ []) entry_a),
      change_of ring entry_a (7 ∷ []),
    )
unfolding program root_entry
deleted_a = refl

record_delete-route_example :
    route_key_hex (with_entry ring 10 (counted (λ c. c - 1) (7 ∷ []) entry_a)) key
    ≡ route_key_hex ring key
record_delete-route_example = record_delete-route ring-IsValid (ascii "a") (7 ∷ []) key deleted_a
