-- ===== src/Epring/Insert.antt =====
-- Inserts, deletes and summary updates by prefix: results, invariant and routes.
use trust_meta.Base.{
  ℕ, ◌-◌, ◌≡◌, refl, ◌∙◌, inl, inr, Option, none, some, Bytes, get_elem?, done, done-injective, sym,
  ap, Bool-cases, ltb, if◌then◌else◌,
}
use trust_meta.Epring.{
  EpringEntry, EpringSplitEvent, RootSummaryChange, Epring, find_entry_index, split_entry,
  route_key_hex,
}
use trust_meta.Epring.Record.{
  saturating_add, split_if_full, insert_at, record_insert_with_change, count_and_update,
  record_insert_without_split_with_change, record_delete_with_change,
  update_root_summary_with_change,
}
use trust_meta.Epring.Shape.{SameShape, route_key_hex-SameShape}
use trust_meta.Epring.Valid.{IsValid, SameShape-IsValid}
use trust_meta.Epring.Split.{split_entry-IsValid}
use trust_meta.Epring.Total.{find_entry_index-IsFound, IsFound}
use trust_meta.Epring.Update.{
  with_entry, with_entry-SameShape, SameShape-refl, counted, change_of, update_counter_lem,
  stored_again, update_counted, update_entry_summary_lem,
}

module _ (ring : Epring) (prefix summary : Bytes) (k : ℕ) (e : EpringEntry)
    (found : find_entry_index ring prefix ≡ done (some k))
    (stored : get_elem? ring.entries k ≡ some e) where
  -- The ring after an insert, before any split.
  abbrev inserted : Epring
  inserted = with_entry ring k (counted (λ c. saturating_add c 1) summary e)

  split_if_full_lem : split_if_full inserted k ≡ (
      if ltb ring.split_threshold (saturating_add e.counter 1)
      then done (split_entry inserted k)
      else done (inserted, none))
  unfolding split_if_full
  split_if_full_lem = rw (stored_again (λ c. c) ring k e summary stored _, split_if_full)

  -- Where find_entry_index finds an entry that the ring stores, record_insert_with_change adds one
  -- to its counter up to the largest 64-bit number, stores the summary, reports the change exactly
  -- when the summary differs, and calls split_entry exactly when the new counter is over the
  -- threshold.
  pub record_insert_with_change_lem : record_insert_with_change ring prefix summary ≡ (
      if ltb ring.split_threshold (saturating_add e.counter 1)
      then done ((split_entry inserted k).0, change_of ring e summary, (split_entry inserted k).1)
      else done (inserted, change_of ring e summary, none))
  unfolding record_insert_with_change insert_at
  record_insert_with_change_lem =
      let one = λ (c : ℕ). saturating_add c 1 in
      elim (Bool-cases (ltb ring.split_threshold (saturating_add e.counter 1))) [
        | inl full ↦ rw (
          found,
          update_counter_lem one ring k e summary stored,
          update_counted one ring k e summary stored,
          split_if_full_lem,
          full,
        )
        | inr room ↦ rw (
          found,
          update_counter_lem one ring k e summary stored,
          update_counted one ring k e summary stored,
          split_if_full_lem,
          room,
        )
      ]

  -- The operations that only count write the entry once.
  pub count_and_update_lem :
      (count : ℕ → ℕ)
      → count_and_update count ring prefix summary
        ≡ done (with_entry ring k (counted count summary e), change_of ring e summary)
  unfolding count_and_update
  count_and_update_lem count = rw (
    found,
    update_counter_lem count ring k e summary stored,
    update_counted count ring k e summary stored,
  )

module _ {ring : Epring} (v : IsValid ring) (prefix summary : Bytes) where
  insert_found :
      (found : Option ℕ)
      → find_entry_index ring prefix ≡ done found
      → IsFound ring found
      → (result : Epring × Option RootSummaryChange × Option EpringSplitEvent)
        × (record_insert_with_change ring prefix summary ≡ done result)
        × IsValid result.0
  insert_found none run is = ((ring, none, none), unfold record_insert_with_change in rw run, v)
  insert_found (some k) run (e, stored) =
      let one = λ (c : ℕ). saturating_add c 1 in
      let after = with_entry ring k (counted one summary e) in
      let same = with_entry-SameShape ring k e (counted one summary e) stored refl in
      let kept = SameShape-IsValid same v in
      let lem = record_insert_with_change_lem ring prefix summary k e run stored in
      elim (Bool-cases (ltb ring.split_threshold (saturating_add e.counter 1))) [
        | inl full ↦ (
          ((split_entry after k).0, change_of ring e summary, (split_entry after k).1),
          lem ∙ rw full,
          split_entry-IsValid k kept,
        )
        | inr room ↦ ((after, change_of ring e summary, none), lem ∙ rw room, kept)
      ]

  -- On a valid ring record_insert_with_change returns for every prefix and summary, without panic
  -- or divergence, and the ring that it returns is valid.
  pub record_insert_with_change-IsValid :
      (result : Epring × Option RootSummaryChange × Option EpringSplitEvent)
      × (record_insert_with_change ring prefix summary ≡ done result)
      × IsValid result.0
  record_insert_with_change-IsValid =
      let (found, run, is) = find_entry_index-IsFound v prefix in insert_found found run is

  count_found :
      (count : ℕ → ℕ) (found : Option ℕ)
      → find_entry_index ring prefix ≡ done found
      → IsFound ring found
      → (result : Epring × Option RootSummaryChange) × (count_and_update count ring prefix summary
          ≡ done result)
        × SameShape ring result.0
  count_found count none run is =
      ((ring, none), unfold count_and_update in rw run, SameShape-refl ring)
  count_found count (some k) run (e, stored) = (
    (with_entry ring k (counted count summary e), change_of ring e summary),
    count_and_update_lem ring prefix summary k e run stored count,
    with_entry-SameShape ring k e (counted count summary e) stored refl,
  )

  -- An insert without split and a delete return for every prefix, and change counters and
  -- summaries alone.
  pub record_without_split-SameShape :
      ((result : Epring × Option RootSummaryChange) × (record_insert_without_split_with_change ring
            prefix summary
          ≡ done result)
        × SameShape ring result.0)
      × ((result : Epring × Option RootSummaryChange) × (record_delete_with_change ring prefix
              summary
            ≡ done result)
          × SameShape ring result.0)
  unfolding record_insert_without_split_with_change record_delete_with_change
  record_without_split-SameShape =
      let (found, run, is) = find_entry_index-IsFound v prefix in
      (count_found (λ c. saturating_add c 1) found run is, count_found (λ c. c - 1) found run is)

  update_found :
      (found : Option ℕ)
      → find_entry_index ring prefix ≡ done found
      → IsFound ring found
      → (result : Epring × Option RootSummaryChange) × (update_root_summary_with_change ring prefix
            summary
          ≡ done result)
        × SameShape ring result.0
  unfolding update_root_summary_with_change
  update_found none run is = ((ring, none), rw run, SameShape-refl ring)
  update_found (some k) run (e, stored) = (
    (with_entry ring k (record e { root_summary = summary }), change_of ring e summary),
    rw (run, update_entry_summary_lem ring k e summary stored),
    with_entry-SameShape ring k e (record e { root_summary = summary }) stored refl,
  )

  -- A summary update returns for every prefix, and changes summaries alone.
  pub update_root_summary_with_change-SameShape :
      (result : Epring × Option RootSummaryChange) × (update_root_summary_with_change ring prefix
          summary
        ≡ done result)
      × SameShape ring result.0
  update_root_summary_with_change-SameShape =
      let (found, run, is) = find_entry_index-IsFound v prefix in update_found found run is

-- On a valid ring a delete that returns a new ring leaves the route of every key as it was.
pub record_delete-route :
    {ring ring' : Epring} {change : Option RootSummaryChange} (v : IsValid ring)
    (prefix summary key : Bytes)
    → record_delete_with_change ring prefix summary ≡ done (ring', change)
    → route_key_hex ring' key ≡ route_key_hex ring key
record_delete-route {ring} {ring'} v prefix summary key run =
    let (result, run', same) = (record_without_split-SameShape v prefix summary).1 in
    let is : result.0 ≡ ring' = ap (λ p. p.0) (done-injective (sym run' ∙ run)) in
    rw (← is) (route_key_hex-SameShape same key)
