-- ===== src/Epring/Update.antt =====
-- Inserts and deletes on the ring: what they do to the entry that the prefix names.
use trust_meta.Base.{
  ℕ, ◌≡◌, refl, sym, ap, ◌∙◌, inl, inr, Option, none, some, Bytes, get_elem?, get_elem?-lt,
  get_elem?-set_self, set, set-set, set-same, done, bytes_eq, bytes_eq_iff, Bool-cases, true,
  if◌then◌else◌,
}
use trust_meta.Epring.{EpringEntry, RootSummaryChange, Epring}
use trust_meta.Epring.Record.{owner_name, update_entry_summary, update_counter}
use trust_meta.Epring.Shape.{shape, shapes-set, SameShape}

-- The ring with the entry at `k` replaced.
abbrev pub with_entry : Epring → ℕ → EpringEntry → Epring
with_entry ring k e = record ring { entries = set ring.entries k e }

pub with_entry-SameShape :
    (ring : Epring) (k : ℕ) (e e' : EpringEntry)
    → get_elem? ring.entries k ≡ some e
    → shape e' ≡ shape e
    → SameShape ring (with_entry ring k e')
with_entry-SameShape ring k e e' h s = record {
  entries = shapes-set ring.entries k e e' h s;
  node_names = refl;
  root_prefix_len = refl;
  split_threshold = refl;
}

pub SameShape-refl : (ring : Epring) → SameShape ring ring
SameShape-refl ring = record {
  entries = refl;
  node_names = refl;
  root_prefix_len = refl;
  split_threshold = refl;
}

pub SameShape-trans : {a b c : Epring} → SameShape a b → SameShape b c → SameShape a c
SameShape-trans s t = record {
  entries = t.entries ∙ s.entries;
  node_names = t.node_names ∙ s.node_names;
  root_prefix_len = t.root_prefix_len ∙ s.root_prefix_len;
  split_threshold = t.split_threshold ∙ s.split_threshold;
}

-- The report of a summary that replaces the entry's: none for an equal one.
abbrev pub change_of : Epring → EpringEntry → Bytes → Option RootSummaryChange
change_of ring e summary =
    if bytes_eq e.root_summary summary
    then none
    else some (record {
      prefix = e.prefix;
      node_name = owner_name ring e;
      old_summary = e.root_summary;
      new_summary = summary;
    })

same_summary :
    (e : EpringEntry) (summary : Bytes)
    → bytes_eq e.root_summary summary ≡ true
    → record e { root_summary = summary } ≡ e
same_summary e summary same =
    ap (λ t. record e { root_summary = t }) (sym ((bytes_eq_iff _ _).0 same))

-- `update_entry_summary` stores the summary, and reports it if it is another than the stored one.
pub update_entry_summary_lem :
    (ring : Epring) (k : ℕ) (e : EpringEntry) (summary : Bytes)
    → get_elem? ring.entries k ≡ some e
    → update_entry_summary ring k summary
      ≡ (with_entry ring k (record e { root_summary = summary }), change_of ring e summary)
unfolding update_entry_summary
update_entry_summary_lem ring k e summary h = elim (Bool-cases (bytes_eq e.root_summary summary)) [
  | inl same ↦
      let kept : with_entry ring k (record e { root_summary = summary }) ≡ ring =
        ap (with_entry ring k) (same_summary e summary same)
        ∙ ap (λ es. record ring { entries = es }) (set-same ring.entries k e h) in
      rw (kept, same) (rw (h, same, update_entry_summary))
  | inr other ↦ rw other (rw (h, other, update_entry_summary))
]

-- The entry after an operation that counts and stores a summary.
abbrev pub counted : (ℕ → ℕ) → Bytes → EpringEntry → EpringEntry
counted count summary e = record e { counter = count e.counter; root_summary = summary }

module _ (count : ℕ → ℕ) (ring : Epring) (k : ℕ) (e : EpringEntry) (summary : Bytes)
    (stored : get_elem? ring.entries k ≡ some e) where
  pub update_counter_lem :
      update_counter ring k count
      ≡ done (with_entry ring k (record e { counter = count e.counter }))
  unfolding update_counter
  update_counter_lem = rw (stored, update_counter)

  pub stored_again : (e' : EpringEntry) → get_elem? (with_entry ring k e').entries k ≡ some e'
  stored_again e' = get_elem?-set_self ring.entries k e' (get_elem?-lt ring.entries k stored)

  -- Counting and then storing the summary writes the entry once.
  pub update_counted :
      update_entry_summary (with_entry ring k (record e { counter = count e.counter })) k summary
      ≡ (with_entry ring k (counted count summary e), change_of ring e summary)
  unfolding owner_name
  update_counted =
      update_entry_summary_lem _ k (record e { counter = count e.counter }) summary (stored_again _)
      ∙ ap (λ es. (record ring { entries = es }, change_of ring e summary))
          (set-set ring.entries k _ _)
