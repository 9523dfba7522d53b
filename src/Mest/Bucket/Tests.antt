-- ===== src/Mest/Bucket/Tests.antt =====
-- Buckets of two bytes per segment key, with a toy digest: the crate's own tests, and the theorems
-- at their buckets.
use mathlib.Core.Path.{subst}
use trust_meta.Base.{
  ℕ, ◌≡◌, ◌<◌, Bool, diverge, refl, sym, ap, ◌∙◌, true, false, List, [], ◌∷◌, ◌++◌, none, some,
  length, get_elem?, Bytes, bytes_eq, ascii, Outcome, done, panic, done-injective, arith,
  if◌then◌else◌,
}
use trust_meta.Text.{contains, split_on, join, has_part, without_part}
use trust_meta.Assoc.{get, insert as map_insert, remove, replace, retain}
use trust_meta.Merkle.{
  MhtProof, verify_proof, recompute, insert_data, update_root, get_proof_for_index, proof_loop,
  root_loop, next_level, hash_leaf, hash_internal, sibling, next_idx, recompute_root, root_or_zeros,
  get_root_hash, data_len,
}
use trust_meta.Mest.Digits.{digit_at_mixed, fnv1a64, splitmix64}
use trust_meta.Mest.Segment.{
  is_char_boundary, segment_key, merge, remove_at, shift_down, all_kvs, parts_of, bytes_le,
  insert_by_key, sort_keys, roots_of,
}
use trust_meta.Mest.Bucket.{
  Bucket, new, get_segment_key, get_segment, index_of, found_at, find_in, is_in_bucket, value_at,
  get_value, child_bucket, rebuild_merkle, proof_tree, prove_at, prove_found, get_proof,
  update_tree, set_value, merge_at, push, add_segment, insert_in, insert, remove_pair, delete_parts,
  delete_at, delete_in, delete_value, redistribute, split_bucket, get_segment_roots_sorted,
}
use trust_meta.Mest.Bucket.Valid.{IsValid, new-IsValid}
use trust_meta.Mest.Bucket.Insert.{merged}
use trust_meta.Mest.Bucket.Values.{insert-IsInserted, insert-get_value, get_proof-verify_proof}
use trust_meta.Mest.Bucket.Parts.{merge-parts_of}
use trust_meta.Mest.Bucket.Delete.{deleted}
use trust_meta.Mest.Bucket.Deletions.{delete_value-get_value}
use trust_meta.Mest.Bucket.Panics.{status, cut_status, continues, operations-status}
use trust_meta.Mest.Bucket.Split.{IsSplit, split_bucket-IsSplit}

program : Unit {0}
unfolding bytes_eq split_on join has_part without_part get map_insert remove replace retain
    recompute insert_data update_root get_proof_for_index proof_loop root_loop next_level hash_leaf
    hash_internal sibling next_idx recompute_root root_or_zeros get_root_hash data_len
    digit_at_mixed fnv1a64 splitmix64 is_char_boundary segment_key get_segment_key get_segment
    index_of found_at find_in is_in_bucket value_at get_value merge remove_at shift_down
    child_bucket all_kvs rebuild_merkle proof_tree prove_at prove_found get_proof update_tree
    set_value merge_at push add_segment insert_in insert remove_pair delete_parts parts_of delete_at
    delete_in delete_value redistribute split_bucket bytes_le insert_by_key sort_keys roots_of
    get_segment_roots_sorted
program = tt

abbrev toy_digest : Bytes → Bytes
toy_digest bytes = length bytes ∷ bytes

abbrev empty : Bucket
empty = new 0 4 100 2

abbrev unwrap : Outcome Bucket → Bucket
unwrap (done b) = b
unwrap panic = empty
unwrap diverge = empty

abbrev put : Bytes → Bytes → Bucket → Bucket
put key value b = unwrap (insert toy_digest b (record { key = key; value = value }))

-- `test_insert_same_key_appends_value`.
abbrev one : Bucket
one = put (ascii "key") (ascii "v1") empty

abbrev two : Bucket
two = put (ascii "key") (ascii "v2") one

appends : get_value two (ascii "key") ≡ done (some (ascii "v1,v2"))
unfolding program
appends = refl

keeps_duplicate :
    get_value (put (ascii "key") (ascii "v2") two) (ascii "key") ≡ done (some (ascii "v1,v2"))
unfolding program
keeps_duplicate = refl

keeps_empty : get_value (put (ascii "key") [] two) (ascii "key") ≡ done (some (ascii "v1,v2"))
unfolding program
keeps_empty = refl

run_one : insert toy_digest empty (record { key = ascii "key"; value = ascii "v1" }) ≡ done one
unfolding program
run_one = refl

run_two : insert toy_digest one (record { key = ascii "key"; value = ascii "v2" }) ≡ done two
unfolding program
run_two = refl

key_of_two : segment_key 2 (ascii "key") ≡ done (ascii "ke")
unfolding program
key_of_two = refl

in_segment : (b : Bucket) → b.seg_num ≡ 2 → get_segment_key b (ascii "key") ≡ done (ascii "ke")
unfolding get_segment_key
in_segment b two_bytes = ap (λ n. segment_key n (ascii "key")) two_bytes ∙ key_of_two

-- A bucket that an insert returns is valid.
next-IsValid :
    (b b' : Bucket) (value : Bytes)
    → IsValid toy_digest b
    → b.seg_num ≡ 2
    → insert toy_digest b (record { key = ascii "key"; value = value }) ≡ done b'
    → IsValid toy_digest b'
next-IsValid b b' value v two_bytes run =
    let (b'', run', is) =
      insert-IsInserted toy_digest b (record { key = ascii "key"; value = value }) (ascii "ke") v
        (in_segment b two_bytes) in
    subst (IsValid toy_digest) (done-injective (sym run' ∙ run)) is.valid

one-IsValid : IsValid toy_digest one
one-IsValid = next-IsValid empty one (ascii "v1") (new-IsValid toy_digest 0 4 100 2) refl run_one

two_bytes_one : one.seg_num ≡ 2
unfolding program
two_bytes_one = refl

two_bytes_two : two.seg_num ≡ 2
unfolding program
two_bytes_two = refl

two-IsValid : IsValid toy_digest two
two-IsValid = next-IsValid one two (ascii "v2") one-IsValid two_bytes_one run_two

had_one : get_value one (ascii "key") ≡ done (some (ascii "v1"))
unfolding program
had_one = refl

insert-get_value_example :
    (b' : Bucket) × (insert toy_digest one (record { key = ascii "key"; value = ascii "v2" })
      ≡ done b')
    × IsValid toy_digest b'
    × (get_value b' (ascii "key")
        ≡ done (
            if bytes_eq (ascii "key") (ascii "key")
            then some (merged (some (ascii "v1")) (ascii "v2"))
            else some (ascii "v1")))
insert-get_value_example =
    insert-get_value toy_digest one (record { key = ascii "key"; value = ascii "v2" }) (ascii "ke")
      one-IsValid (in_segment one two_bytes_one) (ascii "key") (some (ascii "v1")) had_one

get_proof-verify_proof_example :
    (root : Bytes) × (proof : MhtProof) × (get_proof toy_digest two (ascii "key")
      ≡ done (some (ascii "v1,v2", root, proof)))
    × (verify_proof toy_digest (ascii "v1,v2") root proof ≡ true)
get_proof-verify_proof_example =
    get_proof-verify_proof toy_digest two (ascii "key") (ascii "v1,v2") two-IsValid appends

delete_value-get_value_example :
    (b' : Bucket) × (changed : Bool) × (delete_value toy_digest two (ascii "key") (ascii "v1")
      ≡ done (b', changed))
    × IsValid toy_digest b'
    × (get_value b' (ascii "key")
        ≡ done (
            if bytes_eq (ascii "key") (ascii "key")
            then deleted (ascii "v1") (some (ascii "v1,v2"))
            else some (ascii "v1,v2")))
delete_value-get_value_example =
    delete_value-get_value toy_digest two (ascii "key") (ascii "v1") (ascii "ke") two-IsValid
      (in_segment two two_bytes_two) (omega arith) (ascii "key") (some (ascii "v1,v2")) appends

-- `test_delete_value_and_whole_kvpair`.
deletes_part : deleted (ascii "v1") (some (ascii "v1,v2")) ≡ some (ascii "v2")
unfolding program deleted
deletes_part = refl

deletes_all : deleted (ascii "v2") (some (ascii "v2")) ≡ none
unfolding program deleted
deletes_all = refl

radix_two : 0 < two.rdx
unfolding program
radix_two = omega arith

split_bucket-IsSplit_example :
    (children : List Bucket) × (split_bucket toy_digest two ≡ done children)
    × (length children ≡ two.rdx)
    × ((d : ℕ) (child : Bucket)
        → get_elem? children d ≡ some child
        → IsSplit toy_digest two d child)
split_bucket-IsSplit_example = split_bucket-IsSplit toy_digest two two-IsValid radix_two

-- A key of one Chinese character: three bytes.
abbrev character : Bytes
character = 0xe5 ∷ 0x8c ∷ 0xbb ∷ []

-- Its byte at two continues the character: every operation panics.
inside : continues two.seg_num character ≡ true
unfolding program continues
inside = refl

operations-status_example :
    (status (get_value two character) ≡ cut_status two character)
    × (status (is_in_bucket two character) ≡ cut_status two character)
    × (status (get_proof toy_digest two character) ≡ cut_status two character)
    × (status (insert toy_digest two (record { key = character; value = ascii "v" }))
        ≡ cut_status two character)
    × (status (delete_value toy_digest two character (ascii "v")) ≡ cut_status two character)
operations-status_example =
    operations-status toy_digest two character (ascii "v") (ascii "v") two-IsValid (omega arith)

plain_part : contains b',' (ascii "v2") ≡ false
unfolding contains
plain_part = refl

merge-parts_of_example : parts_of (merge (ascii "v1") (ascii "v2")) ≡ (
    if has_part (ascii "v2") (parts_of (ascii "v1"))
    then parts_of (ascii "v1")
    else parts_of (ascii "v1") ++ ascii "v2" ∷ [])
merge-parts_of_example = merge-parts_of (ascii "v1") (ascii "v2") (omega arith) plain_part
