-- ===== src/Mest/Seh/Tests.antt =====
-- Tables of radix four, with a toy digest: the crate's own tests, and the theorems at their tables.
use trust_meta.Base.{
  ◌≡◌, ◌≢◌, ℕ, List, ◌≤◌, ◌||◌, sym, ap, ◌∙◌, inr, inl, get_elem?, bytes_eq_iff, refl, Bool, true,
  [], ◌∷◌, Option, none, some, ◌⊎◌, length, Bytes, bytes_eq, ascii, Outcome, done, panic, diverge,
  arith, if◌then◌else◌,
}
use trust_meta.Text.{split_on, join, has_part, without_part, decimal, decimal_digits}
use trust_meta.Assoc.{get, insert as map_insert, remove, replace, retain}
use trust_meta.Merkle.{
  MhtProof, verify_proof, recompute, insert_data, update_root, get_proof_for_index, proof_loop,
  root_loop, next_level, hash_leaf, hash_internal, sibling, next_idx, recompute_root, root_or_zeros,
  get_root_hash, data_len,
}
use trust_meta.Mest.Digits.{digit_at_mixed, fnv1a64, splitmix64, digits_prefix_mixed}
use trust_meta.Mest.Dotted.{dotted}
use trust_meta.Mest.Segment.{
  Kvpair, is_char_boundary, segment_key, merge, remove_at, shift_down, all_kvs, parts_of, bytes_le,
  insert_by_key, sort_keys, roots_of,
}
use trust_meta.Mest.Bucket.{
  new as new_bucket, get_segment_key, index_of, found_at, find_in, value_at, get_value,
  child_bucket, rebuild_merkle, proof_tree, prove_at, prove_found, get_proof as bucket_proof,
  update_tree, set_value, merge_at, push, add_segment, insert_in, insert, remove_pair, delete_parts,
  delete_at, delete_in, delete_value, redistribute, split_bucket, get_segment_roots_sorted,
}
use trust_meta.Mest.Bucket.Delete.{deleted}
use trust_meta.Mest.Seh.{
  Seh, SehBucketInsertResult, new, make_prefix, bucket_key_to_prefix, get_bucket, entry_at, shorten,
  prefix_parts, find_prefix, get_bucket_entry, get_bucket_by_key, ensure_root, target, size_of,
  add_children, with_children, split_at, split_loop, insert_result, write_pair, insert_kvpair,
  get_proof, delete_kvpair_value,
}
use trust_meta.Mest.Seh.Directory.{IsDirectory, find_value}
use trust_meta.Mest.Seh.Inserts.{IsInsertedTable, insert_kvpair-IsInsertedTable}
use trust_meta.Mest.Seh.Answers.{
  ensure_root-IsDirectory, ensure_root-no_value, delete_kvpair_value-find_value,
  get_proof-find_value,
}
use trust_meta.Mest.Bucket.Size.{IsNodup}
use trust_meta.Mest.Seh.Termination.{IsHeld, FewShare, insert_kvpair-returns}
use trust_meta.Mest.Seh.Refines.{
  ValueMap, put, Reaches, start, inserts, Implements, Reaches-Implements,
}

program : Unit {0}
unfolding bytes_eq split_on join has_part without_part decimal decimal_digits get map_insert remove
    replace retain recompute insert_data update_root get_proof_for_index proof_loop root_loop
    next_level hash_leaf hash_internal sibling next_idx recompute_root root_or_zeros get_root_hash
    data_len digit_at_mixed fnv1a64 splitmix64 digits_prefix_mixed dotted is_char_boundary
    segment_key get_segment_key index_of found_at find_in value_at get_value merge remove_at
    shift_down child_bucket all_kvs rebuild_merkle proof_tree prove_at prove_found bucket_proof
    update_tree set_value merge_at push add_segment insert_in insert remove_pair delete_parts
    parts_of delete_at delete_in delete_value redistribute split_bucket bytes_le insert_by_key
    sort_keys roots_of get_segment_roots_sorted make_prefix bucket_key_to_prefix get_bucket entry_at
    shorten prefix_parts find_prefix get_bucket_entry get_bucket_by_key ensure_root target size_of
    add_children with_children split_at split_loop insert_result write_pair insert_kvpair get_proof
    delete_kvpair_value find_value
program = tt

abbrev toy_digest : Bytes → Bytes
toy_digest bytes = length bytes ∷ bytes

-- Radix four, two pairs in a bucket, segments of two bytes.
abbrev root : Seh
root = ensure_root (new 4 2 2)

abbrev pair : Bytes → Bytes → Kvpair
pair key value = record { key = key; value = value }

abbrev table_of : Outcome (Seh × SehBucketInsertResult) → Seh
table_of (done (seh, result)) = seh
table_of panic = root
table_of diverge = root

abbrev empty_result : SehBucketInsertResult
empty_result = record {
  bucket = new_bucket 0 4 2 2;
  bucket_key = [];
  value = [];
  seg_root_hash = [];
  mht_proof = [];
  leaf_segment_roots = [];
}

abbrev result_of : Outcome (Seh × SehBucketInsertResult) → SehBucketInsertResult
result_of (done (seh, result)) = result
result_of panic = empty_result
result_of diverge = empty_result

abbrev add : Bytes → Bytes → Seh → Seh
add key value seh = table_of (insert_kvpair toy_digest 8 seh (pair key value))

abbrev one : Seh
one = add (ascii "AA") (ascii "v1") root

-- `test_seh_insert_split_and_lookup`.
abbrev three : Seh
three = add (ascii "CC") (ascii "v3") (add (ascii "BB") (ascii "v2") one)

abbrev four : Seh
four = add (ascii "DD") (ascii "v4") three

keeps_values :
    (find_value four (ascii "AA") ≡ done (some (ascii "v1")))
    × (find_value four (ascii "BB") ≡ done (some (ascii "v2")))
    × (find_value four (ascii "CC") ≡ done (some (ascii "v3")))
    × (find_value four (ascii "DD") ≡ done (some (ascii "v4")))
    × (find_value four (ascii "EE") ≡ done none)
unfolding program
keeps_values = (refl, refl, refl, refl, refl)

root-IsDirectory : IsDirectory toy_digest root
root-IsDirectory = ensure_root-IsDirectory toy_digest 4 2 2 (omega arith) (omega arith)

rooted_new : IsDirectory toy_digest (ensure_root root)
unfolding ensure_root
rooted_new = root-IsDirectory

segment : segment_key (ensure_root root).bucket_seg_num (ascii "AA") ≡ done []
unfolding program
segment = refl

insert_kvpair-IsInsertedTable_example :
    (insert_kvpair toy_digest 8 root (pair (ascii "AA") (ascii "v1")) ≡ diverge)
    ⊎ ((seh' : Seh) × (result : SehBucketInsertResult) × (insert_kvpair toy_digest 8 root
            (pair (ascii "AA") (ascii "v1"))
          ≡ done (seh', result))
        × IsInsertedTable toy_digest
            (ensure_root root)
            seh'
            (pair (ascii "AA") (ascii "v1"))
            result)
insert_kvpair-IsInsertedTable_example =
    insert_kvpair-IsInsertedTable toy_digest 8 root (pair (ascii "AA") (ascii "v1")) [] rooted_new
      segment

-- The map of the table of one pair.
abbrev one_value : ValueMap
one_value = put (pair (ascii "AA") (ascii "v1")) (λ k. none)

abbrev answer_one : SehBucketInsertResult
answer_one = result_of (insert_kvpair toy_digest 8 root (pair (ascii "AA") (ascii "v1")))

run_one : insert_kvpair toy_digest 8 root (pair (ascii "AA") (ascii "v1")) ≡ done (one, answer_one)
unfolding program
run_one = refl

plain_segment : segment_key 2 (ascii "AA") ≡ done []
unfolding program
plain_segment = refl

one-Reaches : Reaches toy_digest 4 2 2 one one_value
one-Reaches =
    inserts 8 root one (λ k. none) (pair (ascii "AA") (ascii "v1")) [] answer_one start
      plain_segment run_one

one-Implements : Implements toy_digest 4 2 2 one one_value
one-Implements =
    Reaches-Implements toy_digest 4 2 2 (omega arith) (omega arith) one one_value one-Reaches

Reaches-Implements_example : Implements toy_digest 4 2 2 one one_value
Reaches-Implements_example =
    Reaches-Implements toy_digest 4 2 2 (omega arith) (omega arith) one one_value one-Reaches

segment_one : segment_key one.bucket_seg_num (ascii "AA") ≡ done []
unfolding program
segment_one = refl

delete_kvpair_value-find_value_example :
    (seh' : Seh) × (changed : Bool) × (delete_kvpair_value toy_digest one (ascii "AA") (ascii "v1")
      ≡ done (seh', changed))
    × IsDirectory toy_digest seh'
    × (seh'.bucket_seg_num ≡ one.bucket_seg_num)
    × ((k : Bytes) (old : Option Bytes)
        → find_value one k ≡ done old
        → find_value seh' k
          ≡ done (if bytes_eq (ascii "AA") k then deleted (ascii "v1") old else old))
delete_kvpair_value-find_value_example =
    delete_kvpair_value-find_value toy_digest one (ascii "AA") (ascii "v1") []
      one-Implements.directory segment_one (omega arith)

has_one : find_value one (ascii "AA") ≡ done (some (ascii "v1"))
unfolding program
has_one = refl

get_proof-find_value_example :
    (root_hash : Bytes) × (proof : MhtProof) × (get_proof toy_digest one (ascii "AA")
      ≡ done (some (ascii "v1", root_hash, proof)))
    × (verify_proof toy_digest (ascii "v1") root_hash proof ≡ true)
get_proof-find_value_example =
    get_proof-find_value toy_digest one (ascii "AA") (ascii "v1") one-Implements.directory has_one

no_values : (k value : Bytes) → find_value (ensure_root root) k ≢ done (some value)
unfolding ensure_root
no_values k value has = ensure_root-no_value toy_digest 4 2 2 root-IsDirectory k value has

-- In a table without values, only the inserted key is held.
only_key : (k : Bytes) → IsHeld (ensure_root root) (ascii "AA") k → bytes_eq (ascii "AA") k ≡ true
only_key k (inl same) = same
only_key k (inr (value, has)) = absurd (no_values k value has)

few_keys :
    (keys : List Bytes)
    → IsNodup keys
    → ((i : ℕ) (k : Bytes) → get_elem? keys i ≡ some k → bytes_eq (ascii "AA") k ≡ true)
    → length keys ≤ 2
unfolding IsNodup has_part
few_keys [] once each = omega arith
few_keys (k ∷ []) once each = omega arith
few_keys (k ∷ l ∷ keys) (fresh, once) each =
    let first = (bytes_eq_iff (ascii "AA") k).0 (each 0 k refl) in
    let second = (bytes_eq_iff (ascii "AA") l).0 (each 1 l refl) in
    let same : bytes_eq l k ≡ true = (bytes_eq_iff l k).1 (sym second ∙ first) in
    absurd (cc (ap (λ t. t || has_part k keys) (sym same) ∙ fresh))

few_share : FewShare (ensure_root root) (ascii "AA") 1
unfolding ensure_root
few_share keys once each = few_keys keys once (λ i k at. only_key k ((each i k at).0))

insert_kvpair-returns_example :
    (seh' : Seh) × (result : SehBucketInsertResult) × (insert_kvpair toy_digest 1 root
        (pair (ascii "AA") (ascii "v1"))
      ≡ done (seh', result))
    × IsInsertedTable toy_digest (ensure_root root) seh' (pair (ascii "AA") (ascii "v1")) result
insert_kvpair-returns_example =
    insert_kvpair-returns toy_digest 1 root (pair (ascii "AA") (ascii "v1")) [] rooted_new segment
      few_share
