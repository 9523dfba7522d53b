-- ===== src/Mest/Segment.antt =====
-- crates/storager/ads_lib/src/mest/bucket.rs: what a bucket's operations do with keys, values and
-- lists, apart from the bucket itself.
use trust_meta.Base.{
  ℕ, zero, suc, ◌-◌, Bool, true, false, not, ◌&&◌, ◌||◌, List, [], ◌∷◌, ◌++◌, map, none, some,
  length, get_elem?, take, ltb, leb, ◌==◌, if◌then◌else◌, Bytes, Outcome, done, panic,
}
use trust_meta.Text.{split_on, has_part}
use trust_meta.Assoc.{Assoc, get}
use trust_meta.Merkle.{MerkleTree, get_root_hash}

pub record Kvpair : Type 0 where
  pub key : Bytes
  pub value : Bytes

-- `str::is_char_boundary`: not before a byte that continues a character.
unfoldable pub is_char_boundary : Bytes → ℕ → Bool
is_char_boundary text i = elim (get_elem? text i) [
  | none ↦ i == length text
  | some byte ↦ i == 0 || not (leb 0x80 byte && ltb byte 0xc0)
]

-- The slice up to `seg_num` panics inside a character.
unfoldable pub segment_key : ℕ → Bytes → Outcome Bytes
segment_key seg_num key =
    if ltb seg_num (length key)
    then (if is_char_boundary key seg_num then done (take seg_num key) else panic)
    else done []

abbrev pub values : List Kvpair → List Bytes
values = map (λ (kv : Kvpair). kv.value)

-- What an insert makes of the values of a key: they are parted by commas.
unfoldable pub merge : Bytes → Bytes → Bytes
merge [] newv = newv
merge (c ∷ old) [] = c ∷ old
merge (c ∷ old) (d ∷ newv) =
    if has_part (d ∷ newv) (split_on b',' (c ∷ old))
    then c ∷ old
    else (c ∷ old) ++ (b',' ∷ d ∷ newv)

-- `Vec::remove` at a place that is there.
unfoldable pub remove_at {ℓ} : {A : Type ℓ} → List A → ℕ → List A
remove_at [] idx = []
remove_at (x ∷ xs) zero = xs
remove_at (x ∷ xs) (suc idx) = x ∷ remove_at xs idx

-- The loop that moves the places behind a removed one down.
unfoldable pub shift_down : ℕ → Assoc ℕ → Assoc ℕ
shift_down idx [] = []
shift_down idx ((key, place) ∷ rest) =
    (key, if ltb idx place then place - 1 else place) ∷ shift_down idx rest

unfoldable pub all_kvs : Assoc (List Kvpair) → List Kvpair
all_kvs [] = []
all_kvs ((seg_key, kvs) ∷ segments) = kvs ++ all_kvs segments

-- Text keys in the order of `Ord` for `String`: by bytes.
unfoldable pub bytes_le : Bytes → Bytes → Bool
bytes_le [] ys = true
bytes_le (x ∷ xs) [] = false
bytes_le (x ∷ xs) (y ∷ ys) = ltb x y || (x == y && bytes_le xs ys)

unfoldable pub insert_by_key : Bytes → List Bytes → List Bytes
insert_by_key k [] = k ∷ []
insert_by_key k (l ∷ keys) = if bytes_le k l then k ∷ l ∷ keys else l ∷ insert_by_key k keys

unfoldable pub sort_keys : List Bytes → List Bytes
sort_keys [] = []
sort_keys (k ∷ keys) = insert_by_key k (sort_keys keys)

-- The roots of the trees that have one, for the keys in their order.
unfoldable pub roots_of : Assoc MerkleTree → List Bytes → List Bytes
roots_of trees [] = []
roots_of trees (k ∷ keys) = elim (get k trees) [
  | none ↦ roots_of trees keys
  | some mt ↦ elim (get_root_hash mt) [
    | none ↦ roots_of trees keys
    | some root ↦ root ∷ roots_of trees keys
  ]
]

-- The parts of a value: an empty one has none.
unfoldable pub parts_of : Bytes → List Bytes
parts_of [] = []
parts_of (c ∷ value) = split_on b',' (c ∷ value)
