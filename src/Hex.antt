-- ===== src/Hex.antt =====
-- Hexadecimal prefixes of crates/manager/src/core/epring.rs: nibbles, printed prefixes, digests.
pub mod Nibbles
pub mod Digest
use Prim.Native.Nat.{bit_and}
use trust_meta.Base.{
  ℕ, zero, suc, ◌+◌, ◌-◌, ◌*◌, ◌/◌, ◌%◌, ◌^◌, min, Bool, true, false, ◌&&◌, List, [], ◌∷◌, ◌++◌,
  map, Option, none, some, length, get_elem?, take, replicate, ltb, leb, ◌==◌, if◌then◌else◌, Bytes,
}

-- `hex_nibble`: a byte that is no hexadecimal digit counts as 0.
unfoldable pub hex_nibble : ℕ → ℕ
hex_nibble byte =
    if leb b'0' byte && leb byte b'9'
    then byte - b'0'
    else if leb b'a' byte && leb byte b'f'
    then byte - b'a' + 10
    else if leb b'A' byte && leb byte b'F'
    then byte - b'A' + 10
    else 0

-- `b"0123456789abcdef"[digit]`, for a digit below 16.
unfoldable pub hex_char : ℕ → ℕ
hex_char digit = if ltb digit 10 then b'0' + digit else b'a' + (digit - 10)

-- The digits of `{value:x}`, most significant first. `usize` has sixteen nibbles.
unfoldable pub hex_digits : ℕ → ℕ → Bytes
hex_digits zero value = []
hex_digits (suc nibbles) value =
    let rest = hex_digits nibbles (value / 16) in
    if ltb value 16 then hex_char value ∷ [] else rest ++ hex_char (value % 16) ∷ []

-- `format_prefix`: nothing at length 0, else padded with zeros to `prefix_len` digits.
unfoldable pub format_prefix : ℕ → ℕ → Bytes
format_prefix value prefix_len =
    if prefix_len == 0
    then []
    else let digits = hex_digits 16 value in replicate (prefix_len - length digits) b'0' ++ digits

-- `minimal_prefix_len`: the loop, with the fuel that its caller gives. The capacity is a number:
-- `capacity *= 16` leaves a `usize` only above 2 ^ 60 nodes, which no vector of names has.
unfoldable pub minimal_loop : ℕ → ℕ → ℕ → ℕ → ℕ
minimal_loop zero node_count prefix_len capacity = prefix_len
minimal_loop (suc fuel) node_count prefix_len capacity =
    let rest = minimal_loop fuel node_count (prefix_len + 1) (capacity * 16) in
    if ltb capacity node_count then rest else prefix_len

unfoldable pub minimal_prefix_len : ℕ → ℕ
unfolding minimal_loop
minimal_prefix_len node_count = minimal_loop node_count node_count 0 1

abbrev pub max_prefix_len : ℕ
max_prefix_len = 32

-- `index = (index << 4) | hex_nibble(byte)`: the shift drops what leaves the 64 bits, and the four
-- bits that it clears make `|` an addition.
unfoldable pub fold_index : ℕ → Bytes → ℕ
fold_index index [] = index
fold_index index (byte ∷ bytes) = fold_index ((index * 16) % 2 ^ 64 + hex_nibble byte) bytes

unfoldable pub root_entry_index_from_prefix : Bytes → ℕ → Option ℕ
unfolding fold_index
root_entry_index_from_prefix prefix len =
    if len == 0
    then some 0
    else if ltb (length prefix) len
    then none
    else some (fold_index 0 (take (min len max_prefix_len) prefix))

-- `digest.get(index / 2).copied().unwrap_or_default()`.
unfoldable pub byte_at : List ℕ → ℕ → ℕ
byte_at digest i = elim (get_elem? digest i) [ none ↦ 0 | some b ↦ b ]

unfoldable pub digest_nibble_at : List ℕ → ℕ → ℕ
unfolding byte_at
digest_nibble_at digest index =
    let byte = byte_at digest (index / 2) in
    if index % 2 == 0 then byte / 2 ^ 4 else bit_and byte 0x0f

-- The loop of `keyword_to_hex` over the digest's bytes.
unfoldable pub digest_to_hex : List ℕ → Bytes
digest_to_hex [] = []
digest_to_hex (byte ∷ digest) =
    hex_char (byte / 2 ^ 4) ∷ hex_char (bit_and byte 0x0f) ∷ digest_to_hex digest

-- The loop of `keyword_matches_prefix` from position `idx` on.
unfoldable pub matches_from : List ℕ → ℕ → Bytes → Bool
matches_from digest idx [] = true
matches_from digest idx (byte ∷ bytes) =
    hex_nibble byte == digest_nibble_at digest idx && matches_from digest (idx + 1) bytes
