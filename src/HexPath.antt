-- ===== src/HexPath.antt =====
-- crates/storager/ads_lib/src/mpt/utils.rs: the trie's paths of half bytes, and common prefixes.
mod Tests
pub mod Join
use Prim.Native.Nat.{bit_and, bit_or}
use trust_meta.Base.{
  ℕ, zero, suc, ◌+◌, ◌-◌, ◌*◌, ◌/◌, ◌%◌, ◌^◌, ◌&&◌, List, [], ◌∷◌, Option, none, some, leb, ◌==◌,
  take, if◌then◌else◌, Bytes,
}

unfoldable pub byte_to_hex_index : ℕ → ℕ
byte_to_hex_index byte = bit_and byte 0x0f

unfoldable pub char_to_hex_index : ℕ → Option ℕ
char_to_hex_index byte =
    if leb b'0' byte && leb byte b'9'
    then some (byte - b'0')
    else if leb b'a' byte && leb byte b'f'
    then some (byte - b'a' + 10)
    else if leb b'A' byte && leb byte b'F'
    then some (byte - b'A' + 10)
    else none

unfoldable pub key_to_hex_path : Bytes → List ℕ
key_to_hex_path [] = []
key_to_hex_path (byte ∷ key) = bit_and (byte / 2 ^ 4) 0x0f ∷ bit_and byte 0x0f ∷ key_to_hex_path key

-- `(high << 4) | low`, on bytes.
unfoldable pub join_nibbles : ℕ → ℕ → ℕ
join_nibbles high low = bit_or (high * 2 ^ 4 % 2 ^ 8) low

-- `path.chunks(2)`: the last half byte of an odd path is a high one.
unfoldable pub hex_path_to_bytes : List ℕ → Bytes
unfolding join_nibbles
hex_path_to_bytes [] = []
hex_path_to_bytes (high ∷ []) = high * 2 ^ 4 % 2 ^ 8 ∷ []
hex_path_to_bytes (high ∷ low ∷ path) = join_nibbles high low ∷ hex_path_to_bytes path

unfoldable pub common_prefix_len : Bytes → Bytes → ℕ
common_prefix_len [] ys = 0
common_prefix_len (x ∷ xs) [] = 0
common_prefix_len (x ∷ xs) (y ∷ ys) =
    let rest = common_prefix_len xs ys in if x == y then suc rest else 0

-- The slice of a string at a place that is no character boundary panics, which is left out.
unfoldable pub common_prefix : Bytes → Bytes → Bytes
unfolding common_prefix_len
common_prefix str1 str2 = take (common_prefix_len str1 str2) str1
