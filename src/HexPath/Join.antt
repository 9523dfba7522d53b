-- ===== src/HexPath/Join.antt =====
-- crates/storager/ads_lib/src/mpt/utils.rs: a path reads back as its key.
use Prim.Native.Nat.{bit_and}
use trust_meta.Base.{
  ℕ, zero, suc, ◌/◌, ◌^◌, ◌<◌, ◌≡◌, refl, Bool, true, [], ◌∷◌, ◌==◌, ==_iff, Bytes, All, arith,
  ◌&&◌,
}
use trust_meta.Hex.Digest.{IsByte}
use trust_meta.HexPath.{key_to_hex_path, hex_path_to_bytes, join_nibbles}

-- Splitting a byte and joining it again, for every byte from the last one down.
splits_back : ℕ → Bool
splits_back byte = join_nibbles (bit_and (byte / 2 ^ 4) 0x0f) (bit_and byte 0x0f) == byte

table : ℕ → Bool
table zero = true
table (suc rest) = table rest && splits_back rest

table-splits_back : (size byte : ℕ) → table size ≡ true → byte < size → splits_back byte ≡ true
unfolding table
table-splits_back zero byte held inside = absurd (omega arith)
table-splits_back (suc size) byte held inside = ground (arith, table-splits_back size byte)

join_nibbles-split :
    (byte : ℕ) → byte < 256 → join_nibbles (bit_and (byte / 2 ^ 4) 0x0f) (bit_and byte 0x0f) ≡ byte
join_nibbles-split byte small =
    (==_iff _ _).0
      (unfold splits_back table join_nibbles in (table-splits_back 256 byte refl small))

-- The bytes of the path of half bytes of a key, each byte below 256, are the key's.
pub hex_path_to_bytes-key_to_hex_path :
    (key : Bytes) → All IsByte key → hex_path_to_bytes (key_to_hex_path key) ≡ key
unfolding hex_path_to_bytes key_to_hex_path
hex_path_to_bytes-key_to_hex_path [] bytes = refl
hex_path_to_bytes-key_to_hex_path (byte ∷ key) bytes =
    rw (join_nibbles-split byte bytes.0, hex_path_to_bytes-key_to_hex_path key bytes.1) refl
