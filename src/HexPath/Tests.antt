-- ===== src/HexPath/Tests.antt =====
-- A path of the trie at a concrete key.
use trust_meta.Base.{◌≡◌, ascii, arith}
use trust_meta.HexPath.{key_to_hex_path, hex_path_to_bytes}
use trust_meta.HexPath.Join.{hex_path_to_bytes-key_to_hex_path}

hex_path_to_bytes-key_to_hex_path_example :
    hex_path_to_bytes (key_to_hex_path (ascii "ab")) ≡ ascii "ab"
hex_path_to_bytes-key_to_hex_path_example =
    hex_path_to_bytes-key_to_hex_path (ascii "ab") (omega arith, (omega arith, tt))
