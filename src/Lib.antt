-- ===== src/Lib.antt =====
-- TrustMeta: a manager routes keywords to storagers, each of which keeps an authenticated index.
-- This library models the placement of keywords, crates/manager/src/core, the queries of
-- crates/common/src/boolean_expr.rs, and the extendible hash table of
-- crates/storager/ads_lib/src/mest (seh.rs, bucket.rs, merkletree.rs, util.rs):
--
-- * Hex, Epring: the expandable prefix ring of epring.rs. `Hex` has the hexadecimal prefixes
--   (hex_nibble, format_prefix, minimal_prefix_len, root_entry_index_from_prefix); `Epring` the
--   entries and the walks (new, split_entry, route_key_hex, find_entry_index); `Epring.Record` what
--   inserts and deletes do (record_insert_with_change, record_delete_with_change,
--   update_root_summary_with_change, maybe_presplit_empty_prefix); `Epring.Keyword` the routing of
--   keywords by their digest; `Epring.Growth` has what inserts do to routes and counters. The vector
--   of entries is a list, an index a number.
-- * Text, ChRing: the consistent hash ring of consistent_hash.rs (add_node, remove_node, with_nodes,
--   get_node, get_nodes, get_distribution), with the standard library's stable sort and binary search
--   written out.
-- * Assoc, Router: the router of routing.rs over one of the rings (new_with_mode, route_keyword,
--   route_key_hex, add_storager, remove_storager, reset), with the inserts, deletes and split plans
--   in `Router.Record`. A call is modelled as it runs when no other thread is at work; a reader that
--   waits for the end of a change diverges.
-- * Assoc, BooleanExpr: queries, their evaluation and printing; the parser's scanner is in
--   `BooleanExpr.Parser`, its grammar in `BooleanExpr.Grammar`, over lists of characters.
--   `BooleanExpr.Evaluate` compares what evaluate returns with the comments on the constructors.
-- * Merkle, Merkle.Complete: the Merkle tree and its proofs (recompute, get_proof_for_index,
--   verify_proof).
-- * Mest.Digits, Mest.Dotted: the digits of a key (util.rs, digit_at_mixed), and the keys that they
--   make in the directory.
-- * Mest.Segment, Mest.Bucket: the buckets of bucket.rs (insert, get_value, get_proof, delete_value,
--   split_bucket), with what they do to keys, values and lists in `Segment`.
--   `Valid` has the invariant of the three maps, `Written`, `Insert`, `Merge` and `Values` what an
--   insert does, `Parts` how values merge, `Remove`, `Delete` and `Deletions` what a delete does,
--   `Panics` on which keys the calls panic, `Gather` and `Split` a split, `Size` how many pairs there
--   are.
--   A map is a list of entries in the order of iteration, and a write through get_mut is `replace`.
-- * Mest, Mest.Seh: the table of seh.rs (get_bucket_by_key, insert_kvpair, delete_kvpair_value,
--   get_proof).
--   A bucket that the directory shares with the caller is an entry of the directory, written in its
--   place. `Directory` has the invariant and the lookup, `Table`, `Children` and `Splits` a split,
--   `Writes`, `Inserts` and `Termination` the inserts, `Answers` deletes and proofs, `Refines` the
--   table as a map.
-- * Mest, Mest.Proof: the proofs of a key in mgt.rs and proof.rs, their checks, their conversion in
--   crates/storager/src/ads/mest_ads.rs, and verify_mest of crates/common/src/verification.rs. `Agree`
--   compares the checks, `Binding` says what an accepted path fixes.
-- * HexPath, HexPath.Join: the trie's paths of crates/storager/ads_lib/src/mpt/utils.rs
--   (key_to_hex_path, hex_path_to_bytes, common_prefix).
--
-- Text and byte vectors are lists of bytes. A call that can panic or loop returns an `Outcome`
-- (Base.Calls). The hashes xxh3_128 and xxh3_64 of the crate xxhash-rust are parameters: the first
-- gives sixteen bytes, the second a 64-bit word. So are SHA-256 of
-- the crate sha2 and the reading of a proof by the crate bincode.
--
-- Fuel. `route_key_hex` walks with one step more than there are entries: a longer walk has come back
-- to an entry and never ends. On a valid ring a child stands behind its parent, so the fuel is
-- enough. `minimal_prefix_len` takes the number of nodes as fuel, since the capacity grows in each
-- round. The binary search takes the length of the slice. The parser takes three steps for each
-- character and four more: between two calls that move on there are at most three that do not. The
-- Merkle tree takes one round more than there are leaves, since each round shortens the level. The
-- loop of splits in insert_kvpair takes the number of splits that are followed: the code has no bound,
-- and keys of one 64-bit hash are never parted. As many splits as there are digits after which the
-- keys fit into their buckets are enough.
-- Numbers print with sixteen hexadecimal or twenty decimal digits, the most that a `usize` has.
--
-- Radix, capacities and depths are natural numbers: the `i32`s of the hash table are not negative.
--
-- Not modelled: the reports (structure_lines, routing_structure_lines), the interleavings of the
-- router's threads, the remote calls, the persistence and blockchain
-- modules, the group tree of mgt.rs itself, and the other authenticated structures of crates/storager.
pub mod Base
pub mod Hex
pub mod Epring
pub mod Text
pub mod ChRing
pub mod Assoc
pub mod Router
pub mod BooleanExpr
pub mod Merkle
pub mod Mest
pub mod HexPath
