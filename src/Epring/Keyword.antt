-- ===== src/Epring/Keyword.antt =====
-- crates/manager/src/core/epring.rs: keywords are routed by their xxh3 digest, a parameter here.
use trust_meta.Base.{ℕ, min, Bool, List, length, take, Option, Bytes, Outcome, ◌≡◌, All}
use trust_meta.Hex.{max_prefix_len, digest_to_hex, matches_from}
use trust_meta.Hex.Digest.{IsByte}
use trust_meta.Epring.{Epring, EpringRoute, route_key_hex}

-- `xxh3_128(..).to_le_bytes()` of the crate xxhash-rust: sixteen bytes.
pub record Xxh3 : Type 0 where
  pub digest : Bytes → List ℕ
  pub sixteen : (keyword : Bytes) → length (digest keyword) ≡ 16
  pub bytes : (keyword : Bytes) → All IsByte (digest keyword)

module _ (xxh3 : Xxh3) where
  unfoldable pub keyword_to_hex : Bytes → Bytes
  unfolding digest_to_hex
  keyword_to_hex keyword = digest_to_hex (xxh3.digest keyword)

  unfoldable pub keyword_matches_prefix : Bytes → Bytes → Bool
  unfolding matches_from
  keyword_matches_prefix keyword prefix =
      let capped_len = min (length prefix) max_prefix_len in
      matches_from (xxh3.digest keyword) 0 (take capped_len prefix)

  unfoldable pub route_keyword : Epring → Bytes → Outcome (Option EpringRoute)
  unfolding keyword_to_hex route_key_hex
  route_keyword ring keyword = route_key_hex ring (keyword_to_hex keyword)
