-- ===== src/Epring/Matching.antt =====
-- Keywords on a valid ring: the leaf that a keyword is routed to matches the keyword.
use trust_meta.Base.{
  ℕ, zero, suc, refl, [], ◌∷◌, ◌+◌, ◌≤◌, ◌<◌, ◌≡◌, ap, ◌∙◌, true, map, some, Bytes, length,
  length-take, take, min, get_elem?-take, done, arith,
}
use trust_meta.Hex.{hex_nibble}
use trust_meta.Hex.Digest.{
  length-digest_to_hex, digest_to_hex-nibble, Agrees-of_nibbles, Agrees-matches_from,
}
use trust_meta.Epring.{EpringRoute, Epring}
use trust_meta.Epring.Keyword.{Xxh3, keyword_to_hex, keyword_matches_prefix, route_keyword}
use trust_meta.Epring.Valid.{IsValid}
use trust_meta.Epring.Route.{IsRouted, route_key_hex-IsRouted}

take_all : (n : ℕ) (xs : Bytes) → length xs ≤ n → take n xs ≡ xs
take_all zero [] h = refl
take_all zero (x ∷ xs) h = elim h [ ]
take_all (suc n) [] h = refl
take_all (suc n) (x ∷ xs) h = ap (λ t. x ∷ t) (take_all n xs (omega arith))

module _ (xxh3 : Xxh3) where
  pub length-keyword_to_hex : (keyword : Bytes) → length (keyword_to_hex xxh3 keyword) ≡ 32
  unfolding keyword_to_hex
  length-keyword_to_hex keyword =
      omega (arith, length-digest_to_hex (xxh3.digest keyword), xxh3.sixteen keyword)

  -- Bytes whose nibbles are the first ones of the keyword's text match the keyword.
  pub keyword_matches_prefix_lem :
      (keyword prefix : Bytes) (n : ℕ)
      → n ≤ 32
      → length prefix ≡ n
      → map hex_nibble prefix ≡ take n (map hex_nibble (keyword_to_hex xxh3 keyword))
      → keyword_matches_prefix xxh3 keyword prefix ≡ true
  unfolding keyword_matches_prefix
  keyword_matches_prefix_lem keyword prefix n le len same =
      let digest = xxh3.digest keyword in
      let text = map hex_nibble (keyword_to_hex xxh3 keyword) in
      let width = length-keyword_to_hex keyword in
      let all : take (min (length prefix) 32) prefix ≡ prefix =
        take_all (min (length prefix) 32) prefix (omega arith) in
      rw all (
        Agrees-matches_from digest 0 prefix (
          Agrees-of_nibbles digest 0 prefix (take n text)
            (λ j low.
              let low' : j < n = omega (arith, length-take n text) in
              let here : 0 + j ≡ j = omega arith in
              get_elem?-take n text j low'
              ∙ rw here (
                  unfold keyword_to_hex in
                  digest_to_hex-nibble digest j (xxh3.bytes keyword)
                    (omega (arith, xxh3.sixteen keyword))))
            same))

  -- On a valid ring route_keyword returns a route for every keyword, without panic or divergence;
  -- it names a leaf that the ring stores, whose prefix keyword_matches_prefix accepts for the
  -- keyword, and the leaf's owner, a node of the ring.
  pub route_keyword-matches :
      {ring : Epring} (v : IsValid ring) (keyword : Bytes)
      → (r : EpringRoute) × (route_keyword xxh3 ring keyword ≡ done (some r))
        × (routed : IsRouted ring (keyword_to_hex xxh3 keyword) r) × (keyword_matches_prefix xxh3
              keyword routed.entry.prefix
            ≡ true)
  unfolding route_keyword
  route_keyword-matches {ring} v keyword =
      let key = keyword_to_hex xxh3 keyword in
      let (r, run, routed) =
        route_key_hex-IsRouted v key (omega (arith, length-keyword_to_hex keyword)) in
      let placed = v.placed _ routed.entry routed.stored in
      (
        r,
        run,
        routed,
        keyword_matches_prefix_lem keyword routed.entry.prefix routed.entry.prefix_len placed.capped
            placed.width routed.prefixed,
      )
