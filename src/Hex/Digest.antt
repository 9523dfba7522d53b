-- ===== src/Hex/Digest.antt =====
-- Digests of epring.rs: the hexadecimal text of a digest, and prefixes compared with it.
use Prim.Native.Nat.{bit_and}
use trust_meta.Base.{
  ℕ, zero, suc, ◌+◌, ◌*◌, ◌/◌, ◌%◌, ◌^◌, ◌<◌, ◌≡◌, refl, sym, ap, ◌∙◌, Bool, true, false,
  if◌then◌else◌, [], ◌∷◌, map, some, List, length, get_elem?, arith, ◌==◌, ==_iff, Bytes, All,
}
use mathlib.Core.List.{head-eq_of_cons-eq, tail-eq_of_cons-eq}
use mathlib.Core.Option.{some-injective}
use trust_meta.Hex.{hex_nibble, digest_nibble_at, digest_to_hex, matches_from}
use trust_meta.Hex.Nibbles.{hex_nibble-hex_char}

-- The bytes below `limit` whose low nibble the mask takes.
is_masked : ℕ → Bool
is_masked b = bit_and b 0x0f == b % 16

masked_upto : ℕ → Bool
unfolding is_masked
masked_upto zero = true
masked_upto (suc last) = let before = masked_upto last in if is_masked last then before else false

masked_upto-is_masked : (limit b : ℕ) → b < limit → masked_upto limit ≡ true → is_masked b ≡ true
unfolding masked_upto
masked_upto-is_masked zero b below all = absurd (omega arith)
masked_upto-is_masked (suc last) b below all = ground (arith, masked_upto-is_masked last b)

-- `byte & 0x0f` is the low nibble.
low_nibble : (b : ℕ) → b < 256 → bit_and b 0x0f ≡ b % 16
low_nibble b below =
    (==_iff _ _).0 (unfold is_masked masked_upto in (masked_upto-is_masked 256 b below refl))

-- A digest's bytes.
abbrev pub IsByte : ℕ → Type 0
IsByte b = b < 256

pub length-digest_to_hex : (d : List ℕ) → length (digest_to_hex d) ≡ 2 * length d
unfolding digest_to_hex
length-digest_to_hex [] = refl
length-digest_to_hex (b ∷ d) = omega (arith, length-digest_to_hex d)

digest_nibble_at-suc :
    (b : ℕ) (d : List ℕ) (i : ℕ) → digest_nibble_at (b ∷ d) (suc (suc i)) ≡ digest_nibble_at d i
unfolding digest_nibble_at
digest_nibble_at-suc b d i =
    let quotient : suc (suc i) / 2 ≡ suc (i / 2) = omega arith in
    let rest : suc (suc i) % 2 ≡ i % 2 = omega arith in rw (quotient, rest)

-- The text of a digest reads back as the digest's nibbles, high nibble first.
pub digest_to_hex-nibble :
    (d : List ℕ) (i : ℕ)
    → All IsByte d
    → i < 2 * length d
    → get_elem? (map hex_nibble (digest_to_hex d)) i ≡ some (digest_nibble_at d i)
unfolding digest_to_hex digest_nibble_at
digest_to_hex-nibble [] i bytes h = absurd (omega arith)
digest_to_hex-nibble (b ∷ d) zero bytes h = ap some (hex_nibble-hex_char (b / 2 ^ 4) (omega arith))
digest_to_hex-nibble (b ∷ d) (suc zero) bytes h =
    ap some (hex_nibble-hex_char (bit_and b 0x0f) (rw (low_nibble b bytes.0) (omega arith)))
digest_to_hex-nibble (b ∷ d) (suc (suc i)) bytes h =
    digest_to_hex-nibble d i bytes.1 (omega arith) ∙ ap some (sym (digest_nibble_at-suc b d i))

-- Every nibble of `bytes` is the digest's at the same place, counted from `idx`.
abbrev pub Agrees : List ℕ → ℕ → Bytes → Type 0
Agrees d idx [] = Unit
Agrees d idx (b ∷ bytes) = (hex_nibble b ≡ digest_nibble_at d idx) × Agrees d (idx + 1) bytes

pub Agrees-matches_from :
    (d : List ℕ) (idx : ℕ) (bytes : Bytes) → Agrees d idx bytes → matches_from d idx bytes ≡ true
unfolding matches_from
Agrees-matches_from d idx [] h = refl
Agrees-matches_from d idx (b ∷ bytes) h = ground (arith, Agrees-matches_from d (idx + 1) bytes h.1)

pub matches_from-Agrees :
    (d : List ℕ) (idx : ℕ) (bytes : Bytes) → matches_from d idx bytes ≡ true → Agrees d idx bytes
unfolding matches_from
matches_from-Agrees d idx [] h = tt
matches_from-Agrees d idx (b ∷ bytes) h = ground (arith, matches_from-Agrees d (idx + 1) bytes)

-- Bytes whose nibbles are those of a list that reads as the digest agree with the digest.
pub Agrees-of_nibbles :
    (d : List ℕ) (idx : ℕ) (bytes ns : Bytes)
    → ((j : ℕ) → j < length ns → get_elem? ns j ≡ some (digest_nibble_at d (idx + j)))
    → map hex_nibble bytes ≡ ns
    → Agrees d idx bytes
Agrees-of_nibbles d idx [] ns reads e = tt
Agrees-of_nibbles d idx (b ∷ bytes) [] reads e = absurd (cc)
Agrees-of_nibbles d idx (b ∷ bytes) (n ∷ ns) reads e =
    let here : idx + 0 ≡ idx = omega arith in
    let first : n ≡ digest_nibble_at d idx =
      rw here at (some-injective _ _ (reads 0 (omega arith))) in
    (
      (head-eq_of_cons-eq e) ∙ first,
      Agrees-of_nibbles d (idx + 1) bytes ns
          (λ j h.
            let shift : idx + suc j ≡ idx + 1 + j = omega arith in
            rw shift at (reads (suc j) (omega arith)))
          (tail-eq_of_cons-eq e),
    )
