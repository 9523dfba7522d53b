-- ===== src/Hex/Nibbles.antt =====
-- The digits of epring.rs as nibbles: prefixes printed, read back and compared with digests.
use trust_meta.Base.{
  ℕ, zero, suc, ◌+◌, ◌-◌, ◌*◌, ◌/◌, ◌%◌, ◌^◌, ◌≤◌, ◌<◌, ◌≡◌, refl, sym, ap, ◌∙◌, false, some, [],
  ◌∷◌, ◌++◌, map, length, length-append, length-take, arith, tests, ltb, ◌==◌, lt→ltb, Bytes,
  replicate, min, take, Bool-cases, inl, inr,
}
use native.Mathlib.Numerals.{add-one}
use mathlib.Core.Path.{ap₂}
use mathlib.Core.List.{append-nil, append_assoc, map-append, head-eq_of_cons-eq, tail-eq_of_cons-eq}
use native.Mathlib.Decide.{dec_lt}
use native.Mathlib.Nat.{pow-suc, pow-le-pow_right}
use trust_meta.Hex.{
  hex_nibble, hex_char, hex_digits, format_prefix, minimal_loop, minimal_prefix_len, fold_index,
  root_entry_index_from_prefix,
}

pub hex_nibble-lt : (byte : ℕ) → hex_nibble byte < 16
unfolding hex_nibble
hex_nibble-lt byte = ground arith

pub hex_nibble-hex_char : (digit : ℕ) → digit < 16 → hex_nibble (hex_char digit) ≡ digit
unfolding hex_nibble hex_char
hex_nibble-hex_char digit h = ground arith

-- `hex_char` writes one of the bytes 0-9, a-f.
pub hex_char-lt : (digit : ℕ) → digit < 16 → hex_char digit < 128
unfolding hex_char
hex_char-lt digit h = ground arith

-- The value of a list of nibbles, most significant first, after a value `index`.
abbrev pub value_from : ℕ → Bytes → ℕ
value_from index [] = index
value_from index (n ∷ ns) = value_from (index * 16 + n) ns

pub value_from-append :
    (index : ℕ) (ns : Bytes) (n : ℕ)
    → value_from index (ns ++ n ∷ []) ≡ value_from index ns * 16 + n
value_from-append index [] n = refl
value_from-append index (m ∷ ns) n = value_from-append (index * 16 + m) ns n

-- The digits that stand for a value below `16 ^ len`, written with all `len` nibbles.
abbrev pub nibbles_of : ℕ → ℕ → Bytes
nibbles_of zero value = []
nibbles_of (suc len) value = nibbles_of len (value / 16) ++ (value % 16) ∷ []

pub length-nibbles_of : (len value : ℕ) → length (nibbles_of len value) ≡ len
length-nibbles_of zero value = refl
length-nibbles_of (suc len) value = omega (
  arith,
  length-append (nibbles_of len (value / 16)) ((value % 16) ∷ []),
  length-nibbles_of len (value / 16),
)

replicate-snoc : (n a : ℕ) → replicate n a ++ a ∷ [] ≡ replicate (suc n) a
replicate-snoc zero a = refl
replicate-snoc (suc n) a = ap (λ t. a ∷ t) (replicate-snoc n a)

nibbles_of_zero : (len : ℕ) → nibbles_of len 0 ≡ replicate len 0
nibbles_of_zero zero = refl
nibbles_of_zero (suc len) = rw (nibbles_of_zero len) (replicate-snoc len 0)

-- A value of one nibble, padded.
nibbles_of_small :
    (len value : ℕ) → value < 16 → nibbles_of (suc len) value ≡ replicate len 0 ++ value ∷ []
nibbles_of_small len value h =
    let quotient : value / 16 ≡ 0 = omega arith in
    let rest : value % 16 ≡ value = omega arith in rw (quotient, rest, nibbles_of_zero len)

zero_char : hex_nibble b'0' ≡ 0
unfolding hex_nibble
zero_char = refl

nibbles_of_zeros : (n : ℕ) → map hex_nibble (replicate n b'0') ≡ replicate n 0
nibbles_of_zeros zero = refl
nibbles_of_zeros (suc n) = ap₂ (λ c t. c ∷ t) zero_char (nibbles_of_zeros n)

module _ (nibbles value : ℕ) where
  hex_digits_last : value < 16 → hex_digits (suc nibbles) value ≡ hex_char value ∷ []
  unfolding hex_digits
  hex_digits_last h = rw (lt→ltb value 16 h)

  hex_digits_more :
      16 ≤ value
      → hex_digits (suc nibbles) value
        ≡ hex_digits nibbles (value / 16) ++ hex_char (value % 16) ∷ []
  unfolding hex_digits
  hex_digits_more h = let e : ltb value 16 ≡ false = ground arith in rw e

-- `len` digits, with zeros in front.
abbrev padded : ℕ → Bytes → Bytes
padded len digits = replicate (len - length digits) b'0' ++ digits

padded-snoc :
    (len : ℕ) (digits : Bytes) (c : ℕ)
    → padded (suc len) (digits ++ c ∷ []) ≡ padded len digits ++ c ∷ []
padded-snoc len digits c =
    let shorter : suc len - length (digits ++ c ∷ []) ≡ len - length digits =
      omega (arith, length-append digits (c ∷ [])) in
    rw shorter (sym (append_assoc _ digits (c ∷ [])))

-- What `{value:0len$x}` prints for a value below `16 ^ len` has `len` digits, the value's nibbles.
abbrev IsPrinted : ℕ → ℕ → Bytes → Type 0
IsPrinted len value digits =
    (length digits ≤ len) × (map hex_nibble (padded len digits) ≡ nibbles_of len value)

hex_digits-IsPrinted_small :
    (nibbles len value : ℕ)
    → value < 16
    → IsPrinted (suc len) value (hex_digits (suc nibbles) value)
hex_digits-IsPrinted_small nibbles len value h =
    let pad : suc len - 1 ≡ len = omega arith in
    rw (hex_digits_last nibbles value h, pad)
      (
        omega arith,
        map-append hex_nibble (replicate len b'0') (hex_char value ∷ [])
            ∙ ap₂ (λ (a b : Bytes). a ++ b) (nibbles_of_zeros len)
                (ap (λ c. c ∷ []) (hex_nibble-hex_char value h))
            ∙ sym (nibbles_of_small len value h),
      )

hex_digits-IsPrinted :
    (nibbles len value : ℕ)
    → value < 16 ^ suc len
    → suc len ≤ nibbles
    → IsPrinted (suc len) value (hex_digits nibbles value)
hex_digits-IsPrinted zero len value h k = absurd (omega arith)
hex_digits-IsPrinted (suc nibbles) zero value h k =
    hex_digits-IsPrinted_small nibbles 0 value (omega arith)
hex_digits-IsPrinted (suc nibbles) (suc len) value h k = elim (dec_lt value 16) [
  | yes small ↦ hex_digits-IsPrinted_small nibbles (suc len) value small
  | no large ↦
      let digits = hex_digits nibbles (value / 16) in
      let smaller : value / 16 < 16 ^ suc len = omega (arith, (rw (pow-suc 16 (suc len)) at h)) in
      let (fits, read) = hex_digits-IsPrinted nibbles len (value / 16) smaller (omega arith) in
      rw (hex_digits_more nibbles value (omega arith)) (
        omega (arith, length-append digits (hex_char (value % 16) ∷ [])),
        ap (map hex_nibble) (padded-snoc (suc len) digits (hex_char (value % 16)))
            ∙ map-append hex_nibble (padded (suc len) digits) (hex_char (value % 16) ∷ [])
            ∙ ap₂ (λ (a b : Bytes). a ++ b) read
                (ap (λ c. c ∷ []) (hex_nibble-hex_char (value % 16) (omega arith))),
      )
]

-- `format_prefix` prints the nibbles of every value that fits.
pub format_prefix-nibbles :
    (value len : ℕ)
    → value < 16 ^ len
    → len ≤ 16
    → map hex_nibble (format_prefix value len) ≡ nibbles_of len value
unfolding format_prefix
format_prefix-nibbles value zero h k = refl
format_prefix-nibbles value (suc len) h k =
    let more : suc len == 0 ≡ false = ground arith in
    rw more (hex_digits-IsPrinted 16 len value h k).1

-- Reading nibbles after a value of `k` nibbles appends them.
nibbles_of-value_from :
    (k index : ℕ) (bytes : Bytes)
    → nibbles_of (length bytes + k) (value_from index (map hex_nibble bytes))
      ≡ nibbles_of k index ++ map hex_nibble bytes
nibbles_of-value_from k index [] = let e : 0 + k ≡ k = omega arith in rw e (sym (append-nil _))
nibbles_of-value_from k index (b ∷ bytes) =
    let n = hex_nibble b in
    let e : suc (length bytes) + k ≡ length bytes + suc k = omega arith in
    let quotient : (index * 16 + n) / 16 ≡ index = omega (arith, hex_nibble-lt b) in
    let rest : (index * 16 + n) % 16 ≡ n = omega (arith, hex_nibble-lt b) in
    rw e (
      nibbles_of-value_from (suc k) (index * 16 + n) bytes
      ∙ rw (quotient, rest) (append_assoc (nibbles_of k index) (n ∷ []) (map hex_nibble bytes)))

pow-le : (k : ℕ) → k ≤ 16 → 16 ^ k ≤ 2 ^ 64
pow-le k h = pow-le-pow_right {n = 16} (omega arith) h

-- Sixteen nibbles fit 64 bits, so the shifts of `fold_index` drop nothing.
fold_index-value_from :
    (k index : ℕ) (bytes : Bytes)
    → index < 16 ^ k
    → length bytes + k ≤ 16
    → (fold_index index bytes ≡ value_from index (map hex_nibble bytes))
      × (fold_index index bytes < 16 ^ (length bytes + k))
unfolding fold_index
fold_index-value_from k index [] h fits = let e : 0 + k ≡ k = omega arith in (refl, rw e h)
fold_index-value_from k index (b ∷ bytes) h fits =
    let n = hex_nibble b in
    let grow : 16 ^ suc k ≡ 16 ^ k * 16 = pow-suc 16 k in
    let bound : 16 ^ suc k ≤ 2 ^ 64 = pow-le (suc k) (omega arith) in
    let kept : (index * 16) % 2 ^ 64 ≡ index * 16 = omega arith in
    let e : suc (length bytes) + k ≡ length bytes + suc k = omega arith in
    rw (kept, e)
      (fold_index-value_from (suc k) (index * 16 + n) bytes (omega (arith, hex_nibble-lt b))
        (omega arith))

-- For a key of at least len bytes, with len at most 15, root_entry_index_from_prefix returns an
-- index below 16 ^ len, and format_prefix prints that index with the hexadecimal digits that the
-- key starts with.
pub root_entry_index-prefix :
    (key : Bytes) (len : ℕ)
    → len ≤ length key
    → len ≤ 15
    → (index : ℕ) × (root_entry_index_from_prefix key len ≡ some index)
      × (index < 16 ^ len)
      × (map hex_nibble (format_prefix index len) ≡ map hex_nibble (take len key))
unfolding root_entry_index_from_prefix
root_entry_index-prefix key zero h k = (0, refl, omega arith, unfold format_prefix in refl)
root_entry_index-prefix key (suc l) h k =
    let len = suc l in
    let positive : len == 0 ≡ false = ground arith in
    let long : ltb (length key) len ≡ false = ground arith in
    let capped : min len 32 ≡ len = omega arith in
    let digits = take len key in
    let width : length digits ≡ len = omega (arith, length-take len key) in
    let sum : length digits + 0 ≡ len = omega arith in
    let (value, below) = fold_index-value_from 0 0 digits (omega arith) (omega arith) in
    let small : fold_index 0 digits < 16 ^ len = rw sum at below in
    (
      fold_index 0 digits,
      rw (positive, long, capped),
      small,
      format_prefix-nibbles _ len small (omega arith)
          ∙ rw value (rw sum at (nibbles_of-value_from 0 0 digits)),
    )

-- `minimal_prefix_len` is the least length whose prefixes are enough for the nodes.
minimal_loop_lem :
    (fuel n p c : ℕ)
    → n ≤ c + fuel
    → 0 < c
    → c < 16 * n
    → c ≡ 16 ^ p
    → (n ≤ 16 ^ minimal_loop fuel n p c) × (16 ^ minimal_loop fuel n p c < 16 * n)
unfolding minimal_loop
minimal_loop_lem zero n p c enough pos low e = (omega arith, omega arith)
minimal_loop_lem (suc fuel) n p c enough pos low e = elim (Bool-cases (ltb c n)) [
  | inl more ↦ rw more (
      minimal_loop_lem fuel n (p + 1) (c * 16) (omega tests) (omega arith) (omega tests)
        (rw add-one (omega (arith, pow-suc 16 p))))
  | inr stop ↦ let done : n ≤ c = ground arith in rw stop (omega arith, omega arith)
]

-- For at least one node, the prefixes of length minimal_prefix_len are at least as many as the
-- nodes and fewer than sixteen times as many.
pub minimal_prefix_len_lem :
    (n : ℕ) → 0 < n → (n ≤ 16 ^ minimal_prefix_len n) × (16 ^ minimal_prefix_len n < 16 * n)
unfolding minimal_prefix_len
minimal_prefix_len_lem n h = minimal_loop_lem n n 0 1 (omega arith) (omega arith) (omega arith) refl

fold_index_congr :
    (xs ys : Bytes) (index : ℕ)
    → map hex_nibble xs ≡ map hex_nibble ys
    → fold_index index xs ≡ fold_index index ys
unfolding fold_index
fold_index_congr [] [] index e = refl
fold_index_congr [] (y ∷ ys) index e = absurd (cc)
fold_index_congr (x ∷ xs) [] index e = absurd (cc)
fold_index_congr (x ∷ xs) (y ∷ ys) index e =
    rw (head-eq_of_cons-eq e) (fold_index_congr xs ys _ (tail-eq_of_cons-eq e))

-- The root index depends on the first nibbles alone.
pub root_entry_index_congr :
    (xs ys : Bytes) (len : ℕ)
    → len ≤ length xs
    → len ≤ length ys
    → len ≤ 32
    → map hex_nibble (take len xs) ≡ map hex_nibble (take len ys)
    → root_entry_index_from_prefix xs len ≡ root_entry_index_from_prefix ys len
unfolding root_entry_index_from_prefix
root_entry_index_congr xs ys zero h k c e = refl
root_entry_index_congr xs ys (suc l) h k c e =
    let len = suc l in
    let positive : len == 0 ≡ false = ground arith in
    let long_x : ltb (length xs) len ≡ false = ground arith in
    let long_y : ltb (length ys) len ≡ false = ground arith in
    let capped : min len 32 ≡ len = omega arith in
    rw (positive, long_x, long_y, capped)
      (ap some (fold_index_congr (take len xs) (take len ys) 0 e))
