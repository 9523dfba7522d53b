-- ===== src/Text.antt =====
-- What the manager uses of Rust's strings, over bytes.
pub mod Split
use trust_meta.Base.{
  ℕ, zero, suc, ◌+◌, ◌/◌, ◌%◌, Bool, true, false, ◌&&◌, ◌||◌, List, [], ◌∷◌, ◌++◌, Option, none,
  some, ltb, ◌==◌, if◌then◌else◌, Bytes, bytes_eq,
}

-- `str::contains` of one ASCII character.
unfoldable pub contains : ℕ → Bytes → Bool
contains c [] = false
contains c (x ∷ xs) = x == c || contains c xs

unfoldable pub starts_with : Bytes → Bytes → Bool
starts_with [] text = true
starts_with (p ∷ prefix) [] = false
starts_with (p ∷ prefix) (x ∷ text) = p == x && starts_with prefix text

-- `str::rsplit_once` at an ASCII character: what stands before and after the last one.
unfoldable pub rsplit_once : ℕ → Bytes → Option (Bytes × Bytes)
rsplit_once c [] = none
rsplit_once c (x ∷ xs) = elim (rsplit_once c xs) [
  | some (before, after) ↦ some (x ∷ before, after)
  | none ↦ if x == c then some ([], xs) else none
]

-- The digits of `{value}` with at most `digits` digits, most significant first. A `usize` has at
-- most twenty.
unfoldable pub decimal_digits : ℕ → ℕ → Bytes
decimal_digits zero value = []
decimal_digits (suc digits) value =
    let rest = decimal_digits digits (value / 10) in
    if ltb value 10 then (b'0' + value) ∷ [] else rest ++ (b'0' + value % 10) ∷ []

unfoldable pub decimal : ℕ → Bytes
unfolding decimal_digits
decimal value = decimal_digits 20 value

-- `str::split` at an ASCII character: the empty text has one part.
unfoldable pub split_on : ℕ → Bytes → List Bytes
split_on c [] = [] ∷ []
split_on c (x ∷ xs) =
    let rest = split_on c xs in
    if x == c
    then [] ∷ rest
    else elim rest [ [] ↦ (x ∷ []) ∷ [] | part ∷ parts ↦ (x ∷ part) ∷ parts ]

-- `[String]::join`.
unfoldable pub join : Bytes → List Bytes → Bytes
join separator [] = []
join separator (part ∷ []) = part
join separator (part ∷ part' ∷ parts) = part ++ (separator ++ join separator (part' ∷ parts))

-- `contains` of a vector of texts.
unfoldable pub has_part : Bytes → List Bytes → Bool
has_part text [] = false
has_part text (part ∷ parts) = bytes_eq part text || has_part text parts

-- `retain(|part| part != text)`.
unfoldable pub without_part : Bytes → List Bytes → List Bytes
without_part text [] = []
without_part text (part ∷ parts) =
    let rest = without_part text parts in if bytes_eq part text then rest else part ∷ rest
